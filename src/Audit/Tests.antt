-- ===== src/Audit/Tests.antt =====
-- Runs of the audit log (internal/logging/audit.go), and the theorems at concrete inputs.
use truespec_agent.Prelude.{◌≡◌, refl, true, false, some, List, [], ◌∷◌, ok}
use truespec_agent.Prelude.Int.{pos}
use truespec_agent.Buffer.{done, short}
use truespec_agent.Host.{Host}
use truespec_agent.Identity.Tests.{empty_host}
use truespec_agent.Logging.{content}
use truespec_agent.Audit.Defs.{
  AuditEvent, AuditLogger, AuditCalls, stamp, new_audit_logger, log_events, bootstrap_event,
  service_stop_event,
}

abbrev calls : AuditCalls
calls = record {
  now = pos 9;
  marshal = λ ev. some (1 ∷ 2 ∷ []);
  open_fails = false;
  write = done;
  sync_fails = false;
}

abbrev cut : AuditCalls
cut = record calls { write = short 1 }

abbrev audit : AuditLogger
audit = record { is_open = true; append = true; file_path = "audit.log"; agent_id = "a1" }

abbrev two_events : List (AuditCalls × AuditEvent)
two_events =
    (cut, bootstrap_event false "org" (some "refused"))
    ∷ (calls, service_stop_event "shutdown")
    ∷ []

written : content "audit.log" (log_events two_events audit empty_host) ≡ 1 ∷ 1 ∷ 2 ∷ 10 ∷ []
unfolding log_events
written = refl

named : (stamp calls audit (service_stop_event "shutdown")).agent_id ≡ "a1"
unfolding stamp service_stop_event
named = refl

-- A file that holds a byte already.
abbrev used_host : Host
used_host = record empty_host { files = ("audit.log", 8 ∷ []) ∷ [] }

opens : (new_audit_logger calls "audit.log" "a1" used_host).0 ≡ ok audit
unfolding new_audit_logger
opens = refl
