-- ===== src/Audit/Defs.antt =====
-- The audit log, internal/logging/audit.go.
use truespec_agent.Prelude.{
  ℕ, zero, suc, length, Bool, true, false, not, Option, none, some, List, [], ◌∷◌, ◌++◌, String,
  Result, ok, err, if◌then◌else◌,
}
use truespec_agent.Prelude.Int.{ℤ, pos}
use truespec_agent.Buffer.{Bytes, WriteOutcome, done, not_opened, short, take_bytes}
use truespec_agent.Host.{Host, insert}
use truespec_agent.Logging.{content, open_append}
use truespec_agent.Config.{is_empty}

-- `outcome` is the field Result: "success" or "failure". The details are strings in all events.
pub record AuditEvent : Type 0 where
  pub timestamp : ℤ
  pub event_type : String
  pub severity : String
  pub agent_id : String
  pub user_id : String
  pub action : String
  pub resource : String
  pub outcome : String
  pub details : List (String × String)
  pub source_ip : String
  pub error_msg : String

-- `is_open` and `append` are of the file: whether it is open, and whether with O_APPEND.
pub record AuditLogger : Type 0 where
  pub is_open : Bool
  pub append : Bool
  pub file_path : String
  pub agent_id : String

-- The clock, the JSON codec and the ends of the calls of package os.
pub record AuditCalls : Type 0 where
  pub now : ℤ
  pub marshal : AuditEvent → Option Bytes
  pub open_fails : Bool
  pub write : WriteOutcome
  pub sync_fails : Bool

pub data AuditError : Type 0 where
  no_directory open_failed marshal_failed write_failed sync_failed : AuditError

-- `NewAuditLogger`
unfoldable pub new_audit_logger :
    AuditCalls → String → String → Host → Result AuditError AuditLogger × Host
new_audit_logger calls log_path agent_id h =
    if h.mkdir_fails log_path
    then (err no_directory, h)
    else if calls.open_fails
    then (err open_failed, h)
    else (
      ok (record { is_open = true; append = true; file_path = log_path; agent_id = agent_id }),
      open_append log_path h,
    )

-- The event as it is written.
unfoldable pub stamp : AuditCalls → AuditLogger → AuditEvent → AuditEvent
stamp calls a event = record event {
  timestamp = calls.now;
  agent_id = if is_empty event.agent_id then a.agent_id else event.agent_id;
}

abbrev pub skip : ℕ → Bytes → Bytes
skip zero bytes = bytes
skip (suc n) [] = []
skip (suc n) (_ ∷ bytes) = skip n bytes

-- The content of the file after a write. With O_APPEND it is at the end, and else the first write is
-- over what the file begins with.
abbrev pub with_written : AuditLogger → Bytes → Bytes → Bytes
with_written a part held = if a.append then held ++ part else part ++ skip (length part) held

-- The write of a line to the file; true if all of it is written.
unfoldable pub append_line : AuditCalls → Bytes → AuditLogger → Host → Bool × Host
append_line calls line a h = if not a.is_open then (false, h) else elim calls.write [
  | not_opened ↦ (false, h)
  | done ↦ (
    true,
    record h { files = insert a.file_path (with_written a line (content a.file_path h)) h.files },
  )
  | short n ↦ (
    false,
    record h {
      files =
          insert a.file_path (with_written a (take_bytes n line) (content a.file_path h)) h.files;
    },
  )
]

-- `LogEvent`
unfoldable pub log_event : AuditCalls → AuditEvent → AuditLogger → Host → Option AuditError × Host
unfolding stamp append_line
log_event calls event a h = elim (calls.marshal (stamp calls a event)) [
  | none ↦ (some marshal_failed, h)
  | some line ↦
      let (written, h') = append_line calls (line ++ 10 ∷ []) a h in
      if not written
      then (some write_failed, h')
      else if calls.sync_fails
      then (some sync_failed, h')
      else (none, h')
]

-- An event of the given type, severity, action and outcome, with no more in it.
abbrev pub event : String → String → String → String → AuditEvent
event event_type severity action outcome = record {
  timestamp = pos 0;
  event_type = event_type;
  severity = severity;
  agent_id = "";
  user_id = "";
  action = action;
  resource = "";
  outcome = outcome;
  details = [];
  source_ip = "";
  error_msg = "";
}

-- The tail of three of the methods: a failure sets the outcome, the severity and the message.
abbrev pub or_failure : Bool → Option String → AuditEvent → AuditEvent
or_failure success e ev = if success then ev else record ev {
  outcome = "failure";
  severity = "ERROR";
  error_msg = elim e [ none ↦ ev.error_msg | some text ↦ text ];
}

unfoldable pub bootstrap_event : Bool → String → Option String → AuditEvent
bootstrap_event success org_id e =
    or_failure success e
      (record (event "bootstrap" "INFO" "agent_registration" "success") { resource = org_id })

abbrev pub versions : String → String → List (String × String)
versions old_version new_version = ("old_version", old_version) ∷ ("new_version", new_version) ∷ []

unfoldable pub policy_change_event : String → String → AuditEvent
policy_change_event old_version new_version =
    record (event "policy_change" "INFO" "policy_update" "success") {
      details = versions old_version new_version;
    }

unfoldable pub update_event : String → String → Bool → Option String → AuditEvent
update_event old_version new_version success e =
    or_failure success e (record (event "agent_update" "INFO" "binary_update" "success") {
      details = versions old_version new_version;
    })

unfoldable pub auth_failure_event : String → String → AuditEvent
auth_failure_event endpoint reason =
    record (event "auth_failure" "WARNING" "authentication" "failure") {
      resource = endpoint;
      error_msg = reason;
    }

unfoldable pub cert_rotation_event : Bool → String → Option String → AuditEvent
cert_rotation_event success expiry e =
    or_failure success e (record (event "cert_rotation" "INFO" "certificate_renewal" "success") {
      details = ("new_expiry", expiry) ∷ [];
    })

unfoldable pub service_start_event : String → AuditEvent
service_start_event version = record (event "service_lifecycle" "INFO" "service_start" "success") {
  details = ("version", version) ∷ [];
}

unfoldable pub service_stop_event : String → AuditEvent
service_stop_event reason = record (event "service_lifecycle" "INFO" "service_stop" "success") {
  details = ("reason", reason) ∷ [];
}

-- Events one after the other, as the methods log them: the error is dropped.
unfoldable pub log_events : List (AuditCalls × AuditEvent) → AuditLogger → Host → Host
unfolding log_event
log_events [] a h = h
log_events ((calls, ev) ∷ later) a h = log_events later a (log_event calls ev a h).1

-- `Close`; true if there is an open file to close.
unfoldable pub close_audit : AuditLogger → Bool × AuditLogger
close_audit a = (a.is_open, record a { is_open = false })
