-- ===== src/Logging/Tests.antt =====
-- Runs of the logger (internal/logging/logger.go), and the theorems at concrete inputs.
use truespec_agent.Prelude.{
  some, ◌==◌, ◌≡◌, List, str_eq, if◌then◌else◌, ◌↔◌, refl, true, false, String, [], ◌∷◌,
}
use native.Mathlib.Omega.{arith}
use truespec_agent.Prelude.Int.{pos, ◌+ℤ◌, ◌<ℤ◌}
use truespec_agent.Prelude.Word.{wrap64}
use truespec_agent.Buffer.{Bytes, done}
use truespec_agent.Identity.Tests.{empty_host}
use truespec_agent.Logging.Defs.{info, error, Logger, LogCalls, log}
use truespec_agent.Logging.Adapter.{write_line, without_newline}
use truespec_agent.Logging.Rotation.{
  IsBlocked, Overruns, size_after, log-IsBlocked_iff, log-size_after,
}

abbrev calls : LogCalls
calls = record {
  open_fails = false;
  stat_fails = false;
  stdout_fails = false;
  write = done;
  rename_fails = λ p q. false;
}

-- Every line has three bytes here.
abbrev three : String → Bytes
three s = 1 ∷ 2 ∷ 3 ∷ []

abbrev logger : Logger
logger = record {
  level = info;
  log_path = "agent.log";
  max_size = pos 5;
  max_backups = pos 3;
  current_size = pos 3;
  attached = true;
}

blocked : IsBlocked (log calls three error "t" "disk full" logger empty_host)
unfolding log wrap64 ◌+ℤ◌
blocked = tt

log-IsBlocked_iff_example :
    IsBlocked (log calls three error "t" "disk full" logger empty_host)
    ↔ Overruns calls three error "t" "disk full" logger
log-IsBlocked_iff_example = log-IsBlocked_iff calls three error "t" "disk full" logger empty_host

positive : pos 0 <ℤ pos 5
positive = omega arith

bounded : pos 3 <ℤ pos 5
bounded = omega arith

log-size_after_example :
    size_after (log calls three error "t" "disk full" logger empty_host) <ℤ pos 5
log-size_after_example =
    log-size_after calls three error "t" "disk full" logger empty_host refl positive bounded

-- `Sprintf` with no values, for the one directive that is looked at here.
abbrev sprintf : String → List String → String
sprintf format [] = if str_eq format "%d" then "%!d(MISSING)" else format
sprintf format (v ∷ _) = v

abbrev text : Bytes → String
text p = elim p [ [] ↦ "" | c ∷ _ ↦ if c == 37 then "%d" else "other" ]

abbrev roomy : Logger
roomy = record logger { max_size = pos 100 }

-- A message that comes through the standard logger is taken for a format.
taken_for_format :
    write_line calls three sprintf text "t" (37 ∷ 100 ∷ 10 ∷ []) roomy empty_host
    ≡ (log calls three info "t" "%!d(MISSING)" roomy empty_host, some 3)
unfolding write_line without_newline log wrap64 ◌+ℤ◌
taken_for_format = refl
