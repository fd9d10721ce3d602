-- ===== src/Logging/Defs.antt =====
-- The logger with rotation, internal/logging/logger.go.
use truespec_agent.Prelude.{
  ℕ, zero, suc, ◌-◌, ◌*◌, ◌<>◌, Bool, true, false, not, none, some, [], ◌++◌, String, str_eq,
  length, ltb, Result, ok, err, if◌then◌else◌,
}
use truespec_agent.Prelude.Int.{ℤ, pos, negsuc, ◌+ℤ◌, leb_ℤ}
use truespec_agent.Prelude.Word.{wrap64}
use truespec_agent.Buffer.{Bytes, WriteOutcome, done, not_opened, short, take_bytes, decimal}
use truespec_agent.Host.{Host, lookup, insert, move}

pub data LogLevel : Type 0 where
  debug info warning error fatal : LogLevel

-- The number of a level.
abbrev pub rank : LogLevel → ℕ
rank debug = 0
rank info = 1
rank warning = 2
rank error = 3
rank fatal = 4

abbrev pub level_name : LogLevel → String
level_name debug = "DEBUG"
level_name info = "INFO"
level_name warning = "WARN"
level_name error = "ERROR"
level_name fatal = "FATAL"

unfoldable pub parse_level : String → LogLevel
parse_level s =
    if str_eq s "debug"
    then debug
    else if str_eq s "info"
    then info
    else if str_eq s "warning"
    then warning
    else if str_eq s "warn"
    then warning
    else if str_eq s "error"
    then error
    else if str_eq s "fatal"
    then fatal
    else info

-- `attached` says whether `file` is open; a rotation that cannot open the new file leaves the old
-- one closed.
pub record Logger : Type 0 where
  pub level : LogLevel
  pub log_path : String
  pub max_size : ℤ
  pub max_backups : ℤ
  pub current_size : ℤ
  pub attached : Bool

pub record LoggerConfig : Type 0 where
  pub log_path : String
  pub level : String
  pub max_size_mb : ℤ
  pub max_backups : ℤ

-- How the calls of package os end.
pub record LogCalls : Type 0 where
  pub open_fails : Bool
  pub stat_fails : Bool
  pub stdout_fails : Bool
  pub write : WriteOutcome
  pub rename_fails : String → String → Bool

pub data LoggerError : Type 0 where
  no_directory not_opened_log no_size : LoggerError

abbrev pub scale : ℕ → ℤ → ℤ
scale k (pos n) = pos (k * n)
scale k (negsuc n) = negsuc (k * suc n - 1)

abbrev pub content : String → Host → Bytes
content path h = elim (lookup path h.files) [ none ↦ [] | some bytes ↦ bytes ]

-- `os.OpenFile` with O_CREATE and O_APPEND.
abbrev pub open_append : String → Host → Host
open_append path h = record h { files = insert path (content path h) h.files }

-- `NewLogger`
unfoldable pub new_logger : LogCalls → LoggerConfig → Host → Result LoggerError Logger × Host
unfolding parse_level
new_logger calls cfg h =
    if h.mkdir_fails cfg.log_path
    then (err no_directory, h)
    else if calls.open_fails
    then (err not_opened_log, h)
    else if calls.stat_fails
    then (err no_size, open_append cfg.log_path h)
    else (
      ok (record {
        level = parse_level cfg.level;
        log_path = cfg.log_path;
        max_size = wrap64 (scale (1024 * 1024) cfg.max_size_mb);
        max_backups = cfg.max_backups;
        current_size = pos (length (content cfg.log_path h));
        attached = true;
      }),
      open_append cfg.log_path h,
    )

-- The write of a line to standard output and then to the file; an error is not looked at.
unfoldable pub print_line : LogCalls → Bytes → Logger → Host → Host
print_line calls line l h =
    if calls.stdout_fails then h else if not l.attached then h else elim calls.write [
      | not_opened ↦ h
      | done ↦ record h { files = insert l.log_path (content l.log_path h ++ line) h.files }
      | short n ↦ record h {
        files = insert l.log_path (content l.log_path h ++ take_bytes n line) h.files;
      }
    ]

unfoldable pub backup_path : String → ℕ → String
backup_path path i = path <> "." <> decimal i

-- The loop of `rotate`, from `i` down to 1.
unfoldable pub shift_backups : LogCalls → String → ℕ → Host → Host
unfolding backup_path
shift_backups calls path zero h = h
shift_backups calls path (suc i) h =
    shift_backups calls path i
      (move calls.rename_fails (backup_path path (suc i)) (backup_path path (suc (suc i))) h).1

-- How often that loop runs.
abbrev pub shifts : ℤ → ℕ
shifts (pos n) = n - 1
shifts (negsuc n) = 0

-- `rotate` up to its last line, and whether it gets there.
unfoldable pub rotate : LogCalls → Logger → Host → Bool × Logger × Host
unfolding shift_backups
rotate calls l h =
    let h1 = shift_backups calls l.log_path (shifts l.max_backups) h in
    let h2 = (move calls.rename_fails l.log_path (backup_path l.log_path 1) h1).1 in
    if calls.open_fails
    then (false, record l { attached = false }, h2)
    else (true, record l { attached = true; current_size = pos 0 }, open_append l.log_path h2)

-- A call returns, or waits for the mutex that it holds itself.
pub data LogResult : Type 0 where
  returns : Logger → Host → LogResult
  blocks : Logger → Host → LogResult

-- The line that `log` writes; `utf8` gives the bytes of a string.
abbrev pub log_line : (String → Bytes) → LogLevel → String → String → Bytes
log_line utf8 level timestamp message =
    utf8 (timestamp <> " [" <> level_name level <> "] " <> message <> "\n")

-- The rest of `log` when the file is too large. The last line of `rotate` logs a message at level
-- INFO, for which `log` takes the mutex again, unless the level is below the logger's.
unfoldable pub rotate_locked : LogCalls → Logger → Host → LogResult
unfolding rotate
rotate_locked calls l h =
    let (reopened, l', h') = rotate calls l h in
    if not reopened
    then returns l' h'
    else if ltb (rank info) (rank l'.level)
    then returns l' h'
    else blocks l' h'

-- `log`
unfoldable pub log :
    LogCalls → (String → Bytes) → LogLevel → String → String → Logger → Host → LogResult
unfolding print_line rotate_locked
log calls utf8 level timestamp message l h =
    let line = log_line utf8 level timestamp message in
    let h' = print_line calls line l h in
    let l' = record l { current_size = wrap64 (l.current_size +ℤ pos (length line)) } in
    if ltb (rank level) (rank l.level)
    then returns l h
    else if leb_ℤ l.max_size l'.current_size
    then rotate_locked calls l' h'
    else returns l' h'

unfoldable pub set_level : String → Logger → Logger
unfolding parse_level
set_level level l = record l { level = parse_level level }

-- `Close`; true if the file could be closed, which a file that is closed already cannot be.
unfoldable pub close_logger : Logger → Bool × Logger
close_logger l = (l.attached, record l { attached = false })
