-- ===== src/Logging/Adapter.antt =====
-- The methods that call `log` (internal/logging/logger.go), and the adapter to the standard logger
-- (internal/logging/compat.go).
use truespec_agent.Prelude.{
  ℕ, ◌==◌, Option, none, some, List, [], ◌∷◌, String, length, if◌then◌else◌,
}
use truespec_agent.Buffer.{Bytes}
use truespec_agent.Host.{Host}
use truespec_agent.Logging.Defs.{
  debug, info, warning, error, fatal, Logger, LogCalls, LogResult, returns, blocks, log,
}

-- The text of a message without its last newline.
unfoldable pub without_newline : Bytes → Bytes
without_newline [] = []
without_newline (c ∷ []) = if c == 10 then [] else c ∷ []
without_newline (c ∷ d ∷ s) = c ∷ without_newline (d ∷ s)

-- `sprintf` is `fmt.Sprintf` on values of a type `V`, `text` the string of some bytes.
module _ {V : Type 0} (calls : LogCalls) (utf8 : String → Bytes)
    (sprintf : String → List V → String) (text : Bytes → String) (timestamp : String) where
  -- `Debug`, `Info`, `Warning` and `Error`
  unfoldable pub log_debug : String → List V → Logger → Host → LogResult
  log_debug format v = log calls utf8 debug timestamp (sprintf format v)

  unfoldable pub log_info : String → List V → Logger → Host → LogResult
  log_info format v = log calls utf8 info timestamp (sprintf format v)

  unfoldable pub log_warning : String → List V → Logger → Host → LogResult
  log_warning format v = log calls utf8 warning timestamp (sprintf format v)

  unfoldable pub log_error : String → List V → Logger → Host → LogResult
  log_error format v = log calls utf8 error timestamp (sprintf format v)

  -- `Fatal`: the exit code of the process, if it gets so far.
  unfoldable pub log_fatal : String → List V → Logger → Host → LogResult × Option ℕ
  log_fatal format v l h =
      let r = log calls utf8 fatal timestamp (sprintf format v) l h in
      (r, elim r [ returns _ _ ↦ some 1 | blocks _ _ ↦ none ])

  -- `Printf`, and `Println` and `Print`, which are the same.
  unfoldable pub log_printf : String → List V → Logger → Host → LogResult
  log_printf = log_info

  unfoldable pub log_print : List V → Logger → Host → LogResult
  log_print v = log_info "%v" v

  -- `logWriter.Write`: the message is logged as a format. The number of bytes is returned, if the
  -- call gets so far.
  unfoldable pub write_line : Bytes → Logger → Host → LogResult × Option ℕ
  unfolding log_info
  write_line p l h =
      let r = log_info (text (without_newline p)) [] l h in
      (r, elim r [ returns _ _ ↦ some (length p) | blocks _ _ ↦ none ])
