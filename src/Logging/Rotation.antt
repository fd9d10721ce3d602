-- ===== src/Logging/Rotation.antt =====
-- What `log` does when the file is too large (internal/logging/logger.go).
use truespec_agent.Prelude.{
  ◌≤◌, ◌≡◌, ◌↔◌, refl, true, false, not, String, length, ltb, arith, inl, inr, Bool-cases,
}
use truespec_agent.Prelude.Int.{ℤ, pos, ◌+ℤ◌, ◌<ℤ◌, ◌≤ℤ◌, leb_ℤ}
use truespec_agent.Prelude.Word.{wrap64}
use truespec_agent.Buffer.{Bytes}
use truespec_agent.Host.{Host}
use truespec_agent.Logging.Defs.{
  LogLevel, info, rank, Logger, LogCalls, rotate, LogResult, returns, blocks, log_line,
  rotate_locked, log, print_line,
}

-- The call has waited for a mutex that it holds itself.
abbrev pub IsBlocked : LogResult → Type 0
IsBlocked (returns _ _) = ⊥
IsBlocked (blocks _ _) = Unit

-- The size after a call.
abbrev pub size_after : LogResult → ℤ
size_after (returns l _) = l.current_size
size_after (blocks l _) = l.current_size

module _ (calls : LogCalls) (utf8 : String → Bytes) (level : LogLevel)
    (timestamp message : String) where
  -- The size that the line brings the file to.
  abbrev pub grown : Logger → ℤ
  grown l = wrap64 (l.current_size +ℤ pos (length (log_line utf8 level timestamp message)))

  rotate_open :
      (l : Logger) (h : Host)
      → ((rotate calls l h).0 ≡ not calls.open_fails) × ((rotate calls l h).1.level ≡ l.level)
  unfolding rotate
  rotate_open l h = ground arith

  rotate_size :
      (l : Logger) (h : Host) → calls.open_fails ≡ false → (rotate calls l h).1.current_size ≡ pos 0
  unfolding rotate
  rotate_size l h opens = ground arith

  rotate_locked-IsBlocked_iff :
      (l : Logger) (h : Host)
      → IsBlocked (rotate_locked calls l h)
        ↔ ((calls.open_fails ≡ false) × (ltb (rank info) (rank l.level) ≡ false))
  unfolding rotate_locked
  rotate_locked-IsBlocked_iff l h = ground (arith, rotate_open l h)

  log_quiet :
      (l : Logger) (h : Host)
      → ltb (rank level) (rank l.level) ≡ true
      → log calls utf8 level timestamp message l h ≡ returns l h
  unfolding log
  log_quiet l h below = rw (below, log) refl

  log_small :
      (l : Logger) (h : Host)
      → ltb (rank level) (rank l.level) ≡ false
      → leb_ℤ l.max_size (grown l) ≡ false
      → log calls utf8 level timestamp message l h
        ≡ returns
            (record l { current_size = grown l })
            (print_line calls (log_line utf8 level timestamp message) l h)
  unfolding log
  log_small l h loud fits = rw (loud, fits, log) refl

  log_large :
      (l : Logger) (h : Host)
      → ltb (rank level) (rank l.level) ≡ false
      → leb_ℤ l.max_size (grown l) ≡ true
      → log calls utf8 level timestamp message l h
        ≡ rotate_locked calls
            (record l { current_size = grown l })
            (print_line calls (log_line utf8 level timestamp message) l h)
  unfolding log
  log_large l h loud full = rw (loud, full, log) refl

  -- The conditions under which the call waits for itself.
  abbrev pub Overruns : Logger → Type 0
  Overruns l =
      (rank l.level ≤ rank level)
      × (l.max_size ≤ℤ grown l)
      × (calls.open_fails ≡ false)
      × (rank l.level ≤ rank info)

  -- `log` never returns exactly when the message is at the logger's level or above, the line brings
  -- the file to its maximal size, the new file can be opened, and the logger's level is INFO or
  -- DEBUG: the message that the rotation logs then waits for the mutex that the call holds.
  pub log-IsBlocked_iff :
      (l : Logger) (h : Host) → IsBlocked (log calls utf8 level timestamp message l h) ↔ Overruns l
  log-IsBlocked_iff l h =
      let l' : Logger = record l { current_size = grown l } in
      let h' : Host = print_line calls (log_line utf8 level timestamp message) l h in
      elim (Bool-cases (ltb (rank level) (rank l.level))) [
        | inl below ↦ rw (log_quiet l h below) (ground arith)
        | inr loud ↦ elim (Bool-cases (leb_ℤ l.max_size (grown l))) [
          | inr fits ↦ rw (log_small l h loud fits) (ground arith)
          | inl full ↦
              rw (log_large l h loud full) (ground (arith, rotate_locked-IsBlocked_iff l' h'))
        ]
      ]

  rotate_locked-size_after :
      (l : Logger) (h : Host)
      → calls.open_fails ≡ false
      → size_after (rotate_locked calls l h) ≡ pos 0
  unfolding rotate_locked
  rotate_locked-size_after l h opens = ground (arith, rotate_open l h, rotate_size l h opens)

  -- While files can be opened, the counted size stays below the maximal size after each call, even
  -- one that does not return.
  pub log-size_after :
      (l : Logger) (h : Host)
      → calls.open_fails ≡ false
      → pos 0 <ℤ l.max_size
      → l.current_size <ℤ l.max_size
      → size_after (log calls utf8 level timestamp message l h) <ℤ l.max_size
  log-size_after l h opens positive bounded =
      let l' : Logger = record l { current_size = grown l } in
      let h' : Host = print_line calls (log_line utf8 level timestamp message) l h in
      elim (Bool-cases (ltb (rank level) (rank l.level))) [
        | inl below ↦ rw (log_quiet l h below) bounded
        | inr loud ↦ elim (Bool-cases (leb_ℤ l.max_size (grown l))) [
          | inr fits ↦ rw (log_small l h loud fits) (ground arith)
          | inl full ↦ rw (log_large l h loud full, rotate_locked-size_after l' h' opens) positive
        ]
      ]
