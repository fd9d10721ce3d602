-- ===== src/Files/Moving.antt =====
-- Where `Move` leaves the bytes of a file (internal/collectors/fs/crud.go).
use truespec_agent.Prelude.{
  ℕ, ◌≡◌, inl, inr, refl, true, false, Option, none, some, [], String, str_eq, str_eq_sym,
  str_eq_refl, arith, Bool-cases, Option-cases,
}
use truespec_agent.Buffer.{Bytes, done, not_opened, short, take_bytes}
use truespec_agent.Host.{Host, ReadError, other_error, lookup, insert, delete, unlink, move}
use truespec_agent.Host.Laws.{
  lookup-insert, lookup-delete, WriteOutcome-cases, unlink_found, unlink_refused,
}
use truespec_agent.Files.Ops.{Refusals, bytes_at, created, copy_file, copy_and_delete, move_file}

-- How a file is moved, by the result: it is at the new path only; or it is where it was.
abbrev pub Moves : String → String → Bytes → Option ReadError × Host → Type 0
Moves src dst bytes (none, h') = (lookup dst h'.files ≡ some bytes) × (lookup src h'.files ≡ none)
Moves src dst bytes (some e, h') = lookup src h'.files ≡ some bytes

-- How it is copied.
abbrev pub Copies : String → String → Bytes → Option ReadError × Host → Type 0
Copies src dst bytes (none, h') =
    (lookup dst h'.files ≡ some bytes) × (lookup src h'.files ≡ some bytes)
Copies src dst bytes (some e, h') = lookup src h'.files ≡ some bytes

module _ (src dst : String) (bytes : Bytes) (h : Host) (apart : str_eq dst src ≡ false)
    (there : lookup src h.files ≡ some bytes) where
  -- A write to the other path, to the file truncated before, leaves this file alone.
  kept_after : (new : Bytes) → lookup src (insert dst new (insert dst [] h.files)) ≡ some bytes
  kept_after new =
      ground
        (arith, lookup-insert src dst new (insert dst [] h.files), lookup-insert src dst [] h.files)

  -- So the copy reads all of it.
  bytes_at-created : bytes_at src (created dst h) ≡ bytes
  bytes_at-created = elim (Option-cases (lookup src (insert dst [] h.files))) [
    | inl missing ↦ absurd (ground (arith, lookup-insert src dst [] h.files))
    | inr (found, is_there) ↦
        rw (is_there, bytes_at) (ground (arith, lookup-insert src dst [] h.files))
  ]

  copy_file_done :
      h.read_fails src ≡ false
      → h.write_outcome dst ≡ done
      → copy_file src dst h ≡ (none, record h { files = insert dst bytes (insert dst [] h.files) })
  unfolding copy_file
  copy_file_done reads written = rw (there, reads, written, bytes_at-created, copy_file) refl

  copy_file_short :
      (n : ℕ)
      → h.read_fails src ≡ false
      → h.write_outcome dst ≡ short n
      → copy_file src dst h ≡ (
        some other_error,
        record h { files = insert dst (take_bytes n bytes) (insert dst [] h.files) },
      )
  unfolding copy_file
  copy_file_short n reads cut = rw (there, reads, cut, bytes_at-created, copy_file) refl

  copy_file_unread : h.read_fails src ≡ true → copy_file src dst h ≡ (some other_error, h)
  unfolding copy_file
  copy_file_unread fails = rw (there, fails, copy_file) refl

  copy_file_closed :
      h.read_fails src ≡ false
      → h.write_outcome dst ≡ not_opened
      → copy_file src dst h ≡ (some other_error, h)
  unfolding copy_file
  copy_file_closed reads closed = rw (there, reads, closed, copy_file) refl

  copy_file-Copies : Copies src dst bytes (copy_file src dst h)
  copy_file-Copies = elim (Bool-cases (h.read_fails src)) [
    | inl fails ↦ rw (copy_file_unread fails) there
    | inr reads ↦ elim (WriteOutcome-cases (h.write_outcome dst)) [
      | inl written ↦ rw (copy_file_done reads written) (
        ground (arith, lookup-insert dst dst bytes (insert dst [] h.files), str_eq_refl dst),
        kept_after bytes,
      )
      | inr (inl closed) ↦ rw (copy_file_closed reads closed) there
      | inr (inr (n, cut)) ↦ rw (copy_file_short n reads cut) (kept_after (take_bytes n bytes))
    ]
  ]

module _ (refusals : Refusals) (src dst : String) (h : Host) where
  copy_failed :
      (e : ReadError)
      → (copy_file src dst h).0 ≡ some e
      → copy_and_delete refusals src dst h ≡ (some e, (copy_file src dst h).1)
  unfolding copy_and_delete
  copy_failed e failed = rw (failed, copy_and_delete) refl

  copied :
      (copy_file src dst h).0 ≡ none
      → copy_and_delete refusals src dst h
        ≡ unlink refusals.remove_fails src (copy_file src dst h).1
  unfolding copy_and_delete
  copied copies = rw (copies, copy_and_delete) refl

  renamed :
      (bytes : Bytes)
      → lookup src h.files ≡ some bytes
      → refusals.rename_fails src dst ≡ false
      → move_file refusals src dst h
        ≡ (none, record h { files = insert dst bytes (delete src h.files) })
  unfolding move_file move
  renamed bytes there works = rw (there, works, move_file, move) refl

  not_renamed :
      (bytes : Bytes)
      → lookup src h.files ≡ some bytes
      → refusals.rename_fails src dst ≡ true
      → move_file refusals src dst h ≡ copy_and_delete refusals src dst h
  unfolding move_file move
  not_renamed bytes there fails = rw (there, fails, move_file, move) refl

unlink-Moves :
    (refusals : Refusals) (src dst : String) (bytes : Bytes) (h h1 : Host)
    → str_eq dst src ≡ false
    → lookup dst h1.files ≡ some bytes
    → lookup src h1.files ≡ some bytes
    → Moves src dst bytes (unlink refusals.remove_fails src h1)
unlink-Moves refusals src dst bytes h h1 apart there here =
    elim (Bool-cases (refusals.remove_fails src)) [
      | inl fails ↦ rw (unlink_refused refusals.remove_fails src h1 here fails) here
      | inr removes ↦ rw (unlink_found refusals.remove_fails src h1 here removes) (
        ground (arith, lookup-delete dst src h1.files, str_eq_sym src dst),
        ground (arith, lookup-delete src src h1.files, str_eq_refl src),
      )
    ]

copy_and_delete-Moves :
    (refusals : Refusals) (src dst : String) (bytes : Bytes) (h : Host)
    → str_eq dst src ≡ false
    → lookup src h.files ≡ some bytes
    → Moves src dst bytes (copy_and_delete refusals src dst h)
copy_and_delete-Moves refusals src dst bytes h apart there =
    let copies = copy_file-Copies src dst bytes h apart there in
    elim (Option-cases (copy_file src dst h).0) [
      | inl worked ↦
          let (at_dst, at_src) = rw worked at copies in
          rw (copied refusals src dst h worked)
            (unlink-Moves refusals src dst bytes h (copy_file src dst h).1 apart at_dst at_src)
      | inr (e, failed) ↦ rw (copy_failed refusals src dst h e failed) (rw failed at copies)
    ]

-- `Move` to another path loses no byte of a file: without an error the file is at the new path, whole,
-- and no longer at the old one; with an error it is still at the old one, whole. This holds where
-- the rename works, and where the copy that replaces it is cut off or cannot start, or the old file
-- cannot be removed.
pub move_file-Moves :
    (refusals : Refusals) (src dst : String) (bytes : Bytes) (h : Host)
    → str_eq dst src ≡ false
    → lookup src h.files ≡ some bytes
    → Moves src dst bytes (move_file refusals src dst h)
move_file-Moves refusals src dst bytes h apart there =
    elim (Bool-cases (refusals.rename_fails src dst)) [
      | inl fails ↦
          rw (not_renamed refusals src dst h bytes there fails)
            (copy_and_delete-Moves refusals src dst bytes h apart there)
      | inr works ↦ rw (renamed refusals src dst h bytes there works) (
        ground (arith, lookup-insert dst dst bytes (delete src h.files), str_eq_refl dst),
        ground (
          arith,
          lookup-insert src dst bytes (delete src h.files),
          lookup-delete src src h.files,
          str_eq_refl src,
        ),
      )
    ]
