-- ===== src/Files/Ops.antt =====
-- Removing, copying and moving a file: internal/collectors/fs/crud.go.
use truespec_agent.Prelude.{Bool, Option, none, some, [], String, if◌then◌else◌}
use truespec_agent.Buffer.{Bytes, done, not_opened, short, take_bytes}
use truespec_agent.Host.{Host, ReadError, not_exist, other_error, lookup, insert, unlink, move}

-- Where `os.Rename` and `os.Remove` fail.
pub record Refusals : Type 0 where
  pub rename_fails : String → String → Bool
  pub remove_fails : String → Bool

-- What a file that is open for reading has now.
abbrev pub bytes_at : String → Host → Bytes
bytes_at path h = elim (lookup path h.files) [ none ↦ [] | some bytes ↦ bytes ]

-- The file is empty once `os.Create` has opened it, before any byte is read.
abbrev pub created : String → Host → Host
created path h = record h { files = insert path [] h.files }

-- `copyFile`
unfoldable pub copy_file : String → String → Host → Option ReadError × Host
copy_file src dst h = elim (lookup src h.files) [
  | none ↦ (some not_exist, h)
  | some _ ↦ if h.read_fails src then (some other_error, h) else elim (h.write_outcome dst) [
    | not_opened ↦ (some other_error, h)
    | done ↦
        let h1 = created dst h in
        (none, record h1 { files = insert dst (bytes_at src h1) h1.files })
    | short n ↦
        let h1 = created dst h in
        (
          some other_error,
          record h1 { files = insert dst (take_bytes n (bytes_at src h1)) h1.files },
        )
  ]
]

module _ (refusals : Refusals) where
  -- `Delete`
  unfoldable pub delete_file : String → Host → Option ReadError × Host
  delete_file = unlink refusals.remove_fails

  -- `copyAndDelete`
  unfoldable pub copy_and_delete : String → String → Host → Option ReadError × Host
  unfolding copy_file
  copy_and_delete src dst h =
      let (failed, h1) = copy_file src dst h in
      let removed = unlink refusals.remove_fails src h1 in
      elim failed [ some e ↦ (some e, h1) | none ↦ removed ]

  -- `Move`
  unfoldable pub move_file : String → String → Host → Option ReadError × Host
  unfolding copy_and_delete
  move_file src dst h =
      let (renamed, h1) = move refusals.rename_fails src dst h in
      let copied = copy_and_delete src dst h in if renamed then (none, h1) else copied
