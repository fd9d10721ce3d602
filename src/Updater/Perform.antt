-- ===== src/Updater/Perform.antt =====
-- `PerformUpdate` (internal/updater/updater.go).
use truespec_agent.Prelude.{
  ◌≡◌, ap, sym, subst, ◌∙◌, false, none, some, List, String, str_eq, eq_iff, ok, err, arith, ◌⊎◌,
  inl, inr, Option-cases, Result-cases,
}
use truespec_agent.Buffer.{Bytes}
use truespec_agent.Host.{Host, lookup, insert, read_file}
use truespec_agent.Host.Laws.{lookup-insert}
use truespec_agent.Updater.Defs.{UpdateMetadata, Updater, UpdateServer, Platform, whole}
use truespec_agent.Updater.Ops.{
  UpdateError, backup_of, temp_file, check_for_update, download_update, apply_update,
  perform_update,
}
use truespec_agent.Updater.Install.{KeepsOld}
use truespec_agent.Updater.Verify.{download_ok, lookup-download_update}
use truespec_agent.Updater.Apply.{IsApart, keeps_by_lookups, apply_either}

-- The update offered has been downloaded whole, with the checksum announced, and is in the
-- executable's place, the old executable being its backup.
abbrev pub IsUpdated : Platform → UpdateServer → Updater → String → Host → Host → Type 0
IsUpdated env server u exe h h' =
    (md : UpdateMetadata) × (bytes : Bytes) × (check_for_update env server u ≡ ok (some md))
    × (server.binary_at md.download_url ≡ some (200, whole bytes))
    × (env.sha256 bytes ≡ md.checksum)
    × (lookup exe h'.files ≡ some bytes)
    × (lookup (backup_of env exe) h'.files ≡ lookup exe h.files)

lookup-insert_same {ℓ} :
    {V : Type ℓ} (k : String) (v : V) (m : List (String × V)) → lookup k (insert k v m) ≡ some v
lookup-insert_same k v m = ground (arith, lookup-insert k k v m, eq_iff k k)

module _ (env : Platform) (exe : String) (server : UpdateServer) (u : Updater) (h : Host) where
  perform_unchecked :
      {e : UpdateError}
      → check_for_update env server u ≡ err e
      → (perform_update env server u h).1 ≡ h
  unfolding perform_update
  perform_unchecked failed = ground arith

  perform_none : check_for_update env server u ≡ ok none → (perform_update env server u h).1 ≡ h
  unfolding perform_update
  perform_none nothing = ground arith

  perform_not_downloaded :
      {e : UpdateError} (md : UpdateMetadata)
      → check_for_update env server u ≡ ok (some md)
      → (download_update env server md h).0 ≡ err e
      → (perform_update env server u h).1 ≡ (download_update env server md h).1
  unfolding perform_update
  perform_not_downloaded md offered failed = ground arith

  perform_applies :
      (md : UpdateMetadata) (tmp : String)
      → check_for_update env server u ≡ ok (some md)
      → (download_update env server md h).0 ≡ ok tmp
      → (perform_update env server u h).1
        ≡ (apply_update env tmp md (download_update env server md h).1).1
  unfolding perform_update
  perform_applies md tmp offered got = ground arith

  lookup-IsDownloaded :
      (tmp : String) {h' : Host} (bytes b : Bytes)
      → h' ≡ record h { files = insert tmp bytes h.files }
      → read_file h' tmp ≡ ok b
      → (lookup tmp h'.files ≡ some bytes) × (b ≡ bytes)
  unfolding read_file
  lookup-IsDownloaded tmp {h'} bytes b left found =
      let held : lookup tmp h'.files ≡ some bytes =
        ap (λ (g : Host). lookup tmp g.files) left ∙ lookup-insert_same tmp bytes h.files in
      (held, ground arith)

  perform_offered :
      env.executable ≡ some exe
      → str_eq exe (backup_of env exe) ≡ false
      → (md : UpdateMetadata) → IsApart env exe (temp_file env md)
      → check_for_update env server u ≡ ok (some md)
      → KeepsOld env exe h (perform_update env server u h).1
        ⊎ IsUpdated env server u exe h (perform_update env server u h).1
  perform_offered known backup_apart md apart offered =
      let h1 = (download_update env server md h).1 in
      let at_exe = lookup-download_update env server md h exe apart.0 in
      let at_old = lookup-download_update env server md h (backup_of env exe) apart.1 in
      elim (Result-cases (download_update env server md h).0) [
        | inr (e, failed) ↦ inl (
            inl (
              ap (λ (left : Host). lookup exe left.files) (perform_not_downloaded md offered failed)
              ∙ at_exe))
        | inl (tmp, got) ↦
            let (bytes, answered, at, left) = download_ok env server md h got in
            let applied = perform_applies md tmp offered got in
            let after = (apply_update env tmp md h1).1 in
            let end = (perform_update env server u h).1 in
            let end_at = (λ (j : String). ap (λ (g : Host). lookup j g.files) applied) in
            elim (apply_either env exe tmp md h1 known backup_apart
              (subst (λ p. IsApart env exe p) (sym at) apart)) [
                | inl kept ↦ inl (
                    keeps_by_lookups env exe h1 h after end at_exe (end_at (backup_of env exe))
                      (end_at exe) kept)
                | inr ((b, found, matches), (installed, backup)) ↦
                    let (held, same) = lookup-IsDownloaded tmp bytes b left found in
                    inr (
                      md,
                      bytes,
                      offered,
                      answered,
                      ap env.sha256 (sym same) ∙ matches,
                      end_at exe ∙ installed ∙ held,
                      end_at (backup_of env exe) ∙ backup ∙ at_exe,
                    )
              ]
      ]

  -- `PerformUpdate`, whatever fails in it, leaves the executable as it was, or has put in its
  -- place a file that the server gave whole and whose SHA-256 is the checksum that the server
  -- announced, with the old executable as the backup. Only when an installation fails and the
  -- system also refuses the rename that should undo it is the old file left as the backup alone.
  -- The executable, its backup and the temporary file of the update offered are three files.
  pub perform_update_safe :
      env.executable ≡ some exe
      → str_eq exe (backup_of env exe) ≡ false
      → ((md : UpdateMetadata)
          → check_for_update env server u ≡ ok (some md)
          → IsApart env exe (temp_file env md))
      → KeepsOld env exe h (perform_update env server u h).1
        ⊎ IsUpdated env server u exe h (perform_update env server u h).1
  perform_update_safe known backup_apart apart =
      elim (Result-cases (check_for_update env server u)) [
        | inr (e, failed) ↦
            inl (inl (ap (λ (left : Host). lookup exe left.files) (perform_unchecked failed)))
        | inl (found, checked) ↦ elim (Option-cases found) [
          | inl nothing ↦ inl (
              inl (
                ap (λ (left : Host). lookup exe left.files)
                  (perform_none (checked ∙ ap ok nothing))))
          | inr (md, offer) ↦
              let offered = checked ∙ ap ok offer in
              perform_offered known backup_apart md (apart md offered) offered
        ]
      ]
