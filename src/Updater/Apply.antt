-- ===== src/Updater/Apply.antt =====
-- The verification and installation of a file that `PerformUpdate` has downloaded
-- (internal/updater/updater.go).
use truespec_agent.Prelude.{
  ◌≡◌, refl, ap, ◌∙◌, false, Option, none, some, String, str_eq, arith, ◌⊎◌, inl, inr, Option-cases,
}
use truespec_agent.Host.{Host, lookup}
use truespec_agent.Updater.Defs.{UpdateMetadata, Platform, remove}
use truespec_agent.Updater.Ops.{
  UpdateError, backup_of, verify_update, swap, install_update, apply_update,
}
use truespec_agent.Updater.Renaming.{lookup-remove}
use truespec_agent.Updater.Install.{KeepsOld, IsInstalled, Swaps, swap-Swaps}
use truespec_agent.Updater.Verify.{HasChecksum, verify_update_iff}

-- The temporary file, the executable and its backup are three files.
abbrev pub IsApart : Platform → String → String → Type 0
IsApart env exe tmp =
    (str_eq tmp exe ≡ false) × (str_eq tmp (backup_of env exe) ≡ false) × (str_eq exe tmp ≡ false)

module _ (env : Platform) (exe : String) where
  -- It rests on what the two paths hold alone.
  pub keeps_by_lookups :
      (h0 h h' h1 : Host)
      → lookup exe h0.files ≡ lookup exe h.files
      → lookup (backup_of env exe) h1.files ≡ lookup (backup_of env exe) h'.files
      → lookup exe h1.files ≡ lookup exe h'.files
      → KeepsOld env exe h0 h'
      → KeepsOld env exe h h1
  keeps_by_lookups h0 h h' h1 before backup after kept = ground arith

  install_update_exe :
      (tmp : String) (h : Host)
      → env.executable ≡ some exe
      → install_update env tmp h ≡ swap env exe tmp h
  unfolding install_update
  install_update_exe tmp h known = ground arith

  after_swap :
      (tmp : String) (h : Host) (out : Option UpdateError × Host)
      → Swaps env exe tmp h out
      → KeepsOld env exe h out.1 ⊎ IsInstalled env exe tmp h out.1
  after_swap tmp h (none, h') done = inr done
  after_swap tmp h (some e, h') kept = inl kept

  apply_refused :
      {e : UpdateError} (tmp : String) (md : UpdateMetadata) (h : Host)
      → verify_update env h tmp md ≡ some e
      → (apply_update env tmp md h).1 ≡ (remove env tmp h).1
  unfolding apply_update
  apply_refused tmp md h refused = ground arith

  apply_verified :
      (tmp : String) (md : UpdateMetadata) (h : Host)
      → verify_update env h tmp md ≡ none
      → (apply_update env tmp md h).1 ≡ (remove env tmp (install_update env tmp h).1).1
  unfolding apply_update
  apply_verified tmp md h verified = ground arith

  lookup-apply_update :
      (tmp : String) (md : UpdateMetadata) (h : Host) (j : String)
      → env.executable ≡ some exe
      → verify_update env h tmp md ≡ none
      → str_eq tmp j ≡ false
      → lookup j (apply_update env tmp md h).1.files ≡ lookup j (swap env exe tmp h).1.files
  lookup-apply_update tmp md h j known verified apart =
      ap (λ (left : Host). lookup j left.files) (apply_verified tmp md h verified)
      ∙ lookup-remove env tmp (install_update env tmp h).1 j apart
      ∙ ap (λ (out : Option UpdateError × Host). lookup j out.1.files)
          (install_update_exe tmp h known)

  -- `PerformUpdate` after the download: either the old executable is kept, or the file has the
  -- checksum and is installed.
  pub apply_either :
      (tmp : String) (md : UpdateMetadata) (h : Host)
      → env.executable ≡ some exe
      → str_eq exe (backup_of env exe) ≡ false
      → IsApart env exe tmp
      → KeepsOld env exe h (apply_update env tmp md h).1
        ⊎ (HasChecksum env h tmp md × IsInstalled env exe tmp h (apply_update env tmp md h).1)
  apply_either tmp md h known backup_apart (exe_apart, backup_new, new_apart) =
      let done = (swap env exe tmp h).1 in
      let after = (apply_update env tmp md h).1 in
      elim (Option-cases (verify_update env h tmp md)) [
        | inr (e, refused) ↦ inl (
            inl (
              ap (λ (left : Host). lookup exe left.files) (apply_refused tmp md h refused)
              ∙ lookup-remove env tmp h exe exe_apart))
        | inl verified ↦
            let at_exe = lookup-apply_update tmp md h exe known verified exe_apart in
            let at_old =
              lookup-apply_update tmp md h (backup_of env exe) known verified backup_new in
            elim (after_swap tmp h (swap env exe tmp h)
              (swap-Swaps env exe tmp h backup_apart new_apart backup_new)) [
                | inl kept ↦ inl (keeps_by_lookups h h done after refl at_old at_exe kept)
                | inr (installed, backup) ↦ inr (
                  ((verify_update_iff env h tmp md).0 verified).0,
                  (at_exe ∙ installed, at_old ∙ backup),
                )
              ]
      ]
