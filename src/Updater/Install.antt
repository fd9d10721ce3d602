-- ===== src/Updater/Install.antt =====
-- `InstallUpdate` and `Rollback` (internal/updater/updater.go).
use truespec_agent.Prelude.{
  ◌≡◌, sym, subst, ◌∙◌, true, false, Option, none, some, String, str_eq, eq_iff, arith, ◌⊎◌, inl,
  inr, Option-cases, Bool-cases,
}
use truespec_agent.Buffer.{Bytes}
use truespec_agent.Host.{Host, lookup, is_missing}
use truespec_agent.Updater.Defs.{Platform, rename, remove}
use truespec_agent.Updater.Ops.{UpdateError, backup_of, swap, rollback}
use truespec_agent.Updater.Renaming.{
  lookup-rename, lookup-rename_failed, rename_moves, rename_works, lookup-remove, remove_works,
}

-- The executable is as it was, or, when the second rename and the one that should undo the first
-- both fail, only its backup is left.
abbrev pub KeepsOld : Platform → String → Host → Host → Type 0
KeepsOld env exe h h' =
    (lookup exe h'.files ≡ lookup exe h.files)
    ⊎ ((env.rename_fails (backup_of env exe) exe ≡ true)
        × (lookup exe h'.files ≡ none)
        × (lookup (backup_of env exe) h'.files ≡ lookup exe h.files))

-- The new file is in the executable's place, and the old one is the backup.
abbrev pub IsInstalled : Platform → String → String → Host → Host → Type 0
IsInstalled env exe new_binary h h' =
    (lookup exe h'.files ≡ lookup new_binary h.files)
    × (lookup (backup_of env exe) h'.files ≡ lookup exe h.files)

abbrev pub Swaps : Platform → String → String → Host → Option UpdateError × Host → Type 0
Swaps env exe new_binary h (none, h') = IsInstalled env exe new_binary h h'
Swaps env exe new_binary h (some _, h') = KeepsOld env exe h h'

module _ (env : Platform) (exe new_binary : String) (h : Host) where
  swap_ok :
      str_eq exe (backup_of env exe) ≡ false
      → str_eq exe new_binary ≡ false
      → str_eq new_binary (backup_of env exe) ≡ false
      → (swap env exe new_binary h).0 ≡ none
      → IsInstalled env exe new_binary h (swap env exe new_binary h).1
  unfolding swap
  swap_ok backup_apart new_apart backup_new installed =
      let old = backup_of env exe in
      let h1 = (rename env exe old h).1 in
      ground (
        arith,
        lookup-rename env exe old h old,
        lookup-rename env exe old h new_binary,
        lookup-rename env new_binary exe h1 exe,
        lookup-rename env new_binary exe h1 old,
        eq_iff exe exe,
        eq_iff old old,
        eq_iff exe old,
        eq_iff old exe,
        eq_iff exe new_binary,
        eq_iff new_binary old,
        eq_iff old new_binary,
      )

  swap_failed :
      {e : UpdateError}
      → str_eq exe (backup_of env exe) ≡ false
      → (swap env exe new_binary h).0 ≡ some e
      → KeepsOld env exe h (swap env exe new_binary h).1
  unfolding swap
  swap_failed backup_apart failed =
      let old = backup_of env exe in
      let h1 = (rename env exe old h).1 in
      let h2 = (rename env new_binary exe h1).1 in
      elim (Bool-cases (rename env exe old h).0) [
        | inr not_backed_up ↦ ground (arith, lookup-rename_failed env exe old h exe)
        | inl backed_up ↦
            let (bytes, held) = rename_moves env exe old h backed_up in
            ground (
              arith,
              lookup-rename env exe old h old,
              lookup-rename env exe old h exe,
              lookup-rename_failed env new_binary exe h1 exe,
              lookup-rename_failed env new_binary exe h1 old,
              lookup-rename env old exe h2 exe,
              lookup-rename_failed env old exe h2 exe,
              lookup-rename_failed env old exe h2 old,
              rename_works env old exe h2 {bytes = bytes},
              eq_iff exe exe,
              eq_iff old old,
              eq_iff exe old,
              eq_iff old exe,
            )
      ]

  swap_renames :
      (swap env exe new_binary h).0 ≡ none
      → ((rename env exe (backup_of env exe) h).0 ≡ true)
        × ((rename env new_binary exe (rename env exe (backup_of env exe) h).1).0 ≡ true)
  unfolding swap
  swap_renames installed = ground arith

  -- A successful installation has found both files.
  swap_moves :
      str_eq exe new_binary ≡ false
      → str_eq new_binary (backup_of env exe) ≡ false
      → (swap env exe new_binary h).0 ≡ none
      → ((old : Bytes) × (lookup exe h.files ≡ some old))
        × ((new : Bytes) × (lookup new_binary h.files ≡ some new))
  swap_moves new_apart backup_new installed =
      let old = backup_of env exe in
      let (backed_up, moved) = swap_renames installed in
      let (new, held) = rename_moves env new_binary exe (rename env exe old h).1 moved in
      (
        rename_moves env exe old h backed_up,
        (
          new,
          ground (
            arith,
            lookup-rename env exe old h new_binary,
            eq_iff old new_binary,
            eq_iff new_binary old,
          ),
        ),
      )

  -- An installation that reports success has the new file in the executable's place and the old
  -- executable as its backup. One that reports an error leaves the executable as it was, unless
  -- the rename that should restore it fails too: then the file is still there as the backup.
  pub swap-Swaps :
      str_eq exe (backup_of env exe) ≡ false
      → str_eq exe new_binary ≡ false
      → str_eq new_binary (backup_of env exe) ≡ false
      → Swaps env exe new_binary h (swap env exe new_binary h)
  swap-Swaps backup_apart new_apart backup_new =
      let after = (swap env exe new_binary h).1 in
      elim (Option-cases (swap env exe new_binary h).0) [
        | inl installed ↦
            subst (λ e. Swaps env exe new_binary h (e, after)) (sym installed)
              (swap_ok backup_apart new_apart backup_new installed)
        | inr (e, failed) ↦
            subst (λ o. Swaps env exe new_binary h (o, after)) (sym failed)
              (swap_failed backup_apart failed)
      ]

module _ (env : Platform) (exe : String) where
  -- The last steps of `Rollback`.
  rollback_restores :
      (h : Host) {old new : Bytes}
      → env.executable ≡ some exe
      → str_eq exe (backup_of env exe) ≡ false
      → env.remove_fails exe ≡ false
      → env.rename_fails (backup_of env exe) exe ≡ false
      → lookup exe h.files ≡ some new
      → lookup (backup_of env exe) h.files ≡ some old
      → ((rollback env h).0 ≡ none) × (lookup exe (rollback env h).1.files ≡ some old)
  unfolding rollback is_missing
  rollback_restores h {old} {new} known apart removable renamable current backup =
      let path = backup_of env exe in
      let h1 = (remove env exe h).1 in
      ground (
        arith,
        remove_works env exe h {bytes = new},
        lookup-remove env exe h path,
        rename_works env path exe h1 {bytes = old},
        lookup-rename env path exe h1 exe,
        eq_iff exe exe,
        eq_iff path exe,
      )

  -- `Rollback` after a successful installation puts the old executable back, if the files can be
  -- removed and renamed.
  pub rollback-swap :
      (h : Host) (new_binary : String)
      → env.executable ≡ some exe
      → str_eq exe (backup_of env exe) ≡ false
      → str_eq exe new_binary ≡ false
      → str_eq new_binary (backup_of env exe) ≡ false
      → env.remove_fails exe ≡ false
      → env.rename_fails (backup_of env exe) exe ≡ false
      → (swap env exe new_binary h).0 ≡ none
      → ((rollback env (swap env exe new_binary h).1).0 ≡ none)
        × (lookup exe (rollback env (swap env exe new_binary h).1).1.files ≡ lookup exe h.files)
  rollback-swap h new_binary known apart new_apart backup_new removable renamable installed =
      let ((old, held), (new, offered)) =
        swap_moves env exe new_binary h new_apart backup_new installed in
      let (in_place, backed_up) =
        swap_ok env exe new_binary h apart new_apart backup_new installed in
      let (fine, restored) =
        rollback_restores (swap env exe new_binary h).1 known apart removable renamable
          (in_place ∙ offered) (backed_up ∙ held) in
      (fine, restored ∙ sym held)
