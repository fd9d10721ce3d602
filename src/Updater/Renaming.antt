-- ===== src/Updater/Renaming.antt =====
-- What `rename` and `remove` leave at each path.
use truespec_agent.Prelude.{
  ◌≡◌, ap, true, false, none, some, String, str_eq, arith, inl, inr, Option-cases, if◌then◌else◌,
}
use truespec_agent.Buffer.{Bytes}
use truespec_agent.Host.{Host, lookup}
use truespec_agent.Host.{delete, move}
use truespec_agent.Host.Laws.{lookup-insert, lookup-delete}
use truespec_agent.Updater.Defs.{Platform, rename, remove}

module _ (env : Platform) (p q : String) (h : Host) where
  pub lookup-rename :
      (j : String)
      → (rename env p q h).0 ≡ true
      → lookup j (rename env p q h).1.files
        ≡ (if str_eq q j then lookup p h.files else if str_eq p j then none else lookup j h.files)
  unfolding move
  lookup-rename j renamed = elim (Option-cases (lookup p h.files)) [
    | inl missing ↦ ground arith
    | inr (bytes, found) ↦
        ground (arith, lookup-insert j q bytes (delete p h.files), lookup-delete j p h.files)
  ]

  pub rename_failed : (rename env p q h).0 ≡ false → (rename env p q h).1 ≡ h
  unfolding move
  rename_failed failed = ground arith

  pub lookup-rename_failed :
      (j : String)
      → (rename env p q h).0 ≡ false
      → lookup j (rename env p q h).1.files ≡ lookup j h.files
  lookup-rename_failed j failed = ap (λ (left : Host). lookup j left.files) (rename_failed failed)

  -- A rename that works has had a file to move.
  pub rename_moves : (rename env p q h).0 ≡ true → (bytes : Bytes) × (lookup p h.files ≡ some bytes)
  unfolding move
  rename_moves renamed = elim (Option-cases (lookup p h.files)) [
    | inl missing ↦ ground arith
    | inr found ↦ found
  ]

  -- A rename works unless the system refuses it or there is no such file.
  pub rename_works :
      {bytes : Bytes}
      → lookup p h.files ≡ some bytes
      → env.rename_fails p q ≡ false
      → (rename env p q h).0 ≡ true
  unfolding move
  rename_works found allowed = ground arith

module _ (env : Platform) (p : String) (h : Host) where
  pub lookup-remove :
      (j : String) → str_eq p j ≡ false → lookup j (remove env p h).1.files ≡ lookup j h.files
  unfolding remove
  lookup-remove j differ = ground (arith, lookup-delete j p h.files)

  pub remove_works :
      {bytes : Bytes}
      → lookup p h.files ≡ some bytes
      → env.remove_fails p ≡ false
      → ((remove env p h).0 ≡ true) × ((remove env p h).1 ≡ record h { files = delete p h.files })
  unfolding remove
  remove_works found allowed = ground arith
