-- ===== src/Identity/Enrolment.antt =====
-- What `RunBootstrap` (internal/identity/bootstrap.go) does to the configuration and the files.
use truespec_agent.Prelude.{
  ◌≡◌, refl, sym, subst, true, none, some, String, str_eq, Result, ok, err, arith, ◌⊎◌, inl, inr,
  Result-cases, Option-cases,
}
use truespec_agent.Host.{Host}
use truespec_agent.Retry.{RetryError}
use truespec_agent.Config.{Config, ConfigError, validate_bootstrap, mark_bootstrapped}
use truespec_agent.Identity.Defs.{Manager, IdentityError, new_manager}
use truespec_agent.Identity.Saving.{
  HasClash, HoldsCertificates, IsUnsaved, save_certificates-IsUnsaved, saved-HoldsCertificates,
}
use truespec_agent.Identity.Bootstrap.{
  BootstrapResponse, Network, ApiError, BootstrapError, invalid, no_manager, no_response, not_saved,
  save_certificates, request_identity, run_bootstrap,
}

-- What a run has done, by its result. It succeeds with the configuration marked by the server's
-- answer, whose three files are on the disk; if they cannot all be saved, the error says which is
-- not; any failure before they are saved leaves the disk as it was.
abbrev pub Enrols : Network → Config → Host → Result BootstrapError Config × Host → Type 0
Enrols net c h (ok c', h') =
    (r : BootstrapResponse) × (m : Manager) × (validate_bootstrap c ≡ none)
    × (request_identity net c h ≡ ok r)
    × (new_manager c h ≡ ok m)
    × (c' ≡ mark_bootstrapped r.agent_id r.api_base_url c)
    × (HasClash m ⊎ HoldsCertificates m r h')
Enrols net c h (err (not_saved e), h') =
    (r : BootstrapResponse) × (m : Manager) × (validate_bootstrap c ≡ none)
    × (request_identity net c h ≡ ok r)
    × (new_manager c h ≡ ok m)
    × IsUnsaved m r h e h'
Enrols net c h (err _, h') = h' ≡ h

module _ (net : Network) (c : Config) (h : Host) where
  pub run_bootstrap_invalid :
      {e : ConfigError}
      → validate_bootstrap c ≡ some e
      → run_bootstrap net c h ≡ (err (invalid e), h)
  unfolding run_bootstrap
  run_bootstrap_invalid bad = ground arith

  run_bootstrap_no_manager :
      {e : IdentityError}
      → validate_bootstrap c ≡ none
      → new_manager c h ≡ err e
      → run_bootstrap net c h ≡ (err (no_manager e), h)
  unfolding run_bootstrap
  run_bootstrap_no_manager valid failed = ground arith

  run_bootstrap_no_response :
      {e : RetryError ApiError} {m : Manager}
      → validate_bootstrap c ≡ none
      → new_manager c h ≡ ok m
      → request_identity net c h ≡ err e
      → run_bootstrap net c h ≡ (err (no_response e), h)
  unfolding run_bootstrap
  run_bootstrap_no_response valid made failed = ground arith

  run_bootstrap_not_saved :
      {e : IdentityError} {m : Manager} {r : BootstrapResponse}
      → validate_bootstrap c ≡ none
      → new_manager c h ≡ ok m
      → request_identity net c h ≡ ok r
      → (save_certificates m r h).0 ≡ some e
      → run_bootstrap net c h ≡ (err (not_saved e), (save_certificates m r h).1)
  unfolding run_bootstrap
  run_bootstrap_not_saved valid made answered failed = ground arith

  pub run_bootstrap_ok :
      {m : Manager} {r : BootstrapResponse}
      → validate_bootstrap c ≡ none
      → new_manager c h ≡ ok m
      → request_identity net c h ≡ ok r
      → (save_certificates m r h).0 ≡ none
      → run_bootstrap net c h
        ≡ (ok (mark_bootstrapped r.agent_id r.api_base_url c), (save_certificates m r h).1)
  unfolding run_bootstrap
  run_bootstrap_ok valid made answered saved = ground arith

  -- `RunBootstrap` succeeds only with a valid configuration and a server's answer, and gives the
  -- configuration marked by the answer. Then the certificate, the key and the CA certificate of the
  -- answer are in their files, unless two of the three paths are one. If a file cannot be written
  -- in full, there is an error that says which: those before it are written, and those after it
  -- are not touched. Any failure before that leaves the disk as it was.
  pub run_bootstrap-Enrols : Enrols net c h (run_bootstrap net c h)
  run_bootstrap-Enrols = elim (Option-cases (validate_bootstrap c)) [
    | inr (e, bad) ↦ subst (λ out. Enrols net c h out) (sym (run_bootstrap_invalid bad)) refl
    | inl valid ↦ elim (Result-cases (new_manager c h)) [
      | inr (e, failed) ↦
          subst (λ out. Enrols net c h out) (sym (run_bootstrap_no_manager valid failed)) refl
      | inl (m, made) ↦ elim (Result-cases (request_identity net c h)) [
        | inr (e, failed) ↦
            subst (λ out. Enrols net c h out) (sym (run_bootstrap_no_response valid made failed))
              refl
        | inl (r, answered) ↦ elim (Option-cases (save_certificates m r h).0) [
          | inr (e, failed) ↦
              subst (λ out. Enrols net c h out)
                (sym (run_bootstrap_not_saved valid made answered failed))
                (r, m, valid, answered, made, save_certificates-IsUnsaved m r h failed)
          | inl saved ↦
              subst (λ out. Enrols net c h out) (sym (run_bootstrap_ok valid made answered saved))
                (r, m, valid, answered, made, refl, saved-HoldsCertificates m r h saved)
        ]
      ]
    ]
  ]

marked_spent :
    (agent_id api_base_url : String) (c : Config)
    → str_eq (mark_bootstrapped agent_id api_base_url c).install_token "" ≡ true
unfolding mark_bootstrapped
marked_spent agent_id api_base_url c = refl

-- The configuration that a bootstrap gives has no token.
pub run_bootstrap_spent :
    (net : Network) (c : Config) (h : Host) {c' : Config}
    → (run_bootstrap net c h).0 ≡ ok c'
    → str_eq c'.install_token "" ≡ true
run_bootstrap_spent net c h {c'} ran =
    let (r, m, valid, answered, made, marked, saved) =
      subst (λ out. Enrols net c h (out, (run_bootstrap net c h).1)) ran
        (run_bootstrap-Enrols net c h) in
    rw marked (marked_spent r.agent_id r.api_base_url c)
