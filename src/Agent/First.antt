-- ===== src/Agent/First.antt =====
-- The first start of the agent (cmd/agent/main.go, `run`).
use truespec_agent.Prelude.{
  ◌≡◌, str_eq, sym, ap, ◌∙◌, true, false, none, some, String, ok, err, arith, inl, inr,
  Result-cases, Option-cases,
}
use truespec_agent.Host.{Host}
use truespec_agent.Config.{
  Config, ConfigError, invalid_bootstrap, config_not_found, load, validate_bootstrap,
  validate_runtime, new_bootstrap_config,
}
use truespec_agent.Identity.{
  Manager, IdentityError, BootstrapError, invalid, new_manager, run_bootstrap, needs_rebootstrap,
}
use truespec_agent.Identity.Rotation.{RefusesEmptyKey, needs_rebootstrap_always}
use truespec_agent.Identity.Enrolment.{run_bootstrap_spent, run_bootstrap_invalid}
use truespec_agent.Agent.Defs.{
  World, AgentError, rebootstrap_failed, not_runnable, no_manager_made, obtain_config, first_config,
  renew, ensure_identity, start_up,
}

-- The error is that of an empty token.
abbrev pub NoToken : AgentError
NoToken = rebootstrap_failed (invalid (invalid_bootstrap "install_token"))

spent_token :
    (c : Config)
    → str_eq c.install_token "" ≡ true
    → validate_runtime c ≡ none
    → validate_bootstrap (record c { bootstrapped = false })
      ≡ some (invalid_bootstrap "install_token")
unfolding validate_bootstrap validate_runtime
spent_token c spent runnable = ground arith

module _ (w : World) (path : String) where
  renew_failed :
      (c : Config) (h h' : Host) {e : BootstrapError}
      → run_bootstrap w.at_renewal (record c { bootstrapped = false }) h ≡ (err e, h')
      → renew w path c h ≡ (err (rebootstrap_failed e), h')
  unfolding renew
  renew_failed c h h' {e} failed =
      rw (failed, renew) (λ i. (err (rebootstrap_failed e), (failed i).1))

  renew_spent :
      (c : Config) (h : Host)
      → str_eq c.install_token "" ≡ true
      → validate_runtime c ≡ none
      → renew w path c h ≡ (err NoToken, h)
  renew_spent c h spent runnable = renew_failed c h h (
      run_bootstrap_invalid w.at_renewal (record c { bootstrapped = false }) h
        (spent_token c spent runnable))

  ensure_identity_due :
      (c : Config) (h h' : Host) {m : Manager} {e : AgentError}
      → new_manager c h ≡ ok m
      → (needs_rebootstrap w.tls w.now h m).0 ≡ true
      → renew w path c h ≡ (err e, h')
      → ensure_identity w path c h ≡ (err e, h')
  unfolding ensure_identity
  ensure_identity_due c h h' made due failed = ground arith

  start_up_runnable :
      {c : Config} (h : Host) {h' : Host}
      → obtain_config w path h ≡ (ok c, h')
      → validate_runtime c ≡ none
      → start_up w path h ≡ ensure_identity w path c h'
  unfolding start_up
  start_up_runnable h got runnable = ground arith

  -- With the configuration loaded or made, and no token in it, a start that gets as far as the
  -- certificate fails there for the missing token, whatever the certificate.
  start_up_fails :
      {c : Config} {m : Manager} (h : Host) {h' : Host}
      → RefusesEmptyKey w.tls
      → obtain_config w path h ≡ (ok c, h')
      → validate_runtime c ≡ none
      → str_eq c.install_token "" ≡ true
      → new_manager c h' ≡ ok m
      → start_up w path h ≡ (err NoToken, h')
  start_up_fails {c} {m} h {h'} refuses got runnable spent made =
      start_up_runnable h got runnable
      ∙ ensure_identity_due c h' h' made (needs_rebootstrap_always w.tls refuses w.now h' m)
          (renew_spent c h' spent runnable)

  start_up_not_obtained :
      (h : Host) {e : AgentError}
      → (obtain_config w path h).0 ≡ err e
      → (start_up w path h).0 ≡ err e
  unfolding start_up
  start_up_not_obtained h failed = ground arith

  start_up_not_runnable :
      (h : Host) {c : Config} {e : ConfigError}
      → (obtain_config w path h).0 ≡ ok c
      → validate_runtime c ≡ some e
      → (start_up w path h).0 ≡ err (not_runnable e)
  unfolding start_up
  start_up_not_runnable h got bad = ground arith

  start_up_no_manager :
      (h : Host) {c : Config} {e : IdentityError}
      → (obtain_config w path h).0 ≡ ok c
      → validate_runtime c ≡ none
      → new_manager c (obtain_config w path h).1 ≡ err e
      → (start_up w path h).0 ≡ err (no_manager_made e)
  unfolding start_up ensure_identity
  start_up_no_manager h got runnable failed = ground arith

  -- A configuration with no token in it never leads to a running agent.
  start_up_spent :
      (h : Host) {c : Config}
      → RefusesEmptyKey w.tls
      → (obtain_config w path h).0 ≡ ok c
      → str_eq c.install_token "" ≡ true
      → (e : AgentError) × ((start_up w path h).0 ≡ err e)
  start_up_spent h {c} refuses got spent = elim (Option-cases (validate_runtime c)) [
    | inr (e, bad) ↦ (not_runnable e, start_up_not_runnable h got bad)
    | inl runnable ↦ elim (Result-cases (new_manager c (obtain_config w path h).1)) [
      | inr (e, failed) ↦ (no_manager_made e, start_up_no_manager h got runnable failed)
      | inl (m, made) ↦ (
        NoToken,
        ap (λ out. out.0)
            (start_up_fails h refuses (λ i. (got i, (obtain_config w path h).1)) runnable spent
              made),
      )
    ]
  ]

  first_config_ran :
      (h : Host) {c : Config}
      → (first_config w path h).0 ≡ ok c
      → (run_bootstrap w.at_first (new_bootstrap_config h) h).0 ≡ ok c
  unfolding first_config
  first_config_ran h made = ground arith

  obtain_config_first :
      (h : Host)
      → load w.codec path h ≡ err config_not_found
      → obtain_config w path h ≡ first_config w path h
  unfolding obtain_config
  obtain_config_first h missing = ground arith

  -- If crypto/tls refuses an empty key, the first start, with no configuration stored, ends with
  -- an error whatever the server answers: the bootstrap clears the token, and the certificate it
  -- saves is then taken for invalid, so that a second bootstrap is tried, which needs the token.
  pub start_up_first_fails :
      (h : Host)
      → RefusesEmptyKey w.tls
      → load w.codec path h ≡ err config_not_found
      → (e : AgentError) × ((start_up w path h).0 ≡ err e)
  start_up_first_fails h refuses missing = elim (Result-cases (obtain_config w path h).0) [
    | inr (e, failed) ↦ (e, start_up_not_obtained h failed)
    | inl (c, got) ↦ start_up_spent h refuses got (
        run_bootstrap_spent w.at_first (new_bootstrap_config h) h
          (first_config_ran h (sym (ap (λ out. out.0) (obtain_config_first h missing)) ∙ got)))
  ]
