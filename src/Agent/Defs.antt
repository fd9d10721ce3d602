-- ===== src/Agent/Defs.antt =====
-- The start of the agent, steps 1 to 10 of `run` in cmd/agent/main.go.
use truespec_agent.Prelude.{false, none, some, String, Result, ok, err, if◌then◌else◌}
use truespec_agent.Prelude.Int.{ℤ}
use truespec_agent.Host.{Host}
use truespec_agent.Config.{
  Config, ConfigError, config_not_found, ConfigCodec, load, save, validate_bootstrap,
  validate_runtime, new_bootstrap_config,
}
use truespec_agent.Identity.{
  Tls, Manager, IdentityError, new_manager, verify_identity, needs_rebootstrap, Network,
  BootstrapError, run_bootstrap,
}

-- What a start meets: the codec of the configuration, crypto/tls, the server as each of the two
-- bootstraps finds it, and the time.
pub record World : Type 0 where
  pub codec : ConfigCodec
  pub tls : Tls
  pub at_first : Network
  pub at_renewal : Network
  pub now : ℤ

pub data AgentError : Type 0 where
  not_loaded not_stored not_runnable bootstrap_invalid : ConfigError → AgentError
  bootstrap_failed rebootstrap_failed : BootstrapError → AgentError
  no_manager_made not_verified : IdentityError → AgentError

module _ (w : World) (path : String) where
  -- Steps 3 to 5.
  unfoldable pub first_config : Host → Result AgentError Config × Host
  first_config h = elim (validate_bootstrap (new_bootstrap_config h)) [
    | some e ↦ (err (bootstrap_invalid e), h)
    | none ↦
        let (ran, h') = run_bootstrap w.at_first (new_bootstrap_config h) h in
        elim ran [
          | err e ↦ (err (bootstrap_failed e), h')
          | ok c ↦
              let (e, h'') = save w.codec path c h' in
              elim e [ some reason ↦ (err (not_stored reason), h'') | none ↦ (ok c, h'') ]
        ]
  ]

  -- Steps 1 to 6.
  unfoldable pub obtain_config : Host → Result AgentError Config × Host
  obtain_config h = elim (load w.codec path h) [
    | ok c ↦ (ok c, h)
    | err config_not_found ↦ first_config h
    | err e ↦ (err (not_loaded e), h)
  ]

  -- The new bootstrap of step 9: a failure to save the configuration is only logged.
  unfoldable pub renew : Config → Host → Result AgentError Manager × Host
  renew c h =
      let (ran, h') = run_bootstrap w.at_renewal (record c { bootstrapped = false }) h in
      elim ran [
        | err e ↦ (err (rebootstrap_failed e), h')
        | ok c' ↦
            let (e, h'') = save w.codec path c' h' in
            elim (new_manager c' h'') [
              | err reason ↦ (err (no_manager_made reason), h'')
              | ok m ↦ (ok m, h'')
            ]
      ]

  -- Step 10.
  unfoldable pub verified : Manager → Host → Result AgentError Manager × Host
  verified m h =
      let (e, m') = verify_identity w.tls h m in
      elim e [ some reason ↦ (err (not_verified reason), h) | none ↦ (ok m', h) ]

  -- Steps 8 to 10.
  unfoldable pub ensure_identity : Config → Host → Result AgentError Manager × Host
  unfolding renew verified
  ensure_identity c h = elim (new_manager c h) [
    | err e ↦ (err (no_manager_made e), h)
    | ok m ↦
        let (due, m') = needs_rebootstrap w.tls w.now h m in
        let (made, h') = (if due then renew c h else (ok m', h)) in
        elim made [ err e ↦ (err e, h') | ok m'' ↦ verified m'' h' ]
  ]

  -- Steps 1 to 10.
  unfoldable pub start_up : Host → Result AgentError Manager × Host
  unfolding obtain_config ensure_identity
  start_up h =
      let (got, h') = obtain_config h in
      elim got [
        | err e ↦ (err e, h')
        | ok c ↦ elim (validate_runtime c) [
          | some e ↦ (err (not_runnable e), h')
          | none ↦ ensure_identity c h'
        ]
      ]
