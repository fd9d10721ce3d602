-- ===== src/Identity/Deprecated.antt =====
-- The method `Bootstrap` of internal/identity/bootstrap.go, which nothing calls.
use truespec_agent.Prelude.{Option, none, some, String, ok, err, if◌then◌else◌}
use truespec_agent.Host.{Host}
use truespec_agent.Retry.{RetryError}
use truespec_agent.Config.{Config, ConfigCodec, is_empty, save, mark_bootstrapped}
use truespec_agent.Identity.Defs.{Manager, IdentityError}
use truespec_agent.Identity.Bootstrap.{ApiError, Network, request_identity, save_certificates}

pub data OldBootstrapError : Type 0 where
  no_token : OldBootstrapError
  call_failed : RetryError ApiError → OldBootstrapError
  unsaved : IdentityError → OldBootstrapError

-- `getConfigPath`
unfoldable pub config_path : Host → String
config_path h =
    if is_empty (h.getenv "AGENT_CONFIG")
    then if h.windows
      then "C:\\ProgramData\\unitechio\\Agent\\config.json"
      else "/etc/your-agent/config.json"
    else h.getenv "AGENT_CONFIG"

-- `Bootstrap`: the configuration in memory is marked before the certificates are saved.
unfoldable pub bootstrap :
    ConfigCodec
    → Network
    → Manager
    → Config
    → Host
    → Option OldBootstrapError × Manager × Config × Host
unfolding config_path
bootstrap codec net m c h =
    if is_empty c.install_token then (some no_token, m, c, h) else elim (request_identity net c h) [
      | err e ↦ (some (call_failed e), m, c, h)
      | ok r ↦
          let m' = record m { agent_id = r.agent_id } in
          let c' = mark_bootstrapped r.agent_id r.api_base_url c in
          let (failed, h1) = save_certificates m r h in
          let h2 = (save codec (config_path h1) c' h1).1 in
          elim failed [ some e ↦ (some (unsaved e), m', c', h1) | none ↦ (none, m', c', h2) ]
    ]
