-- ===== src/Updater/Making.antt =====
-- `NewUpdater` in internal/updater/updater.go.
use truespec_agent.Prelude.{none, some, String, Result, ok, err}
use truespec_agent.Host.{Host}
use truespec_agent.Config.{Config}
use truespec_agent.Identity.{Tls, Manager, IdentityError, get_http_client}
use truespec_agent.Updater.Defs.{Updater}

unfoldable pub new_updater : Tls → Host → Config → Manager → String → Result IdentityError Updater
new_updater tls h cfg identity version = elim (get_http_client tls h identity) [
  | some e ↦ err e
  | none ↦ ok (record { api_base_url = cfg.api_base_url; current_version = version })
]
