-- ===== src/Policy/Tests.antt =====
-- Runs of the policy engine (internal/policy/policy.go), and the theorems at concrete inputs.
use truespec_agent.Prelude.{◌≡◌, refl, false, none, some, List, [], ◌∷◌}
use truespec_agent.Prelude.Int.{pos, negsuc, ◌<ℤ◌}
use truespec_agent.Host.{Host, read_file}
use truespec_agent.Config.{default_config}
use truespec_agent.Config.Laws.{IsRunnable, validate_runtime_iff}
use truespec_agent.Config.{Config, validate_runtime}
use truespec_agent.Identity.{get_http_client}
use truespec_agent.Identity.Tests.{empty_host, lenient, certs}
use truespec_agent.Policy.Defs.{
  Policy, Engine, PolicyServer, default_policy, refresh, refreshes, get_collector_interval,
  is_collector_enabled,
}
use truespec_agent.Policy.Refreshing.{get_collector_interval-refreshes}

abbrev config : Config
config = default_config empty_host

abbrev engine : Engine
engine = record { cfg = config; identity = certs; current = default_policy (pos 0) }

abbrev with_certs : Host
with_certs = record empty_host { files = ("c", 1 ∷ []) ∷ ("k", 2 ∷ []) ∷ ("a", 3 ∷ []) ∷ [] }

abbrev strange : Policy
strange = record (default_policy (pos 7)) {
  collectors = ("cpu", record { enabled = false; interval = negsuc 4; options = [] }) ∷ [];
}

abbrev steps : List (Host × PolicyServer)
steps = (with_certs, λ url. none) ∷ (with_certs, λ url. some (200, some strange)) ∷ []

taken : (refreshes lenient steps engine).current ≡ strange
unfolding refreshes refresh get_http_client read_file
taken = refl

disabled : is_collector_enabled "cpu" (refreshes lenient steps engine) ≡ false
unfolding refreshes refresh get_http_client read_file is_collector_enabled
disabled = refl

accepted : validate_runtime config ≡ none
unfolding validate_runtime default_config
accepted = refl

runnable : IsRunnable config
runnable = (validate_runtime_iff config).0 accepted

get_collector_interval-refreshes_example :
    pos 0 <ℤ get_collector_interval "cpu" (refreshes lenient steps engine)
get_collector_interval-refreshes_example =
    get_collector_interval-refreshes lenient "cpu" steps engine runnable
