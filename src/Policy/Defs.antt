-- ===== src/Policy/Defs.antt =====
-- The policy engine, internal/policy/policy.go. Durations are in nanoseconds.
use truespec_agent.Prelude.{
  second, ℕ, ◌*◌, ◌==◌, ◌<>◌, Bool, true, false, not, Option, none, some, List, [], ◌∷◌, String,
  if◌then◌else◌,
}
use truespec_agent.Prelude.Int.{ℤ, pos, ltb_ℤ}
use truespec_agent.Host.{Host, lookup}
use truespec_agent.Config.{Config}
use truespec_agent.Identity.{Tls, Manager, IdentityError, get_http_client}

-- An option of a collector: a flag, or another JSON value as its text.
pub data OptionValue : Type 0 where
  flag : Bool → OptionValue
  json : String → OptionValue

pub record CollectorPolicy : Type 0 where
  pub enabled : Bool
  pub interval : ℤ
  pub options : List (String × OptionValue)

pub record UpdatePolicy : Type 0 where
  pub enabled : Bool
  pub channel : String
  pub check_interval : ℤ

pub record TelemetryPolicy : Type 0 where
  pub batch_size : ℤ
  pub flush_interval : ℤ
  pub compression : Bool

pub record Policy : Type 0 where
  pub version : String
  pub updated_at : ℤ
  pub collectors : List (String × CollectorPolicy)
  pub update : UpdatePolicy
  pub telemetry : TelemetryPolicy

pub record Engine : Type 0 where
  pub cfg : Config
  pub identity : Manager
  pub current : Policy

abbrev pub every : ℕ → CollectorPolicy
every seconds = record { enabled = true; interval = pos (seconds * second); options = [] }

unfoldable pub default_policy : ℤ → Policy
default_policy now = record {
  version = "1.0.0";
  updated_at = now;
  collectors =
      ("system", every 0)
      ∷ ("cpu", every 60)
      ∷ ("memory", every 60)
      ∷ ("disk", every 300)
      ∷ ("network", record (every 60) { options = ("collect_mac", flag false) ∷ [] })
      ∷ [];
  update = record { enabled = true; channel = "stable"; check_interval = pos (3600 * second) };
  telemetry = record {
    batch_size = pos 100;
    flush_interval = pos (300 * second);
    compression = true;
  };
}

unfoldable pub new_engine : ℤ → Config → Manager → Engine
unfolding default_policy
new_engine now cfg identity = record {
  cfg = cfg;
  identity = identity;
  current = default_policy now;
}

pub data PolicyError : Type 0 where
  no_client : IdentityError → PolicyError
  not_fetched not_decoded : PolicyError
  bad_status : ℕ → PolicyError

-- The server: at an address nothing, or a status and a body that decodes or does not.
abbrev pub PolicyServer : Type 0
PolicyServer = String → Option (ℕ × Option Policy)

abbrev pub policy_url : Engine → String
policy_url e = e.cfg.api_base_url <> "/api/v1/policy"

-- `Refresh`
unfoldable pub refresh : Tls → Host → PolicyServer → Engine → Option PolicyError × Engine
refresh tls h server e = elim (get_http_client tls h e.identity) [
  | some reason ↦ (some (no_client reason), e)
  | none ↦ elim (server (policy_url e)) [
    | none ↦ (some not_fetched, e)
    | some (code, body) ↦ if not (code == 200) then (some (bad_status code), e) else elim body [
      | none ↦ (some not_decoded, e)
      | some new_policy ↦ (none, record e { current = new_policy })
    ]
  ]
]

unfoldable pub is_collector_enabled : String → Engine → Bool
is_collector_enabled name e = elim (lookup name e.current.collectors) [
  | some p ↦ p.enabled
  | none ↦ false
]

unfoldable pub get_collector_interval : String → Engine → ℤ
get_collector_interval name e = elim (lookup name e.current.collectors) [
  | some p ↦ if ltb_ℤ (pos 0) p.interval then p.interval else e.cfg.collection_interval
  | none ↦ e.cfg.collection_interval
]

-- The refreshes of step 14 of `run` in cmd/agent/main.go, each with the files and the server that
-- it meets; an error is only logged.
unfoldable pub refreshes : Tls → List (Host × PolicyServer) → Engine → Engine
refreshes tls [] e = e
refreshes tls ((h, server) ∷ later) e = refreshes tls later (refresh tls h server e).1
