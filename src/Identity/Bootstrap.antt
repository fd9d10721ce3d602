-- ===== src/Identity/Bootstrap.antt =====
-- The bootstrap in internal/identity/bootstrap.go: the request, the certificates, the whole flow.
use truespec_agent.Prelude.{
  ℕ, ◌==◌, Bool, Option, none, some, String, Result, ok, err, if◌then◌else◌,
}
use truespec_agent.Prelude.Int.{ℤ, pos}
use truespec_agent.Buffer.{Bytes}
use truespec_agent.Host.{Host, write_path}
use truespec_agent.Retry.{RetryError, retry_with_backoff}
use truespec_agent.Config.{Config, ConfigError, is_empty, validate_bootstrap, mark_bootstrapped}
use truespec_agent.Identity.Defs.{
  Manager, IdentityError, cert_unwritten, key_unwritten, ca_unwritten, new_manager,
}

pub record BootstrapRequest : Type 0 where
  pub org_id : String
  pub install_token : String
  pub hostname : String
  pub os : String
  pub arch : String
  pub agent_version : String

pub record BootstrapResponse : Type 0 where
  pub agent_id : String
  pub api_base_url : String
  pub certificate : Bytes
  pub private_key : Bytes
  pub ca_cert : Bytes
  pub policy : String
  pub expires_at : String

-- What the server answers: nothing, or a status with a body that decodes or does not.
pub data Answer : Type 0 where
  no_answer : Answer
  answer : ℕ → Option BootstrapResponse → Answer

pub data ApiError : Type 0 where
  marshal_failed create_failed http_failed decode_failed : ApiError
  bad_status : ℕ → ApiError

-- What a bootstrap meets: the server's answer to each attempt, by its number, at an address;
-- whether marshalling or the creation of the request fails; which wait is cancelled; the delays.
pub record Network : Type 0 where
  pub marshal_fails : Bool
  pub create_fails : String → Bool
  pub server : ℕ → String → BootstrapRequest → Answer
  pub cancelled : ℕ → Bool
  pub delay : ℕ → ℤ

abbrev pub default_bootstrap_url : String
default_bootstrap_url = "https://api.unitechio.space/api/v1/agents/bootstrap"

unfoldable pub bootstrap_url : Host → String
bootstrap_url h =
    if is_empty (h.getenv "BOOTSTRAP_URL") then default_bootstrap_url else h.getenv "BOOTSTRAP_URL"

-- The address that the server leaves out.
unfoldable pub with_base_url : BootstrapResponse → BootstrapResponse
with_base_url r =
    if is_empty r.api_base_url then record r { api_base_url = "https://api.unitechio.space" } else r

-- `callBootstrapAPI`, at the given attempt.
unfoldable pub call_bootstrap_api :
    Network → Host → BootstrapRequest → ℕ → Result ApiError BootstrapResponse
unfolding bootstrap_url with_base_url
call_bootstrap_api net h req attempt =
    if net.marshal_fails
    then err marshal_failed
    else if net.create_fails (bootstrap_url h)
    then err create_failed
    else elim (net.server attempt (bootstrap_url h) req) [
      | no_answer ↦ err http_failed
      | answer code body ↦
          if code == 200
          then elim body [ none ↦ err decode_failed | some r ↦ ok (with_base_url r) ]
          else err (bad_status code)
    ]

-- `saveCertificates`: three files, one after the other.
unfoldable pub save_certificates : Manager → BootstrapResponse → Host → Option IdentityError × Host
save_certificates m r h =
    let (cert_written, h1) = write_path m.cert_path r.certificate h in
    let (key_written, h2) = write_path m.key_path r.private_key h1 in
    let (ca_written, h3) = write_path m.ca_path r.ca_cert h2 in
    if cert_written
    then if key_written
      then if ca_written then (none, h3) else (some ca_unwritten, h3)
      else (some key_unwritten, h2)
    else (some cert_unwritten, h1)

pub data BootstrapError : Type 0 where
  invalid : ConfigError → BootstrapError
  no_manager : IdentityError → BootstrapError
  no_response : RetryError ApiError → BootstrapError
  not_saved : IdentityError → BootstrapError

abbrev pub hostname_or_unknown : String → String
hostname_or_unknown name = if is_empty name then "unknown" else name

unfoldable pub bootstrap_request : Config → Host → BootstrapRequest
bootstrap_request c h = record {
  org_id = c.org_id;
  install_token = c.install_token;
  hostname = hostname_or_unknown h.hostname;
  os = h.getenv "GOOS";
  arch = h.getenv "GOARCH";
  agent_version = "1.0.0";
}

-- The call of the API with ten attempts.
unfoldable pub request_identity :
    Network → Config → Host → Result (RetryError ApiError) BootstrapResponse
unfolding call_bootstrap_api bootstrap_request
request_identity net c h =
    (retry_with_backoff (call_bootstrap_api net h (bootstrap_request c h)) net.cancelled net.delay
      (pos 10)).0

-- `RunBootstrap`
unfoldable pub run_bootstrap : Network → Config → Host → Result BootstrapError Config × Host
unfolding request_identity save_certificates
run_bootstrap net c h = elim (validate_bootstrap c) [
  | some e ↦ (err (invalid e), h)
  | none ↦ elim (new_manager c h) [
    | err e ↦ (err (no_manager e), h)
    | ok m ↦ elim (request_identity net c h) [
      | err e ↦ (err (no_response e), h)
      | ok r ↦
          let (e, h') = save_certificates m r h in
          elim e [
            | some reason ↦ (err (not_saved reason), h')
            | none ↦ (ok (mark_bootstrapped r.agent_id r.api_base_url c), h')
          ]
    ]
  ]
]
