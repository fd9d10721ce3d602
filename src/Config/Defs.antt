-- ===== src/Config/Defs.antt =====
-- The configuration and its operations, internal/config/config.go. Durations are in nanoseconds.
use truespec_agent.Prelude.{
  second, ◌*◌, Bool, true, false, not, ◌||◌, Option, none, some, String, str_eq, Result, ok, err,
  if◌then◌else◌,
}
use truespec_agent.Prelude.Int.{ℤ, pos, ltb_ℤ}
use truespec_agent.Buffer.{Bytes}
use truespec_agent.Host.{Host, not_exist, other_error, read_file, write_path}

pub record TlsConfig : Type 0 where
  pub cert_file : String
  pub key_file : String
  pub ca_file : String
  pub insecure_skip_verify : Bool

pub record Config : Type 0 where
  pub bootstrapped : Bool
  pub org_id : String
  pub agent_id : String
  pub install_token : String
  pub api_base_url : String
  pub tls_config : TlsConfig
  pub collection_interval : ℤ
  pub batch_size : ℤ
  pub max_buffer_size : ℤ
  pub buffer_dir : String
  pub heartbeat_interval : ℤ
  pub log_level : String
  pub log_file : String
  pub update_enabled : Bool
  pub update_check_interval : ℤ

-- The errors that wrap `ErrInvalidBootstrap` and `ErrInvalidRuntime` name the field.
pub data ConfigError : Type 0 where
  config_not_found read_failed parse_failed not_bootstrapped : ConfigError
  marshal_failed mkdir_failed write_failed : ConfigError
  invalid_bootstrap invalid_runtime : String → ConfigError

-- `json.MarshalIndent` and `json.Unmarshal` at `Config`; `none` is an error.
pub record ConfigCodec : Type 0 where
  pub marshal : Config → Option Bytes
  pub unmarshal : Bytes → Option Config

abbrev pub is_empty : String → Bool
is_empty s = str_eq s ""

-- `if cfg.OrgID == "" { … }` in `Load`: an empty value yields to one of the environment.
abbrev pub or_env : String → String → String
or_env value from_env =
    if is_empty value then (if is_empty from_env then value else from_env) else value

unfoldable pub override : Host → Config → Config
override h c = record c {
  org_id = or_env c.org_id (h.getenv "ORG_ID");
  install_token = or_env c.install_token (h.getenv "INSTALL_TOKEN");
}

module _ (codec : ConfigCodec) where
  unfoldable pub load : String → Host → Result ConfigError Config
  unfolding override
  load path h = elim (read_file h path) [
    | err not_exist ↦ err config_not_found
    | err other_error ↦ err read_failed
    | ok bytes ↦ elim (codec.unmarshal bytes) [
      | none ↦ err parse_failed
      | some c ↦ ok (override h c)
    ]
  ]

  unfoldable pub save : String → Config → Host → Option ConfigError × Host
  save path c h = elim (codec.marshal c) [
    | none ↦ (some marshal_failed, h)
    | some bytes ↦
        let (written, h') = write_path path bytes h in
        if h.mkdir_fails path
        then (some mkdir_failed, h)
        else if written
        then (none, h')
        else (some write_failed, h')
  ]

unfoldable pub validate_bootstrap : Config → Option ConfigError
validate_bootstrap c =
    if is_empty c.org_id
    then some (invalid_bootstrap "org_id")
    else if is_empty c.install_token
    then some (invalid_bootstrap "install_token")
    else none

unfoldable pub validate_runtime : Config → Option ConfigError
validate_runtime c =
    if not c.bootstrapped
    then some not_bootstrapped
    else if is_empty c.org_id
    then some (invalid_runtime "org_id")
    else if is_empty c.agent_id
    then some (invalid_runtime "agent_id")
    else if is_empty c.api_base_url
    then some (invalid_runtime "api_base_url")
    else if ltb_ℤ c.collection_interval (pos (10 * second))
    then some (invalid_runtime "collection_interval")
    else if ltb_ℤ c.batch_size (pos 1) || ltb_ℤ (pos 1000) c.batch_size
    then some (invalid_runtime "batch_size")
    else none

unfoldable pub mark_bootstrapped : String → String → Config → Config
mark_bootstrapped agent_id api_base_url c = record c {
  bootstrapped = true;
  agent_id = agent_id;
  api_base_url = api_base_url;
  install_token = "";
}

-- `getDefaultBufferDir`, `getDefaultLogFile` and the three paths of certificates.
unfoldable pub default_buffer_dir : Bool → String
default_buffer_dir windows =
    if windows then "C:\\ProgramData\\unitechio\\Agent\\buffer" else "/var/lib/your-agent/buffer"

unfoldable pub default_log_file : Bool → String
default_log_file windows =
    if windows
    then "C:\\ProgramData\\unitechio\\Agent\\logs\\agent.log"
    else "/var/log/your-agent/agent.log"

unfoldable pub default_cert_path : Bool → String
default_cert_path windows =
    if windows
    then "C:\\ProgramData\\unitechio\\Agent\\certs\\agent.crt"
    else "/var/lib/your-agent/certs/agent.crt"

unfoldable pub default_key_path : Bool → String
default_key_path windows =
    if windows
    then "C:\\ProgramData\\unitechio\\Agent\\certs\\agent.key"
    else "/var/lib/your-agent/certs/agent.key"

unfoldable pub default_ca_path : Bool → String
default_ca_path windows =
    if windows
    then "C:\\ProgramData\\unitechio\\Agent\\certs\\ca.crt"
    else "/var/lib/your-agent/certs/ca.crt"

unfoldable pub new_bootstrap_config : Host → Config
unfolding default_buffer_dir default_log_file default_cert_path default_key_path default_ca_path
new_bootstrap_config h = record {
  bootstrapped = false;
  org_id = h.getenv "ORG_ID";
  agent_id = "";
  install_token = h.getenv "INSTALL_TOKEN";
  api_base_url = "";
  tls_config = record {
    cert_file = default_cert_path h.windows;
    key_file = default_key_path h.windows;
    ca_file = default_ca_path h.windows;
    insecure_skip_verify = false;
  };
  collection_interval = pos (60 * second);
  batch_size = pos 100;
  max_buffer_size = pos (100 * 1024 * 1024);
  buffer_dir = default_buffer_dir h.windows;
  heartbeat_interval = pos (300 * second);
  log_level = "info";
  log_file = default_log_file h.windows;
  update_enabled = true;
  update_check_interval = pos (3600 * second);
}

unfoldable pub default_config : Host → Config
unfolding new_bootstrap_config
default_config h = record (new_bootstrap_config h) {
  bootstrapped = true;
  agent_id = "test-agent-id";
  api_base_url = "https://api.unitechio.space";
}
