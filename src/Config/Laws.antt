-- ===== src/Config/Laws.antt =====
-- What the validations of internal/config/config.go accept, and files written by `Save`.
use truespec_agent.Prelude.{
  second, ◌*◌, ◌≡◌, ◌≢◌, ◌↔◌, true, false, none, some, String, str_eq, eq_iff, ok, arith, inl, inr,
  Option-cases, ◌∙◌, ap, refl, if◌then◌else◌,
}
use truespec_agent.Prelude.Int.{pos, ◌≤ℤ◌}
use truespec_agent.Buffer.{Bytes}
use truespec_agent.Host.{Host, lookup, read_file, write_path}
use truespec_agent.Host.Laws.{
  read_file-write_path, write_path-getenv, lookup-write_path, write_path-read_fails,
  write_path-mkdir_fails,
}
use truespec_agent.Config.Defs.{
  Config, ConfigCodec, or_env, override, load, save, validate_bootstrap, validate_runtime,
  mark_bootstrapped, new_bootstrap_config,
}

-- What the agent needs to run.
pub record IsRunnable (c : Config) : Type 0 where
  pub bootstrapped : c.bootstrapped ≡ true
  pub org_id : c.org_id ≢ ""
  pub agent_id : c.agent_id ≢ ""
  pub api_base_url : c.api_base_url ≢ ""
  pub interval : pos (10 * second) ≤ℤ c.collection_interval
  pub batch_min : pos 1 ≤ℤ c.batch_size
  pub batch_max : c.batch_size ≤ℤ pos 1000

-- `ValidateRuntime` accepts exactly the configurations that are marked as bootstrapped, have an
-- organisation, an agent identity and an address, collect at most every ten seconds, and have a
-- batch size from 1 to 1000.
pub validate_runtime_iff : (c : Config) → (validate_runtime c ≡ none) ↔ IsRunnable c
unfolding validate_runtime
validate_runtime_iff c = (
  λ h. ground (arith, eq_iff c.org_id "", eq_iff c.agent_id "", eq_iff c.api_base_url ""),
  λ h. ground (arith, eq_iff c.org_id "", eq_iff c.agent_id "", eq_iff c.api_base_url ""),
)

pub validate_bootstrap_iff :
    (c : Config) → (validate_bootstrap c ≡ none) ↔ ((c.org_id ≢ "") × (c.install_token ≢ ""))
unfolding validate_bootstrap
validate_bootstrap_iff c = ground (arith, eq_iff c.org_id "", eq_iff c.install_token "")

-- A configuration made from the environment and marked with the server's answer can be run exactly
-- if the organisation, the agent identity and the address are not empty.
pub mark_bootstrapped-IsRunnable_iff :
    (h : Host) (agent_id api_base_url : String)
    → IsRunnable (mark_bootstrapped agent_id api_base_url (new_bootstrap_config h))
      ↔ ((h.getenv "ORG_ID" ≢ "") × (agent_id ≢ "") × (api_base_url ≢ ""))
unfolding mark_bootstrapped new_bootstrap_config
mark_bootstrapped-IsRunnable_iff h agent_id api_base_url = ground arith

-- Once marked as bootstrapped, a configuration does not pass the validation for a bootstrap.
pub validate_bootstrap-mark_bootstrapped :
    (agent_id api_base_url : String) (c : Config)
    → validate_bootstrap (mark_bootstrapped agent_id api_base_url c) ≢ none
unfolding validate_bootstrap mark_bootstrapped
validate_bootstrap-mark_bootstrapped agent_id api_base_url c = ground arith

save_ok :
    (codec : ConfigCodec) (path : String) (c : Config) {bytes : Bytes} (h : Host)
    → codec.marshal c ≡ some bytes
    → (save codec path c h).0 ≡ none
    → ((write_path path bytes h).0 ≡ true) × ((save codec path c h).1 ≡ (write_path path bytes h).1)
unfolding save
save_ok codec path c h encoded saved = ground arith

load_ok :
    (codec : ConfigCodec) (path : String) (c : Config) {bytes : Bytes} (h : Host)
    → read_file h path ≡ ok bytes
    → codec.unmarshal bytes ≡ some c
    → load codec path h ≡ ok (override h c)
unfolding load
load_ok codec path c h found decodes = ground arith

override_same : (h h' : Host) (c : Config) → h'.getenv ≡ h.getenv → override h' c ≡ override h c
unfolding override
override_same h h' c same = rw same

or_env_lem :
    (value from_env : String)
    → or_env value from_env ≡ (if str_eq value "" then from_env else value)
or_env_lem value from_env = ground (arith, eq_iff value "", eq_iff from_env "")

override_lem :
    (h : Host) (c : Config)
    → override h c ≡ record c {
      org_id = if str_eq c.org_id "" then h.getenv "ORG_ID" else c.org_id;
      install_token =
          if str_eq c.install_token "" then h.getenv "INSTALL_TOKEN" else c.install_token;
    }
unfolding override
override_lem h c =
    rw
      (
        or_env_lem c.org_id (h.getenv "ORG_ID"),
        or_env_lem c.install_token (h.getenv "INSTALL_TOKEN"),
      )
      refl

-- What `Save` has written `Load` reads, if the codec reads back what it writes and the file can be
-- read. An empty organisation is taken from ORG_ID and an empty token from INSTALL_TOKEN; all the
-- rest is as it was saved.
pub load-save :
    (codec : ConfigCodec) (path : String) (c : Config) {bytes : Bytes} (h : Host)
    → codec.marshal c ≡ some bytes
    → codec.unmarshal bytes ≡ some c
    → (save codec path c h).0 ≡ none
    → h.read_fails path ≡ false
    → load codec path (save codec path c h).1
      ≡ ok (record c {
        org_id = if str_eq c.org_id "" then h.getenv "ORG_ID" else c.org_id;
        install_token =
            if str_eq c.install_token "" then h.getenv "INSTALL_TOKEN" else c.install_token;
      })
load-save codec path c {bytes} h encoded decodes saved reads =
    let (written, host) = save_ok codec path c h encoded saved in
    rw host (
      load_ok codec path c (write_path path bytes h).1
        (read_file-write_path path bytes h written reads) decodes
      ∙ ap ok (
          override_same h (write_path path bytes h).1 c (write_path-getenv path bytes h)
          ∙ override_lem h c))

-- `Save`, whether it succeeds or not, leaves the other files and the rest of the host alone.
module _ (codec : ConfigCodec) (path : String) (c : Config) (h : Host) where
  pub lookup-save :
      (q : String)
      → str_eq path q ≡ false
      → lookup q (save codec path c h).1.files ≡ lookup q h.files
  unfolding save
  lookup-save q differ = elim (Option-cases (codec.marshal c)) [
    | inl failed ↦ ground arith
    | inr (bytes, encoded) ↦ ground (arith, lookup-write_path path q bytes h differ)
  ]

  pub save-read_fails : (save codec path c h).1.read_fails ≡ h.read_fails
  unfolding save
  save-read_fails = elim (Option-cases (codec.marshal c)) [
    | inl failed ↦ ground arith
    | inr (bytes, encoded) ↦ ground (arith, write_path-read_fails path bytes h)
  ]

  pub save-mkdir_fails : (save codec path c h).1.mkdir_fails ≡ h.mkdir_fails
  unfolding save
  save-mkdir_fails = elim (Option-cases (codec.marshal c)) [
    | inl failed ↦ ground arith
    | inr (bytes, encoded) ↦ ground (arith, write_path-mkdir_fails path bytes h)
  ]
