-- ===== src/Config/Tests.antt =====
-- Runs of the configuration (internal/config/config.go), and the theorems at concrete inputs.
use truespec_agent.Prelude.{◌≡◌, refl, false, none, some, [], ◌∷◌, str_eq, ok, err, if◌then◌else◌}
use truespec_agent.Buffer.{done}
use truespec_agent.Host.{Host, read_file, write_path}
use truespec_agent.Config.Defs.{
  Config, ConfigCodec, config_not_found, load, save, validate_runtime, mark_bootstrapped,
  new_bootstrap_config, default_config,
}
use truespec_agent.Config.Laws.{load-save}

abbrev linux : Host
linux = record {
  files = [];
  getenv =
      λ k. if str_eq k "ORG_ID" then "org" else if str_eq k "INSTALL_TOKEN" then "token" else "";
  hostname = "host";
  windows = false;
  read_fails = λ k. false;
  stat_fails = λ k. false;
  mkdir_fails = λ k. false;
  write_outcome = λ k. done;
}

-- A codec for the one configuration that the tests store.
abbrev stored : Config
stored = mark_bootstrapped "a1" "https://api" (new_bootstrap_config linux)

abbrev codec : ConfigCodec
codec = record { marshal = λ c. some (1 ∷ []); unmarshal = λ bytes. some stored }

runnable : validate_runtime (default_config linux) ≡ none
unfolding validate_runtime default_config
runnable = refl

missing : load codec "/etc/config.json" linux ≡ err config_not_found
unfolding load read_file
missing = refl

load-save_example :
    load codec "/etc/config.json" (save codec "/etc/config.json" stored linux).1
    ≡ ok (record stored { install_token = "token" })
unfolding save write_path mark_bootstrapped new_bootstrap_config
load-save_example = load-save codec "/etc/config.json" stored linux refl refl refl refl
