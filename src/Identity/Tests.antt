-- ===== src/Identity/Tests.antt =====
-- Runs of the bootstrap (internal/identity/bootstrap.go), and the theorems at concrete inputs.
use truespec_agent.Prelude.{◌≡◌, refl, true, false, none, some, [], ◌∷◌, str_eq, ok, if◌then◌else◌}
use truespec_agent.Prelude.Int.{pos}
use truespec_agent.Buffer.{done}
use truespec_agent.Retry.{retry_with_backoff}
use truespec_agent.Host.{Host, write_path}
use truespec_agent.Config.{new_bootstrap_config, mark_bootstrapped, validate_bootstrap}
use truespec_agent.Identity.Defs.{Tls, Manager, new_manager, needs_rebootstrap}
use truespec_agent.Identity.Bootstrap.{BootstrapResponse, Network, answer, run_bootstrap}
use truespec_agent.Identity.Rotation.{needs_rebootstrap_always}
use truespec_agent.Identity.Enrolment.{Enrols, run_bootstrap-Enrols}

abbrev pub empty_host : Host
empty_host = record {
  files = [];
  getenv =
      λ k. if str_eq k "ORG_ID" then "org" else if str_eq k "INSTALL_TOKEN" then "token" else "";
  hostname = "host";
  windows = false;
  read_fails = λ k. false;
  stat_fails = λ k. false;
  mkdir_fails = λ k. false;
  write_outcome = λ k. done;
}

-- It takes every certificate with a key.
abbrev pub lenient : Tls
lenient = record {
  key_pair = λ cert key. elim key [ [] ↦ none | _ ∷ _ ↦ some cert ];
  parse_certificate = λ leaf. some (record { common_name = "a1"; not_after = pos 0 });
  append_certs_from_pem = λ ca. true;
}

abbrev pub response : BootstrapResponse
response = record {
  agent_id = "a1";
  api_base_url = "https://api";
  certificate = 1 ∷ [];
  private_key = 2 ∷ [];
  ca_cert = 3 ∷ [];
  policy = "";
  expires_at = "";
}

abbrev pub helpful : Network
helpful = record {
  marshal_fails = false;
  create_fails = λ url. false;
  server = λ attempt url req. answer 200 (some response);
  cancelled = λ attempt. false;
  delay = λ attempt. pos 0;
}

abbrev pub certs : Manager
certs = record { agent_id = ""; cert_path = "c"; key_path = "k"; ca_path = "a" }

needs_rebootstrap_always_example : (needs_rebootstrap lenient (pos 0) empty_host certs).0 ≡ true
needs_rebootstrap_always_example =
    needs_rebootstrap_always lenient (λ cert. refl) (pos 0) empty_host certs

run_bootstrap-Enrols_example :
    Enrols helpful
      (new_bootstrap_config empty_host)
      empty_host
      (run_bootstrap helpful (new_bootstrap_config empty_host) empty_host)
run_bootstrap-Enrols_example =
    run_bootstrap-Enrols helpful (new_bootstrap_config empty_host) empty_host

enrolled :
    (run_bootstrap helpful (new_bootstrap_config empty_host) empty_host).0
    ≡ ok (mark_bootstrapped "a1" "https://api" (new_bootstrap_config empty_host))
unfolding run_bootstrap validate_bootstrap new_bootstrap_config new_manager retry_with_backoff
    write_path
enrolled = refl
