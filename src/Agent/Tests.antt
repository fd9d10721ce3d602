-- ===== src/Agent/Tests.antt =====
-- Starts of the agent (cmd/agent/main.go), and the theorems at concrete inputs.
use truespec_agent.Prelude.{◌≡◌, refl, some, [], ◌∷◌, ok, err}
use truespec_agent.Prelude.Int.{pos}
use truespec_agent.Retry.{retry_with_backoff}
use truespec_agent.Host.{Host, read_file, write_path}
use truespec_agent.Config.{
  Config, ConfigCodec, load, override, new_bootstrap_config, mark_bootstrapped, validate_runtime,
}
use truespec_agent.Identity.{Manager, new_manager, request_identity, save_certificates}
use truespec_agent.Identity.Tests.{empty_host, lenient, response, helpful}
use truespec_agent.Agent.Defs.{World, AgentError, start_up}
use truespec_agent.Prelude.{true, false, none}
use truespec_agent.Scheduler.{Job, Scheduler, new_scheduler, start}
use truespec_agent.Agent.Components.{Components, default_config_path, browser_command}
use truespec_agent.Agent.First.{start_up_first_fails}
use truespec_agent.Agent.Restart.{start_up_restarts}

-- The configuration that the codec reads.
abbrev saved_config : Config
saved_config = mark_bootstrapped "a1" "https://api" (new_bootstrap_config empty_host)

-- With the token of the environment.
abbrev loaded_config : Config
loaded_config = override empty_host saved_config

abbrev json : ConfigCodec
json = record { marshal = λ c. some (4 ∷ []); unmarshal = λ bytes. some saved_config }

abbrev world : World
world = record {
  codec = json;
  tls = lenient;
  at_first = helpful;
  at_renewal = helpful;
  now = pos 0;
}

abbrev enrolled_host : Host
enrolled_host = record empty_host { files = ("agent.json", 4 ∷ []) ∷ [] }

abbrev manager : Manager
manager = record {
  agent_id = "";
  cert_path = "/var/lib/your-agent/certs/agent.crt";
  key_path = "/var/lib/your-agent/certs/agent.key";
  ca_path = "/var/lib/your-agent/certs/ca.crt";
}

start_up_first_fails_example :
    (e : AgentError) × ((start_up world "agent.json" empty_host).0 ≡ err e)
unfolding load read_file
start_up_first_fails_example =
    start_up_first_fails world "agent.json" empty_host (λ cert. refl) refl

start_up_restarts_example :
    (start_up world "agent.json" enrolled_host).0 ≡ ok (record manager { agent_id = "a1" })
unfolding load read_file override mark_bootstrapped new_bootstrap_config validate_runtime
    new_manager request_identity retry_with_backoff save_certificates write_path
start_up_restarts_example =
    start_up_restarts world "agent.json" {c = loaded_config} {m = manager} {r = response}
      {leaf = 1 ∷ []} {x = record { common_name = "a1"; not_after = pos 0 }} enrolled_host
      (λ cert. refl) refl refl refl refl refl refl (refl, refl, refl) refl refl refl refl refl refl

abbrev first_job : Job
first_job = record { name = "cpu"; in_background = false }

-- The context is cancelled, and the job ends before the scheduler is stopped.
abbrev left : Scheduler
left = record (start (new_scheduler ("cpu" ∷ []))) { cancelled = true; jobs = [] }

config_path : default_config_path "linux" empty_host ≡ "/etc/unitechio/agent/config.json"
unfolding default_config_path
config_path = refl

browser : browser_command "plan9" "http://localhost:8080" ≡ none
unfolding browser_command
browser = refl
