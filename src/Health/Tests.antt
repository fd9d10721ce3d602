-- ===== src/Health/Tests.antt =====
-- Runs of the monitor (internal/health/health.go), and the theorems at concrete inputs.
use truespec_agent.Prelude.{◌≡◌, ◌*◌, refl, true, false, some, List, [], ◌∷◌}
use truespec_agent.Host.{read_file}
use truespec_agent.Config.{Config, default_config}
use truespec_agent.Identity.{get_http_client}
use truespec_agent.Identity.Tests.{empty_host, lenient, certs}
use truespec_agent.Health.Defs.{
  Monitor, Pulse, get_health_status, check_health, high_memory, megabyte, sent, refused, Wake, tick,
  stop_seen, start_monitor,
}

abbrev monitor : Monitor
monitor = record {
  cfg = default_config empty_host;
  identity = certs;
  start_time = 0;
  closed = false;
}

abbrev pulse : Pulse
pulse = record {
  now = 5_000_000_000;
  alloc = 600 * megabyte;
  num_goroutine = 10;
  host = record empty_host { files = ("c", 1 ∷ []) ∷ ("k", 2 ∷ []) ∷ ("a", 3 ∷ []) ∷ [] };
  tls = lenient;
  marshal = λ status. some (7 ∷ []);
  server = λ url body. some 200;
}

abbrev wakes : List Wake
wakes = tick (record pulse { server = λ url body. some 503 }) ∷ stop_seen ∷ tick pulse ∷ []

-- A monitor that finds too much memory in use still reports that it is healthy.
healthy_all_the_same :
    (check_health pulse monitor ≡ some (high_memory (600 * megabyte)))
    × ((get_health_status pulse monitor).status ≡ "healthy")
unfolding check_health get_health_status
healthy_all_the_same = (refl, refl)

two_beats : start_monitor pulse wakes monitor ≡ some (sent ∷ refused 503 ∷ [], true)
unfolding start_monitor get_http_client read_file default_config
two_beats = refl
