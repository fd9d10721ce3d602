-- ===== src/Health/Defs.antt =====
-- The monitor and its heartbeats, internal/health/health.go. `MemoryUsageMB` is kept as the bytes
-- that it is computed from, a division by 2^20 that float64 does exactly below 2^53.
use truespec_agent.Prelude.{
  second, ℕ, ◌-◌, ◌*◌, ◌/◌, ◌==◌, ◌<>◌, ltb, Bool, true, false, not, Option, none, some, List, [],
  ◌∷◌, String, if◌then◌else◌,
}
use truespec_agent.Prelude.Int.{pos, leb_ℤ}
use truespec_agent.Buffer.{Bytes}
use truespec_agent.Host.{Host}
use truespec_agent.Config.{Config}
use truespec_agent.Identity.{Tls, Manager, IdentityError, get_http_client}

-- `closed` is the state of `stopCh`. Times are in nanoseconds.
pub record Monitor : Type 0 where
  pub cfg : Config
  pub identity : Manager
  pub start_time : ℕ
  pub closed : Bool

-- The field `Errors` is never set.
pub record HealthStatus : Type 0 where
  pub agent_id : String
  pub version : String
  pub status : String
  pub uptime : ℕ
  pub last_heartbeat : ℕ
  pub memory_bytes : ℕ
  pub goroutines : ℕ

-- What one heartbeat meets: the clock, `runtime.ReadMemStats` and `NumGoroutine`, the files and
-- crypto/tls, the JSON codec, and the server's answer, if any.
pub record Pulse : Type 0 where
  pub now : ℕ
  pub alloc : ℕ
  pub num_goroutine : ℕ
  pub host : Host
  pub tls : Tls
  pub marshal : HealthStatus → Option Bytes
  pub server : String → Bytes → Option ℕ

unfoldable pub new_monitor : ℕ → Config → Manager → Monitor
new_monitor now cfg identity = record {
  cfg = cfg;
  identity = identity;
  start_time = now;
  closed = false;
}

unfoldable pub get_health_status : Pulse → Monitor → HealthStatus
get_health_status p m = record {
  agent_id = m.identity.agent_id;
  version = "1.0.0";
  status = "healthy";
  uptime = (p.now - m.start_time) / second;
  last_heartbeat = p.now;
  memory_bytes = p.alloc;
  goroutines = p.num_goroutine;
}

pub data HealthError : Type 0 where
  high_memory high_goroutines : ℕ → HealthError

abbrev pub megabyte : ℕ
megabyte = 1024 * 1024

unfoldable pub check_health : Pulse → Monitor → Option HealthError
unfolding get_health_status
check_health p m =
    let status = get_health_status p m in
    if ltb (500 * megabyte) status.memory_bytes
    then some (high_memory status.memory_bytes)
    else if ltb 1000 status.goroutines
    then some (high_goroutines status.goroutines)
    else none

abbrev pub heartbeat_url : Monitor → String
heartbeat_url m = m.cfg.api_base_url <> "/api/v1/heartbeat"

-- How a heartbeat ends. All but the first two have made a request.
pub data Beat : Type 0 where
  no_client : IdentityError → Beat
  not_marshalled not_sent sent : Beat
  refused : ℕ → Beat

-- `sendHeartbeat`, and the request that it makes.
unfoldable pub send_heartbeat : Pulse → Monitor → Beat × Option (String × Bytes)
unfolding get_health_status
send_heartbeat p m = elim (get_http_client p.tls p.host m.identity) [
  | some reason ↦ (no_client reason, none)
  | none ↦ elim (p.marshal (get_health_status p m)) [
    | none ↦ (not_marshalled, none)
    | some body ↦
        let request = some (heartbeat_url m, body) in
        elim (p.server (heartbeat_url m) body) [
          | none ↦ (not_sent, request)
          | some code ↦ if not (code == 200) then (refused code, request) else (sent, request)
        ]
  ]
]

-- What the goroutine of `Start` sees in its `select`, in the order in which it takes them.
pub data Wake : Type 0 where
  tick : Pulse → Wake
  stop_seen context_done : Wake

-- The loop of `Start`: the heartbeats, and whether it returns. If not, it waits for more.
unfoldable pub beat_loop : List Wake → Monitor → List Beat × Bool
unfolding send_heartbeat
beat_loop [] m = ([], false)
beat_loop (tick p ∷ later) m =
    ((send_heartbeat p m).0 ∷ (beat_loop later m).0, (beat_loop later m).1)
beat_loop (stop_seen ∷ later) m = ([], true)
beat_loop (context_done ∷ later) m = ([], true)

-- The goroutine of `Start`, which begins with a heartbeat; `none` is the panic of `time.NewTicker`,
-- which takes positive intervals only.
unfoldable pub start_monitor : Pulse → List Wake → Monitor → Option (List Beat × Bool)
unfolding beat_loop
start_monitor first wakes m =
    if leb_ℤ m.cfg.heartbeat_interval (pos 0)
    then none
    else some ((send_heartbeat first m).0 ∷ (beat_loop wakes m).0, (beat_loop wakes m).1)

-- `Stop`; `none` is the panic of closing a closed channel.
unfoldable pub stop_monitor : Monitor → Option Monitor
stop_monitor m = if m.closed then none else some (record m { closed = true })
