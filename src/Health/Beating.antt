-- ===== src/Health/Beating.antt =====
-- The heartbeats of the monitor (internal/health/health.go).
use truespec_agent.Prelude.{
  ℕ, ◌*◌, ◌≤◌, ◌<◌, ◌≡◌, ◌↔◌, Option, none, some, arith, inl, inr, Option-cases,
}
use truespec_agent.Config.{Config}
use truespec_agent.Identity.{get_http_client}
use truespec_agent.Health.Defs.{
  Monitor, Pulse, high_memory, get_health_status, check_health, megabyte, sent, send_heartbeat,
  heartbeat_url,
}

-- The server's answer to the status, if it can be marshalled.
abbrev pub answer : Pulse → Monitor → Option ℕ
answer p m = elim (p.marshal (get_health_status p m)) [
  | none ↦ none
  | some body ↦ p.server (heartbeat_url m) body
]

-- A heartbeat counts as sent exactly if there is a client, the status can be marshalled, and the
-- server answers the request at the heartbeat's address with 200.
pub send_heartbeat-sent_iff :
    (p : Pulse) (m : Monitor)
    → ((send_heartbeat p m).0 ≡ sent)
      ↔ ((get_http_client p.tls p.host m.identity ≡ none) × (answer p m ≡ some 200))
unfolding send_heartbeat
send_heartbeat-sent_iff p m = elim (Option-cases (get_http_client p.tls p.host m.identity)) [
  | inr (reason, failed) ↦ ground arith
  | inl connected ↦ elim (Option-cases (p.marshal (get_health_status p m))) [
    | inl failed ↦ ground arith
    | inr (body, encoded) ↦ elim (Option-cases (p.server (heartbeat_url m) body)) [
      | inl silent ↦ ground arith
      | inr (code, replied) ↦ ground arith
    ]
  ]
]

-- `CheckHealth` reports no error exactly up to 500 MB and 1000 goroutines, and names the memory
-- first when both are too many.
pub check_health_iff :
    (p : Pulse) (m : Monitor)
    → ((check_health p m ≡ none) ↔ ((p.alloc ≤ 500 * megabyte) × (p.num_goroutine ≤ 1000)))
      × ((check_health p m ≡ some (high_memory p.alloc)) ↔ (500 * megabyte < p.alloc))
unfolding check_health
check_health_iff p m = ground arith
