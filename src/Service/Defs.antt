-- ===== src/Service/Defs.antt =====
-- The Windows service, internal/service/windows.go. The service manager is a parameter.
use truespec_agent.Prelude.{
  ℕ, zero, suc, ◌+◌, Bool, true, false, Option, none, some, List, [], ◌∷◌, ◌++◌, ltb, if◌then◌else◌,
}

pub data ServiceState : Type 0 where
  start_pending running stop_pending stopped paused : ServiceState

-- A status, and whether it accepts the commands of the service.
pub record Status : Type 0 where
  pub state : ServiceState
  pub accepts : Bool

-- A request of the service manager; the first brings the status that it knows.
pub data Request : Type 0 where
  interrogate : Status → Request
  stop shutdown pause continue_running : Request
  unexpected : ℕ → Request

abbrev pub reported : ServiceState → Status
reported state = record { state = state; accepts = false }

abbrev pub accepting : ServiceState → Status
accepting state = record { state = state; accepts = true }

-- The loop of `Execute` on the requests that come: the statuses it reports, and whether it ends. If
-- it does not, it waits for more requests.
unfoldable pub serve : List Request → List Status × Bool
serve [] = ([], false)
serve (interrogate status ∷ later) = (status ∷ (serve later).0, (serve later).1)
serve (stop ∷ later) = (reported stop_pending ∷ [], true)
serve (shutdown ∷ later) = (reported stop_pending ∷ [], true)
serve (pause ∷ later) = (accepting paused ∷ (serve later).0, (serve later).1)
serve (continue_running ∷ later) = (accepting running ∷ (serve later).0, (serve later).1)
serve (unexpected _ ∷ later) = serve later

-- `Execute`
unfoldable pub execute : List Request → List Status × Bool
unfolding serve
execute requests =
    let (answers, ended) = serve requests in
    (
      reported start_pending
          ∷ accepting running
          ∷ (answers ++ (if ended then reported stopped ∷ [] else [])),
      ended,
    )

-- The service manager as `UninstallWindowsService` meets it: which calls fail, the answers to
-- `Query` by their number, and the clock in milliseconds, when the time limit is set and at each
-- round of the loop.
pub record Scm : Type 0 where
  pub connect_fails : Bool
  pub open_fails : Bool
  pub query : ℕ → Option ServiceState
  pub control_fails : Bool
  pub limit_set_at : ℕ
  pub clock : ℕ → ℕ
  pub delete_fails : Bool

pub data UninstallError : Type 0 where
  not_connected not_found not_queried not_stopped timed_out not_deleted : UninstallError

-- How waiting ends: the service is stopped, an error, or no rounds are left.
pub data Waited : Type 0 where
  is_down : Waited
  fails : UninstallError → Waited
  no_rounds : Waited

abbrev pub is_stopped : ServiceState → Bool
is_stopped stopped = true
is_stopped _ = false

-- The loop that waits for the service to stop, at round `i`.
unfoldable pub wait_stopped : Scm → ℕ → ℕ → ServiceState → Waited
wait_stopped scm zero i status = no_rounds
wait_stopped scm (suc rounds) i status = elim (scm.query (suc i)) [
  | none ↦
      if is_stopped status
      then is_down
      else if ltb (scm.limit_set_at + 30_000) (scm.clock i)
      then fails timed_out
      else fails not_queried
  | some next ↦
      let later = wait_stopped scm rounds (suc i) next in
      if is_stopped status
      then is_down
      else if ltb (scm.limit_set_at + 30_000) (scm.clock i)
      then fails timed_out
      else later
]

-- Rounds enough for half a minute of pauses of 300 milliseconds.
abbrev pub max_rounds : ℕ
max_rounds = 102

-- The service is told to stop, if it runs, and waited for.
unfoldable pub stop_service : Scm → ServiceState → Waited
unfolding wait_stopped
stop_service scm status =
    if is_stopped status
    then is_down
    else if scm.control_fails
    then fails not_stopped
    else wait_stopped scm max_rounds 0 status

-- `UninstallWindowsService`: how it ends, and whether the service is deleted. `none` stands for a
-- loop that has not ended within the rounds.
unfoldable pub uninstall : Scm → Option (Option UninstallError) × Bool
unfolding stop_service
uninstall scm =
    if scm.connect_fails
    then (some (some not_connected), false)
    else if scm.open_fails
    then (some (some not_found), false)
    else elim (scm.query 0) [
      | none ↦ (some (some not_queried), false)
      | some status ↦ elim (stop_service scm status) [
        | no_rounds ↦ (none, false)
        | fails e ↦ (some (some e), false)
        | is_down ↦ if scm.delete_fails then (some (some not_deleted), false) else (some none, true)
      ]
    ]
