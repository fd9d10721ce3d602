-- ===== src/Service/Uninstall.antt =====
-- `UninstallWindowsService` ends, and deletes no service that runs (internal/service/windows.go).
use truespec_agent.Prelude.{
  ℕ, zero, suc, ◌+◌, ◌*◌, ◌≤◌, ◌≡◌, ◌≢◌, refl, ap, ◌∙◌, true, false, Option, none, some, arith, ltb,
  inl, inr, Bool-cases, Option-cases,
}
use truespec_agent.Service.Defs.{
  ServiceState, start_pending, running, stop_pending, stopped, paused, Scm, UninstallError, is_down,
  no_rounds, is_stopped, wait_stopped, max_rounds, stop_service, uninstall,
}

-- What package time documents of `Sleep`: each round begins 300 milliseconds after the one before,
-- or later.
abbrev pub Passes : Scm → Type 0
Passes scm = (scm.limit_set_at ≤ scm.clock 0) × ((i : ℕ) → scm.clock i + 300 ≤ scm.clock (suc i))

clock_after : (scm : Scm) (i : ℕ) → Passes scm → scm.limit_set_at + 300 * i ≤ scm.clock i
clock_after scm zero (first, later) = omega (arith, first)
clock_after scm (suc i) (first, later) = omega (arith, later i, clock_after scm i (first, later))

wait_ends :
    (scm : Scm) (rounds i : ℕ) (status : ServiceState)
    → Passes scm
    → rounds + i ≡ max_rounds
    → i ≤ 101
    → wait_stopped scm rounds i status ≢ no_rounds
unfolding wait_stopped
wait_ends scm zero i status passes total bound = absurd (omega arith)
wait_ends scm (suc rounds) i status passes total bound = elim (Option-cases (scm.query (suc i))) [
  | inl failed ↦ ground arith
  | inr (next, answered) ↦ elim (Bool-cases (ltb i 101)) [
    | inl early ↦
        let total' : rounds + suc i ≡ max_rounds = omega (arith, total) in
        let bound' : suc i ≤ 101 = ground arith in
        ground (arith, wait_ends scm rounds (suc i) next passes total' bound')
    | inr last ↦ ground (arith, clock_after scm i passes)
  ]
]

stop_service_ends :
    (scm : Scm) (status : ServiceState) → Passes scm → stop_service scm status ≢ no_rounds
unfolding stop_service
stop_service_ends scm status passes = ground (arith, wait_ends scm max_rounds 0 status passes)

uninstall_ends : (scm : Scm) → Passes scm → (uninstall scm).0 ≢ none
unfolding uninstall
uninstall_ends scm passes = elim (Option-cases (scm.query 0)) [
  | inl failed ↦ ground arith
  | inr (status, asked) ↦ ground (arith, stop_service_ends scm status passes)
]

-- If each pause of 300 milliseconds lasts at least that long, `UninstallWindowsService` returns,
-- with an error or without: the rounds of the model are enough for its loop, whatever the service
-- manager answers.
pub uninstall_returns :
    (scm : Scm) → Passes scm → (e : Option UninstallError) × ((uninstall scm).0 ≡ some e)
uninstall_returns scm passes = elim (Option-cases (uninstall scm).0) [
  | inr (e, ended) ↦ (e, ended)
  | inl endless ↦ absurd (uninstall_ends scm passes endless)
]

stopped_of : (status : ServiceState) → is_stopped status ≡ true → status ≡ stopped
stopped_of stopped halted = refl
stopped_of start_pending halted = ground arith
stopped_of running halted = ground arith
stopped_of stop_pending halted = ground arith
stopped_of paused halted = ground arith

wait_goes_on :
    (scm : Scm) (rounds i : ℕ) (status : ServiceState) {next : ServiceState}
    → scm.query (suc i) ≡ some next
    → is_stopped status ≡ false
    → wait_stopped scm (suc rounds) i status ≡ is_down
    → wait_stopped scm rounds (suc i) next ≡ is_down
unfolding wait_stopped
wait_goes_on scm rounds i status answered runs down = ground arith

uninstall_unasked : (scm : Scm) → scm.query 0 ≡ none → (uninstall scm).1 ≢ true
unfolding uninstall
uninstall_unasked scm failed = ground arith

uninstall_waits :
    (scm : Scm) {status : ServiceState}
    → scm.query 0 ≡ some status
    → is_stopped status ≡ false
    → (uninstall scm).1 ≡ true
    → wait_stopped scm max_rounds 0 status ≡ is_down
unfolding uninstall stop_service
uninstall_waits scm asked runs deleted = ground arith

wait_down :
    (scm : Scm) (rounds i : ℕ) (status : ServiceState)
    → scm.query i ≡ some status
    → wait_stopped scm rounds i status ≡ is_down
    → (j : ℕ) × (scm.query j ≡ some stopped)
unfolding wait_stopped
wait_down scm zero i status asked down = ground arith
wait_down scm (suc rounds) i status asked down = elim (Bool-cases (is_stopped status)) [
  | inl halted ↦ (i, asked ∙ ap some (stopped_of status halted))
  | inr runs ↦ elim (Option-cases (scm.query (suc i))) [
    | inl failed ↦ ground arith
    | inr (next, answered) ↦
        wait_down scm rounds (suc i) next answered
          (wait_goes_on scm rounds i status answered runs down)
  ]
]

-- `UninstallWindowsService` deletes a service only after the service manager has said that it is
-- stopped.
pub uninstall_stopped :
    (scm : Scm) → (uninstall scm).1 ≡ true → (j : ℕ) × (scm.query j ≡ some stopped)
uninstall_stopped scm deleted = elim (Option-cases (scm.query 0)) [
  | inl failed ↦ absurd (uninstall_unasked scm failed deleted)
  | inr (status, asked) ↦ elim (Bool-cases (is_stopped status)) [
    | inl halted ↦ (0, asked ∙ ap some (stopped_of status halted))
    | inr runs ↦ wait_down scm max_rounds 0 status asked (uninstall_waits scm asked runs deleted)
  ]
]
