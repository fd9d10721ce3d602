-- ===== src/Scheduler/Serving.antt =====
-- Which jobs run while a scheduler is neither stopped nor cancelled (internal/scheduler/scheduler.go).
use truespec_agent.Prelude.{
  ◌≡◌, sym, ap, subst, true, false, some, [], ◌∷◌, ◌++◌, map, String, arith, inl, inr, In,
  In-append_left, Bool-cases,
}
use truespec_agent.Scheduler.Defs.{
  Job, Scheduler, start, stop, end_stop, add_collector, remove_collector, may_exit, Step, starts,
  stops, adds, removes, cancels, exits, ends, Reach, here, then_step,
}
use truespec_agent.Scheduler.Jobs.{job_of, start_running, start_idle, start-closed}

-- The scheduler is neither stopped nor cancelled.
pub record IsLive (s : Scheduler) : Type 0 where
  pub not_closed : s.closed ≡ false
  pub not_cancelled : s.cancelled ≡ false

start-cancelled : (s : Scheduler) → (start s).cancelled ≡ s.cancelled
start-cancelled s = elim (Bool-cases s.running) [
  | inl running ↦ ap (λ (t : Scheduler). t.cancelled) (start_running s running)
  | inr idle ↦ ap (λ (t : Scheduler). t.cancelled) (start_idle s idle)
]

-- A step to a live state comes from a live one.
pub Step-IsLive : (s t : Scheduler) → Step s t → IsLive t → IsLive s
unfolding stop end_stop add_collector remove_collector
Step-IsLive s t (starts free) live = ground (arith, start-closed s, start-cancelled s)
Step-IsLive s t (stops free stopped) live = ground arith
Step-IsLive s t (adds name free) live = ground arith
Step-IsLive s t (removes name free) live = ground arith
Step-IsLive s t cancels live = ground arith
Step-IsLive s t (exits before j after at leaves) live = ground arith
Step-IsLive s t (ends timed_out waiting over) live = ground arith

-- A stop that leaves the state live has done nothing.
pub stop_live : (s t : Scheduler) → stop s ≡ some t → IsLive t → t ≡ s
unfolding stop
stop_live s t stopped live = ground arith

pub add_running :
    (name : String) (s : Scheduler)
    → s.running ≡ true
    → add_collector name s ≡ record s {
      collectors = s.collectors ++ name ∷ [];
      jobs = s.jobs ++ record { name = name; in_background = true } ∷ [];
    }
unfolding add_collector
add_running name s running = ground arith

pub add_idle :
    (name : String) (s : Scheduler)
    → s.running ≡ false
    → add_collector name s ≡ record s { collectors = s.collectors ++ name ∷ [] }
unfolding add_collector
add_idle name s idle = ground arith

pub stays :
    (k : Job) (s : Scheduler) → s.closed ≡ false → s.cancelled ≡ false → may_exit k s ≡ false
unfolding may_exit
stays k s not_closed not_cancelled = ground arith

-- In a live state no job ends.
Step-jobs : (s t : Scheduler) (j : Job) → Step s t → IsLive t → In j s.jobs → In j t.jobs
unfolding stop end_stop add_collector remove_collector
Step-jobs s t j (starts free) live h = elim (Bool-cases s.running) [
  | inl running ↦ subst (λ (r : Scheduler). In j r.jobs) (sym (start_running s running)) h
  | inr idle ↦
      subst (λ (r : Scheduler). In j r.jobs) (sym (start_idle s idle))
        (In-append_left j s.jobs (map job_of s.collectors) h)
]
Step-jobs s t j (stops free stopped) live h =
    subst (λ (r : Scheduler). In j r.jobs) (sym (stop_live s t stopped live)) h
Step-jobs s t j (adds name free) live h = elim (Bool-cases s.running) [
  | inl running ↦
      subst (λ (r : Scheduler). In j r.jobs) (sym (add_running name s running))
        (In-append_left j s.jobs (record { name = name; in_background = true } ∷ []) h)
  | inr idle ↦ subst (λ (r : Scheduler). In j r.jobs) (sym (add_idle name s idle)) h
]
Step-jobs s t j (removes name free) live h = h
Step-jobs s t j cancels live h = h
Step-jobs s t j (exits before k after at leaves) live h =
    ground (arith, stays k s live.not_closed live.not_cancelled)
Step-jobs s t j (ends timed_out waiting over) live h = h

Reach-IsLive : (s t : Scheduler) → Reach s t → IsLive t → IsLive s
Reach-IsLive s t here live = live
Reach-IsLive s t (then_step {t = r} before step) live =
    Reach-IsLive s r before (Step-IsLive r t step live)

Reach-jobs : (s t : Scheduler) (j : Job) → Reach s t → IsLive t → In j s.jobs → In j t.jobs
Reach-jobs s t j here live h = h
Reach-jobs s t j (then_step {t = r} before step) live h =
    Step-jobs r t j step live (Reach-jobs s r j before (Step-IsLive r t step live) h)

-- A job goes on after its collector is removed: it runs in every later state until the scheduler
-- is stopped or the context cancelled.
pub remove_collector-jobs :
    (name : String) (s t : Scheduler) (j : Job)
    → In j s.jobs
    → Reach (remove_collector name s) t
    → IsLive t
    → In j t.jobs
unfolding remove_collector
remove_collector-jobs name s t j h run live = Reach-jobs (remove_collector name s) t j run live h
