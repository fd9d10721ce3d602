-- ===== src/Scheduler/Jobs.antt =====
-- The jobs of a scheduler (internal/scheduler/scheduler.go).
use truespec_agent.Prelude.{
  ◌≡◌, refl, sym, ap, ◌∙◌, true, false, none, some, List, [], ◌∷◌, ◌++◌, map, String, arith, inl,
  inr, Bool-cases,
}
use mathlib.Core.List.{append-nil, append_assoc}
use truespec_agent.Scheduler.Defs.{
  Job, Scheduler, start_collector_job, start_collector_jobs, start, stop, end_stop, add_collector,
  remove_collector, Step, starts, stops, adds, removes, cancels, exits, ends, Reach, here,
  then_step,
}

abbrev pub job_of : String → Job
job_of name = record { name = name; in_background = false }

-- `Start` adds a job for each collector.
start_collector_jobs_lem :
    (names : List String) (s : Scheduler)
    → start_collector_jobs names s ≡ record s { jobs = s.jobs ++ map job_of names }
unfolding start_collector_jobs
start_collector_jobs_lem [] s = ap (λ js. record s { jobs = js }) (sym (append-nil s.jobs))
start_collector_jobs_lem (name ∷ names) s =
    start_collector_jobs_lem names (start_collector_job false name s)
    ∙ ap (λ js. record s { jobs = js }) (append_assoc s.jobs (job_of name ∷ []) (map job_of names))

pub start_running : (s : Scheduler) → s.running ≡ true → start s ≡ s
unfolding start
start_running s running = rw (running, start) refl

pub start_idle :
    (s : Scheduler)
    → s.running ≡ false
    → start s ≡ record s { running = true; jobs = s.jobs ++ map job_of s.collectors }
unfolding start
start_idle s idle =
    rw (idle, start) (start_collector_jobs_lem s.collectors (record s { running = true }))

pub start-closed : (s : Scheduler) → (start s).closed ≡ s.closed
start-closed s = elim (Bool-cases s.running) [
  | inl running ↦ ap (λ (t : Scheduler). t.closed) (start_running s running)
  | inr idle ↦ ap (λ (t : Scheduler). t.closed) (start_idle s idle)
]

pub start-running : (s : Scheduler) → (start s).running ≡ true
start-running s = elim (Bool-cases s.running) [
  | inl running ↦ ap (λ (t : Scheduler). t.running) (start_running s running) ∙ running
  | inr idle ↦ ap (λ (t : Scheduler). t.running) (start_idle s idle)
]

pub add_collector-closed :
    (name : String) (s : Scheduler) → (add_collector name s).closed ≡ s.closed
unfolding add_collector
add_collector-closed name s = ground arith

-- The channel, once closed, is never open again.
pub Step-closed : (s t : Scheduler) → Step s t → s.closed ≡ true → t.closed ≡ true
unfolding stop remove_collector end_stop
Step-closed s t (starts free) h = start-closed s ∙ h
Step-closed s t (stops free stopped) h = ground arith
Step-closed s t (adds name free) h = add_collector-closed name s ∙ h
Step-closed s t (removes name free) h = h
Step-closed s t cancels h = h
Step-closed s t (exits before j after at leaves) h = h
Step-closed s t (ends timed_out waiting over) h = h

pub Reach-closed : (s t : Scheduler) → Reach s t → s.closed ≡ true → t.closed ≡ true
Reach-closed s t here h = h
Reach-closed s t (then_step {t = r} before step) h =
    Step-closed r t step (Reach-closed s r before h)

stop-closed :
    (s : Scheduler) {s' : Scheduler} → s.running ≡ true → stop s ≡ some s' → s'.closed ≡ true
unfolding stop
stop-closed s running stopped = ground arith

-- After a `Stop` of a running scheduler, whatever happens, the next `Stop` of the scheduler
-- started again panics.
pub stop-start_panics :
    (s s' t : Scheduler) → s.running ≡ true → stop s ≡ some s' → Reach s' t → stop (start t) ≡ none
unfolding stop
stop-start_panics s s' t running stopped run =
    ground (
      arith,
      Reach-closed s' t run (stop-closed s running stopped),
      start-closed t,
      start-running t,
    )
