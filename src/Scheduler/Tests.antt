-- ===== src/Scheduler/Tests.antt =====
-- Runs of the scheduler (internal/scheduler/scheduler.go), and the theorems at concrete inputs.
use truespec_agent.Prelude.{inr, ◌≡◌, refl, true, false, none, [], ◌∷◌}
use truespec_agent.Scheduler.Defs.{
  Job, Scheduler, end_stop, ends, new_scheduler, start, stop, add_collector, starts, adds, here,
  then_step,
}
use truespec_agent.Scheduler.Jobs.{stop-start_panics}
use truespec_agent.Scheduler.Coverage.{Covers, new_scheduler-Covers}

abbrev cpu_job : Job
cpu_job = record { name = "cpu"; in_background = false }

abbrev serving : Scheduler
serving = record {
  collectors = "cpu" ∷ "disk" ∷ [];
  jobs = cpu_job ∷ record { name = "disk"; in_background = true } ∷ [];
  closed = false;
  running = true;
  stopping = false;
  cancelled = false;
}

abbrev stopping_once : Scheduler
stopping_once = record serving { closed = true; stopping = true }

abbrev stopped_once : Scheduler
stopped_once = record stopping_once { stopping = false; running = false }

grows : add_collector "disk" (start (new_scheduler ("cpu" ∷ []))) ≡ serving
unfolding add_collector start new_scheduler
grows = refl

second_stop : stop (start stopped_once) ≡ none
unfolding stop start
second_stop = refl

stop-start_panics_example : stop (start stopped_once) ≡ none
unfolding stop end_stop
stop-start_panics_example =
    stop-start_panics serving stopping_once stopped_once refl refl
      (then_step here (ends true refl (inr refl)))

new_scheduler-Covers_example : Covers serving.jobs serving.collectors
unfolding add_collector start new_scheduler
new_scheduler-Covers_example =
    new_scheduler-Covers ("cpu" ∷ []) serving
      (then_step (then_step here (starts refl)) (adds "disk" refl)) refl
      (record { not_closed = refl; not_cancelled = refl })
