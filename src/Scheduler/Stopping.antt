-- ===== src/Scheduler/Stopping.antt =====
-- How `Stop` ends (internal/scheduler/scheduler.go).
use truespec_agent.Prelude.{◌≡◌, refl, true, false, some, List, [], ◌∷◌, arith, inl}
use truespec_agent.Scheduler.Defs.{
  Job, Scheduler, stop, end_stop, may_exit, stops, exits, ends, Reach, here, then_step,
}

Reach-trans : (s t u : Scheduler) → Reach s t → Reach t u → Reach s u
Reach-trans s t u before here = before
Reach-trans s t u before (then_step {t = r} mid step) =
    then_step (Reach-trans s t r before mid) step

-- Once the channel is closed, the jobs can all end.
drained :
    (s : Scheduler) (js : List Job)
    → s.closed ≡ true
    → Reach (record s { jobs = js }) (record s { jobs = [] })
unfolding may_exit
drained s [] h = here
drained s (j ∷ js) h =
    Reach-trans (record s { jobs = j ∷ js }) (record s { jobs = js }) (record s { jobs = [] })
      (then_step here (exits [] j js refl (rw (h, may_exit) refl))) (drained s js h)

stop_running :
    (s : Scheduler)
    → s.running ≡ true
    → s.closed ≡ false
    → stop s ≡ some (record s { closed = true; stopping = true })
unfolding stop
stop_running s running not_closed = ground arith

-- A `Stop` of a running scheduler that was not stopped before can always end without waiting for
-- its time to pass: all the jobs return, and it is not running any more.
pub stop_ends :
    (s : Scheduler)
    → s.stopping ≡ false
    → s.running ≡ true
    → s.closed ≡ false
    → Reach s (end_stop (record s { closed = true; stopping = true; jobs = [] }))
stop_ends s free running not_closed =
    let waits : Scheduler = record s { closed = true; stopping = true } in
    let empty : Scheduler = record waits { jobs = [] } in
    then_step
      (Reach-trans s waits empty (then_step here (stops free (stop_running s running not_closed)))
        (drained waits s.jobs refl))
      (ends false refl (inl refl))
