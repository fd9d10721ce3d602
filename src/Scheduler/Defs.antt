-- ===== src/Scheduler/Defs.antt =====
-- The scheduler of internal/scheduler/scheduler.go. The jobs are goroutines that run between the
-- operations; an operation holds the mutex. A collector is given by its name.
use truespec_agent.Prelude.{
  Bool, true, false, not, Option, none, some, List, [], ◌∷◌, ◌++◌, String, str_eq, Result, ok, err,
  ◌≡◌, ◌⊎◌, if◌then◌else◌,
}

-- A job of a collector, under the context of `Start` or the background one.
pub record Job : Type 0 where
  pub name : String
  pub in_background : Bool

-- `closed` is the state of `stopCh`, and `stopping` holds while `Stop` waits. `cancelled` is the
-- state of the context given to `Start`.
pub record Scheduler : Type 0 where
  pub collectors : List String
  pub jobs : List Job
  pub closed : Bool
  pub running : Bool
  pub stopping : Bool
  pub cancelled : Bool

-- `New`, with the names of the default collectors.
unfoldable pub new_scheduler : List String → Scheduler
new_scheduler names = record {
  collectors = names;
  jobs = [];
  closed = false;
  running = false;
  stopping = false;
  cancelled = false;
}

unfoldable pub start_collector_job : Bool → String → Scheduler → Scheduler
start_collector_job background name s = record s {
  jobs = s.jobs ++ record { name = name; in_background = background } ∷ [];
}

unfoldable pub start_collector_jobs : List String → Scheduler → Scheduler
unfolding start_collector_job
start_collector_jobs [] s = s
start_collector_jobs (name ∷ names) s =
    start_collector_jobs names (start_collector_job false name s)

unfoldable pub start : Scheduler → Scheduler
unfolding start_collector_jobs
start s = if s.running then s else start_collector_jobs s.collectors (record s { running = true })

-- `Stop` up to where it waits for the jobs; `none` is the panic of closing a closed channel.
unfoldable pub stop : Scheduler → Option Scheduler
stop s =
    if not s.running
    then some s
    else if s.closed
    then none
    else some (record s { closed = true; stopping = true })

-- The end of `Stop`, when all jobs have ended or 30 seconds have passed.
unfoldable pub end_stop : Scheduler → Scheduler
end_stop s = record s { running = false; stopping = false }

unfoldable pub add_collector : String → Scheduler → Scheduler
unfolding start_collector_job
add_collector name s =
    let added = record s { collectors = s.collectors ++ name ∷ [] } in
    if s.running then start_collector_job true name added else added

unfoldable pub without : String → List String → List String
without name [] = []
without name (c ∷ cs) = if str_eq c name then cs else c ∷ without name cs

unfoldable pub remove_collector : String → Scheduler → Scheduler
unfolding without
remove_collector name s = record s { collectors = without name s.collectors }

-- The loop of a job returns when the channel is closed or its context is cancelled.
unfoldable pub may_exit : Job → Scheduler → Bool
may_exit j s = if s.closed then true else if j.in_background then false else s.cancelled

-- What may happen. An operation waits for the mutex while `Stop` holds it.
pub data Step : Scheduler → Scheduler → Type 0 where
  starts : {s : Scheduler} → s.stopping ≡ false → Step s (start s)
  stops : {s s' : Scheduler} → s.stopping ≡ false → stop s ≡ some s' → Step s s'
  adds : {s : Scheduler} (name : String) → s.stopping ≡ false → Step s (add_collector name s)
  removes : {s : Scheduler} (name : String) → s.stopping ≡ false → Step s (remove_collector name s)
  cancels : {s : Scheduler} → Step s (record s { cancelled = true })
  exits :
      {s : Scheduler} (before : List Job) (j : Job) (after : List Job)
      → s.jobs ≡ before ++ j ∷ after
      → may_exit j s ≡ true
      → Step s (record s { jobs = before ++ after })
  ends :
      {s : Scheduler} (timed_out : Bool)
      → s.stopping ≡ true
      → (s.jobs ≡ []) ⊎ (timed_out ≡ true)
      → Step s (end_stop s)

pub data Reach : Scheduler → Scheduler → Type 0 where
  here : {s : Scheduler} → Reach s s
  then_step : {s t u : Scheduler} → Reach s t → Step t u → Reach s u

-- The names of the jobs that run.
abbrev pub names : List Job → List String
names [] = []
names (j ∷ js) = j.name ∷ names js

-- What one collection logs: its start, and then its error, or that it is complete and the data.
pub data RunLine (E : Type 0) (D : Type 0) : Type 0 where
  running_collector completed : String → RunLine E D
  collector_failed : String → E → RunLine E D
  collected : String → D → RunLine E D

-- `runCollector`, with the result of `Collect`. It has no effect but these lines.
unfoldable pub run_collector : {E D : Type 0} → String → Result E D → List (RunLine E D)
run_collector name (err e) = running_collector name ∷ collector_failed name e ∷ []
run_collector name (ok data_of) =
    running_collector name ∷ completed name ∷ collected name data_of ∷ []
