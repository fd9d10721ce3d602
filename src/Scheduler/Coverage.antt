-- ===== src/Scheduler/Coverage.antt =====
-- Every collector of a running scheduler has a job (internal/scheduler/scheduler.go).
use truespec_agent.Prelude.{
  ◌≡◌, refl, sym, ap, subst, ◌∙◌, true, List, [], ◌∷◌, ◌++◌, map, String, str_eq, arith, inl, inr,
  In, In-append_left, In-append_right, All, Bool-cases,
}
use truespec_agent.Scheduler.Defs.{
  Job, Scheduler, new_scheduler, start, end_stop, add_collector, without, remove_collector, Step,
  starts, stops, adds, removes, cancels, exits, ends, Reach, here, then_step, names,
}
use truespec_agent.Scheduler.Jobs.{job_of, start_running, start_idle}
use truespec_agent.Scheduler.Serving.{IsLive, Step-IsLive, stop_live, add_running, add_idle, stays}

names-append : (js ks : List Job) → names (js ++ ks) ≡ names js ++ names ks
names-append [] ks = refl
names-append (j ∷ js) ks = ap (λ ns. j.name ∷ ns) (names-append js ks)

-- Each of the names has a job.
abbrev pub Covers : List Job → List String → Type 0
Covers js cs = All (λ c. In c (names js)) cs

Covers-append_left : (js ks : List Job) (cs : List String) → Covers js cs → Covers (js ++ ks) cs
Covers-append_left js ks [] h = h
Covers-append_left js ks (c ∷ cs) (h, hs) = (
  subst (λ ns. In c ns) (sym (names-append js ks)) (In-append_left c (names js) (names ks) h),
  Covers-append_left js ks cs hs,
)

Covers-append_right : (js ks : List Job) (cs : List String) → Covers ks cs → Covers (js ++ ks) cs
Covers-append_right js ks [] h = h
Covers-append_right js ks (c ∷ cs) (h, hs) = (
  subst (λ ns. In c ns) (sym (names-append js ks)) (In-append_right c (names js) (names ks) h),
  Covers-append_right js ks cs hs,
)

Covers-append :
    (js : List Job) (cs ds : List String) → Covers js cs → Covers js ds → Covers js (cs ++ ds)
Covers-append js [] ds hc hd = hd
Covers-append js (c ∷ cs) ds (h, hc) hd = (h, Covers-append js cs ds hc hd)

Covers-cons : (j : Job) (js : List Job) (cs : List String) → Covers js cs → Covers (j ∷ js) cs
Covers-cons j js [] h = h
Covers-cons j js (c ∷ cs) (h, hs) = (inr h, Covers-cons j js cs hs)

Covers-map : (cs : List String) → Covers (map job_of cs) cs
Covers-map [] = tt
Covers-map (c ∷ cs) = (inl refl, Covers-cons (job_of c) (map job_of cs) cs (Covers-map cs))

Covers-without :
    (js : List Job) (name : String) (cs : List String) → Covers js cs → Covers js (without name cs)
unfolding without
Covers-without js name [] h = h
Covers-without js name (c ∷ cs) (h, hs) = elim (Bool-cases (str_eq c name)) [
  | inl same ↦ rw (same, without) hs
  | inr differ ↦ rw (differ, without) (h, Covers-without js name cs hs)
]

-- A state that is running and live has a job for each collector.
abbrev IsServed : Scheduler → Type 0
IsServed s = s.running ≡ true → IsLive s → Covers s.jobs s.collectors

Step-IsServed : (s t : Scheduler) → Step s t → IsServed s → IsServed t
unfolding end_stop remove_collector
Step-IsServed s t (starts free) served running live = elim (Bool-cases s.running) [
  | inl before ↦
      subst (λ (r : Scheduler). Covers r.jobs r.collectors) (sym (start_running s before))
        (served before (Step-IsLive s (start s) (starts free) live))
  | inr idle ↦
      subst (λ (r : Scheduler). Covers r.jobs r.collectors) (sym (start_idle s idle))
        (Covers-append_right s.jobs (map job_of s.collectors) s.collectors
          (Covers-map s.collectors))
]
Step-IsServed s t (stops free stopped) served running live =
    let same = stop_live s t stopped live in
    subst (λ (r : Scheduler). Covers r.jobs r.collectors) (sym same)
      (served (ap (λ (r : Scheduler). r.running) (sym same) ∙ running)
        (Step-IsLive s t (stops free stopped) live))
Step-IsServed s t (adds name free) served running live = elim (Bool-cases s.running) [
  | inl before ↦
      let job : Job = record { name = name; in_background = true } in
      subst (λ (r : Scheduler). Covers r.jobs r.collectors) (sym (add_running name s before))
        (Covers-append (s.jobs ++ job ∷ []) s.collectors (name ∷ [])
          (Covers-append_left s.jobs (job ∷ []) s.collectors
            (served before (Step-IsLive s (add_collector name s) (adds name free) live)))
          (Covers-append_right s.jobs (job ∷ []) (name ∷ []) (inl refl, tt)))
  | inr idle ↦ ground (arith, ap (λ (r : Scheduler). r.running) (add_idle name s idle))
]
Step-IsServed s t (removes name free) served running live =
    Covers-without s.jobs name s.collectors
      (served running (Step-IsLive s (remove_collector name s) (removes name free) live))
Step-IsServed s t cancels served running live = ground arith
Step-IsServed s t (exits before k after at leaves) served running live =
    ground (arith, stays k s live.not_closed live.not_cancelled)
Step-IsServed s t (ends timed_out waiting over) served running live = ground arith

Reach-IsServed : (s t : Scheduler) → Reach s t → IsServed s → IsServed t
Reach-IsServed s t here served = served
Reach-IsServed s t (then_step {t = r} before step) served =
    Step-IsServed r t step (Reach-IsServed s r before served)

-- From a new scheduler on, in every state that is running and neither stopped nor cancelled, each
-- collector has a job that collects its data, also one that was added while running.
pub new_scheduler-Covers :
    (cs : List String) (s : Scheduler)
    → Reach (new_scheduler cs) s
    → s.running ≡ true
    → IsLive s
    → Covers s.jobs s.collectors
unfolding new_scheduler
new_scheduler-Covers cs s run running live =
    Reach-IsServed (new_scheduler cs) s run (λ started alive. ground arith) running live
