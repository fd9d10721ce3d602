-- ===== src/Collectors/Table.antt =====
-- A small system of processes, for runs of `Kill` and `Restart`
-- (internal/collectors/processes).
use truespec_agent.Prelude.{
  ℕ, ◌==◌, Bool, true, false, Option, none, some, List, [], ◌∷◌, String, if◌then◌else◌,
}
use truespec_agent.Collectors.Control.{ProcessApi}

-- A process: its program, its command line, whether it ends on SIGTERM, and whether it may not be
-- signalled.
pub record Task : Type 0 where
  pub program : String
  pub line : List String
  pub obeys : Bool
  pub guarded : Bool

abbrev pub Table : Type 0
Table = List (ℕ × Task)

abbrev pub find : ℕ → Table → Option Task
find pid [] = none
find pid ((i, p) ∷ t) = if i == pid then some p else find pid t

abbrev pub drop : ℕ → Table → Table
drop pid [] = []
drop pid ((i, p) ∷ t) = let rest = drop pid t in if i == pid then rest else (i, p) ∷ rest

abbrev pub runs : ℕ → Table → Bool
runs pid t = elim (find pid t) [ none ↦ false | some _ ↦ true ]

abbrev pub kills : ℕ → Table → Bool × Table
kills pid t = elim (find pid t) [
  | none ↦ (false, t)
  | some p ↦ if p.guarded then (false, t) else (true, drop pid t)
]

-- Each new process has the number 9.
abbrev pub starts : String → List String → Table → Option ℕ × Table
starts path args t =
    (some 9, (9, record { program = path; line = path ∷ args; obeys = true; guarded = false }) ∷ t)

abbrev pub table_api : ProcessApi Table
table_api = record {
  exists = runs;
  is_running = runs;
  cmdline_slice = λ pid t. elim (find pid t) [ none ↦ none | some p ↦ some p.line ];
  exe = λ pid t. elim (find pid t) [ none ↦ none | some p ↦ some p.program ];
  send_sigterm = λ pid t. elim (find pid t) [
    | none ↦ (false, t)
    | some p ↦ if p.guarded then (false, t) else (true, if p.obeys then drop pid t else t)
  ];
  kill_process = kills;
  wait = λ t. t;
  start = starts;
}
