-- ===== src/Service/Serving.antt =====
-- The statuses that `Execute` reports (internal/service/windows.go).
use truespec_agent.Prelude.{◌≡◌, refl, ap, Bool, true, List, [], ◌∷◌, ◌++◌, All}
use truespec_agent.Service.Defs.{
  start_pending, running, stop_pending, stopped, paused, Status, Request, interrogate, stop,
  shutdown, pause, continue_running, unexpected, reported, accepting, serve, execute,
}

-- The statuses that answer requests other than to stop.
abbrev pub answers : List Request → List Status
answers [] = []
answers (interrogate status ∷ later) = status ∷ answers later
answers (pause ∷ later) = accepting paused ∷ answers later
answers (continue_running ∷ later) = accepting running ∷ answers later
answers (_ ∷ later) = answers later

-- A request to stop or to shut down.
abbrev pub IsEnding : Request → Type 0
IsEnding stop = Unit
IsEnding shutdown = Unit
IsEnding _ = ⊥

-- Any other request.
abbrev pub IsPassing : Request → Type 0
IsPassing stop = ⊥
IsPassing shutdown = ⊥
IsPassing _ = Unit

serve_ends :
    (before : List Request) (r : Request) (after : List Request)
    → All IsPassing before
    → IsEnding r
    → serve (before ++ r ∷ after) ≡ (answers before ++ reported stop_pending ∷ [], true)
unfolding serve
serve_ends [] stop after passing ends = refl
serve_ends [] shutdown after passing ends = refl
serve_ends [] (interrogate _) after passing ends = elim ends [ ]
serve_ends [] pause after passing ends = elim ends [ ]
serve_ends [] continue_running after passing ends = elim ends [ ]
serve_ends [] (unexpected _) after passing ends = elim ends [ ]
serve_ends (stop ∷ before) r after (p, ps) ends = elim p [ ]
serve_ends (shutdown ∷ before) r after (p, ps) ends = elim p [ ]
serve_ends (interrogate status ∷ before) r after (p, ps) ends =
    ap (λ (out : List Status × Bool). (status ∷ out.0, out.1)) (serve_ends before r after ps ends)
serve_ends (pause ∷ before) r after (p, ps) ends =
    ap (λ (out : List Status × Bool). (accepting paused ∷ out.0, out.1))
      (serve_ends before r after ps ends)
serve_ends (continue_running ∷ before) r after (p, ps) ends =
    ap (λ (out : List Status × Bool). (accepting running ∷ out.0, out.1))
      (serve_ends before r after ps ends)
serve_ends (unexpected n ∷ before) r after (p, ps) ends = serve_ends before r after ps ends

-- `Execute` reports that it starts and runs, answers each request up to the first one to stop or
-- shut down, then reports that it stops and is stopped, and returns; what comes later is not read.
pub execute_ends :
    (before : List Request) (r : Request) (after : List Request)
    → All IsPassing before
    → IsEnding r
    → execute (before ++ r ∷ after) ≡ (
      reported start_pending
          ∷ accepting running
          ∷ (answers before ++ reported stop_pending ∷ [] ++ reported stopped ∷ []),
      true,
    )
unfolding execute
execute_ends before r after passing ends = rw (serve_ends before r after passing ends, execute) refl
