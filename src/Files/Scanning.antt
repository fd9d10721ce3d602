-- ===== src/Files/Scanning.antt =====
-- What `ScanOS` sends (internal/collectors/fs/scanner.go).
use truespec_agent.Prelude.{
  append_nil, append_assoc, ℕ, suc, ◌≡◌, ◌⊎◌, refl, ap, sym, inl, inr, Bool, true, false, Option,
  List, [], ◌∷◌, ◌++◌, String, Bool-cases,
}
use truespec_agent.Files.Walk.{
  Entry, Visit, seen, failed, walk_dir, ScannedNode, scanned, scan_visits, scan_os,
}

-- The nodes of the entries that a walk sees.
abbrev pub nodes_of : List Visit → List ScannedNode
nodes_of [] = []
nodes_of (failed path ∷ vs) = nodes_of vs
nodes_of (seen path m is_dir ∷ vs) = scanned path m is_dir ∷ nodes_of vs

abbrev pub all_nodes : (String → String → String) → List (String × Option Entry) → List ScannedNode
all_nodes join [] = []
all_nodes join ((root, e) ∷ roots) = nodes_of (walk_dir join root e) ++ all_nodes join roots

-- The one list begins with the other.
abbrev pub IsPrefix : List ScannedNode → List ScannedNode → Type 0
IsPrefix ns full = (rest : List ScannedNode) × (full ≡ ns ++ rest)

-- A context that is done stays done.
abbrev pub StaysDone : (ℕ → Bool) → Type 0
StaysDone done = (i : ℕ) → done i ≡ true → done (suc i) ≡ true

module _ (done : ℕ → Bool) (stays : StaysDone done) where
  -- The scan has sent all so far, or it has been cancelled.
  abbrev pub Scans : List ScannedNode → List ScannedNode × ℕ → Type 0
  Scans full (nodes, next) = (nodes ≡ full) ⊎ (IsPrefix nodes full × (done next ≡ true))

  scan_visits-Scans : (i : ℕ) (vs : List Visit) → Scans (nodes_of vs) (scan_visits done i vs)
  unfolding scan_visits
  scan_visits-Scans i [] = inl refl
  scan_visits-Scans i (failed path ∷ vs) = scan_visits-Scans i vs
  scan_visits-Scans i (seen path m is_dir ∷ vs) = elim (Bool-cases (done i)) [
    | inl cancelled ↦
        rw cancelled (inr ((nodes_of (seen path m is_dir ∷ vs), refl), stays i cancelled))
    | inr goes ↦ rw goes (elim (scan_visits-Scans (suc i) vs) [
      | inl all ↦ inl (ap (◌∷◌ (scanned path m is_dir)) all)
      | inr ((rest, split), late) ↦ inr ((rest, ap (◌∷◌ (scanned path m is_dir)) split), late)
    ])
  ]

  -- Once the context is done, a walk sends nothing.
  scan_visits_done :
      (i : ℕ) (vs : List Visit)
      → done i ≡ true
      → ((scan_visits done i vs).0 ≡ []) × (done (scan_visits done i vs).1 ≡ true)
  unfolding scan_visits
  scan_visits_done i [] cancelled = (refl, cancelled)
  scan_visits_done i (failed path ∷ vs) cancelled = scan_visits_done i vs cancelled
  scan_visits_done i (seen path m is_dir ∷ vs) cancelled = rw cancelled (refl, stays i cancelled)

  scan_os_done :
      (join : String → String → String) (i : ℕ) (roots : List (String × Option Entry))
      → done i ≡ true
      → scan_os join done i roots ≡ []
  unfolding scan_os
  scan_os_done join i [] cancelled = refl
  scan_os_done join i ((root, e) ∷ roots) cancelled =
      let (none_sent, still) = scan_visits_done i (walk_dir join root e) cancelled in
      rw none_sent (scan_os_done join (scan_visits done i (walk_dir join root e)).1 roots still)

-- Whenever the context is cancelled, if at all, what `ScanOS` sends is a first part of the entries
-- that can be seen from the roots, each once and in the order of the walks.
pub scan_os-IsPrefix :
    (join : String → String → String) (done : ℕ → Bool) (i : ℕ)
    (roots : List (String × Option Entry))
    → StaysDone done
    → IsPrefix (scan_os join done i roots) (all_nodes join roots)
unfolding scan_os
scan_os-IsPrefix join done i [] stays = ([], refl)
scan_os-IsPrefix join done i ((root, e) ∷ roots) stays =
    let vs = walk_dir join root e in
    let next = (scan_visits done i vs).1 in
    elim (scan_visits-Scans done stays i vs) [
      | inl all ↦
          let (rest, split) = scan_os-IsPrefix join done next roots stays in
          (rest, rw (all, split) (sym (append_assoc (nodes_of vs) _ rest)))
      | inr ((rest, split), late) ↦ (
        rest ++ all_nodes join roots,
        rw
            (
              split,
              scan_os_done done stays join next roots late,
              append_nil (scan_visits done i vs).0,
            )
            (append_assoc (scan_visits done i vs).0 rest (all_nodes join roots)),
      )
    ]

scan_visits_all :
    (done : ℕ → Bool) (i : ℕ) (vs : List Visit)
    → ((j : ℕ) → done j ≡ false)
    → (scan_visits done i vs).0 ≡ nodes_of vs
unfolding scan_visits
scan_visits_all done i [] never = refl
scan_visits_all done i (failed path ∷ vs) never = scan_visits_all done i vs never
scan_visits_all done i (seen path m is_dir ∷ vs) never =
    rw (never i) (ap (◌∷◌ (scanned path m is_dir)) (scan_visits_all done (suc i) vs never))

-- A scan that is not cancelled sends them all.
pub scan_os_all :
    (join : String → String → String) (done : ℕ → Bool) (i : ℕ)
    (roots : List (String × Option Entry))
    → ((j : ℕ) → done j ≡ false)
    → scan_os join done i roots ≡ all_nodes join roots
unfolding scan_os
scan_os_all join done i [] never = refl
scan_os_all join done i ((root, e) ∷ roots) never =
    let vs = walk_dir join root e in
    rw
      (scan_visits_all done i vs never, scan_os_all join done (scan_visits done i vs).1 roots never)
      refl
