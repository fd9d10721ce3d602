-- ===== src/Files/Whole.antt =====
-- `BuildFSTree` as a whole (internal/collectors/fs/list.go).
use truespec_agent.Prelude.{ℕ, ◌<◌, ◌≤◌, ◌≡◌, refl, ◌∙◌, true, false, some, String, length, arith}
use truespec_agent.Host.{lookup}
use truespec_agent.Files.Walk.{
  Info, Entry, plain, folder, Entries, nil, cons, entry_name, Visit, seen, failed, visits,
  visits_below,
}
use truespec_agent.Files.Tree.{Built, place_all}
use truespec_agent.Files.Placing.{path_size, after, length-placed, placed_found}
use truespec_agent.Files.Building.{
  IsPlaced, ArePlaced, Places, PlacesAll, place_all-append, plain-Places, folder-Places,
  closed-Places, cons-PlacesAll, nil-PlacesAll,
}

module _ (join : String → String → String) (dir : String → String) (root : String) where
  -- The whole walk, an entry and a list of them at a time.
  mutual
    unfolding visits IsPlaced

    visits-Places :
        (e : Entry) (q : String) (k : ℕ) (b b' : Built)
        → path_size root < path_size q
        → lookup (dir q) b.node_map ≡ some k
        → k < length b.nodes
        → path_size (dir q) < path_size q
        → IsPlaced join dir root e q
        → place_all dir root (visits join e q) b ≡ some b'
        → Places join dir root e q k b b'
    visits-Places (plain m) q k b b' longer parent bound short is_placed made =
        plain-Places join dir root q m k b b' longer parent bound short made
    visits-Places (folder m false es) q k b b' longer parent bound short is_placed made =
        closed-Places join dir root q m k b b' longer parent bound short es made
    visits-Places (folder m true es) q k b b' longer parent bound short are_placed made =
        folder-Places join dir root q m k b b' longer parent bound short es made λ info rest.
          visits_below-PlacesAll es q (length b.nodes) (after dir root k q m true info b) b'
            (omega arith) (placed_found dir root k q m true info b refl)
            (omega (arith, length-placed dir root k q m true info b)) are_placed rest

    visits_below-PlacesAll :
        (es : Entries) (path : String) (k : ℕ) (b b' : Built)
        → path_size root ≤ path_size path
        → lookup path b.node_map ≡ some k
        → k < length b.nodes
        → ArePlaced join dir root es path
        → place_all dir root (visits_below join es path) b ≡ some b'
        → PlacesAll join dir root es path k b b'
    visits_below-PlacesAll nil path k b b' longer here bound are_placed made =
        nil-PlacesAll join dir root path k b b' made
    visits_below-PlacesAll (cons e es) path k b b' longer here bound
          (up, deeper, is_placed, are_placed) made =
        let q = join path (entry_name e) in
        let (b1, first, rest) =
          place_all-append join dir root (visits join e q) (visits_below join es path) b b' made in
        let one =
          visits-Places e q k b b1 (omega arith) (rw up here) bound (rw up deeper) is_placed
            first in
        cons-PlacesAll join dir root e es path k b b1 b' up bound one (
          visits_below-PlacesAll es path k b1 b' longer (one.2 path (rw up (omega arith)) ∙ here)
            (omega arith) are_placed rest)

-- The information on this entry can be read.
abbrev IsKnown : Visit → Type 0
IsKnown (seen path m is_dir) = (info : Info) × (m.info ≡ some info)
IsKnown (failed path) = Unit
