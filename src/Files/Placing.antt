-- ===== src/Files/Placing.antt =====
-- One step of `BuildFSTree` (internal/collectors/fs/list.go), and what growing leaves alone.
use truespec_agent.Prelude.{
  ℕ, suc, zero, ◌<◌, ◌≤◌, ◌≡◌, ◌≢◌, refl, ap, subst, ◌∙◌, Bool, true, false, none, some, List, [],
  ◌∷◌, ◌++◌, String, str_eq, eq_iff, length, length-append, append_assoc, get_elem?, arith,
  Bool-cases, inl, inr,
}
use truespec_agent.Host.{lookup}
use truespec_agent.Host.Laws.{lookup-insert}
use truespec_agent.Text.{codes}
use truespec_agent.Files.Walk.{Info, Meta, Visit, seen}
use truespec_agent.Files.Tree.{TreeNode, Built, tree_node, add_child, placed, place, place_all}

abbrev pub path_size : String → ℕ
path_size p = length (codes p)

-- The nodes of the one store are in the other, unchanged but for the one place, where the children
-- given are added.
abbrev pub Grows : Built → Built → ℕ → List ℕ → Type 0
Grows b b' k cs =
    (length b.nodes ≤ length b'.nodes)
    × ((i : ℕ) → i < length b.nodes → i ≢ k → get_elem? b'.nodes i ≡ get_elem? b.nodes i)
    × ((n : TreeNode)
        → get_elem? b.nodes k ≡ some n
        → get_elem? b'.nodes k ≡ some (record n { children = n.children ++ cs }))

-- The places of the paths up to this length are the same.
abbrev pub KeepsMap : ℕ → Built → Built → Type 0
KeepsMap s b b' = (q : String) → path_size q ≤ s → lookup q b'.node_map ≡ lookup q b.node_map

-- Growing by these children and then by those.
pub Grows-trans :
    (b b1 b2 : Built) (k : ℕ) (cs ds : List ℕ)
    → k < length b.nodes
    → Grows b b1 k cs
    → Grows b1 b2 k ds
    → Grows b b2 k (cs ++ ds)
Grows-trans b b1 b2 k cs ds bound (longer, other, here) (longer', other', here') = (
  omega arith,
  (λ i small ne. other' i (omega arith) ne ∙ other i small ne),
  λ n found.
      here' (record n { children = n.children ++ cs }) (here n found)
      ∙ ap (λ (all : List ℕ). some (record n { children = all })) (append_assoc n.children cs ds),
)

-- Growing below a new node is not seen from the old ones.
pub Grows-below :
    (b b1 b2 : Built) (k id : ℕ) (cs ds : List ℕ)
    → k < length b.nodes
    → length b.nodes ≤ id
    → Grows b b1 k cs
    → Grows b1 b2 id ds
    → Grows b b2 k cs
Grows-below b b1 b2 k id cs ds bound new (longer, other, here) (longer', other', here') = (
  omega arith,
  (λ i small ne. other' i (omega arith) (omega arith) ∙ other i small ne),
  λ n found. other' k (omega arith) (omega arith) ∙ here n found,
)

length-add_child : (k c : ℕ) (ns : List TreeNode) → length (add_child k c ns) ≡ length ns
length-add_child k c [] = refl
length-add_child zero c (n ∷ ns) = refl
length-add_child (suc k) c (n ∷ ns) = ap suc (length-add_child k c ns)

add_child_other :
    (k c : ℕ) (ns : List TreeNode) (i : ℕ) → i ≢ k → get_elem? (add_child k c ns) i ≡ get_elem? ns i
add_child_other k c [] i ne = refl
add_child_other zero c (n ∷ ns) zero ne = absurd (ne refl)
add_child_other zero c (n ∷ ns) (suc i) ne = refl
add_child_other (suc k) c (n ∷ ns) zero ne = refl
add_child_other (suc k) c (n ∷ ns) (suc i) ne = add_child_other k c ns i (omega arith)

add_child_here :
    (k c : ℕ) (ns : List TreeNode) (n : TreeNode)
    → get_elem? ns k ≡ some n
    → get_elem? (add_child k c ns) k ≡ some (record n { children = n.children ++ c ∷ [] })
add_child_here k c [] n found = absurd (ground arith)
add_child_here zero c (m ∷ ns) n found = cc
add_child_here (suc k) c (m ∷ ns) n found = add_child_here k c ns n found

get_elem?-append_left :
    (ns ms : List TreeNode) (i : ℕ) → i < length ns → get_elem? (ns ++ ms) i ≡ get_elem? ns i
get_elem?-append_left [] ms i bound = absurd (omega arith)
get_elem?-append_left (n ∷ ns) ms zero bound = refl
get_elem?-append_left (n ∷ ns) ms (suc i) bound = get_elem?-append_left ns ms i (omega arith)

get_elem?-append_last :
    (ns : List TreeNode) (n : TreeNode) → get_elem? (ns ++ n ∷ []) (length ns) ≡ some n
get_elem?-append_last [] n = refl
get_elem?-append_last (m ∷ ns) n = get_elem?-append_last ns n

-- Without the information on an entry the build panics.
pub place_all_blind :
    (dir : String → String) (root : String) (k : ℕ) (q : String) (m : Meta) (is_dir : Bool)
    (b : Built) (vs : List Visit)
    → str_eq q root ≡ false
    → lookup (dir q) b.node_map ≡ some k
    → m.info ≡ none
    → place_all dir root (seen q m is_dir ∷ vs) b ≡ none
unfolding place_all place
place_all_blind dir root k q m is_dir b vs below parent unreadable =
    rw (below, parent, unreadable, place_all, place) refl

pub place_all_goes :
    (dir : String → String) (root : String) (v : Visit) (vs : List Visit) (b b1 : Built)
    → place dir root v b ≡ some b1
    → place_all dir root (v ∷ vs) b ≡ place_all dir root vs b1
unfolding place_all
place_all_goes dir root v vs b b1 goes = rw (goes, place_all) refl

-- What a step that places an entry does.
module _ (dir : String → String) (root : String) (k : ℕ) (q : String) (m : Meta) (is_dir : Bool)
    (info : Info) (b : Built) where
  abbrev pub after : Built
  after = placed dir root k q m is_dir info b

  pub place_all_seen :
      (vs : List Visit)
      → str_eq q root ≡ false
      → lookup (dir q) b.node_map ≡ some k
      → m.info ≡ some info
      → place_all dir root (seen q m is_dir ∷ vs) b ≡ place_all dir root vs after
  unfolding place_all place
  place_all_seen vs below parent readable = rw (below, parent, readable, place_all, place) refl

  pub length-placed : length after.nodes ≡ suc (length b.nodes)
  length-placed = omega (
    arith,
    length-append (add_child k (length b.nodes) b.nodes) (tree_node q m is_dir info ∷ []),
    length-add_child k (length b.nodes) b.nodes,
  )

  pub placed-Grows : k < length b.nodes → Grows b after k (length b.nodes ∷ [])
  placed-Grows bound =
      let ns = add_child k (length b.nodes) b.nodes in
      let left = get_elem?-append_left ns (tree_node q m is_dir info ∷ []) in
      let same = length-add_child k (length b.nodes) b.nodes in
      (
        omega (arith, length-placed),
        (λ i small ne.
            left i (omega (arith, same)) ∙ add_child_other k (length b.nodes) b.nodes i ne),
        λ n found. left k (omega (arith, same)) ∙ add_child_here k (length b.nodes) b.nodes n found,
      )

  pub placed_last : get_elem? after.nodes (length b.nodes) ≡ some (tree_node q m is_dir info)
  placed_last =
      subst (λ (i : ℕ). get_elem? after.nodes i ≡ some (tree_node q m is_dir info))
        (length-add_child k (length b.nodes) b.nodes)
        (get_elem?-append_last (add_child k (length b.nodes) b.nodes) (tree_node q m is_dir info))

  pub placed-KeepsMap : (s : ℕ) → s < path_size q → KeepsMap s b after
  placed-KeepsMap s short r small =
      let differ : str_eq q r ≡ false = elim (Bool-cases (str_eq q r)) [
        | inl same ↦ absurd (omega (arith, ap path_size ((eq_iff q r).0 same)))
        | inr apart ↦ apart
      ] in
      elim (Bool-cases is_dir) [
        | inl folder ↦ rw folder (lookup-insert r q (length b.nodes) b.node_map ∙ rw differ refl)
        | inr plain ↦ rw plain refl
      ]

  -- The path of a directory leads to its node.
  pub placed_found : is_dir ≡ true → lookup q after.node_map ≡ some (length b.nodes)
  placed_found folder =
      rw folder (ground (arith, lookup-insert q q (length b.nodes) b.node_map, eq_iff q q))
