-- ===== src/Files/Tree.antt =====
-- The tree of a directory: internal/collectors/fs/list.go. The nodes are a store, and a pointer to one
-- is its place there.
use truespec_agent.Prelude.{
  ℕ, suc, zero, Bool, true, Option, none, some, List, [], ◌∷◌, ◌++◌, String, str_eq, length,
  if◌then◌else◌,
}
use truespec_agent.Prelude.Int.{ℤ, pos}
use truespec_agent.Host.{lookup, insert}
use truespec_agent.Files.Walk.{Info, Meta, Entry, Visit, seen, failed, walk_dir}

-- `Node`, without the field that only `ScanOS` sets.
pub record TreeNode : Type 0 where
  pub name : String
  pub path : String
  pub is_dir : Bool
  pub size : ℕ
  pub mode : ℕ
  pub mod_time : ℤ
  pub children : List ℕ

pub record Built : Type 0 where
  pub nodes : List TreeNode
  pub node_map : List (String × ℕ)

abbrev pub tree_node : String → Meta → Bool → Info → TreeNode
tree_node path m is_dir info = record {
  name = m.name;
  path = path;
  is_dir = is_dir;
  size = info.size;
  mode = info.mode;
  mod_time = info.mod_time;
  children = [];
}

-- Appends to the children of the node at the first place.
abbrev pub add_child : ℕ → ℕ → List TreeNode → List TreeNode
add_child parent child [] = []
add_child zero child (n ∷ ns) = record n { children = n.children ++ child ∷ [] } ∷ ns
add_child (suc parent) child (n ∷ ns) = n ∷ add_child parent child ns

-- `dir` is `filepath.Dir`.
module _ (dir : String → String) (root : String) where
  abbrev pub placed : ℕ → String → Meta → Bool → Info → Built → Built
  placed parent path m is_dir info b = record {
    nodes = add_child parent (length b.nodes) b.nodes ++ tree_node path m is_dir info ∷ [];
    node_map = if is_dir then insert path (length b.nodes) b.node_map else b.node_map;
  }

  -- The function that `BuildFSTree` gives to `WalkDir`; `none` is the panic where there is no
  -- `info`.
  unfoldable pub place : Visit → Built → Option Built
  place (failed path) b = some b
  place (seen path m is_dir) b =
      if str_eq path root then some b else elim (lookup (dir path) b.node_map) [
        | none ↦ some b
        | some parent ↦ elim m.info [
          | none ↦ none
          | some info ↦ some (placed parent path m is_dir info b)
        ]
      ]

  unfoldable pub place_all : List Visit → Built → Option Built
  unfolding place
  place_all [] b = some b
  place_all (v ∷ vs) b = elim (place v b) [ none ↦ none | some b' ↦ place_all vs b' ]

-- The node for the root, which has the path and the name only; `base` is `filepath.Base`.
abbrev pub root_node : (String → String) → String → TreeNode
root_node base root = record {
  name = base root;
  path = root;
  is_dir = true;
  size = 0;
  mode = 0;
  mod_time = pos 0;
  children = [];
}

-- `BuildFSTree`: the store, in which the root is the first node.
unfoldable pub build_fs_tree :
    (String → String)
    → (String → String)
    → (String → String → String)
    → String
    → Option Entry
    → Option Built
unfolding place_all
build_fs_tree base dir join root e =
    place_all dir root (walk_dir join root e)
      (record { nodes = root_node base root ∷ []; node_map = (root, 0) ∷ [] })
