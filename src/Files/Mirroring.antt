-- ===== src/Files/Mirroring.antt =====
-- What it means that nodes mirror a directory (internal/collectors/fs/list.go).
use truespec_agent.Prelude.{
  ℕ, ◌<◌, ◌≤◌, ◌≡◌, ◌∙◌, true, false, some, List, [], ◌∷◌, String, get_elem?, arith, if◌then◌else◌,
}
use truespec_agent.Files.Walk.{Info, Entry, plain, folder, Entries, nil, cons, entry_name}
use truespec_agent.Files.Tree.{TreeNode, tree_node}

module _ (join : String → String → String) where
  -- The node at a place, between the two bounds, is that of the entry at the path, and its children
  -- are those of the entries below, in order, as far as the directory can be read.
  unfoldable mutual
    pub Mirrors : Entry → List TreeNode → ℕ → ℕ → ℕ → String → Type 0
    Mirrors (plain m) nodes lo hi id path =
        (lo ≤ id)
        × (id < hi)
        × (info : Info) × (m.info ≡ some info)
        × (get_elem? nodes id ≡ some (tree_node path m false info))
    Mirrors (folder m readable es) nodes lo hi id path =
        let below = λ (cs : List ℕ). MirrorsAll es nodes lo hi cs path in
        (lo ≤ id)
        × (id < hi)
        × (info : Info) × (cs : List ℕ) × (m.info ≡ some info)
        × (get_elem? nodes id ≡ some (record (tree_node path m true info) { children = cs }))
        × (if readable then below cs else (cs ≡ []))

    pub MirrorsAll : Entries → List TreeNode → ℕ → ℕ → List ℕ → String → Type 0
    MirrorsAll nil nodes lo hi cs path = cs ≡ []
    MirrorsAll (cons e es) nodes lo hi [] path = ⊥
    MirrorsAll (cons e es) nodes lo hi (c ∷ cs) path =
        Mirrors e nodes lo hi c (join path (entry_name e)) × MirrorsAll es nodes lo hi cs path

  -- A mirror stays one where the nodes between its bounds do.
  module _ (nodes nodes' : List TreeNode) (lo hi lo' hi' : ℕ) (lower : lo' ≤ lo) (higher : hi ≤ hi')
      (same : (i : ℕ) → lo ≤ i → i < hi → get_elem? nodes' i ≡ get_elem? nodes i) where
    mutual
      unfolding Mirrors

      pub Mirrors-of_Mirrors :
          (e : Entry) (id : ℕ) (path : String)
          → Mirrors e nodes lo hi id path
          → Mirrors e nodes' lo' hi' id path
      Mirrors-of_Mirrors (plain m) id path (above, below, info, known, here) =
          (omega arith, omega arith, info, known, same id above below ∙ here)
      Mirrors-of_Mirrors (folder m true es) id path (above, below, info, cs, known, here, rest) = (
        omega arith,
        omega arith,
        info,
        cs,
        known,
        same id above below ∙ here,
        MirrorsAll-of_MirrorsAll es cs path rest,
      )
      Mirrors-of_Mirrors (folder m false es) id path (above, below, info, cs, known, here, rest) =
          (omega arith, omega arith, info, cs, known, same id above below ∙ here, rest)

      pub MirrorsAll-of_MirrorsAll :
          (es : Entries) (cs : List ℕ) (path : String)
          → MirrorsAll es nodes lo hi cs path
          → MirrorsAll es nodes' lo' hi' cs path
      MirrorsAll-of_MirrorsAll nil cs path rest = rest
      MirrorsAll-of_MirrorsAll (cons e es) [] path rest = rest
      MirrorsAll-of_MirrorsAll (cons e es) (c ∷ cs) path (first, rest) = (
        Mirrors-of_Mirrors e c (join path (entry_name e)) first,
        MirrorsAll-of_MirrorsAll es cs path rest,
      )
