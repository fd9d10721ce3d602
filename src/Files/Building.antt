-- ===== src/Files/Building.antt =====
-- What the steps of `BuildFSTree` (internal/collectors/fs/list.go) do with an entry and all below it.
use truespec_agent.Prelude.{
  ℕ, ◌<◌, ◌≡◌, refl, ap, sym, subst, ◌∙◌, Bool, true, false, some, List, [], ◌∷◌, ◌++◌, append_nil,
  String, str_eq, eq_iff, length, arith, Bool-cases, Option-cases, inl, inr,
}
use truespec_agent.Host.{lookup}
use truespec_agent.Files.Walk.{
  Info, Meta, Entry, plain, folder, Entries, nil, cons, entry_name, Visit, seen, failed,
  visits_below,
}
use truespec_agent.Files.Tree.{Built, tree_node, place, place_all}
use truespec_agent.Files.Placing.{
  Grows-trans, Grows-below, path_size, Grows, KeepsMap, after, place_all_seen, place_all_blind,
  place_all_goes, length-placed, placed-Grows, placed_last, placed-KeepsMap,
}
use truespec_agent.Files.Mirroring.{
  Mirrors, Mirrors, MirrorsAll, MirrorsAll-of_MirrorsAll, Mirrors-of_Mirrors,
}

some_inj : (x y : Built) → some x ≡ some y → x ≡ y
some_inj x y same = cc

module _ (join : String → String → String) (dir : String → String) (root : String) where
  -- In this directory, the entries' paths are longer than its own, which `filepath.Dir` gives back.
  unfoldable mutual
    pub IsPlaced : Entry → String → Type 0
    IsPlaced (plain m) path = Unit
    IsPlaced (folder m readable es) path = ArePlaced es path

    pub ArePlaced : Entries → String → Type 0
    ArePlaced nil path = Unit
    ArePlaced (cons e es) path =
        (dir (join path (entry_name e)) ≡ path)
        × (path_size path < path_size (join path (entry_name e)))
        × IsPlaced e (join path (entry_name e))
        × ArePlaced es path

  pub place_all-append :
      (vs ws : List Visit) (b b' : Built)
      → place_all dir root (vs ++ ws) b ≡ some b'
      → (b1 : Built) × (place_all dir root vs b ≡ some b1) × (place_all dir root ws b1 ≡ some b')
  unfolding place_all
  place_all-append [] ws b b' made = (b, refl, made)
  place_all-append (v ∷ vs) ws b b' made = elim (Option-cases (place dir root v b)) [
    | inl panics ↦ absurd (ground arith)
    | inr (b1, goes) ↦
        let (b2, first, rest) =
          place_all-append vs ws b1 b'
            (sym (place_all_goes dir root v (vs ++ ws) b b1 goes) ∙ made) in
        (b2, place_all_goes dir root v vs b b1 goes ∙ first, rest)
  ]

  not_root : (q : String) → path_size root < path_size q → str_eq q root ≡ false
  not_root q longer = elim (Bool-cases (str_eq q root)) [
    | inl same ↦ absurd (omega (arith, ap path_size ((eq_iff q root).0 same)))
    | inr apart ↦ apart
  ]

  -- A step at an entry that does not panic.
  place_all-after :
      (q : String) (m : Meta) (is_dir : Bool) (k : ℕ) (vs : List Visit) (b b' : Built)
      → path_size root < path_size q
      → lookup (dir q) b.node_map ≡ some k
      → place_all dir root (seen q m is_dir ∷ vs) b ≡ some b'
      → (info : Info) × (m.info ≡ some info)
        × (place_all dir root vs (after dir root k q m is_dir info b) ≡ some b')
  place_all-after q m is_dir k vs b b' longer parent made = elim (Option-cases m.info) [
    | inl unreadable ↦
        let blind =
          place_all_blind dir root k q m is_dir b vs (not_root q longer) parent unreadable in
        absurd (ground (arith, sym blind ∙ made))
    | inr (info, readable) ↦ (
      info,
      readable,
      sym (place_all_seen dir root k q m is_dir info b vs (not_root q longer) parent readable)
          ∙ made,
    )
  ]

  -- What placing an entry does, with all below it.
  abbrev pub Places : Entry → String → ℕ → Built → Built → Type 0
  Places e q k b b' =
      Grows b b' k (length b.nodes ∷ [])
      × Mirrors join e b'.nodes (length b.nodes) (length b'.nodes) (length b.nodes) q
      × KeepsMap (path_size (dir q)) b b'

  abbrev pub PlacesAll : Entries → String → ℕ → Built → Built → Type 0
  PlacesAll es path k b b' =
      (cs : List ℕ) × Grows b b' k cs
      × MirrorsAll join es b'.nodes (length b.nodes) (length b'.nodes) cs path
      × KeepsMap (path_size path) b b'

  module _ (q : String) (m : Meta) (k : ℕ) (b b' : Built) (longer : path_size root < path_size q)
      (parent : lookup (dir q) b.node_map ≡ some k) (bound : k < length b.nodes)
      (short : path_size (dir q) < path_size q) where
    pub plain-Places :
        place_all dir root (seen q m false ∷ []) b ≡ some b' → Places (plain m) q k b b'
    unfolding place_all Mirrors
    plain-Places made =
        let (info, known, rest) = place_all-after q m false k [] b b' longer parent made in
        subst (λ (x : Built). Places (plain m) q k b x) (some_inj _ b' rest)
          (
            placed-Grows dir root k q m false info b bound,
            (
              omega arith,
              omega (arith, length-placed dir root k q m false info b),
              info,
              known,
              placed_last dir root k q m false info b,
            ),
            placed-KeepsMap dir root k q m false info b (path_size (dir q)) short,
          )

    -- A directory, with what its entries do.
    pub folder-Places :
        (es : Entries)
        → place_all dir root (seen q m true ∷ visits_below join es q) b ≡ some b'
        → ((info : Info)
            → place_all dir root (visits_below join es q) (after dir root k q m true info b)
              ≡ some b'
            → PlacesAll es q (length b.nodes) (after dir root k q m true info b) b')
        → Places (folder m true es) q k b b'
    unfolding Mirrors
    folder-Places es made below =
        let (info, known, rest) =
          place_all-after q m true k (visits_below join es q) b b' longer parent made in
        let b1 = after dir root k q m true info b in
        let (cs, grows, mirrors, keeps) = below info rest in
        let one_more = length-placed dir root k q m true info b in
        (
          Grows-below b b1 b' k (length b.nodes) (length b.nodes ∷ []) cs bound (omega arith)
              (placed-Grows dir root k q m true info b bound) grows,
          (
            omega arith,
            omega (arith, one_more, grows.0),
            info,
            cs,
            known,
            grows.2 (tree_node q m true info) (placed_last dir root k q m true info b),
            MirrorsAll-of_MirrorsAll join b'.nodes b'.nodes (length b1.nodes) (length b'.nodes)
                (length b.nodes) (length b'.nodes) (omega (arith, one_more)) (omega arith)
                (λ i above within. refl) es cs q mirrors,
          ),
          λ r small.
              keeps r (omega (arith, small, short))
              ∙ placed-KeepsMap dir root k q m true info b (path_size (dir q)) short r small,
        )

    -- A directory that cannot be read.
    pub closed-Places :
        (es : Entries)
        → place_all dir root (seen q m true ∷ failed q ∷ []) b ≡ some b'
        → Places (folder m false es) q k b b'
    unfolding place_all place Mirrors
    closed-Places es made =
        let (info, known, rest) =
          place_all-after q m true k (failed q ∷ []) b b' longer parent made in
        subst (λ (x : Built). Places (folder m false es) q k b x) (some_inj _ b' rest)
          (
            placed-Grows dir root k q m true info b bound,
            (
              omega arith,
              omega (arith, length-placed dir root k q m true info b),
              info,
              [],
              known,
              placed_last dir root k q m true info b,
              refl,
            ),
            placed-KeepsMap dir root k q m true info b (path_size (dir q)) short,
          )

  -- An entry, and then the ones after it.
  pub cons-PlacesAll :
      (e : Entry) (es : Entries) (path : String) (k : ℕ) (b b1 b' : Built)
      → dir (join path (entry_name e)) ≡ path
      → k < length b.nodes
      → Places e (join path (entry_name e)) k b b1
      → PlacesAll es path k b1 b'
      → PlacesAll (cons e es) path k b b'
  unfolding Mirrors
  cons-PlacesAll e es path k b b1 b' up bound (grows, mirror, keeps) (cs, grows', mirrors, keeps') =
      (
        length b.nodes ∷ cs,
        Grows-trans b b1 b' k (length b.nodes ∷ []) cs bound grows grows',
        (
          Mirrors-of_Mirrors join b1.nodes b'.nodes (length b.nodes) (length b1.nodes)
              (length b.nodes) (length b'.nodes) (omega arith) grows'.0
              (λ i above within. grows'.1 i within (omega arith)) e (length b.nodes) _ mirror,
          MirrorsAll-of_MirrorsAll join b'.nodes b'.nodes (length b1.nodes) (length b'.nodes)
              (length b.nodes) (length b'.nodes) grows.0 (omega arith) (λ i above within. refl) es
              cs path mirrors,
        ),
        λ r small. keeps' r small ∙ keeps r (rw up small),
      )

  pub nil-PlacesAll :
      (path : String) (k : ℕ) (b b' : Built)
      → place_all dir root [] b ≡ some b'
      → PlacesAll nil path k b b'
  unfolding place_all Mirrors
  nil-PlacesAll path k b b' made =
      subst (λ (x : Built). PlacesAll nil path k b x) (some_inj b b' made)
        (
          [],
          (
            omega arith,
            (λ i small ne. refl),
            λ n found.
                found
                ∙ ap (λ (cs : List ℕ). some (record n { children = cs }))
                    (sym (append_nil n.children)),
          ),
          refl,
          λ q small. refl,
        )
