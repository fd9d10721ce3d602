-- ===== src/Buffer/Sorting.antt =====
-- The exchange sort in `Prune` (internal/buffer/buffer.go) puts the oldest file first.
use mathlib.Core.List.{Perm}
use mathlib.Core.List.Perm
use truespec_agent.Prelude.{
  str_eq_sym, ℕ, zero, suc, ◌≤◌, ◌≡◌, ◌∙◌, refl, false, List, [], ◌∷◌, String, str_eq, arith,
  length, All, Bool-cases, inl, inr, true,
}
use truespec_agent.Buffer.Sort.{FileInfo, after, exchange_pass, exchange_rounds, sort_by_mod_time}

-- `f` is no newer than each of these files.
abbrev pub IsOldest : FileInfo → List FileInfo → Type 0
IsOldest f fs = All (λ g. f.mod_time ≤ g.mod_time) fs

abbrev pub IsOldestFirst : List FileInfo → Type 0
IsOldestFirst [] = Unit
IsOldestFirst (f ∷ fs) = IsOldest f fs × IsOldestFirst fs

-- No file of the list has this path.
abbrev pub NotNamed : String → List FileInfo → Type 0
NotNamed k fs = All (λ g. str_eq k g.path ≡ false) fs

abbrev pub HasDistinctPaths : List FileInfo → Type 0
HasDistinctPaths [] = Unit
HasDistinctPaths (f ∷ fs) = NotNamed f.path fs × HasDistinctPaths fs

exchange_pass-All :
    (P : FileInfo → Type 0) (x : FileInfo) (ys : List FileInfo)
    → P x
    → All P ys
    → P (exchange_pass x ys).0 × All P (exchange_pass x ys).1
unfolding exchange_pass
exchange_pass-All P x [] p h = (p, tt)
exchange_pass-All P x (y ∷ ys) p h = elim (Bool-cases (after x y)) [
  | inl swap ↦ rw swap (let (a, b) = exchange_pass-All P y ys h.0 h.1 in (a, (p, b)))
  | inr keep ↦ rw keep (let (a, b) = exchange_pass-All P x ys p h.1 in (a, (h.0, b)))
]

exchange_pass-IsOldest :
    (x : FileInfo) (ys : List FileInfo)
    → let (first, rest) = exchange_pass x ys in (first.mod_time ≤ x.mod_time) × IsOldest first rest
unfolding exchange_pass
exchange_pass-IsOldest x [] = (omega arith, tt)
exchange_pass-IsOldest x (y ∷ ys) =
    ground (arith, exchange_pass-IsOldest x ys, exchange_pass-IsOldest y ys)

-- One exchange: `w` goes back into the list behind the first of a pass over the others.
distinct_step :
    (w z : FileInfo) (ys : List FileInfo)
    → NotNamed w.path (z ∷ ys)
    → let (first, rest) = exchange_pass z ys in
      HasDistinctPaths (first ∷ rest) → HasDistinctPaths (first ∷ w ∷ rest)
distinct_step w z ys h d =
    let (ne, others) = exchange_pass-All (λ g. str_eq w.path g.path ≡ false) z ys h.0 h.1 in
    ((str_eq_sym (exchange_pass z ys).0.path w.path ∙ ne, d.0), (others, d.1))

exchange_pass_swap :
    (x y : FileInfo) (ys : List FileInfo)
    → after x y ≡ true
    → exchange_pass x (y ∷ ys) ≡ ((exchange_pass y ys).0, x ∷ (exchange_pass y ys).1)
unfolding exchange_pass
exchange_pass_swap x y ys e = rw e

exchange_pass_keep :
    (x y : FileInfo) (ys : List FileInfo)
    → after x y ≡ false
    → exchange_pass x (y ∷ ys) ≡ ((exchange_pass x ys).0, y ∷ (exchange_pass x ys).1)
unfolding exchange_pass
exchange_pass_keep x y ys e = rw e

exchange_pass-HasDistinctPaths :
    (x : FileInfo) (ys : List FileInfo)
    → HasDistinctPaths (x ∷ ys)
    → HasDistinctPaths ((exchange_pass x ys).0 ∷ (exchange_pass x ys).1)
exchange_pass-HasDistinctPaths x [] h = unfold exchange_pass in h
exchange_pass-HasDistinctPaths x (y ∷ ys) h = elim (Bool-cases (after x y)) [
  | inl swap ↦
      rw (exchange_pass_swap x y ys swap)
        (distinct_step x y ys h.0 (exchange_pass-HasDistinctPaths y ys h.1))
  | inr keep ↦ rw (exchange_pass_keep x y ys keep) (
      distinct_step y x ys (str_eq_sym y.path x.path ∙ h.0.0, h.1.0)
        (exchange_pass-HasDistinctPaths x ys (h.0.1, h.1.1)))
]

exchange_pass-perm :
    (x : FileInfo) (ys : List FileInfo)
    → let (first, rest) = exchange_pass x ys in Perm (first ∷ rest) (x ∷ ys)
unfolding exchange_pass
exchange_pass-perm x [] = Perm.refl _
exchange_pass-perm x (y ∷ ys) = elim (Bool-cases (after x y)) [
  | inl swap ↦ rw swap (Perm.trans (Perm.swap x _ _) (Perm.cons x (exchange_pass-perm y ys)))
  | inr keep ↦ rw keep (
      Perm.trans (Perm.swap y _ _)
        (Perm.trans (Perm.cons y (exchange_pass-perm x ys)) (Perm.swap x y ys)))
]

exchange_pass-length :
    (x : FileInfo) (ys : List FileInfo) → length (exchange_pass x ys).1 ≡ length ys
unfolding exchange_pass
exchange_pass-length x [] = refl
exchange_pass-length x (y ∷ ys) =
    ground (arith, exchange_pass-length x ys, exchange_pass-length y ys)

exchange_rounds-All :
    (P : FileInfo → Type 0) (n : ℕ) (fs : List FileInfo) → All P fs → All P (exchange_rounds n fs)
unfolding exchange_rounds
exchange_rounds-All P zero fs h = h
exchange_rounds-All P (suc n) [] h = tt
exchange_rounds-All P (suc n) (x ∷ xs) h =
    let (first, rest) = exchange_pass-All P x xs h.0 h.1 in (first, exchange_rounds-All P n _ rest)

exchange_rounds-IsOldestFirst :
    (n : ℕ) (fs : List FileInfo) → length fs ≤ n → IsOldestFirst (exchange_rounds n fs)
unfolding exchange_rounds
exchange_rounds-IsOldestFirst zero [] h = tt
exchange_rounds-IsOldestFirst zero (x ∷ xs) h = absurd (omega arith)
exchange_rounds-IsOldestFirst (suc n) [] h = tt
exchange_rounds-IsOldestFirst (suc n) (x ∷ xs) h = (
  exchange_rounds-All _ n _ (exchange_pass-IsOldest x xs).1,
  exchange_rounds-IsOldestFirst n _ (omega (arith, exchange_pass-length x xs)),
)

exchange_rounds-HasDistinctPaths :
    (n : ℕ) (fs : List FileInfo) → HasDistinctPaths fs → HasDistinctPaths (exchange_rounds n fs)
unfolding exchange_rounds
exchange_rounds-HasDistinctPaths zero fs h = h
exchange_rounds-HasDistinctPaths (suc n) [] h = tt
exchange_rounds-HasDistinctPaths (suc n) (x ∷ xs) h =
    let (first, rest) = exchange_pass-HasDistinctPaths x xs h in
    (exchange_rounds-All _ n _ first, exchange_rounds-HasDistinctPaths n _ rest)

exchange_rounds-perm : (n : ℕ) (fs : List FileInfo) → Perm (exchange_rounds n fs) fs
unfolding exchange_rounds
exchange_rounds-perm zero fs = Perm.refl fs
exchange_rounds-perm (suc n) [] = Perm.refl []
exchange_rounds-perm (suc n) (x ∷ xs) =
    Perm.trans (Perm.cons _ (exchange_rounds-perm n _)) (exchange_pass-perm x xs)

pub sort_by_mod_time-All :
    (P : FileInfo → Type 0) (fs : List FileInfo) → All P fs → All P (sort_by_mod_time fs)
unfolding sort_by_mod_time
sort_by_mod_time-All P fs h = exchange_rounds-All P (length fs) fs h

pub sort_by_mod_time-HasDistinctPaths :
    (fs : List FileInfo) → HasDistinctPaths fs → HasDistinctPaths (sort_by_mod_time fs)
unfolding sort_by_mod_time
sort_by_mod_time-HasDistinctPaths fs h = exchange_rounds-HasDistinctPaths (length fs) fs h

-- The two nested loops leave the files oldest first, and lose or double none of them.
pub sort_by_mod_time_lem :
    (fs : List FileInfo) → IsOldestFirst (sort_by_mod_time fs) × Perm (sort_by_mod_time fs) fs
unfolding sort_by_mod_time
sort_by_mod_time_lem fs = (
  exchange_rounds-IsOldestFirst (length fs) fs (omega arith),
  exchange_rounds-perm (length fs) fs,
)
