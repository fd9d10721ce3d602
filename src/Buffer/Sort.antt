-- ===== src/Buffer/Sort.antt =====
-- The exchange sort in `Prune` of internal/buffer/buffer.go. The loop over `i` is the recursion
-- on the part of the list that starts at `i`; the loop over `j` is `exchange_pass`.
use truespec_agent.Prelude.{ℕ, zero, suc, Bool, List, [], ◌∷◌, String, ltb, if◌then◌else◌, length}

pub record FileInfo : Type 0 where
  pub path : String
  pub mod_time : ℕ
  pub size : ℕ

-- `files[i].modTime.After(files[j].modTime)`
abbrev pub after : FileInfo → FileInfo → Bool
after f g = ltb g.mod_time f.mod_time

-- The inner loop: `x` stands at `i`, and is exchanged with each later file that is older.
unfoldable pub exchange_pass : FileInfo → List FileInfo → FileInfo × List FileInfo
exchange_pass x [] = (x, [])
exchange_pass x (y ∷ ys) =
    let swap = after x y in
    let (first, rest) = exchange_pass (if swap then y else x) ys in
    (first, (if swap then x else y) ∷ rest)

-- The outer loop, for as many rounds as there are files.
unfoldable pub exchange_rounds : ℕ → List FileInfo → List FileInfo
exchange_rounds zero fs = fs
exchange_rounds (suc n) [] = []
exchange_rounds (suc n) (x ∷ xs) =
    let (first, rest) = exchange_pass x xs in first ∷ exchange_rounds n rest

unfoldable pub sort_by_mod_time : List FileInfo → List FileInfo
unfolding exchange_rounds exchange_pass
sort_by_mod_time fs = exchange_rounds (length fs) fs
