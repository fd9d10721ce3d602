-- ===== src/Buffer/Oldest.antt =====
-- Which files `Prune` (internal/buffer/buffer.go) removes.
use truespec_agent.Prelude.{◌≡◌, ◌⊎◌, List, [], ◌∷◌, ◌++◌}
use truespec_agent.Prelude.Int.{ℤ, pos, ◌-ℤ◌, ◌≤ℤ◌, ◌<ℤ◌}
use truespec_agent.Prelude.Word.{wrap64}
use truespec_agent.Buffer.Disk.{Node, remove_file}
use truespec_agent.Buffer.Sort.{FileInfo}
use truespec_agent.Buffer.Ops.{Buffer}

abbrev pub remove_all : List FileInfo → List Node → List Node
remove_all [] d = d
remove_all (f ∷ fs) d = remove_all fs (remove_file f.path d)

-- The tracked size exceeds the limit each time that the next of these files is removed.
abbrev pub IsOverLimit : ℤ → ℤ → List FileInfo → Type 0
IsOverLimit max cur [] = Unit
IsOverLimit max cur (f ∷ fs) = (max <ℤ cur) × IsOverLimit max (wrap64 (cur -ℤ pos f.size)) fs

-- How the loop over `fs` leaves a buffer, where no removal fails.
abbrev pub PrunesTo : List FileInfo → Buffer → Buffer → Type 0
PrunesTo fs b b' =
    (removed : List FileInfo) × (kept : List FileInfo) × (fs ≡ removed ++ kept)
    × (b'.disk ≡ remove_all removed b.disk)
    × IsOverLimit b.max_size b.current_size removed
    × ((b'.current_size ≤ℤ b.max_size) ⊎ (kept ≡ []))
