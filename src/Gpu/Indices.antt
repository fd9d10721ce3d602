-- ===== src/Gpu/Indices.antt =====
-- The indices of `enrichNvidiaAll` (internal/collectors/gpu/gpu_linux.go).
use truespec_agent.Prelude.{◌^◌, ◌≤◌, ◌≡◌, ◌⊎◌, Option, none, some, List, [], ◌∷◌, length}
use truespec_agent.Text.{Text, split}
use truespec_agent.Gpu.Defs.{GpuInfo, parse_uint}

-- The line has the six fields, and its index is not in the range of `int`.
abbrev pub IsWild : List Text → Type 0
IsWild (index ∷ name ∷ bus_id ∷ total ∷ used ∷ driver ∷ _) = 2 ^ 63 ≤ parse_uint index
IsWild _ = ⊥

-- One of the lines is.
abbrev pub HasWild : List Text → Type 0
HasWild [] = ⊥
HasWild (line ∷ lines) = IsWild (split b',' line) ⊎ HasWild lines

-- What a line does: it panics on a wild index, and else keeps the number of cards.
abbrev pub Enriches : List Text → List GpuInfo → Option (List GpuInfo) → Type 0
Enriches fields gpus none = IsWild fields
Enriches fields gpus (some gpus') = (¬ IsWild fields) × (length gpus' ≡ length gpus)

-- How the loop ends: it panics at a wild line, or there is none.
abbrev pub Ends : List Text → List GpuInfo → Option (List GpuInfo) → Type 0
Ends lines gpus none = HasWild lines
Ends lines gpus (some gpus') = (¬ HasWild lines) × (length gpus' ≡ length gpus)
