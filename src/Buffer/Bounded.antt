-- ===== src/Buffer/Bounded.antt =====
-- The limit of the buffer (internal/buffer/buffer.go) and sequences of its operations.
use truespec_agent.Prelude.{
  ◌≡◌, ◌⊎◌, ◌<◌, ◌^◌, ◌+◌, inl, inr, refl, true, ℕ, none, some, List, [], ◌∷◌, ok, arith,
  Bool-cases, length, ◌∙◌,
}
use truespec_agent.Prelude.Int.{ℤ, pos, ◌≤ℤ◌, leb_ℤ}
use truespec_agent.Buffer.Disk.{Os, disk_size, IsFresh, IsDistinct}
use truespec_agent.Buffer.Ops.{prune_files, file_infos, Buffer, batch_name, write, clear, prune}
use truespec_agent.Buffer.Contents.{survivors, survivors-IsDistinct, clear_files-eq-survivors}
use truespec_agent.Buffer.Accounting.{IsAccurate, IsWhole, write-le-max_size, write-IsAccurate}
use truespec_agent.Buffer.Pruning.{removed_from}
use truespec_agent.Buffer.Sort.{FileInfo, sort_by_mod_time}
use truespec_agent.Buffer.Store.{Call, writes, clears, prunes}
use truespec_agent.Buffer.Runs.{step, run, write-Allows}

-- The tracked size is right and within the limit.
abbrev pub IsBounded : Buffer → Type 0
IsBounded b = IsAccurate b × IsDistinct b.disk × (b.current_size ≤ℤ b.max_size)

-- A write leaves no part of a file, has a new name, and computes a sum that fits an int64; what
-- `Clear` leaves holds no bytes, if it can list the directory.
abbrev pub IsCleanCall : Call → Buffer → Type 0
IsCleanCall (writes os none) b = Unit
IsCleanCall (writes os (some bytes)) b =
    IsFresh (batch_name os.now) b.disk
    × IsWhole os.write
    × (disk_size b.disk + length bytes < 2 ^ 63)
IsCleanCall (clears os) b = (os.read_dir_fails ≡ true) ⊎ (disk_size (survivors os b.disk) ≡ 0)
IsCleanCall (prunes os) b = Unit

abbrev pub IsCleanRun : List Call → Buffer → Type 0
IsCleanRun [] b = Unit
IsCleanRun (c ∷ cs) b = IsCleanCall c b × IsCleanRun cs (step c b).1

prune_files-max_size :
    (os : Os) (fs : List FileInfo) (b : Buffer) → (prune_files os fs b).max_size ≡ b.max_size
unfolding prune_files
prune_files-max_size os [] b = refl
prune_files-max_size os (f ∷ fs) b = elim (Bool-cases (leb_ℤ b.current_size b.max_size)) [
  | inl small ↦ rw small refl
  | inr large ↦ elim (Bool-cases (os.remove_fails f.path)) [
    | inl stays ↦ rw (large, stays) (prune_files-max_size os fs b)
    | inr goes ↦ rw (large, goes) (prune_files-max_size os fs (removed_from b f))
  ]
]

step-max_size : (c : Call) (b : Buffer) → (step c b).1.max_size ≡ b.max_size
unfolding write clear prune
step-max_size (writes os none) b = refl
step-max_size (writes os (some bytes)) b = ground arith
step-max_size (clears os) b = ground arith
step-max_size (prunes os) b =
    ground (arith, prune_files-max_size os (sort_by_mod_time (file_infos os b.disk)) b)

-- `Prune` does nothing to a buffer within its limit.
prune_within : (os : Os) (b : Buffer) → b.current_size ≤ℤ b.max_size → prune os b ≡ (ok tt, b)
unfolding prune
prune_within os b within = ground arith

zero_within : (max : ℤ) (n : ℕ) → pos n ≤ℤ max → pos 0 ≤ℤ max
zero_within max n h = omega arith

step-IsBounded : (c : Call) (b : Buffer) → IsBounded b → IsCleanCall c b → IsBounded (step c b).1
unfolding write clear
step-IsBounded (writes os none) b h clean = h
step-IsBounded (writes os (some bytes)) b (accurate, distinct, within) (fresh, whole, fits) = (
  write-IsAccurate os bytes b accurate fresh whole fits,
  (write-Allows os (some bytes) b distinct fresh).0,
  rw (step-max_size (writes os (some bytes)) b) (write-le-max_size os (some bytes) b within),
)
step-IsBounded (clears os) b (accurate, distinct, within) clean =
    elim (Bool-cases os.read_dir_fails) [
      | inl fails ↦ rw fails (accurate, distinct, within)
      | inr lists ↦
          rw (lists, clear_files-eq-survivors os [] b.disk distinct)
            (
              ground arith,
              survivors-IsDistinct os b.disk distinct,
              zero_within b.max_size _ (rw accurate at within),
            )
    ]
step-IsBounded (prunes os) b (accurate, distinct, within) clean =
    rw (prune_within os b within) (accurate, distinct, within)

run-IsBounded-max_size :
    (cs : List Call) (b : Buffer)
    → IsBounded b
    → IsCleanRun cs b
    → IsBounded (run cs b).1 × ((run cs b).1.max_size ≡ b.max_size)
run-IsBounded-max_size [] b h clean = (h, refl)
run-IsBounded-max_size (c ∷ cs) b h (clean, later) =
    let (bounded, same) =
      run-IsBounded-max_size cs (step c b).1 (step-IsBounded c b h clean) later in
    (bounded, same ∙ step-max_size c b)

-- A buffer that starts with the right size and within its limit holds at most its limit in bytes
-- after any sequence of writes, clears and prunes, and its size stays right. No write stops
-- half-way or takes a sum of 2^63 or more, each file written has a new name, and no clear leaves
-- bytes behind.
pub run-IsBounded :
    (cs : List Call) (b : Buffer)
    → IsBounded b
    → IsCleanRun cs b
    → let last = (run cs b).1 in IsAccurate last × (pos (disk_size last.disk) ≤ℤ b.max_size)
run-IsBounded cs b h clean =
    let ((accurate, distinct, within), same) = run-IsBounded-max_size cs b h clean in
    (accurate, rw (accurate, same) at within)
