-- ===== src/Buffer/Accounting.antt =====
-- The tracked size of the buffer (internal/buffer/buffer.go) against the bytes on its disk.
use truespec_agent.Prelude.{
  ℕ, suc, ◌+◌, ◌<◌, ◌^◌, ◌≡◌, ◌≢◌, ◌↔◌, false, refl, Option, none, some, List, [], ◌∷◌, String, ok,
  arith, length,
}
use truespec_agent.Prelude.Int.{ℤ, pos, ◌+ℤ◌, ◌≤ℤ◌, pos-+ℤ}
use truespec_agent.Prelude.Word.{InRange64, wrap64, wrap64_of_InRange64}
use truespec_agent.Buffer.Disk.{
  Bytes, Node, WriteOutcome, done, not_opened, short, Os, disk_size, IsFresh, take_bytes,
}
use truespec_agent.Buffer.Ops.{Buffer, new, batch_name, write}
use truespec_agent.Buffer.Directory.{disk_size-put_file}

-- The field says how many bytes the directory holds.
abbrev pub IsAccurate : Buffer → Type 0
IsAccurate b = b.current_size ≡ pos (disk_size b.disk)

abbrev pub grown : Buffer → Bytes → ℤ
grown b bytes = b.current_size +ℤ pos (length bytes)

-- `Write` succeeds exactly when the data can be marshalled, the sum of the tracked size and the
-- length does not exceed the limit, and the file is written. The sum must fit an int64.
pub write_ok_iff :
    (os : Os) (bytes : Bytes) (b : Buffer)
    → InRange64 (grown b bytes)
    → ((write os (some bytes) b).0 ≡ ok tt) ↔ ((grown b bytes ≤ℤ b.max_size) × (os.write ≡ done))
unfolding write
write_ok_iff os bytes b h = ground (arith, wrap64_of_InRange64 (grown b bytes) h)

-- A tracked size within the limit stays within it, whatever `Write` meets.
pub write-le-max_size :
    (os : Os) (payload : Option Bytes) (b : Buffer)
    → b.current_size ≤ℤ b.max_size
    → (write os payload b).1.current_size ≤ℤ b.max_size
unfolding write
write-le-max_size os none b h = h
write-le-max_size os (some bytes) b h = ground arith

-- How a call of `os.WriteFile` ends that leaves no part of a file behind.
abbrev pub IsWhole : WriteOutcome → Type 0
IsWhole done = Unit
IsWhole not_opened = Unit
IsWhole (short n) = ⊥

-- The sum that `Write` computes, where the tracked size is accurate.
pub grown_lem :
    (b : Buffer) (bytes : Bytes)
    → IsAccurate b
    → disk_size b.disk + length bytes < 2 ^ 63
    → wrap64 (grown b bytes) ≡ pos (disk_size b.disk + length bytes)
grown_lem b bytes h fits = rw (h, pos-+ℤ) (wrap64_of_InRange64 _ (omega arith))

-- A `Write` that does not stop half-way keeps the tracked size equal to the bytes on the disk, if
-- no entry has the new file's name and the sum fits an int64.
pub write-IsAccurate :
    (os : Os) (bytes : Bytes) (b : Buffer)
    → IsAccurate b
    → IsFresh (batch_name os.now) b.disk
    → IsWhole os.write
    → disk_size b.disk + length bytes < 2 ^ 63
    → IsAccurate (write os (some bytes) b).1
unfolding write
write-IsAccurate os bytes b h fresh whole fits = ground (
  arith,
  grown_lem b bytes h fits,
  disk_size-put_file (batch_name os.now) bytes os.mtime b.disk fresh,
)

take_bytes_pos : (n : ℕ) (bytes : Bytes) → bytes ≢ [] → 0 < length (take_bytes (suc n) bytes)
take_bytes_pos n [] h = absurd (h refl)
take_bytes_pos n (x ∷ bytes) h = omega arith

-- A `Write` that stops half-way leaves bytes behind that the tracked size does not count.
pub write_short_drifts :
    (os : Os) (n : ℕ) (bytes : Bytes) (b : Buffer)
    → IsAccurate b
    → IsFresh (batch_name os.now) b.disk
    → os.write ≡ short (suc n)
    → bytes ≢ []
    → disk_size b.disk + length bytes < 2 ^ 63
    → pos (disk_size b.disk + length bytes) ≤ℤ b.max_size
    → ¬ IsAccurate (write os (some bytes) b).1
unfolding write
write_short_drifts os n bytes b h fresh half some_bytes fits room drift = ground (
  arith,
  grown_lem b bytes h fits,
  disk_size-put_file (batch_name os.now) (take_bytes (suc n) bytes) os.mtime b.disk fresh,
  take_bytes_pos n bytes some_bytes,
)

-- `New` on a directory that it can make and walk starts with an accurate size.
pub new-IsAccurate :
    (os : Os) (dir : String) (max_size : ℤ) (disk : List Node) {b : Buffer}
    → os.walk_fails ≡ false
    → new os dir max_size disk ≡ ok b
    → IsAccurate b × (b.disk ≡ disk) × (b.max_size ≡ max_size)
unfolding new
new-IsAccurate os dir max_size disk walks made = ground arith
