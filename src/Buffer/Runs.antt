-- ===== src/Buffer/Runs.antt =====
-- Any sequence of operations on the buffer (internal/buffer/buffer.go).
use truespec_agent.Prelude.{
  ◌≡◌, ◌⊎◌, ◌↔◌, inl, inr, refl, false, ℕ, Option, none, some, List, [], ◌∷◌, String, eq_iff,
  Result, ok, arith, In, Bool-cases,
}
use truespec_agent.Prelude.Int.{ltb_ℤ, leb_ℤ}
use truespec_agent.Prelude.Word.{wrap64}
use truespec_agent.Buffer.Accounting.{grown}
use truespec_agent.Buffer.Pruning.{removed_from}
use truespec_agent.Buffer.Disk.{
  WriteOutcome, Bytes, done, not_opened, short, Os, take_bytes, IsFresh, IsDistinct,
}
use truespec_agent.Buffer.Sort.{FileInfo, sort_by_mod_time}
use truespec_agent.Buffer.Ops.{
  Buffer, BufferError, batch_name, write, write_file, prune_files, file_infos, clear, prune,
}
use truespec_agent.Buffer.Directory.{remove_file-IsDistinct, put_file-IsDistinct}
use truespec_agent.Buffer.Contents.{survivors-IsDistinct, contents, clear_files-eq-survivors}
use truespec_agent.Buffer.Store.{
  Store, Same, stored, Call, writes, clears, prunes, Allows, file_bytes-put_file,
  file_bytes-remove_file, file_bytes-survivors, In-read_files_iff,
}

abbrev pub step : Call → Buffer → Result BufferError (Unit {0}) × Buffer
step (writes os payload) b = write os payload b
step (clears os) b = clear os b
step (prunes os) b = prune os b

-- The results of the calls, in order, and the last state.
abbrev pub run : List Call → Buffer → List (Result BufferError (Unit {0})) × Buffer
run [] b = ([], b)
run (c ∷ cs) b = let (r, b') = step c b in let (rs, last) = run cs b' in (r ∷ rs, last)

-- The name of a file that this call writes is new in the directory.
abbrev pub IsFreshCall : Call → Buffer → Type 0
IsFreshCall (writes os payload) b = IsFresh (batch_name os.now) b.disk
IsFreshCall (clears os) b = Unit
IsFreshCall (prunes os) b = Unit

-- The names of the files written are new each time.
abbrev pub IsFreshRun : List Call → Buffer → Type 0
IsFreshRun [] b = Unit
IsFreshRun (c ∷ cs) b = IsFreshCall c b × IsFreshRun cs (step c b).1

-- The store may go from the one to the other by these calls with these results.
abbrev pub AllowsRun : List Call → List (Result BufferError (Unit {0})) → Store → Store → Type 0
AllowsRun [] [] s s' = Same s s'
AllowsRun [] (r ∷ rs) s s' = ⊥
AllowsRun (c ∷ cs) [] s s' = ⊥
AllowsRun (c ∷ cs) (r ∷ rs) s s' = (mid : Store) × Allows c r s mid × AllowsRun cs rs mid s'

WriteOutcome-cases :
    (w : WriteOutcome) → (w ≡ done) ⊎ ((w ≡ not_opened) ⊎ ((n : ℕ) × (w ≡ short n)))
WriteOutcome-cases done = inl refl
WriteOutcome-cases not_opened = inr (inl refl)
WriteOutcome-cases (short n) = inr (inr (n, refl))

pub write-Allows :
    (os : Os) (payload : Option Bytes) (b : Buffer)
    → IsDistinct b.disk
    → IsFresh (batch_name os.now) b.disk
    → let (r, b') = write os payload b in
      IsDistinct b'.disk × Allows (writes os payload) r (stored b) (stored b')
unfolding write write_file
write-Allows os none b h fresh = (h, inl λ k. refl)
write-Allows os (some bytes) b h fresh =
    let name = batch_name os.now in
    let put =
      λ (part : Bytes) (k : String). file_bytes-put_file k name part os.mtime b.disk fresh in
    let distinct = λ (part : Bytes). put_file-IsDistinct name part os.mtime b.disk fresh h in
    elim (Bool-cases (ltb_ℤ b.max_size (wrap64 (grown b bytes)))) [
      | inl too_large ↦ rw too_large (h, inl λ k. refl)
      | inr fits ↦ elim (WriteOutcome-cases os.write) [
        | inl whole ↦ rw (fits, whole) (distinct bytes, (bytes, refl, refl, put bytes))
        | inr (inl closed) ↦ rw (fits, closed) (h, inl λ k. refl)
        | inr (inr (n, half)) ↦
            rw (fits, half)
              (
                distinct (take_bytes n bytes),
                inr (bytes, n, refl, refl, refl, put (take_bytes n bytes)),
              )
      ]
    ]

prune_files-Allows :
    (os : Os) (fs : List FileInfo) (b : Buffer)
    → IsDistinct b.disk
    → IsDistinct (prune_files os fs b).disk
      × Allows (prunes os) (ok tt) (stored b) (stored (prune_files os fs b))
unfolding prune_files
prune_files-Allows os [] b h = (h, λ k. inl refl)
prune_files-Allows os (f ∷ fs) b h = elim (Bool-cases (leb_ℤ b.current_size b.max_size)) [
  | inl small ↦ rw small (h, λ k. inl refl)
  | inr large ↦ elim (Bool-cases (os.remove_fails f.path)) [
    | inl stays ↦ rw (large, stays) (prune_files-Allows os fs b h)
    | inr goes ↦
        let (distinct, kept) =
          prune_files-Allows os fs (removed_from b f) (remove_file-IsDistinct f.path b.disk h) in
        rw (large, goes)
          (
            distinct,
            λ k.
                ground
                  (arith, kept k, eq_iff k f.path, goes, file_bytes-remove_file k f.path b.disk),
          )
  ]
]

step-Allows :
    (c : Call) (b : Buffer)
    → IsDistinct b.disk
    → IsFreshCall c b
    → let (r, b') = step c b in IsDistinct b'.disk × Allows c r (stored b) (stored b')
unfolding clear prune
step-Allows (writes os payload) b h fresh = write-Allows os payload b h fresh
step-Allows (clears os) b h fresh = elim (Bool-cases os.read_dir_fails) [
  | inl fails ↦ rw fails (h, λ k. refl)
  | inr lists ↦
      rw (lists, clear_files-eq-survivors os [] b.disk h)
        (survivors-IsDistinct os b.disk h, λ k. file_bytes-survivors os k b.disk h)
]
step-Allows (prunes os) b h fresh = elim (Bool-cases (leb_ℤ b.current_size b.max_size)) [
  | inl small ↦ rw small (h, λ k. inl refl)
  | inr large ↦ elim (Bool-cases os.read_dir_fails) [
    | inl fails ↦ rw (large, fails) (h, λ k. refl)
    | inr lists ↦
        rw (large, lists) (prune_files-Allows os (sort_by_mod_time (file_infos os b.disk)) b h)
  ]
]

run-AllowsRun :
    (cs : List Call) (b : Buffer)
    → IsDistinct b.disk
    → IsFreshRun cs b
    → let (rs, last) = run cs b in IsDistinct last.disk × AllowsRun cs rs (stored b) (stored last)
run-AllowsRun [] b h fresh = (h, λ k. refl)
run-AllowsRun (c ∷ cs) b h (fresh, later) =
    let (distinct, allowed) = step-Allows c b h fresh in
    let (distinct', rest) = run-AllowsRun cs (step c b).1 distinct later in
    (distinct', (stored (step c b).1, allowed, rest))

-- However its calls go, the buffer behaves as a store of named batches: each call, with the result
-- that it gives, changes the store in a way that `Allows` permits, and after all of them `ReadAll`
-- finds exactly the batches that the store has under the names that can be read. The directory's
-- names are distinct, and each file written has a new one.
pub run_refines :
    (cs : List Call) (b : Buffer) (os : Os) (x : Bytes)
    → IsDistinct b.disk
    → IsFreshRun cs b
    → let (rs, last) = run cs b in
      AllowsRun cs rs (stored b) (stored last)
      × (In x (contents os last)
          ↔ ((k : String) × (stored last k ≡ some x) × (os.read_fails k ≡ false)))
run_refines cs b os x h fresh =
    let (distinct, allowed) = run-AllowsRun cs b h fresh in
    (allowed, In-read_files_iff os x (run cs b).1.disk distinct)
