-- ===== src/Buffer/Tests.antt =====
-- Runs of the buffer (internal/buffer/buffer.go), and the theorems at concrete buffers.
use truespec_agent.Prelude.{
  String, inr, ◌≡◌, ◌↔◌, refl, false, some, List, [], ◌∷◌, str_eq, ok, arith, In,
}
use truespec_agent.Prelude.Int.{pos, ◌+ℤ◌, ◌-ℤ◌, ◌≤ℤ◌}
use truespec_agent.Prelude.Word.{wrap64}
use truespec_agent.Buffer.Disk.{
  Node, file, subdir, WriteOutcome, done, Os, disk_size, decimal, IsFresh, IsDistinct,
}
use truespec_agent.Buffer.Ops.{Buffer, new, batch_name, write, clear, prune}
use truespec_agent.Buffer.Accounting.{IsAccurate, write-le-max_size, new-IsAccurate}
use truespec_agent.Buffer.Contents.{contents, survivors, clear-IsAccurate_iff}
use truespec_agent.Buffer.Pruning.{prune-IsAccurate}
use truespec_agent.Buffer.Store.{stored, Call, writes, clears, prunes}
use truespec_agent.Buffer.Runs.{run, AllowsRun, run_refines}
use truespec_agent.Buffer.Bounded.{run-IsBounded}

abbrev os_ending : WriteOutcome → Os
os_ending w = record {
  now = 12090;
  mtime = 7;
  mkdir_fails = false;
  read_dir_fails = false;
  walk_fails = false;
  write = w;
  read_fails = λ k. false;
  info_fails = λ k. false;
  remove_fails = λ k. str_eq k "stuck";
}

abbrev quiet : Os
quiet = record (os_ending done) { remove_fails = λ k. false }

abbrev files : List Node
files =
    file "a" (1 ∷ 2 ∷ []) 30
    ∷ file "b" (3 ∷ 4 ∷ 5 ∷ []) 10
    ∷ subdir "old" 0
    ∷ file "stuck" (6 ∷ []) 20
    ∷ []

-- Six bytes are held, and five are allowed.
abbrev crowded : Buffer
crowded = record { dir = "/buffer"; max_size = pos 5; current_size = pos 6; disk = files }

abbrev roomy : Buffer
roomy = record crowded { max_size = pos 10 }

files-IsDistinct : IsDistinct files
files-IsDistinct = ((refl, (refl, (refl, tt))), ((refl, (refl, tt)), ((refl, tt), (tt, tt))))

batch_name-IsFresh : IsFresh (batch_name 12090) files
unfolding batch_name decimal
batch_name-IsFresh = (refl, (refl, (refl, (refl, tt))))

prune-crowded : (prune (os_ending done) crowded).1 ≡ record crowded {
  current_size = pos 3;
  disk = file "a" (1 ∷ 2 ∷ []) 30 ∷ subdir "old" 0 ∷ file "stuck" (6 ∷ []) 20 ∷ [];
}
unfolding prune wrap64 ◌-ℤ◌
prune-crowded = refl

write-roomy :
    (write quiet (some (8 ∷ [])) roomy).1.disk
    ≡ file "a" (1 ∷ 2 ∷ []) 30
      ∷ file "b" (3 ∷ 4 ∷ 5 ∷ []) 10
      ∷ file "batch_12090.json" (8 ∷ []) 7
      ∷ subdir "old" 0
      ∷ file "stuck" (6 ∷ []) 20
      ∷ []
unfolding write batch_name decimal wrap64 ◌+ℤ◌
write-roomy = refl

write-le-max_size_example : (write quiet (some (8 ∷ [])) roomy).1.current_size ≤ℤ pos 10
write-le-max_size_example = write-le-max_size quiet (some (8 ∷ [])) roomy (omega arith)

new-IsAccurate_example : IsAccurate roomy × (roomy.disk ≡ files) × (roomy.max_size ≡ pos 10)
unfolding new
new-IsAccurate_example = new-IsAccurate quiet "/buffer" (pos 10) files refl refl

clear-IsAccurate_iff_example :
    IsAccurate (clear (os_ending done) crowded).1
    ↔ (disk_size (survivors (os_ending done) files) ≡ 0)
clear-IsAccurate_iff_example = clear-IsAccurate_iff (os_ending done) crowded files-IsDistinct refl

prune-IsAccurate_example :
    IsAccurate (prune (os_ending done) crowded).1
    × IsDistinct (prune (os_ending done) crowded).1.disk
prune-IsAccurate_example =
    prune-IsAccurate (os_ending done) crowded refl files-IsDistinct (omega arith)

-- A write, a clear that leaves nothing behind, and a prune.
abbrev calls : List Call
calls = writes quiet (some (8 ∷ [])) ∷ prunes (os_ending done) ∷ clears quiet ∷ []

results-calls : (run calls roomy).0 ≡ ok tt ∷ ok tt ∷ ok tt ∷ []
unfolding write clear prune wrap64 ◌+ℤ◌
results-calls = refl

run_refines_example :
    AllowsRun calls (run calls roomy).0 (stored roomy) (stored (run calls roomy).1)
    × (In (8 ∷ []) (contents quiet (run calls roomy).1) ↔ (
        (k : String) × (stored (run calls roomy).1 k ≡ some (8 ∷ []))
        × (quiet.read_fails k ≡ false)))
unfolding write
run_refines_example =
    run_refines calls roomy quiet (8 ∷ []) files-IsDistinct (batch_name-IsFresh, (tt, (tt, tt)))

run-IsBounded_example :
    IsAccurate (run calls roomy).1 × (pos (disk_size (run calls roomy).1.disk) ≤ℤ pos 10)
unfolding write clear prune batch_name decimal wrap64 ◌+ℤ◌
run-IsBounded_example =
    run-IsBounded calls roomy (refl, files-IsDistinct, omega arith)
      ((batch_name-IsFresh, tt, omega arith), (tt, (inr refl, tt)))
