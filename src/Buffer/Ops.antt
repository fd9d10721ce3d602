-- ===== src/Buffer/Ops.antt =====
-- The methods of `Buffer` in internal/buffer/buffer.go. Each runs under the buffer's mutex, so it
-- is one step from a state to the next. The state holds the directory as well as the fields.
use truespec_agent.Prelude.{
  ℕ, Bool, Option, none, some, List, [], ◌∷◌, String, ◌<>◌, Result, ok, err, length, if◌then◌else◌,
}
use truespec_agent.Prelude.Int.{ℤ, pos, ◌+ℤ◌, ◌-ℤ◌, ltb_ℤ, leb_ℤ}
use truespec_agent.Prelude.Word.{wrap64}
use truespec_agent.Buffer.Disk.{
  Bytes, Node, file, subdir, done, not_opened, short, Os, disk_size, put_file, remove_file,
  take_bytes, decimal,
}
use truespec_agent.Buffer.Sort.{FileInfo, sort_by_mod_time}

pub record Buffer : Type 0 where
  pub dir : String
  pub max_size : ℤ
  pub current_size : ℤ
  pub disk : List Node

pub data BufferError : Type 0 where
  mkdir_failed marshal_failed write_failed read_dir_failed walk_failed : BufferError
  full : ℤ → ℤ → BufferError

-- `calculateSize`: on an error of the walk the field keeps its value.
unfoldable pub calculate_size : Os → Buffer → Result BufferError (Unit {0}) × Buffer
calculate_size os b =
    if os.walk_fails
    then (err walk_failed, b)
    else (ok tt, record b { current_size = pos (disk_size b.disk) })

-- `New`, where `disk` is what the directory holds already.
unfoldable pub new : Os → String → ℤ → List Node → Result BufferError Buffer
unfolding calculate_size
new os dir max_size disk =
    if os.mkdir_fails
    then err mkdir_failed
    else ok
        (calculate_size os
          (record { dir = dir; max_size = max_size; current_size = pos 0; disk = disk })).1

-- The name that `Write` makes of the clock.
unfoldable pub batch_name : ℕ → String
batch_name now = "batch_" <> decimal now <> ".json"

-- `os.WriteFile`
unfoldable pub write_file : Os → String → Bytes → List Node → Bool × List Node
write_file os name bytes disk = elim os.write [
  | done ↦ (Bool.true, put_file name bytes os.mtime disk)
  | not_opened ↦ (Bool.false, disk)
  | short n ↦ (Bool.false, put_file name (take_bytes n bytes) os.mtime disk)
]

-- `Write`, from the result of `json.Marshal` on.
unfoldable pub write : Os → Option Bytes → Buffer → Result BufferError (Unit {0}) × Buffer
unfolding write_file
write os none b = (err marshal_failed, b)
write os (some bytes) b =
    let grown = wrap64 (b.current_size +ℤ pos (length bytes)) in
    if ltb_ℤ b.max_size grown
    then (err (full b.current_size b.max_size), b)
    else let (written, disk) = write_file os (batch_name os.now) bytes b.disk in
      if written
      then (ok tt, record b { current_size = grown; disk = disk })
      else (err write_failed, record b { disk = disk })

-- The loop of `ReadAll`.
unfoldable pub read_files : Os → List Node → List Bytes
read_files os [] = []
read_files os (subdir name below ∷ d) = read_files os d
read_files os (file name bytes mtime ∷ d) =
    let rest = read_files os d in if os.read_fails name then rest else bytes ∷ rest

unfoldable pub read_all : Os → Buffer → Result BufferError (List Bytes)
unfolding read_files
read_all os b = if os.read_dir_fails then err read_dir_failed else ok (read_files os b.disk)

-- The loop of `Clear`, over the listing, with the directory as it stands.
unfoldable pub clear_files : Os → List Node → List Node → List Node
clear_files os [] disk = disk
clear_files os (subdir name below ∷ d) disk = clear_files os d disk
clear_files os (file name bytes mtime ∷ d) disk =
    clear_files os d (if os.remove_fails name then disk else remove_file name disk)

unfoldable pub clear : Os → Buffer → Result BufferError (Unit {0}) × Buffer
unfolding clear_files
clear os b =
    if os.read_dir_fails
    then (err read_dir_failed, b)
    else (ok tt, record b { current_size = pos 0; disk = clear_files os b.disk b.disk })

unfoldable pub size : Buffer → ℤ
size b = b.current_size

-- The first loop of `Prune`.
unfoldable pub file_infos : Os → List Node → List FileInfo
file_infos os [] = []
file_infos os (subdir name below ∷ d) = file_infos os d
file_infos os (file name bytes mtime ∷ d) =
    let rest = file_infos os d in
    if os.info_fails name
    then rest
    else record { path = name; mod_time = mtime; size = length bytes } ∷ rest

-- The last loop of `Prune`.
unfoldable pub prune_files : Os → List FileInfo → Buffer → Buffer
prune_files os [] b = b
prune_files os (f ∷ fs) b =
    let smaller : Buffer = record b {
      current_size = wrap64 (b.current_size -ℤ pos f.size);
      disk = remove_file f.path b.disk;
    } in
    let next : Buffer = if os.remove_fails f.path then b else smaller in
    let pruned = prune_files os fs next in if leb_ℤ b.current_size b.max_size then b else pruned

unfoldable pub prune : Os → Buffer → Result BufferError (Unit {0}) × Buffer
unfolding prune_files file_infos sort_by_mod_time
prune os b =
    if leb_ℤ b.current_size b.max_size
    then (ok tt, b)
    else if os.read_dir_fails
    then (err read_dir_failed, b)
    else (ok tt, prune_files os (sort_by_mod_time (file_infos os b.disk)) b)
