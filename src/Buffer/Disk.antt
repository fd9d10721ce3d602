-- ===== src/Buffer/Disk.antt =====
-- The buffer's directory (internal/buffer/buffer.go), and what the operating system may do to a
-- call on it. An entry of the directory is a file, with its name, its bytes and its modification
-- time, or a subdirectory, of which the code reads only how many bytes of files lie below it.
use text.Mathlib.Text.{is_lt}
use Prim.Native.String.{compare}
use truespec_agent.Prelude.{
  ℕ, zero, suc, ◌+◌, ◌/◌, ◌%◌, ◌≡◌, Bool, false, Option, none, some, List, [], ◌∷◌, String, ◌<>◌,
  str_eq, length, take, ltb, if◌then◌else◌,
}

abbrev pub Bytes : Type 0
Bytes = List ℕ

pub data Node : Type 0 where
  file : String → Bytes → ℕ → Node
  subdir : String → ℕ → Node

abbrev pub take_bytes : ℕ → Bytes → Bytes
take_bytes = take

abbrev pub digit : ℕ → String
digit zero = "0"
digit (suc zero) = "1"
digit (suc (suc zero)) = "2"
digit (suc (suc (suc zero))) = "3"
digit (suc (suc (suc (suc zero)))) = "4"
digit (suc (suc (suc (suc (suc zero))))) = "5"
digit (suc (suc (suc (suc (suc (suc zero)))))) = "6"
digit (suc (suc (suc (suc (suc (suc (suc zero))))))) = "7"
digit (suc (suc (suc (suc (suc (suc (suc (suc zero)))))))) = "8"
digit _ = "9"

-- The verb %d of `fmt.Sprintf`. A number that fits an `int64` has 19 digits at most.
unfoldable pub decimal_digits : ℕ → ℕ → String
decimal_digits zero n = ""
decimal_digits (suc fuel) n =
    let front = decimal_digits fuel (n / 10) in
    if ltb n 10 then digit n else front <> digit (n % 10)

unfoldable pub decimal : ℕ → String
unfolding decimal_digits
decimal = decimal_digits 20

-- How a call of `os.WriteFile` ends: all is written, or the open fails, or a later write fails
-- and leaves the first bytes behind.
pub data WriteOutcome : Type 0 where
  done : WriteOutcome
  not_opened : WriteOutcome
  short : ℕ → WriteOutcome

-- The clock and the failures that one call of a method meets.
pub record Os : Type 0 where
  pub now : ℕ
  pub mtime : ℕ
  pub mkdir_fails : Bool
  pub read_dir_fails : Bool
  pub walk_fails : Bool
  pub write : WriteOutcome
  pub read_fails : String → Bool
  pub info_fails : String → Bool
  pub remove_fails : String → Bool

abbrev pub node_name : Node → String
node_name (file name bytes mtime) = name
node_name (subdir name below) = name

abbrev pub node_size : Node → ℕ
node_size (file name bytes mtime) = length bytes
node_size (subdir name below) = below

-- The bytes of all files in and below the directory.
abbrev pub disk_size : List Node → ℕ
disk_size [] = 0
disk_size (n ∷ d) = node_size n + disk_size d

-- Creates or replaces a file. The directory is kept in the order in which `os.ReadDir` lists it.
abbrev pub put_file : String → Bytes → ℕ → List Node → List Node
put_file k bytes mtime [] = file k bytes mtime ∷ []
put_file k bytes mtime (n ∷ d) =
    if str_eq k (node_name n)
    then file k bytes mtime ∷ d
    else if is_lt (compare k (node_name n))
    then file k bytes mtime ∷ n ∷ d
    else n ∷ put_file k bytes mtime d

abbrev pub remove_file : String → List Node → List Node
remove_file k [] = []
remove_file k (n ∷ d) =
    let rest = remove_file k d in if str_eq k (node_name n) then rest else n ∷ rest

-- No entry has this name.
abbrev pub IsFresh : String → List Node → Type 0
IsFresh k [] = Unit
IsFresh k (n ∷ d) = (str_eq k (node_name n) ≡ false) × IsFresh k d

-- The names in a directory are distinct.
abbrev pub IsDistinct : List Node → Type 0
IsDistinct [] = Unit
IsDistinct (n ∷ d) = IsFresh (node_name n) d × IsDistinct d

-- The size of the file of this name.
abbrev pub file_size : String → List Node → Option ℕ
file_size k [] = none
file_size k (file name bytes mtime ∷ d) =
    if str_eq k name then some (length bytes) else file_size k d
file_size k (subdir name below ∷ d) = if str_eq k name then none else file_size k d
