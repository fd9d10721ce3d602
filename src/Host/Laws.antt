-- ===== src/Host/Laws.antt =====
-- Lookups after writes and removals.
use truespec_agent.Prelude.{
  Bool, ℕ, ◌≡◌, refl, true, false, none, some, List, [], ◌∷◌, String, str_eq, eq_iff, ok, arith,
  ◌⊎◌, inl, inr, if◌then◌else◌,
}
use truespec_agent.Buffer.{Bytes, WriteOutcome, done, not_opened, short, take_bytes}
use truespec_agent.Host.Files.{
  other_error, Host, lookup, insert, delete, read_file, write_path, unlink,
}

pub lookup-insert {ℓ} :
    {V : Type ℓ} (j k : String) (v : V) (m : List (String × V))
    → lookup j (insert k v m) ≡ (if str_eq k j then some v else lookup j m)
lookup-insert j k v [] = refl
lookup-insert j k v ((i, w) ∷ m) =
    ground (arith, eq_iff k j, eq_iff i k, eq_iff i j, lookup-insert j k v m)

pub lookup-delete {ℓ} :
    {V : Type ℓ} (j k : String) (m : List (String × V))
    → lookup j (delete k m) ≡ (if str_eq k j then none else lookup j m)
lookup-delete j k [] = ground arith
lookup-delete j k ((i, v) ∷ m) =
    ground (arith, eq_iff i k, eq_iff i j, eq_iff k j, lookup-delete j k m)

-- A file that was written in full and can be read reads as it was written.
pub read_file-write_path :
    (path : String) (bytes : Bytes) (h : Host)
    → (write_path path bytes h).0 ≡ true
    → h.read_fails path ≡ false
    → read_file (write_path path bytes h).1 path ≡ ok bytes
unfolding read_file write_path
read_file-write_path path bytes h written reads =
    ground (arith, lookup-insert path path bytes h.files, eq_iff path path)

-- A write leaves the environment alone.
pub write_path-getenv :
    (path : String) (bytes : Bytes) (h : Host) → (write_path path bytes h).1.getenv ≡ h.getenv
unfolding write_path
write_path-getenv path bytes h = ground arith

pub write_path-read_fails :
    (path : String) (bytes : Bytes) (h : Host)
    → (write_path path bytes h).1.read_fails ≡ h.read_fails
unfolding write_path
write_path-read_fails path bytes h = ground arith

pub write_path-mkdir_fails :
    (path : String) (bytes : Bytes) (h : Host)
    → (write_path path bytes h).1.mkdir_fails ≡ h.mkdir_fails
unfolding write_path
write_path-mkdir_fails path bytes h = ground arith

pub WriteOutcome-cases :
    (o : WriteOutcome) → (o ≡ done) ⊎ ((o ≡ not_opened) ⊎ ((n : ℕ) × (o ≡ short n)))
WriteOutcome-cases done = inl refl
WriteOutcome-cases not_opened = inr (inl refl)
WriteOutcome-cases (short n) = inr (inr (n, refl))

-- A write, complete or not, leaves the other files alone.
pub lookup-write_path :
    (path q : String) (bytes : Bytes) (h : Host)
    → str_eq path q ≡ false
    → lookup q (write_path path bytes h).1.files ≡ lookup q h.files
unfolding write_path
lookup-write_path path q bytes h differ = elim (WriteOutcome-cases (h.write_outcome path)) [
  | inl whole ↦ ground (arith, lookup-insert q path bytes h.files)
  | inr (inl not_at_all) ↦ ground arith
  | inr (inr (n, cut)) ↦ ground (arith, lookup-insert q path (take_bytes n bytes) h.files)
]

pub read_file-lookup :
    (h : Host) (path : String) {bytes : Bytes}
    → lookup path h.files ≡ some bytes
    → h.read_fails path ≡ false
    → read_file h path ≡ ok bytes
unfolding read_file
read_file-lookup h path found reads = ground arith

-- A write that succeeds has put all of it there.
pub write_path_whole :
    (path : String) (bytes : Bytes) (h : Host)
    → (write_path path bytes h).0 ≡ true
    → write_path path bytes h ≡ (true, record h { files = insert path bytes h.files })
unfolding write_path
write_path_whole path bytes h written = ground arith

-- Removing a file that is there, where the system allows it.
pub unlink_found :
    (fails : String → Bool) (p : String) (h : Host) {bytes : Bytes}
    → lookup p h.files ≡ some bytes
    → fails p ≡ false
    → unlink fails p h ≡ (none, record h { files = delete p h.files })
unfolding unlink
unlink_found fails p h found allowed = rw (found, allowed, unlink) refl

pub unlink_refused :
    (fails : String → Bool) (p : String) (h : Host) {bytes : Bytes}
    → lookup p h.files ≡ some bytes
    → fails p ≡ true
    → unlink fails p h ≡ (some other_error, h)
unfolding unlink
unlink_refused fails p h found refused = rw (found, refused, unlink) refl

-- A new entry that is deleted again leaves what there was.
pub lookup-delete-insert {ℓ} :
    {V : Type ℓ} (j k : String) (v : V) (m : List (String × V))
    → lookup k m ≡ none
    → lookup j (delete k (insert k v m)) ≡ lookup j m
lookup-delete-insert j k v m absent =
    ground (arith, lookup-delete j k (insert k v m), lookup-insert j k v m, eq_iff k j)
