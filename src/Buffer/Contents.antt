-- ===== src/Buffer/Contents.antt =====
-- What `ReadAll` finds in the buffer (internal/buffer/buffer.go) after `Write` and `Clear`.
use truespec_agent.Prelude.{
  str_eq_sym, str_eq_refl, ℕ, ◌≡◌, ◌↔◌, ◌⊎◌, inl, inr, refl, false, some, List, [], ◌∷◌, String,
  str_eq, ok, err, arith, ap, ◌++◌, In, Bool-cases, if◌then◌else◌,
}
use truespec_agent.Prelude.Int.{pos}
use truespec_agent.Buffer.Disk.{
  Bytes, Node, file, subdir, node_name, Os, disk_size, put_file, remove_file, IsFresh, IsDistinct,
}
use truespec_agent.Buffer.Ops.{
  Buffer, batch_name, write, read_files, read_all, clear_files, clear, read_dir_failed,
}
use truespec_agent.Buffer.Directory.{remove_file_fresh}
use truespec_agent.Buffer.Accounting.{IsAccurate}

-- The bytes of the files that can be read.
abbrev pub contents : Os → Buffer → List Bytes
contents os b = read_files os b.disk

pub read_all-eq-contents :
    (os : Os) (b : Buffer) {found : List Bytes} → read_all os b ≡ ok found → found ≡ contents os b
unfolding read_all
read_all-eq-contents os b e = ground arith

read_files-put_file :
    (os : Os) (k : String) (bytes : Bytes) (mtime : ℕ) (d : List Node) (x : Bytes)
    → os.read_fails k ≡ false
    → IsFresh k d
    → In x (read_files os (put_file k bytes mtime d)) ↔ ((x ≡ bytes) ⊎ In x (read_files os d))
unfolding read_files
read_files-put_file os k bytes mtime [] x reads fresh = ground arith
read_files-put_file os k bytes mtime (file name old m ∷ d) x reads fresh =
    ground (arith, read_files-put_file os k bytes mtime d x reads fresh.1)
read_files-put_file os k bytes mtime (subdir name below ∷ d) x reads fresh =
    ground (arith, read_files-put_file os k bytes mtime d x reads fresh.1)

-- After a successful `Write` of a new file that can be read, `ReadAll` finds what it found before
-- and the data written, and nothing else.
pub read_all-write :
    (os : Os) (bytes : Bytes) (b : Buffer) (x : Bytes)
    → (write os (some bytes) b).0 ≡ ok tt
    → IsFresh (batch_name os.now) b.disk
    → os.read_fails (batch_name os.now) ≡ false
    → os.read_dir_fails ≡ false
    → let b' = (write os (some bytes) b).1 in
      (read_all os b' ≡ ok (contents os b'))
      × (In x (contents os b') ↔ ((x ≡ bytes) ⊎ In x (contents os b)))
unfolding write read_all
read_all-write os bytes b x done fresh reads lists = (
  rw lists,
  ground (arith, read_files-put_file os (batch_name os.now) bytes os.mtime b.disk x reads fresh),
)

-- The entries that `Clear` leaves: subdirectories, and files whose removal fails.
abbrev pub survivors : Os → List Node → List Node
survivors os [] = []
survivors os (subdir name below ∷ d) = subdir name below ∷ survivors os d
survivors os (file name bytes mtime ∷ d) =
    let rest = survivors os d in if os.remove_fails name then file name bytes mtime ∷ rest else rest

survivors-IsFresh :
    (os : Os) (k : String) (d : List Node) → IsFresh k d → IsFresh k (survivors os d)
survivors-IsFresh os k [] h = tt
survivors-IsFresh os k (subdir name below ∷ d) h = (h.0, survivors-IsFresh os k d h.1)
survivors-IsFresh os k (file name bytes mtime ∷ d) h = ground (arith, survivors-IsFresh os k d h.1)

pub survivors-IsDistinct : (os : Os) (d : List Node) → IsDistinct d → IsDistinct (survivors os d)
survivors-IsDistinct os [] h = tt
survivors-IsDistinct os (subdir name below ∷ d) h =
    (survivors-IsFresh os name d h.0, survivors-IsDistinct os d h.1)
survivors-IsDistinct os (file name bytes mtime ∷ d) h =
    ground (arith, survivors-IsFresh os name d h.0, survivors-IsDistinct os d h.1)

IsFresh-middle :
    (k : String) (pre : List Node) (n : Node) (d : List Node)
    → IsFresh k (pre ++ (n ∷ d))
    → (str_eq k (node_name n) ≡ false) × IsFresh k pre × IsFresh k (pre ++ d)
IsFresh-middle k [] n d h = (h.0, tt, h.1)
IsFresh-middle k (m ∷ pre) n d h = ground (arith, IsFresh-middle k pre n d h.1)

IsDistinct-middle :
    (pre : List Node) (n : Node) (d : List Node)
    → IsDistinct (pre ++ (n ∷ d))
    → IsFresh (node_name n) pre × IsFresh (node_name n) d × IsDistinct (pre ++ d)
IsDistinct-middle [] n d h = (tt, h.0, h.1)
IsDistinct-middle (m ∷ pre) n d h = ground (
  arith,
  IsDistinct-middle pre n d h.1,
  IsFresh-middle (node_name m) pre n d h.0,
  str_eq_sym (node_name n) (node_name m),
)

remove_file-middle :
    (pre : List Node) (n : Node) (d : List Node)
    → IsFresh (node_name n) pre
    → IsFresh (node_name n) d
    → remove_file (node_name n) (pre ++ (n ∷ d)) ≡ pre ++ d
remove_file-middle [] n d before later =
    ground (arith, str_eq_refl (node_name n), remove_file_fresh (node_name n) d later)
remove_file-middle (m ∷ pre) n d before later =
    ground (arith, remove_file-middle pre n d before.1 later)

snoc : (pre : List Node) (n : Node) (d : List Node) → pre ++ (n ∷ d) ≡ (pre ++ (n ∷ [])) ++ d
snoc [] n d = refl
snoc (m ∷ pre) n d = ap (◌∷◌ m) (snoc pre n d)

-- The loop, at the point where `pre` is what is left of the entries already seen.
pub clear_files-eq-survivors :
    (os : Os) (pre d : List Node)
    → IsDistinct (pre ++ d)
    → clear_files os d (pre ++ d) ≡ pre ++ survivors os d
unfolding clear_files
clear_files-eq-survivors os pre [] h = refl
clear_files-eq-survivors os pre (subdir name below ∷ d) h =
    let n = subdir name below in
    rw (snoc pre n d, snoc pre n (survivors os d))
      (clear_files-eq-survivors os (pre ++ (n ∷ [])) d (rw (snoc pre n d) at h))
clear_files-eq-survivors os pre (file name bytes mtime ∷ d) h =
    let n = file name bytes mtime in
    let (before, later, rest) = IsDistinct-middle pre n d h in
    elim (Bool-cases (os.remove_fails name)) [
      | inl stays ↦
          rw (stays, snoc pre n d, snoc pre n (survivors os d))
            (clear_files-eq-survivors os (pre ++ (n ∷ [])) d (rw (snoc pre n d) at h))
      | inr goes ↦
          rw (goes, remove_file-middle pre n d before later)
            (clear_files-eq-survivors os pre d rest)
    ]

-- In a directory with distinct names `Clear` removes each file whose removal does not fail, leaves
-- the other entries, in their order, and sets the tracked size to 0 whatever is left. If the
-- directory cannot be listed it changes nothing.
pub clear_lem :
    (os : Os) (b : Buffer)
    → IsDistinct b.disk
    → clear os b ≡ (
        if os.read_dir_fails
        then (err read_dir_failed, b)
        else (ok tt, record b { current_size = pos 0; disk = survivors os b.disk }))
unfolding clear
clear_lem os b h = rw (clear_files-eq-survivors os [] b.disk h)

-- After a `Clear` that could list the directory, the tracked size is right exactly when what is
-- left holds no bytes.
pub clear-IsAccurate_iff :
    (os : Os) (b : Buffer)
    → IsDistinct b.disk
    → os.read_dir_fails ≡ false
    → IsAccurate (clear os b).1 ↔ (disk_size (survivors os b.disk) ≡ 0)
clear-IsAccurate_iff os b h lists = rw (clear_lem os b h, lists) (ground arith)
