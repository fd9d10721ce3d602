-- ===== src/Buffer/Directory.antt =====
-- Laws of the directory of internal/buffer/buffer.go under writes and removals.
use truespec_agent.Prelude.{
  ℕ, ◌+◌, ◌≡◌, refl, inl, true, false, some, [], ◌∷◌, List, String, str_eq, str_eq_sym, eq_iff,
  arith, length, In,
}
use truespec_agent.Buffer.Disk.{
  Bytes, Node, file, subdir, node_name, disk_size, put_file, remove_file, IsFresh, IsDistinct,
  file_size,
}

pub disk_size-put_file :
    (k : String) (bytes : Bytes) (mtime : ℕ) (d : List Node)
    → IsFresh k d
    → disk_size (put_file k bytes mtime d) ≡ disk_size d + length bytes
disk_size-put_file k bytes mtime [] fresh = omega arith
disk_size-put_file k bytes mtime (n ∷ d) fresh =
    ground (arith, disk_size-put_file k bytes mtime d fresh.1)

pub put_file-IsFresh :
    (j k : String) (bytes : Bytes) (mtime : ℕ) (d : List Node)
    → str_eq j k ≡ false
    → IsFresh j d
    → IsFresh j (put_file k bytes mtime d)
put_file-IsFresh j k bytes mtime [] ne fresh = (ne, tt)
put_file-IsFresh j k bytes mtime (n ∷ d) ne fresh =
    ground (arith, put_file-IsFresh j k bytes mtime d ne fresh.1)

pub put_file-IsDistinct :
    (k : String) (bytes : Bytes) (mtime : ℕ) (d : List Node)
    → IsFresh k d
    → IsDistinct d
    → IsDistinct (put_file k bytes mtime d)
put_file-IsDistinct k bytes mtime [] fresh h = (tt, tt)
put_file-IsDistinct k bytes mtime (n ∷ d) fresh h = ground (
  arith,
  str_eq_sym k (node_name n),
  put_file-IsDistinct k bytes mtime d fresh.1 h.1,
  put_file-IsFresh (node_name n) k bytes mtime d,
)

pub In-put_file :
    (k : String) (bytes : Bytes) (mtime : ℕ) (d : List Node)
    → In (file k bytes mtime) (put_file k bytes mtime d)
In-put_file k bytes mtime [] = inl refl
In-put_file k bytes mtime (n ∷ d) = ground (arith, In-put_file k bytes mtime d)

pub remove_file-IsFresh : (j k : String) (d : List Node) → IsFresh j d → IsFresh j (remove_file k d)
remove_file-IsFresh j k [] fresh = tt
remove_file-IsFresh j k (n ∷ d) fresh = ground (arith, remove_file-IsFresh j k d fresh.1)

pub remove_file-IsDistinct :
    (k : String) (d : List Node) → IsDistinct d → IsDistinct (remove_file k d)
remove_file-IsDistinct k [] h = tt
remove_file-IsDistinct k (n ∷ d) h =
    ground (arith, remove_file-IsDistinct k d h.1, remove_file-IsFresh (node_name n) k d h.0)

-- Removing a name that no entry has changes nothing.
pub remove_file_fresh : (k : String) (d : List Node) → IsFresh k d → remove_file k d ≡ d
remove_file_fresh k [] fresh = refl
remove_file_fresh k (n ∷ d) fresh = ground (arith, remove_file_fresh k d fresh.1)

pub IsFresh-of_eq : (j k : String) (d : List Node) → str_eq j k ≡ true → IsFresh j d → IsFresh k d
IsFresh-of_eq j k d e fresh = rw ((eq_iff j k).0 e) at fresh

pub disk_size-remove_file :
    (k : String) (s : ℕ) (d : List Node)
    → IsDistinct d
    → file_size k d ≡ some s
    → disk_size (remove_file k d) + s ≡ disk_size d
disk_size-remove_file k s [] h e = cc
disk_size-remove_file k s (file name bytes mtime ∷ d) h e = ground (
  arith,
  disk_size-remove_file k s d h.1,
  str_eq_sym k name,
  IsFresh-of_eq name k d,
  remove_file_fresh k d,
)
disk_size-remove_file k s (subdir name below ∷ d) h e =
    ground (arith, disk_size-remove_file k s d h.1)

pub file_size-remove_file :
    (j k : String) (d : List Node)
    → str_eq j k ≡ false
    → file_size j (remove_file k d) ≡ file_size j d
file_size-remove_file j k [] ne = refl
file_size-remove_file j k (file name bytes mtime ∷ d) ne =
    ground (arith, eq_iff j k, eq_iff j name, eq_iff k name, file_size-remove_file j k d ne)
file_size-remove_file j k (subdir name below ∷ d) ne =
    ground (arith, eq_iff j k, eq_iff j name, eq_iff k name, file_size-remove_file j k d ne)
