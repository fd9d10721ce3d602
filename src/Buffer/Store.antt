-- ===== src/Buffer/Store.antt =====
-- The buffer of internal/buffer/buffer.go as a store of named batches, without its directory's order,
-- times and sizes: what each operation may do to it, and the laws of the directory that this needs.
use truespec_agent.Prelude.{
  str_eq_refl, ◌≡◌, ◌⊎◌, ◌↔◌, inl, inr, refl, false, ℕ, Option, none, some, List, [], ◌∷◌, String,
  str_eq, eq_iff, Result, ok, err, arith, In, Bool-cases, if◌then◌else◌, ap, sym,
}
use truespec_agent.Buffer.Disk.{
  Bytes, Node, file, subdir, done, short, Os, put_file, remove_file, take_bytes, IsFresh,
  IsDistinct,
}
use truespec_agent.Buffer.Ops.{Buffer, BufferError, write_failed, batch_name, read_files}
use truespec_agent.Buffer.Contents.{survivors}

abbrev pub Store : Type 0
Store = String → Option Bytes

abbrev pub Same : Store → Store → Type 0
Same s s' = (k : String) → s' k ≡ s k

abbrev pub IsPut : String → Bytes → Store → Store → Type 0
IsPut name bytes s s' = (k : String) → s' k ≡ (if str_eq k name then some bytes else s k)

-- The batch that a name has in a directory.
abbrev pub file_bytes : String → List Node → Option Bytes
file_bytes k [] = none
file_bytes k (file name bytes mtime ∷ d) = if str_eq k name then some bytes else file_bytes k d
file_bytes k (subdir name below ∷ d) = if str_eq k name then none else file_bytes k d

abbrev pub stored : Buffer → Store
stored b k = file_bytes k b.disk

-- An operation that changes the buffer, with what it meets.
pub data Call : Type 0 where
  writes : Os → Option Bytes → Call
  clears : Os → Call
  prunes : Os → Call

-- What an operation with this result may do to the store.
abbrev pub Allows : Call → Result BufferError (Unit {0}) → Store → Store → Type 0
Allows (writes os payload) (ok u) s s' =
    (bytes : Bytes) × (payload ≡ some bytes)
    × (os.write ≡ done)
    × IsPut (batch_name os.now) bytes s s'
Allows (writes os payload) (err e) s s' =
    Same s s'
    ⊎ ((bytes : Bytes) × (n : ℕ) × (payload ≡ some bytes)
        × (e ≡ write_failed)
        × (os.write ≡ short n)
        × IsPut (batch_name os.now) (take_bytes n bytes) s s')
Allows (clears os) (ok u) s s' = (k : String) → s' k ≡ (if os.remove_fails k then s k else none)
Allows (clears os) (err e) s s' = Same s s'
Allows (prunes os) (ok u) s s' =
    (k : String) → (s' k ≡ s k) ⊎ ((s' k ≡ none) × (os.remove_fails k ≡ false))
Allows (prunes os) (err e) s s' = Same s s'

pub file_bytes-put_file :
    (j k : String) (bytes : Bytes) (mtime : ℕ) (d : List Node)
    → IsFresh k d
    → file_bytes j (put_file k bytes mtime d) ≡ (if str_eq j k then some bytes else file_bytes j d)
file_bytes-put_file j k bytes mtime [] fresh = refl
file_bytes-put_file j k bytes mtime (file name old m ∷ d) fresh =
    ground (
      arith,
      eq_iff j k,
      eq_iff j name,
      eq_iff k name,
      file_bytes-put_file j k bytes mtime d fresh.1,
    )
file_bytes-put_file j k bytes mtime (subdir name below ∷ d) fresh =
    ground (
      arith,
      eq_iff j k,
      eq_iff j name,
      eq_iff k name,
      file_bytes-put_file j k bytes mtime d fresh.1,
    )

pub file_bytes_fresh : (k : String) (d : List Node) → IsFresh k d → file_bytes k d ≡ none
file_bytes_fresh k [] fresh = refl
file_bytes_fresh k (file name bytes mtime ∷ d) fresh = ground (arith, file_bytes_fresh k d fresh.1)
file_bytes_fresh k (subdir name below ∷ d) fresh = ground (arith, file_bytes_fresh k d fresh.1)

pub file_bytes-remove_file :
    (j k : String) (d : List Node)
    → file_bytes j (remove_file k d) ≡ (if str_eq j k then none else file_bytes j d)
file_bytes-remove_file j k [] = ground arith
file_bytes-remove_file j k (file name bytes mtime ∷ d) =
    ground (arith, eq_iff j k, eq_iff j name, eq_iff k name, file_bytes-remove_file j k d)
file_bytes-remove_file j k (subdir name below ∷ d) =
    ground (arith, eq_iff j k, eq_iff j name, eq_iff k name, file_bytes-remove_file j k d)

pub file_bytes-survivors :
    (os : Os) (j : String) (d : List Node)
    → IsDistinct d
    → file_bytes j (survivors os d) ≡ (if os.remove_fails j then file_bytes j d else none)
file_bytes-survivors os j [] h = ground arith
file_bytes-survivors os j (file name bytes mtime ∷ d) h =
    ground (arith, eq_iff j name, file_bytes-survivors os j d h.1, file_bytes_fresh name d h.0)
file_bytes-survivors os j (subdir name below ∷ d) h =
    ground (arith, eq_iff j name, file_bytes-survivors os j d h.1, file_bytes_fresh name d h.0)

read_files-In :
    (os : Os) (k : String) (x : Bytes) (d : List Node)
    → file_bytes k d ≡ some x
    → os.read_fails k ≡ false
    → In x (read_files os d)
unfolding read_files
read_files-In os k x [] found reads = absurd (ground arith)
read_files-In os k x (file name bytes mtime ∷ d) found reads =
    ground (arith, eq_iff k name, λ (f : file_bytes k d ≡ some x). read_files-In os k x d f reads)
read_files-In os k x (subdir name below ∷ d) found reads =
    ground (arith, λ (f : file_bytes k d ≡ some x). read_files-In os k x d f reads)

-- A name that a directory has is not fresh in it.
file_bytes-distinct :
    (k name : String) (x : Bytes) (d : List Node)
    → IsFresh name d
    → file_bytes k d ≡ some x
    → str_eq k name ≡ false
file_bytes-distinct k name x d fresh found =
    ground (arith, eq_iff k name, file_bytes_fresh name d fresh)

In-read_files :
    (os : Os) (x : Bytes) (d : List Node)
    → IsDistinct d
    → In x (read_files os d)
    → (k : String) × (file_bytes k d ≡ some x) × (os.read_fails k ≡ false)
unfolding read_files
In-read_files os x [] h here = absurd here
In-read_files os x (subdir name below ∷ d) h here =
    let (k, found, reads) = In-read_files os x d h.1 here in
    (k, rw (file_bytes-distinct k name x d h.0 found) found, reads)
In-read_files os x (file name bytes mtime ∷ d) h here =
    let later : In x (read_files os d)
        → (k : String) × (file_bytes k (file name bytes mtime ∷ d) ≡ some x)
          × (os.read_fails k ≡ false) =
      λ there.
        let (k, found, reads) = In-read_files os x d h.1 there in
        (k, rw (file_bytes-distinct k name x d h.0 found) found, reads) in
    elim (Bool-cases (os.read_fails name)) [
      | inl skip ↦ later (rw skip at here)
      | inr reads ↦ elim (rw reads at here) [
        | inl e ↦ (name, rw (str_eq_refl name) (ap some (sym e)), reads)
        | inr there ↦ later there
      ]
    ]

-- What `ReadAll` finds are the batches of the names that can be read.
pub In-read_files_iff :
    (os : Os) (x : Bytes) (d : List Node)
    → IsDistinct d
    → In x (read_files os d)
      ↔ ((k : String) × (file_bytes k d ≡ some x) × (os.read_fails k ≡ false))
In-read_files_iff os x d h =
    (In-read_files os x d h, λ (k, found, reads). read_files-In os k x d found reads)
