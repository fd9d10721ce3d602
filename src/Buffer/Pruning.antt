-- ===== src/Buffer/Pruning.antt =====
-- `Prune` (internal/buffer/buffer.go): what it removes, and the size that it tracks meanwhile.
use truespec_agent.Prelude.{
  str_eq_sym, str_eq_refl, ◌<◌, ◌≤◌, ◌^◌, ◌≡◌, inl, inr, ◌∙◌, ap, refl, none, some, List, [], ◌∷◌,
  String, eq_iff, arith, All, Bool-cases,
}
use truespec_agent.Prelude.Int.{pos, ◌-ℤ◌, leb_ℤ, pos--ℤ}
use truespec_agent.Prelude.Word.{wrap64, wrap64_of_InRange64}
use truespec_agent.Buffer.Disk.{
  Node, file, subdir, node_name, Os, disk_size, remove_file, IsFresh, IsDistinct, file_size,
}
use truespec_agent.Buffer.Sort.{FileInfo, sort_by_mod_time}
use truespec_agent.Buffer.Ops.{Buffer, file_infos, prune_files, prune}
use truespec_agent.Buffer.Directory.{
  remove_file-IsDistinct, disk_size-remove_file, file_size-remove_file,
}
use truespec_agent.Buffer.Accounting.{IsAccurate}
use truespec_agent.Buffer.Sorting.{
  NotNamed, HasDistinctPaths, sort_by_mod_time-All, sort_by_mod_time-HasDistinctPaths,
}

-- The directory has a file of this path and size.
abbrev IsPresent : List Node → FileInfo → Type 0
IsPresent d f = file_size f.path d ≡ some f.size

file_size_fresh : (k : String) (d : List Node) → IsFresh k d → file_size k d ≡ none
file_size_fresh k [] fresh = refl
file_size_fresh k (file name bytes mtime ∷ d) fresh = ground (arith, file_size_fresh k d fresh.1)
file_size_fresh k (subdir name below ∷ d) fresh = ground (arith, file_size_fresh k d fresh.1)

NotNamed-of_IsFresh :
    (k : String) (d : List Node) (fs : List FileInfo)
    → IsFresh k d
    → All (IsPresent d) fs
    → NotNamed k fs
NotNamed-of_IsFresh k d [] fresh h = tt
NotNamed-of_IsFresh k d (f ∷ fs) fresh h = (
  ground (arith, eq_iff k f.path, file_size_fresh k d fresh, h.0),
  NotNamed-of_IsFresh k d fs fresh h.1,
)

IsPresent-cons :
    (n : Node) (d : List Node) (fs : List FileInfo)
    → NotNamed (node_name n) fs
    → All (IsPresent d) fs
    → All (IsPresent (n ∷ d)) fs
IsPresent-cons n d [] ne h = tt
IsPresent-cons (file name bytes mtime) d (f ∷ fs) ne h = (
  ground (arith, str_eq_sym f.path name, ne.0, h.0),
  IsPresent-cons (file name bytes mtime) d fs ne.1 h.1,
)
IsPresent-cons (subdir name below) d (f ∷ fs) ne h = (
  ground (arith, str_eq_sym f.path name, ne.0, h.0),
  IsPresent-cons (subdir name below) d fs ne.1 h.1,
)

IsPresent-remove_file :
    (k : String) (d : List Node) (fs : List FileInfo)
    → NotNamed k fs
    → All (IsPresent d) fs
    → All (IsPresent (remove_file k d)) fs
IsPresent-remove_file k d [] ne h = tt
IsPresent-remove_file k d (f ∷ fs) ne h = (
  file_size-remove_file f.path k d (str_eq_sym f.path k ∙ ne.0) ∙ h.0,
  IsPresent-remove_file k d fs ne.1 h.1,
)

-- What the first loop collects: files of the directory, each once.
file_infos-IsPresent :
    (os : Os) (d : List Node)
    → IsDistinct d
    → All (IsPresent d) (file_infos os d) × HasDistinctPaths (file_infos os d)
unfolding file_infos
file_infos-IsPresent os [] h = (tt, tt)
file_infos-IsPresent os (subdir name below ∷ d) h =
    let (present, distinct) = file_infos-IsPresent os d h.1 in
    let ne = NotNamed-of_IsFresh name d (file_infos os d) h.0 present in
    (IsPresent-cons (subdir name below) d _ ne present, distinct)
file_infos-IsPresent os (file name bytes mtime ∷ d) h =
    let (present, distinct) = file_infos-IsPresent os d h.1 in
    let ne = NotNamed-of_IsFresh name d (file_infos os d) h.0 present in
    let wider = IsPresent-cons (file name bytes mtime) d _ ne present in
    elim (Bool-cases (os.info_fails name)) [
      | inl skip ↦ rw skip (wider, distinct)
      | inr take ↦ rw take (((ground (arith, str_eq_refl name)), wider), (ne, distinct))
    ]

abbrev pub removed_from : Buffer → FileInfo → Buffer
removed_from b f = record b {
  current_size = wrap64 (b.current_size -ℤ pos f.size);
  disk = remove_file f.path b.disk;
}

removed_from-IsAccurate :
    (b : Buffer) (f : FileInfo)
    → IsAccurate b
    → IsDistinct b.disk
    → disk_size b.disk < 2 ^ 63
    → IsPresent b.disk f
    → IsAccurate (removed_from b f) × (disk_size (remove_file f.path b.disk) ≤ disk_size b.disk)
removed_from-IsAccurate b f h distinct fits present =
    let left = disk_size-remove_file f.path f.size b.disk distinct present in
    (
      rw (h, pos--ℤ (disk_size b.disk) f.size (omega arith))
          (wrap64_of_InRange64 _ (omega arith) ∙ ap pos (omega arith)),
      omega arith,
    )

prune_files-IsAccurate :
    (os : Os) (fs : List FileInfo) (b : Buffer)
    → IsAccurate b
    → IsDistinct b.disk
    → disk_size b.disk < 2 ^ 63
    → All (IsPresent b.disk) fs
    → HasDistinctPaths fs
    → IsAccurate (prune_files os fs b) × IsDistinct (prune_files os fs b).disk
unfolding prune_files
prune_files-IsAccurate os [] b h distinct fits present paths = (h, distinct)
prune_files-IsAccurate os (f ∷ fs) b h distinct fits present paths =
    elim (Bool-cases (leb_ℤ b.current_size b.max_size)) [
      | inl small ↦ rw small (h, distinct)
      | inr large ↦ elim (Bool-cases (os.remove_fails f.path)) [
        | inl stays ↦
            rw (large, stays) (prune_files-IsAccurate os fs b h distinct fits present.1 paths.1)
        | inr goes ↦
            let (accurate, less) = removed_from-IsAccurate b f h distinct fits present.0 in
            rw (large, goes)
              (prune_files-IsAccurate os fs (removed_from b f) accurate
                (remove_file-IsDistinct f.path b.disk distinct) (omega arith)
                (IsPresent-remove_file f.path b.disk fs paths.0 present.1) paths.1)
      ]
    ]

-- `Prune` keeps the tracked size equal to the bytes on the disk, and the names distinct, also
-- where some files cannot be inspected or removed.
pub prune-IsAccurate :
    (os : Os) (b : Buffer)
    → IsAccurate b
    → IsDistinct b.disk
    → disk_size b.disk < 2 ^ 63
    → IsAccurate (prune os b).1 × IsDistinct (prune os b).1.disk
unfolding prune
prune-IsAccurate os b h distinct fits =
    let (present, paths) = file_infos-IsPresent os b.disk distinct in
    ground (
      arith,
      prune_files-IsAccurate os (sort_by_mod_time (file_infos os b.disk)) b h distinct fits
          (sort_by_mod_time-All (IsPresent b.disk) _ present)
          (sort_by_mod_time-HasDistinctPaths _ paths),
    )
