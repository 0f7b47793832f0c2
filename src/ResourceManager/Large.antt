-- ===== src/ResourceManager/Large.antt =====
-- Every large file counts as compacted.
use kingdb.Prelude.{ℕ, ◌≡◌, refl, sym, arith, true, inl, inr, Bool-cases, Option-cases}
use kingdb.Prelude.Maps.{
  NatSet, contains, set_insert, contains-set_insert, contains-set_erase, lookup,
}
use kingdb.ResourceManager.{
  ResourceManager, increment_db_size_uncompacted, clear_temporary_data_for_file_id,
  clear_all_data_for_file_id, set_file_size, set_file_compacted, set_file_large, sub64, filesize_of,
}
use kingdb.ResourceManager.Sizes.{increment_db_sizes_fields}

abbrev pub LargeAreCompacted : ResourceManager → Type 0
LargeAreCompacted m = (k : ℕ) → contains k m.largefiles ≡ true → contains k m.compactedfiles ≡ true

set_insert_present : (k : ℕ) (s : NatSet) → contains k s ≡ true → set_insert k s ≡ s
unfolding set_insert
set_insert_present k s e = rw e

-- The two sets of files that SetFileCompacted leaves.
set_file_compacted_sets :
    (fileid : ℕ) (m : ResourceManager)
    → ((set_file_compacted fileid m).largefiles ≡ m.largefiles)
      × ((set_file_compacted fileid m).compactedfiles ≡ set_insert fileid m.compactedfiles)
unfolding set_file_compacted increment_db_size_uncompacted
set_file_compacted_sets fileid m = elim (Bool-cases (contains fileid m.compactedfiles)) [
  | inl e ↦ rw e (refl, sym (set_insert_present fileid m.compactedfiles e))
  | inr e ↦ elim (Option-cases (lookup fileid m.filesizes)) [
    | inl n ↦ rw (e, n) (refl, refl)
    | inr (v, n) ↦ rw (e, n) (refl, refl)
  ]
]

pub set_file_compacted-LargeAreCompacted :
    (fileid : ℕ) (m : ResourceManager)
    → LargeAreCompacted m
    → LargeAreCompacted (set_file_compacted fileid m)
set_file_compacted-LargeAreCompacted fileid m h k =
    let (l, c) = set_file_compacted_sets fileid m in
    rw (l, c, contains-set_insert k fileid m.compactedfiles) (ground (arith, h k))

pub set_file_large-LargeAreCompacted :
    (fileid : ℕ) (m : ResourceManager)
    → LargeAreCompacted m
    → LargeAreCompacted (set_file_large fileid m)
unfolding set_file_large
set_file_large-LargeAreCompacted fileid m h k =
    let (l, c) =
      set_file_compacted_sets fileid (record m { largefiles = set_insert fileid m.largefiles }) in
    rw
      (
        l,
        c,
        contains-set_insert k fileid m.compactedfiles,
        contains-set_insert k fileid m.largefiles,
      )
      (ground (arith, h k))

pub set_file_size-LargeAreCompacted :
    (fileid filesize : ℕ) (m : ResourceManager)
    → LargeAreCompacted m
    → LargeAreCompacted (set_file_size fileid filesize m)
unfolding set_file_size
set_file_size-LargeAreCompacted fileid filesize m h =
    rw (increment_db_sizes_fields fileid (sub64 filesize (filesize_of fileid m)) m) h

pub clear_all_data-LargeAreCompacted :
    (fileid : ℕ) (m : ResourceManager)
    → LargeAreCompacted m
    → LargeAreCompacted (clear_all_data_for_file_id fileid m)
unfolding clear_all_data_for_file_id clear_temporary_data_for_file_id
clear_all_data-LargeAreCompacted fileid m h =
    rw
      (increment_db_sizes_fields fileid (sub64 0 (filesize_of fileid m))
        (clear_temporary_data_for_file_id fileid m))
      (λ k.
        rw (contains-set_erase k fileid m.largefiles, contains-set_erase k fileid m.compactedfiles)
          (ground (arith, h k)))
