-- ===== src/ResourceManager.antt =====
-- storage/resource_manager.h: what the storage engine knows of each file, and the size of the
-- database. The mutexes make each operation one step; the clock is an argument.
pub mod Sizes
pub mod Large
pub mod Trace
mod Runs
use kingdb.Prelude.{
  ℕ, ◌+◌, ◌-◌, ◌%◌, ◌^◌, Bool, true, false, Option, none, some, List, [], ◌∷◌, ◌++◌, ◌==◌,
  if◌then◌else◌,
}
use kingdb.Prelude.Int.{ℤ, pos, negsuc}
use kingdb.Prelude.Maps.{
  NatMap, NatSet, get_or, lookup, insert, erase, contains, set_insert, set_erase,
}

pub record ResourceManager : Type 0 where
  pub filesizes : NatMap ℕ
  pub largefiles : NatSet
  pub compactedfiles : NatSet
  pub num_writes_in_progress : NatMap ℕ
  pub offarrays : NatMap (List (ℕ × ℕ))
  pub has_padding_in_values : NatSet
  pub epoch_last_activity : NatMap ℕ
  pub dbsize_total : ℕ
  pub dbsize_uncompacted : ℕ

abbrev pub reset : ResourceManager
reset = record {
  filesizes = [];
  largefiles = [];
  compactedfiles = [];
  num_writes_in_progress = [];
  offarrays = [];
  has_padding_in_values = [];
  epoch_last_activity = [];
  dbsize_total = 0;
  dbsize_uncompacted = 0;
}

-- Differences of `uint64_t`.
abbrev pub sub64 : ℕ → ℕ → ℕ
sub64 a b = (a + 2 ^ 64 - b) % 2 ^ 64

-- The increments arrive as differences of `uint64_t` in an `int64_t`, and are added modulo 2 ^ 64.
unfoldable pub increment_db_size_total : ℕ → ResourceManager → ResourceManager
increment_db_size_total inc m = record m { dbsize_total = (m.dbsize_total + inc) % 2 ^ 64 }

unfoldable pub increment_db_size_uncompacted : ℕ → ResourceManager → ResourceManager
increment_db_size_uncompacted inc m = record m {
  dbsize_uncompacted = (m.dbsize_uncompacted + inc) % 2 ^ 64;
}

unfoldable pub clear_temporary_data_for_file_id : ℕ → ResourceManager → ResourceManager
clear_temporary_data_for_file_id fileid m = record m {
  num_writes_in_progress = erase fileid m.num_writes_in_progress;
  offarrays = erase fileid m.offarrays;
  has_padding_in_values = set_erase fileid m.has_padding_in_values;
  epoch_last_activity = erase fileid m.epoch_last_activity;
}

-- The size of a file, or 0 where none is recorded.
abbrev pub filesize_of : ℕ → ResourceManager → ℕ
filesize_of fileid m = get_or 0 (lookup fileid m.filesizes)

-- Both totals, by the same increment: the second only where the file is not compacted.
unfoldable pub increment_db_sizes : ℕ → ℕ → ResourceManager → ResourceManager
unfolding increment_db_size_total increment_db_size_uncompacted
increment_db_sizes fileid inc m =
    if contains fileid m.compactedfiles
    then increment_db_size_total inc m
    else increment_db_size_uncompacted inc (increment_db_size_total inc m)

unfoldable pub clear_all_data_for_file_id : ℕ → ResourceManager → ResourceManager
unfolding clear_temporary_data_for_file_id increment_db_sizes
clear_all_data_for_file_id fileid m =
    let m1 = clear_temporary_data_for_file_id fileid m in
    let m2 = increment_db_sizes fileid (sub64 0 (filesize_of fileid m1)) m1 in
    record m2 {
      filesizes = erase fileid m2.filesizes;
      largefiles = set_erase fileid m2.largefiles;
      compactedfiles = set_erase fileid m2.compactedfiles;
    }

-- `map[fileid]`, which stores the default value where the key is missing.
abbrev pub touch {ℓ} : {A : Type ℓ} → A → ℕ → NatMap A → NatMap A
touch a fileid map = insert fileid (get_or a (lookup fileid map)) map

unfoldable pub get_file_size : ℕ → ResourceManager → ℕ × ResourceManager
get_file_size fileid m = (filesize_of fileid m, record m { filesizes = touch 0 fileid m.filesizes })

unfoldable pub set_file_size : ℕ → ℕ → ResourceManager → ResourceManager
unfolding increment_db_sizes
set_file_size fileid filesize m =
    let m1 = increment_db_sizes fileid (sub64 filesize (filesize_of fileid m)) m in
    record m1 { filesizes = insert fileid filesize m1.filesizes }

unfoldable pub is_file_large : ℕ → ResourceManager → Bool
is_file_large fileid m = contains fileid m.largefiles

unfoldable pub is_file_compacted : ℕ → ResourceManager → Bool
is_file_compacted fileid m = contains fileid m.compactedfiles

-- The size of a file that has none yet is 0, so the subtraction needs no test of its own.
unfoldable pub set_file_compacted : ℕ → ResourceManager → ResourceManager
unfolding increment_db_size_uncompacted
set_file_compacted fileid m =
    if contains fileid m.compactedfiles
    then m
    else let m1 = record m { compactedfiles = set_insert fileid m.compactedfiles } in
      elim (lookup fileid m.filesizes) [
        | none ↦ m1
        | some filesize ↦ increment_db_size_uncompacted (sub64 0 filesize) m1
      ]

unfoldable pub set_file_large : ℕ → ResourceManager → ResourceManager
unfolding set_file_compacted
set_file_large fileid m =
    set_file_compacted fileid (record m { largefiles = set_insert fileid m.largefiles })

-- The result is a `uint32_t`.
unfoldable pub get_num_writes_in_progress : ℕ → ResourceManager → ℕ × ResourceManager
get_num_writes_in_progress fileid m = (
  get_or 0 (lookup fileid m.num_writes_in_progress) % 2 ^ 32,
  record m { num_writes_in_progress = touch 0 fileid m.num_writes_in_progress },
)

-- A `uint64_t` plus an `int`.
abbrev pub add64 : ℕ → ℤ → ℕ
add64 n (pos k) = (n + k) % 2 ^ 64
add64 n (negsuc k) = (n + 2 ^ 64 - (k + 1)) % 2 ^ 64

unfoldable pub set_num_writes_in_progress : ℕ → ℕ → ℤ → ResourceManager → ℕ × ResourceManager
set_num_writes_in_progress epoch_now fileid inc m =
    let num = add64 (get_or 0 (lookup fileid m.num_writes_in_progress)) inc in
    (
      num % 2 ^ 32,
      record m {
        num_writes_in_progress = insert fileid num m.num_writes_in_progress;
        epoch_last_activity = insert fileid epoch_now m.epoch_last_activity;
      },
    )

unfoldable pub get_epoch_last_activity : ℕ → ResourceManager → ℕ × ResourceManager
get_epoch_last_activity fileid m = (
  get_or 0 (lookup fileid m.epoch_last_activity),
  record m { epoch_last_activity = touch 0 fileid m.epoch_last_activity },
)

unfoldable pub get_offset_array : ℕ → ResourceManager → List (ℕ × ℕ) × ResourceManager
get_offset_array fileid m =
    (get_or [] (lookup fileid m.offarrays), record m { offarrays = touch [] fileid m.offarrays })

unfoldable pub add_offset_array : ℕ → ℕ × ℕ → ResourceManager → ResourceManager
add_offset_array fileid p m = record m {
  offarrays = insert fileid (get_or [] (lookup fileid m.offarrays) ++ (p ∷ [])) m.offarrays;
}

unfoldable pub has_padding_in_values_of : ℕ → ResourceManager → Bool
has_padding_in_values_of fileid m = contains fileid m.has_padding_in_values

unfoldable pub set_has_padding_in_values : ℕ → Bool → ResourceManager → ResourceManager
set_has_padding_in_values fileid true m = record m {
  has_padding_in_values = set_insert fileid m.has_padding_in_values;
}
set_has_padding_in_values fileid false m = record m {
  has_padding_in_values = set_erase fileid m.has_padding_in_values;
}
