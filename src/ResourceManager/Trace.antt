-- ===== src/ResourceManager/Trace.antt =====
-- Any sequence of calls of the FileResourceManager.
use kingdb.Prelude.{ℕ, ◌%◌, ◌^◌, ◌<◌, ◌≡◌, refl, arith, Bool, true, false, List, [], ◌∷◌, All}
use kingdb.Prelude.Int.{ℤ}
use kingdb.Prelude.Maps.{total, lookup, contains}
use kingdb.ResourceManager.{
  ResourceManager, reset, clear_temporary_data_for_file_id, clear_all_data_for_file_id,
  get_file_size, set_file_size, set_file_compacted, set_file_large, get_num_writes_in_progress,
  set_num_writes_in_progress, get_epoch_last_activity, get_offset_array, add_offset_array,
  set_has_padding_in_values,
}
use kingdb.ResourceManager.Sizes.{
  IsConsistent, any_file, outside, set_file_size-IsConsistent, clear_all_data-IsConsistent,
  get_file_size-IsConsistent, set_file_compacted-IsConsistent, set_file_large-IsConsistent,
}
use kingdb.ResourceManager.Large.{
  LargeAreCompacted, set_file_compacted-LargeAreCompacted, set_file_large-LargeAreCompacted,
  set_file_size-LargeAreCompacted, clear_all_data-LargeAreCompacted,
}

-- The calls that change the state.
pub data Call : Type 0 where
  call_reset : Call
  call_clear_temporary_data_for_file_id : ℕ → Call
  call_clear_all_data_for_file_id : ℕ → Call
  call_get_file_size : ℕ → Call
  call_set_file_size : ℕ → ℕ → Call
  call_set_file_large : ℕ → Call
  call_set_file_compacted : ℕ → Call
  call_get_num_writes_in_progress : ℕ → Call
  call_set_num_writes_in_progress : ℕ → ℕ → ℤ → Call
  call_get_epoch_last_activity : ℕ → Call
  call_get_offset_array : ℕ → Call
  call_add_offset_array : ℕ → ℕ × ℕ → Call
  call_set_has_padding_in_values : ℕ → Bool → Call

unfoldable pub apply : Call → ResourceManager → ResourceManager
apply call_reset m = reset
apply (call_clear_temporary_data_for_file_id f) m = clear_temporary_data_for_file_id f m
apply (call_clear_all_data_for_file_id f) m = clear_all_data_for_file_id f m
apply (call_get_file_size f) m = (get_file_size f m).1
apply (call_set_file_size f n) m = set_file_size f n m
apply (call_set_file_large f) m = set_file_large f m
apply (call_set_file_compacted f) m = set_file_compacted f m
apply (call_get_num_writes_in_progress f) m = (get_num_writes_in_progress f m).1
apply (call_set_num_writes_in_progress t f inc) m = (set_num_writes_in_progress t f inc m).1
apply (call_get_epoch_last_activity f) m = (get_epoch_last_activity f m).1
apply (call_get_offset_array f) m = (get_offset_array f m).1
apply (call_add_offset_array f p) m = add_offset_array f p m
apply (call_set_has_padding_in_values f b) m = set_has_padding_in_values f b m

unfoldable pub run : List Call → ResourceManager → ResourceManager
run [] m = m
run (c ∷ cs) m = run cs (apply c m)

-- The sizes that are given are of type `uint64_t`.
abbrev pub SizeFits : Call → Type 0
SizeFits (call_set_file_size f n) = n < 2 ^ 64
SizeFits _ = Unit {0}

-- The invariant.
pub record IsValid (m : ResourceManager) : Type 0 where
  pub sizes : IsConsistent m
  pub large : LargeAreCompacted m

reset-IsValid : IsValid reset
unfolding lookup total contains
reset-IsValid = record {
  sizes = record {
    distinct = tt;
    fits = λ k. omega arith;
    total_all = refl;
    total_uncompacted = refl;
  };
  large = λ k e. e;
}

-- A call keeps the invariant where it leaves alone what the invariant reads.
keep :
    (m m' : ResourceManager)
    → m'.filesizes ≡ m.filesizes
    → m'.compactedfiles ≡ m.compactedfiles
    → m'.largefiles ≡ m.largefiles
    → m'.dbsize_total ≡ m.dbsize_total
    → m'.dbsize_uncompacted ≡ m.dbsize_uncompacted
    → IsValid m
    → IsValid m'
keep m m' f c l t u v = record {
  sizes = record {
    distinct = rw f v.sizes.distinct;
    fits = λ k. rw f (v.sizes.fits k);
    total_all = rw (t, f) v.sizes.total_all;
    total_uncompacted = rw (u, c, f) v.sizes.total_uncompacted;
  };
  large = rw (l, c) v.large;
}

pub apply-IsValid : (c : Call) (m : ResourceManager) → SizeFits c → IsValid m → IsValid (apply c m)
unfolding apply
apply-IsValid call_reset m h v = reset-IsValid
apply-IsValid (call_clear_temporary_data_for_file_id f) m h v =
    unfold clear_temporary_data_for_file_id in keep m _ refl refl refl refl refl v
apply-IsValid (call_clear_all_data_for_file_id f) m h v = record {
  sizes = clear_all_data-IsConsistent f m v.sizes;
  large = clear_all_data-LargeAreCompacted f m v.large;
}
apply-IsValid (call_get_file_size f) m h v = record {
  sizes = get_file_size-IsConsistent f m v.sizes;
  large = unfold get_file_size in v.large;
}
apply-IsValid (call_set_file_size f n) m h v = record {
  sizes = set_file_size-IsConsistent f n m h v.sizes;
  large = set_file_size-LargeAreCompacted f n m v.large;
}
apply-IsValid (call_set_file_large f) m h v = record {
  sizes = set_file_large-IsConsistent f m v.sizes;
  large = set_file_large-LargeAreCompacted f m v.large;
}
apply-IsValid (call_set_file_compacted f) m h v = record {
  sizes = set_file_compacted-IsConsistent f m v.sizes;
  large = set_file_compacted-LargeAreCompacted f m v.large;
}
apply-IsValid (call_get_num_writes_in_progress f) m h v =
    unfold get_num_writes_in_progress in keep m _ refl refl refl refl refl v
apply-IsValid (call_set_num_writes_in_progress t f inc) m h v =
    unfold set_num_writes_in_progress in keep m _ refl refl refl refl refl v
apply-IsValid (call_get_epoch_last_activity f) m h v =
    unfold get_epoch_last_activity in keep m _ refl refl refl refl refl v
apply-IsValid (call_get_offset_array f) m h v =
    unfold get_offset_array in keep m _ refl refl refl refl refl v
apply-IsValid (call_add_offset_array f p) m h v =
    unfold add_offset_array in keep m _ refl refl refl refl refl v
apply-IsValid (call_set_has_padding_in_values f true) m h v =
    unfold set_has_padding_in_values in keep m _ refl refl refl refl refl v
apply-IsValid (call_set_has_padding_in_values f false) m h v =
    unfold set_has_padding_in_values in keep m _ refl refl refl refl refl v

keeps-IsValid :
    (cs : List Call) (m : ResourceManager) → All SizeFits cs → IsValid m → IsValid (run cs m)
unfolding run
keeps-IsValid [] m h v = v
keeps-IsValid (c ∷ cs) m h v = keeps-IsValid cs (apply c m) h.1 (apply-IsValid c m h.0 v)

-- After any sequence of calls on a new FileResourceManager: GetDbSizeTotal is the sum of the sizes
-- of the files, GetDbSizeUncompacted the sum over the files that are not compacted, both in 64 bits,
-- and every large file counts as compacted.
pub run-sizes :
    (cs : List Call)
    → All SizeFits cs
    → ((run cs reset).dbsize_total ≡ total any_file (run cs reset).filesizes % 2 ^ 64)
      × ((run cs reset).dbsize_uncompacted
          ≡ total (outside (run cs reset).compactedfiles) (run cs reset).filesizes % 2 ^ 64)
      × LargeAreCompacted (run cs reset)
run-sizes cs h =
    let v = keeps-IsValid cs reset h reset-IsValid in
    (v.sizes.total_all, v.sizes.total_uncompacted, v.large)
