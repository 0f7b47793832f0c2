-- ===== src/ResourceManager/Runs.antt =====
-- The FileResourceManager at concrete calls.
use kingdb.Prelude.{◌%◌, ◌^◌, ◌≡◌, refl, arith, List, [], ◌∷◌}
use kingdb.Prelude.Int.{pos}
use kingdb.Prelude.Maps.{total, contains, lookup, insert, set_insert}
use kingdb.ResourceManager.{
  reset, set_file_size, clear_all_data_for_file_id, set_file_large, set_num_writes_in_progress,
}
use kingdb.ResourceManager.Sizes.{any_file, outside}
use kingdb.ResourceManager.Large.{LargeAreCompacted}
use kingdb.ResourceManager.Trace.{
  apply, Call, call_set_file_size, call_set_file_large, call_set_num_writes_in_progress,
  call_clear_all_data_for_file_id, run, run-sizes,
}

abbrev some_calls : List Call
some_calls =
    call_set_file_size 1 9000
    ∷ call_set_file_size 2 500
    ∷ call_set_num_writes_in_progress 77 2 (pos 1)
    ∷ call_set_file_large 1
    ∷ call_set_file_size 3 40
    ∷ call_set_file_size 2 600
    ∷ call_clear_all_data_for_file_id 3
    ∷ []

run_total : (run some_calls reset).dbsize_total ≡ 9600
unfolding run apply clear_all_data_for_file_id contains set_file_size set_file_large
    set_num_writes_in_progress lookup insert set_insert
run_total = refl

run_uncompacted : (run some_calls reset).dbsize_uncompacted ≡ 600
unfolding run apply clear_all_data_for_file_id contains set_file_size set_file_large
    set_num_writes_in_progress lookup insert set_insert
run_uncompacted = refl

run-sizes_example :
    ((run some_calls reset).dbsize_total ≡ total any_file (run some_calls reset).filesizes % 2 ^ 64)
    × ((run some_calls reset).dbsize_uncompacted
        ≡ total (outside (run some_calls reset).compactedfiles) (run some_calls reset).filesizes
          % 2 ^ 64)
    × LargeAreCompacted (run some_calls reset)
run-sizes_example =
    run-sizes some_calls
      (omega arith, (omega arith, (tt, (tt, (omega arith, (omega arith, (tt, tt)))))))
