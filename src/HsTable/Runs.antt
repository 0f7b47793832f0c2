-- ===== src/HsTable/Runs.antt =====
-- HSTables on concrete bytes, and the theorems at concrete inputs.
use kingdb.Prelude.{ℕ, ◌+◌, ◌*◌, ◌^◌, ◌≡◌, refl, arith, true, false, List, [], ◌∷◌, ◌++◌, map}
use kingdb.Samples.{x86, sums}
use kingdb.Coding.{encode_fixed32, encode_fixed64, encode_varint32, encode_varint64}
use kingdb.Reader.{done}
use kingdb.Format.Footer
use kingdb.Format.Row
use kingdb.Format.Row.{OffsetArrayRow}
use kingdb.HsTable.OffsetArray.{load_file, encode_rows, write_offset_array}
use kingdb.HsTable.OffsetArray.Rows.{indexed}
use kingdb.HsTable.OffsetArray.RoundTrip.{written_file, report, load_file-write_offset_array}

abbrev two_rows : List OffsetArrayRow
two_rows =
    record { hashed_key = 2 ^ 63; offset_entry = 300 }
    ∷ record { hashed_key = 7; offset_entry = 8192 }
    ∷ []

abbrev some_body : List ℕ
some_body = 1 ∷ 2 ∷ 3 ∷ []

load_file-write_offset_array_example :
    load_file x86 sums (written_file x86 sums some_body two_rows 2 true false) 5 ((9, 9) ∷ []) ≡ (
      done (report x86 sums some_body two_rows 2 true false),
      ((9, 9) ∷ []) ++ map (indexed 5) two_rows,
    )
load_file-write_offset_array_example =
    load_file-write_offset_array x86 sums some_body two_rows 2 true false 5 ((9, 9) ∷ [])
      (omega arith)
      (unfold encode_rows Row.encode_to encode_varint32 encode_varint64 in omega arith)
      (unfold write_offset_array encode_rows Row.encode_to encode_varint32 encode_varint64
          Footer.encode_to encode_fixed32 encode_fixed64 in
        omega arith)
      (
        record { hashed_key = omega arith; offset_entry = omega arith },
        (record { hashed_key = omega arith; offset_entry = omega arith }, tt),
      )

two_rows_index : map (indexed 5) two_rows ≡ (2 ^ 63, 5 * 2 ^ 32 + 300) ∷ (7, 5 * 2 ^ 32 + 8192) ∷ []
two_rows_index = refl
