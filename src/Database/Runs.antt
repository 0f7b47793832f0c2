-- ===== src/Database/Runs.antt =====
-- PutPart on concrete chunks, and the theorems at concrete inputs.
use kingdb.Prelude.{
  ℕ, ◌≤◌, ◌≡◌, refl, arith, false, some, List, [], ◌∷◌, ◌++◌, length, take, All, if◌then◌else◌,
}
use kingdb.Status.{status_ok, is_ok}
use kingdb.Options.{DatabaseOptions, default_options}
use kingdb.ByteArray.{ByteArray, bytes, new_byte_array, set_offset, set_size}
use kingdb.Database.{ValidSizeHandler, put_part, put_parts, chunk_at}
use kingdb.Database.Pieces.{pieces, joined, Adjacent}
use kingdb.Database.Parts.{feed, put_part-feed, put_part_offset}

-- A handler that keeps a record of its calls.
abbrev record_call : ValidSizeHandler (List (ℕ × List ℕ))
record_call bs offset size_value calls = (status_ok, calls ++ ((offset, bs) ∷ []))

abbrev tiny_parts : DatabaseOptions
tiny_parts = record default_options { storage_maximum_part_size = 2 }

abbrev five_bytes : ByteArray
five_bytes = new_byte_array (1 ∷ 2 ∷ 3 ∷ 4 ∷ 5 ∷ [])

three_calls :
    put_part tiny_parts record_call false five_bytes 10 20 []
    ≡ some (status_ok, (10, 1 ∷ 2 ∷ []) ∷ (12, 3 ∷ 4 ∷ []) ∷ (14, 5 ∷ []) ∷ [])
unfolding put_part put_parts chunk_at
three_calls = refl

put_part-feed_example :
    (put_part tiny_parts record_call false five_bytes 10 20 []
      ≡ some (feed tiny_parts record_call 20 (pieces 6 2 10 (1 ∷ 2 ∷ 3 ∷ 4 ∷ 5 ∷ [])) []))
    × (joined (pieces 6 2 10 (1 ∷ 2 ∷ 3 ∷ 4 ∷ 5 ∷ [])) ≡ 1 ∷ 2 ∷ 3 ∷ 4 ∷ 5 ∷ [])
    × All (λ q. length q.1 ≤ 2) (pieces 6 2 10 (1 ∷ 2 ∷ 3 ∷ 4 ∷ 5 ∷ []))
    × Adjacent 10 (pieces 6 2 10 (1 ∷ 2 ∷ 3 ∷ 4 ∷ 5 ∷ []))
put_part-feed_example =
    put_part-feed tiny_parts record_call five_bytes 10 20 [] refl refl (omega arith) (omega arith)
      (omega arith) (omega arith) (omega arith)

-- A chunk of two bytes that starts at the third byte of its resource.
abbrev inner_chunk : ByteArray
inner_chunk = set_size 2 (set_offset 2 five_bytes)

inner_chunk_window : bytes inner_chunk ≡ 3 ∷ 4 ∷ []
inner_chunk_window = refl

wrong_bytes :
    put_part tiny_parts record_call false inner_chunk 0 20 []
    ≡ some (status_ok, (0, 1 ∷ 2 ∷ []) ∷ [])
unfolding put_part put_parts chunk_at
wrong_bytes = refl

put_part_offset_example : put_part tiny_parts record_call false inner_chunk 0 20 [] ≡ (
    let (status, calls) = record_call (take 2 (1 ∷ 2 ∷ 3 ∷ 4 ∷ 5 ∷ [])) 0 20 [] in
    some (if is_ok status then (status_ok, calls) else (status, calls)))
put_part_offset_example =
    put_part_offset tiny_parts record_call inner_chunk 0 20 [] (omega arith) (omega arith)
      (omega arith) (omega arith) (omega arith)
