-- ===== src/Format/Row/RoundTrip.antt =====
-- A row of the offset array is read back as it was written, whatever follows it.
use kingdb.Prelude.{
  ℕ, ◌^◌, ◌<◌, ◌≡◌, ap, ◌∙◌, arith, List, ◌++◌, length, length-append, append_assoc,
}
use kingdb.Prelude.Int.{pos}
use kingdb.Reader.{done, bytes_read, read_varint32, read_varint64}
use kingdb.Reader.Laws.{over, start-over, >>=-done, read_varint32-over, read_varint64-over}
use kingdb.Format.Row.{OffsetArrayRow, encode_to, decode_from, read_row, finish, row_of}

pub record IsEncodable (r : OffsetArrayRow) : Type 0 where
  pub hashed_key : r.hashed_key < 2 ^ 64
  pub offset_entry : r.offset_entry < 2 ^ 32

row_over :
    (n : ℕ) (r : OffsetArrayRow) (rest : List ℕ)
    → IsEncodable r
    → read_row n (over (encode_to r ++ rest))
      ≡ done ((r, bytes_read n (pos (length rest))), over rest)
unfolding read_row encode_to finish
row_over n r rest e = rw append_assoc (
    >>=-done read_varint64 _ _ (read_varint64-over r.hashed_key _ e.hashed_key)
    ∙ >>=-done read_varint32 (finish n r.hashed_key) _
        (read_varint32-over r.offset_entry rest e.offset_entry))

row_length :
    (r : OffsetArrayRow) (rest : List ℕ)
    → length (encode_to r ++ rest) < 2 ^ 31
    → bytes_read (length (encode_to r ++ rest)) (pos (length rest)) ≡ length (encode_to r)
row_length r rest small = rw length-append (omega (arith, length-append (encode_to r) rest))

-- DecodeFrom reads back the row that EncodeTo wrote, and reports its length, whatever follows it
-- in a buffer of less than 2 GiB.
pub decode_row-encode_row :
    (r : OffsetArrayRow) (rest : List ℕ)
    → IsEncodable r
    → length (encode_to r ++ rest) < 2 ^ 31
    → decode_from (encode_to r ++ rest) ≡ done (r, length (encode_to r))
unfolding decode_from
decode_row-encode_row r rest e small =
    ap row_of
      (ap (read_row _) (start-over _ small) ∙ row_over (length (encode_to r ++ rest)) r rest e)
    ∙ ap (λ n. done (r, n)) (row_length r rest small)
