-- ===== src/HsTable/OffsetArray/Rows.antt =====
-- The loop of LoadFile reads the rows that WriteOffsetArray wrote.
use kingdb.Prelude.{
  ℕ, suc, ◌+◌, ◌%◌, ◌^◌, ◌<◌, ◌≤◌, ◌≡◌, refl, sym, ap, ◌∙◌, arith, List, [], ◌∷◌, ◌++◌, All, map,
  length, drop, length-append, drop-append, drop-drop, append_assoc, append-nil,
}
use native.Mathlib.Nat.{mod-eq_of_lt}
use kingdb.Coding.{Platform, encode_varint32, encode_varint64}
use kingdb.Coding.Varint.{encode_varint_shape}
use kingdb.Reader.{done}
use kingdb.Format.Checksums.{Checksums}
use kingdb.Format.Row
use kingdb.Format.Row.{OffsetArrayRow}
use kingdb.Format.Row.RoundTrip.{IsEncodable, decode_row-encode_row}
use kingdb.HsTable.OffsetArray.{encode_rows, location, Index, load_rows}

-- What LoadFile inserts for a row.
abbrev pub indexed : ℕ → OffsetArrayRow → ℕ × ℕ
indexed fileid r = (r.hashed_key, location fileid r.offset_entry)

module _ (p : Platform) (cs : Checksums) (file : List ℕ) (fileid : ℕ) (tail : List ℕ) where
  load_rows-step :
      (n offset : ℕ) (index : Index) (r : OffsetArrayRow) (k : ℕ)
      → Row.decode_from (drop offset file) ≡ done (r, k)
      → load_rows p cs file fileid (suc n) offset index
        ≡ load_rows p cs file fileid n ((offset + k) % 2 ^ 64) (index ++ (indexed fileid r ∷ []))
  unfolding load_rows
  load_rows-step n offset index r k e = rw (e, load_rows)

  -- The loop over the rows that were written at its offset.
  pub load_rows-encode_rows :
      (rows : List OffsetArrayRow) (offset : ℕ) (index : Index)
      → All IsEncodable rows
      → drop offset file ≡ encode_rows rows ++ tail
      → length (encode_rows rows ++ tail) < 2 ^ 31
      → offset + length (encode_rows rows ++ tail) < 2 ^ 64
      → load_rows p cs file fileid (length rows) offset index
        ≡ (done tt, index ++ map (indexed fileid) rows)
  unfolding load_rows encode_rows
  load_rows-encode_rows [] offset index e d small fits =
      ap (λ i. (done tt, i)) (sym (append-nil index))
  load_rows-encode_rows (r ∷ rs) offset index e d small fits =
      let here = d ∙ append_assoc (Row.encode_to r) (encode_rows rs) tail in
      let long = length-append (Row.encode_to r) (encode_rows rs ++ tail) in
      let all = ap length (append_assoc (Row.encode_to r) (encode_rows rs) tail) in
      load_rows-step (length rs) offset index r (length (Row.encode_to r)) (
        ap Row.decode_from here
        ∙ decode_row-encode_row r (encode_rows rs ++ tail) e.0 (omega arith))
      ∙ ap (λ o. load_rows p cs file fileid (length rs) o (index ++ (indexed fileid r ∷ [])))
          (mod-eq_of_lt (omega arith))
      ∙ load_rows-encode_rows rs (offset + length (Row.encode_to r))
          (index ++ (indexed fileid r ∷ [])) e.1
          (drop-drop offset (length (Row.encode_to r)) file
            ∙ ap (drop (length (Row.encode_to r))) here
            ∙ drop-append (length (Row.encode_to r)) (Row.encode_to r) (encode_rows rs ++ tail)
                refl)
          (omega arith) (omega arith)
      ∙ ap (λ i. (done tt, i))
          (append_assoc index (indexed fileid r ∷ []) (map (indexed fileid) rs))

pub rows_short :
    (rows : List OffsetArrayRow) → All IsEncodable rows → length rows ≤ length (encode_rows rows)
unfolding encode_rows Row.encode_to
rows_short [] e = omega arith
rows_short (r ∷ rs) e = omega (
  arith,
  rows_short rs e.1,
  length-append (Row.encode_to r) (encode_rows rs),
  length-append (encode_varint64 r.hashed_key) (encode_varint32 r.offset_entry),
  (encode_varint_shape r.hashed_key).0 e.0.hashed_key,
)
