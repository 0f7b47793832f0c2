-- ===== src/HsTable/OffsetArray/RoundTrip.antt =====
-- LoadFile restores the index from what WriteOffsetArray appended to a file.
use kingdb.Prelude.{
  ℕ, ◌+◌, ◌-◌, ◌^◌, ◌<◌, bit_and, ◌≡◌, refl, sym, ap, ◌∙◌, arith, Bool, true, false, ◌||◌, List,
  ◌++◌, All, map, length, take, drop, length-append, drop-append, take-append, append_assoc, le→ltb,
  ◌==◌, not, ==_refl,
}
use kingdb.Coding.{Platform, encode_fixed32}
use kingdb.Coding.Fixed.{encode_fixed32-to_memory, length-to_memory}
use kingdb.Format.Filetype.{compacted_large, compacted_regular}
use kingdb.Reader.{done}
use kingdb.Format.Checksums.{Checksums}
use kingdb.Format.Footer
use kingdb.Format.Footer.{
  HsTableFooter, is_type_large, is_type_compacted, decode_footer-encode_footer,
  length-encode_footer, set_has_padding_in_values, set_has_invalid_entries,
}
use kingdb.Format.Row.{OffsetArrayRow}
use kingdb.Format.Row.RoundTrip.{IsEncodable}
use kingdb.HsTable.OffsetArray.{
  magic_number, encode_rows, footer_of, Index, write_offset_array, Loaded, loaded_from,
  check_footer, load_file,
}
use kingdb.HsTable.OffsetArray.Rows.{indexed, rows_short, load_rows-encode_rows}

-- What WriteOffsetArray puts into the footer, flags aside.
footer_of_fields :
    (rows : List OffsetArrayRow) (position filetype : ℕ) (has_padding has_invalid : Bool)
    → let f = footer_of rows position filetype has_padding has_invalid in
      (f.filetype ≡ filetype)
      × (f.offset_indexes ≡ position)
      × (f.num_entries ≡ length rows)
      × (f.magic_number ≡ magic_number)
      × (f.flags < 4)
unfolding footer_of set_has_padding_in_values set_has_invalid_entries
footer_of_fields rows position filetype true true = (refl, refl, refl, refl, omega arith)
footer_of_fields rows position filetype true false = (refl, refl, refl, refl, omega arith)
footer_of_fields rows position filetype false true = (refl, refl, refl, refl, omega arith)
footer_of_fields rows position filetype false false = (refl, refl, refl, refl, omega arith)

module _ (p : Platform) (cs : Checksums) (body : List ℕ) (rows : List OffsetArrayRow) (filetype : ℕ)
    (has_padding has_invalid : Bool) where
  abbrev footer : HsTableFooter
  footer = footer_of rows (length body) filetype has_padding has_invalid

  abbrev bytes : List ℕ
  bytes = encode_rows rows ++ Footer.encode_to p footer

  abbrev crc : ℕ
  crc = cs.crc32_value bytes

  -- The file, once the array is behind its body.
  abbrev pub written_file : List ℕ
  written_file = body ++ write_offset_array p cs rows (length body) filetype has_padding has_invalid

  written_file-parts :
      written_file
      ≡ body ++ (encode_rows rows ++ (Footer.encode_to p footer ++ encode_fixed32 p crc))
  unfolding write_offset_array
  written_file-parts = ap (λ t. body ++ t) (append_assoc (encode_rows rows) _ _)

  length-encode_fixed32 : (v : ℕ) → length (encode_fixed32 p v) ≡ 4
  length-encode_fixed32 v = rw (encode_fixed32-to_memory p v) (length-to_memory p 4 v)

  pub length-written_file : length written_file ≡ length body + length (encode_rows rows) + 36
  length-written_file =
      rw
        (
          written_file-parts, length-append, length-append, length-append, length-encode_footer,
          length-encode_fixed32,
        )
        (omega arith)

  -- The footer as it is read.
  abbrev footer_read : HsTableFooter
  footer_read = record footer { crc32 = crc }

  encode_to-footer_read : Footer.encode_to p footer_read ≡ Footer.encode_to p footer
  encode_to-footer_read = unfold Footer.encode_to in refl

  footer_read-IsEncodable :
      filetype < 2 ^ 32
      → length written_file < 2 ^ 64
      → length rows < 2 ^ 64
      → Footer.IsEncodable footer_read
  footer_read-IsEncodable t s n =
      let (f, o, e, m, g) = footer_of_fields rows (length body) filetype has_padding has_invalid in
      record {
        filetype = rw f t;
        flags = omega arith;
        offset_indexes = omega (arith, length-written_file);
        num_entries = rw e n;
        magic_number = rw m (omega arith);
        crc32 = cs.crc32_value_bound bytes;
      }

  decode_footer :
      filetype < 2 ^ 32
      → length written_file < 2 ^ 64
      → length rows < 2 ^ 64
      → Footer.decode_from p (drop (length written_file - 36) written_file) ≡ done footer_read
  decode_footer t s n =
      ap (Footer.decode_from p) (
        ap (drop (length written_file - 36))
          (written_file-parts ∙ sym (append_assoc body (encode_rows rows) _))
        ∙ drop-append (length written_file - 36) (body ++ encode_rows rows) _
            (omega (arith, length-written_file, length-append body (encode_rows rows)))
        ∙ ap (λ t. t ++ encode_fixed32 p crc) (sym encode_to-footer_read))
      ∙ decode_footer-encode_footer p footer_read (footer_read-IsEncodable t s n)

  bytes_read_back :
      take (length written_file - length body - 4) (drop (length body) written_file) ≡ bytes
  unfolding write_offset_array
  bytes_read_back =
      ap (take (length written_file - length body - 4)) (drop-append (length body) body _ refl)
      ∙ take-append (length written_file - length body - 4) bytes (encode_fixed32 p crc) (
          omega (
            arith,
            length-written_file,
            length-append (encode_rows rows) (Footer.encode_to p footer),
            length-encode_footer p footer,
          ))

  rows_from_body :
      drop (length body) written_file
      ≡ encode_rows rows ++ (Footer.encode_to p footer ++ encode_fixed32 p crc)
  rows_from_body =
      ap (drop (length body)) written_file-parts ∙ drop-append (length body) body _ refl

  rows_length :
      length (encode_rows rows ++ (Footer.encode_to p footer ++ encode_fixed32 p crc))
      ≡ length (encode_rows rows) + 36
  rows_length =
      rw (length-append, length-append, length-encode_footer, length-encode_fixed32) (omega arith)

  -- What LoadFile reports.
  abbrev pub report : Loaded
  report = record {
    filesize = length written_file;
    is_file_large = not (bit_and filetype compacted_large == 0);
    is_file_compacted =
        not (bit_and filetype compacted_regular == 0)
        || not (bit_and filetype compacted_large == 0);
  }

  loaded_from-footer_read :
      (index : Index) → loaded_from written_file footer_read (done tt, index) ≡ (done report, index)
  unfolding is_type_large is_type_compacted
  loaded_from-footer_read index =
      let (f, o, e, m, g) = footer_of_fields rows (length body) filetype has_padding has_invalid in
      rw f refl

  check_footer-footer_read :
      (fileid : ℕ) (index : Index)
      → length (encode_rows rows) + 36 < 2 ^ 31
      → length written_file < 2 ^ 64
      → All IsEncodable rows
      → check_footer p cs written_file fileid footer_read index
        ≡ (done report, index ++ map (indexed fileid) rows)
  unfolding check_footer footer_of is_type_large is_type_compacted
  check_footer-footer_read fileid index small s e =
      let (f, o, n, m, g) = footer_of_fields rows (length body) filetype has_padding has_invalid in
      rw (m, o, n)
        (rw
          (
            le→ltb (length written_file) (length body + 4) (omega (arith, length-written_file)),
            bytes_read_back,
            ==_refl crc,
          )
          (ap (loaded_from written_file footer_read) (
              load_rows-encode_rows p cs written_file fileid _ rows (length body) index e
                rows_from_body (omega (arith, rows_length))
                (omega (arith, rows_length, length-written_file)))
            ∙ loaded_from-footer_read (index ++ map (indexed fileid) rows)))

  -- LoadFile reads the array that WriteOffsetArray appended to any body: it keeps the index that it
  -- is given and adds each row behind it, in order, under the hash of its key and at its place in
  -- this file; it reports the size of the whole file and what the type of the file says. The array
  -- is smaller than 2 GiB.
  pub load_file-write_offset_array :
      (fileid : ℕ) (index : Index)
      → filetype < 2 ^ 32
      → length (encode_rows rows) + 36 < 2 ^ 31
      → length written_file < 2 ^ 64
      → All IsEncodable rows
      → load_file p cs written_file fileid index ≡ (done report, index ++ map (indexed fileid) rows)
  unfolding load_file
  load_file-write_offset_array fileid index t small s e =
      rw (le→ltb (length written_file) 36 (omega (arith, length-written_file))) (
        rw (decode_footer t s (omega (arith, rows_short rows e)))
          (check_footer-footer_read fileid index small s e))
