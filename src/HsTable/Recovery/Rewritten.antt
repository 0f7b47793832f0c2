-- ===== src/HsTable/Recovery/Rewritten.antt =====
-- The file that RecoverFile leaves behind is loaded by LoadFile with the index that was found.
use kingdb.Prelude.{
  ℕ, suc, ◌+◌, ◌-◌, ◌^◌, ◌<◌, ◌≤◌, ◌≡◌, refl, sym, ap, ◌∙◌, arith, false, Option, none, some, List,
  [], ◌∷◌, ◌++◌, All, All-append, map, length, take, drop, length-append, length-take, length-drop,
  append_assoc, append-nil, lt→ltb,
}
use native.Mathlib.Nat.{mod-eq_of_lt}
use kingdb.Coding.{Platform}
use kingdb.Status.{Status}
use kingdb.Options.{DatabaseOptions}
use kingdb.Reader.{done, failed}
use kingdb.Format.Checksums.{Checksums}
use kingdb.Format.Entry.{decode_from}
use kingdb.Format.Header
use kingdb.Format.Header.{HsTableHeader, get_file_type, is_type_large}
use kingdb.Format.Row.{OffsetArrayRow}
use kingdb.Format.Row.RoundTrip.{IsEncodable}
use kingdb.HsTable.OffsetArray.{Index, encode_rows, write_offset_array, load_file}
use kingdb.HsTable.OffsetArray.Rows.{indexed}
use kingdb.HsTable.OffsetArray.RoundTrip.{
  written_file, report, length-written_file, load_file-write_offset_array,
}
use kingdb.HsTable.Recovery.{Recovery, scan, verifying}
use kingdb.HsTable.Recovery.Scan.{scan-entries_bytes}
use kingdb.HsTable.Recovery.Written.{Entry, IsWhole, entry_bytes, entries_bytes, found, found_all}
use kingdb.HsTable.Recovery.Rewrite.{
  Recovered, zeros, resize, scan_start, rewritten, rewrite_file, recover_file,
}

get_file_type_bound : (h : HsTableHeader) → get_file_type h < 2 ^ 32
unfolding get_file_type
get_file_type_bound h = ground arith

abbrev row_of : Entry → Recovery → OffsetArrayRow
row_of e r = record { hashed_key = e.header.hash; offset_entry = r.offset }

map-append_one :
    (fileid : ℕ) (rows : List OffsetArrayRow) (r : OffsetArrayRow)
    → map (indexed fileid) (rows ++ (r ∷ [])) ≡ map (indexed fileid) rows ++ (indexed fileid r ∷ [])
map-append_one fileid [] r = refl
map-append_one fileid (x ∷ xs) r = ap (λ t. indexed fileid x ∷ t) (map-append_one fileid xs r)

nothing_added : (n m : ℕ) → n ≤ m → n - m ≡ 0
nothing_added n m h = omega arith

length-resize : (n : ℕ) (file : List ℕ) → n ≤ length file → length (resize n file) ≡ n
unfolding zeros
length-resize n file h =
    ap (λ k. length (take n file ++ zeros k)) (nothing_added n (length file) h)
    ∙ ap length (append-nil (take n file))
    ∙ omega (arith, length-take n file)

module _ (p : Platform) (cs : Checksums) (db_options : DatabaseOptions) (fileid : ℕ) where
  found_all-offset :
      (es : List Entry) (r : Recovery)
      → (found_all p cs db_options fileid es r).offset
        ≡ r.offset + length (entries_bytes p cs db_options es)
  unfolding found_all entries_bytes
  found_all-offset [] r = omega arith
  found_all-offset (e ∷ es) r =
      found_all-offset es (found p cs db_options fileid e r)
      ∙ omega
          (arith, length-append (entry_bytes p cs db_options e) (entries_bytes p cs db_options es))

  found_all-length :
      (es : List Entry) (r : Recovery)
      → length (found_all p cs db_options fileid es r).index ≡ length r.index + length es
  unfolding found_all
  found_all-length [] r = omega arith
  found_all-length (e ∷ es) r =
      found_all-length es (found p cs db_options fileid e r)
      ∙ omega (arith, length-append r.index (indexed fileid (row_of e r) ∷ []))

  found_all-index :
      (before : Index) (es : List Entry) (r : Recovery)
      → r.index ≡ before ++ map (indexed fileid) r.offarray_current
      → (found_all p cs db_options fileid es r).index
        ≡ before ++ map (indexed fileid) (found_all p cs db_options fileid es r).offarray_current
  unfolding found_all
  found_all-index before [] r h = h
  found_all-index before (e ∷ es) r h =
      let row = row_of e r in
      found_all-index before es (found p cs db_options fileid e r) (
        ap (λ i. i ++ (indexed fileid row ∷ [])) h
        ∙ append_assoc before (map (indexed fileid) r.offarray_current) (indexed fileid row ∷ [])
        ∙ ap (λ t. before ++ t) (sym (map-append_one fileid r.offarray_current row)))

  found_all-IsEncodable :
      (es : List Entry) (r : Recovery)
      → All (IsWhole p cs db_options) es
      → All IsEncodable r.offarray_current
      → r.offset + length (entries_bytes p cs db_options es) < 2 ^ 32
      → All IsEncodable (found_all p cs db_options fileid es r).offarray_current
  unfolding found_all entries_bytes
  found_all-IsEncodable [] r w a small = a
  found_all-IsEncodable (e ∷ es) r w a small =
      let long = length-append (entry_bytes p cs db_options e) (entries_bytes p cs db_options es) in
      found_all-IsEncodable es (found p cs db_options fileid e r) w.1
        (All-append IsEncodable r.offarray_current (row_of e r ∷ []) a
          (record { hashed_key = w.0.encodable.hash; offset_entry = omega (arith, long) }, tt))
        (omega (arith, long))

  module _ (file : List ℕ) (h : HsTableHeader) (o : Option DatabaseOptions) (index : Index)
      (es : List Entry) where
    abbrev pub start : Recovery
    start = scan_start p cs db_options file fileid index

    abbrev pub end : Recovery
    end = found_all p cs db_options fileid es start

    abbrev pub new_file : Recovered
    new_file = rewritten p cs db_options file fileid h end

    recovers :
        (fuel : ℕ)
        → Header.decode_from p cs file none ≡ done (h, o)
        → is_type_large h ≡ false
        → db_options.internal_hstable_header_size < end.offset
        → scan p cs db_options file fileid fuel start ≡ some (done end)
        → recover_file p cs db_options file fileid fuel index ≡ some (done new_file)
    unfolding recover_file rewrite_file
    recovers fuel d l big s = rw (d, recover_file) (rw l (rw s (rw (lt→ltb _ _ big) refl)))

    loads :
        end.offset ≤ length file
        → length (encode_rows end.offarray_current) + 36 < 2 ^ 31
        → length file < 2 ^ 31
        → All IsEncodable end.offarray_current
        → load_file p cs new_file.file fileid index ≡ (
          done (
              report p cs
                (resize end.offset file)
                end.offarray_current
                (get_file_type h)
                end.has_padding_in_values
                end.has_invalid_entries),
          index ++ map (indexed fileid) end.offarray_current,
        )
    loads fits small s a =
        let same : new_file.file
            ≡ written_file p cs (resize end.offset file) end.offarray_current (get_file_type h)
                end.has_padding_in_values end.has_invalid_entries =
          ap
            (λ n.
              resize end.offset file
              ++ write_offset_array p cs end.offarray_current n (get_file_type h)
                  end.has_padding_in_values end.has_invalid_entries)
            (sym (length-resize end.offset file fits)) in
        ap (λ f. load_file p cs f fileid index) same
        ∙ load_file-write_offset_array p cs (resize end.offset file) end.offarray_current
            (get_file_type h) end.has_padding_in_values end.has_invalid_entries fileid index
            (get_file_type_bound h) small
            (omega (
              arith,
              length-resize end.offset file fits,
              length-written_file p cs (resize end.offset file) end.offarray_current
                  (get_file_type h) end.has_padding_in_values end.has_invalid_entries,
            ))
            a

    -- RecoverFile on a HSTable that is not large, with one whole entry or more that are not to be
    -- checked, and bytes behind them that are no header: it returns, and LoadFile loads the file that
    -- it leaves behind with the same index, one pair for each entry. The file is smaller than 2 GiB,
    -- as is the array of offsets, and the header size of the options fits 32 bits and the file.
    pub load_file-recover_file :
        (fuel : ℕ) (tail : List ℕ) {status : Status}
        → Header.decode_from p cs file none ≡ done (h, o)
        → is_type_large h ≡ false
        → db_options.internal_hstable_header_size < 2 ^ 32
        → db_options.internal_hstable_header_size ≤ length file
        → length file < 2 ^ 31
        → All (IsWhole p cs db_options) es
        → 0 < length (entries_bytes p cs db_options es)
        → drop start.offset file ≡ entries_bytes p cs db_options es ++ tail
        → decode_from p cs db_options verifying tail ≡ failed status
        → length (encode_rows end.offarray_current) + 36 < 2 ^ 31
        → (recover_file p cs db_options file fileid (length es + suc fuel) index
            ≡ some (done new_file))
          × (load_file p cs new_file.file fileid index ≡ (
            done (
                report p cs
                  (resize end.offset file)
                  end.offarray_current
                  (get_file_type h)
                  end.has_padding_in_values
                  end.has_invalid_entries),
            new_file.index,
          ))
          × (length new_file.index ≡ length index + length es)
    load_file-recover_file fuel tail d l size fits small w some_bytes here f array =
        let at = mod-eq_of_lt size in
        let last = found_all-offset es start in
        let long = length-append (entries_bytes p cs db_options es) tail in
        let all = sym (length-drop start.offset file) ∙ ap length here ∙ long in
        let a = found_all-IsEncodable es start w tt (omega (arith, at, all)) in
        (
          recovers (length es + suc fuel) d l (omega (arith, at, last)) (
              scan-entries_bytes p cs db_options file fileid fuel es tail start w here
                (omega (arith, at)) small f),
          (loads (omega (arith, at, last, all)) array small a
              ∙ ap
                  (λ i. (
                    done (
                        report p cs (resize end.offset file) end.offarray_current (get_file_type h)
                          end.has_padding_in_values end.has_invalid_entries),
                    i,
                  ))
                  (sym (found_all-index index es start (sym (append-nil index))))),
          found_all-length es start,
        )
