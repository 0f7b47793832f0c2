-- ===== src/HsTable/Recovery/Written.antt =====
-- Whole entries, and what one round of the scan of RecoverFile makes of them.
use kingdb.Prelude.{
  ℕ, suc, ◌+◌, ◌^◌, ◌<◌, ◌≤◌, ◌≡◌, refl, ap, ◌∙◌, arith, Bool, true, false, ◌||◌, List, [], ◌∷◌,
  ◌++◌, length, drop, length-append,
}
use native.Mathlib.Nat.{mod-eq_of_lt}
use kingdb.Coding.{Platform}
use kingdb.Options.{DatabaseOptions}
use kingdb.Reader.{done}
use kingdb.Format.Checksums.{Checksums}
use kingdb.Format.Entry.{
  EntryHeader, encode_to, decode_from, are_sizes_valid, is_uncompacted, has_padding,
  size_value_offset,
}
use kingdb.Format.Entry.Sizes.{are_sizes_valid_iff}
use kingdb.Format.Entry.RoundTrip.{IsEncodable, written}
use kingdb.HsTable.OffsetArray.{location}
use kingdb.HsTable.Recovery.{Recovery, verifying, visit, scan}

-- An entry as it was written, and its bytes.
pub record Entry : Type 0 where
  pub header : EntryHeader
  pub key : List ℕ
  pub value : List ℕ

pub suc_add : (m n : ℕ) → suc m + n ≡ suc (m + n)
suc_add m n = omega arith

or-false : (b : Bool) → (b || false) ≡ b
or-false true = refl
or-false false = refl

module _ (p : Platform) (cs : Checksums) (db_options : DatabaseOptions) where
  abbrev pub entry_bytes : Entry → List ℕ
  entry_bytes e = encode_to p cs db_options e.header ++ (e.key ++ e.value)

  unfoldable pub entries_bytes : List Entry → List ℕ
  entries_bytes [] = []
  entries_bytes (e ∷ es) = entry_bytes e ++ entries_bytes es

  pub length-entry_bytes :
      (e : Entry)
      → length (entry_bytes e)
        ≡ length (encode_to p cs db_options e.header) + length e.key + length e.value
  length-entry_bytes e = omega (
    arith,
    length-append (encode_to p cs db_options e.header) (e.key ++ e.value),
    length-append e.key e.value,
  )

  -- An entry whose sizes are those of its key and its value, and whose content is not checked.
  pub record IsWhole (e : Entry) : Type 0 where
    pub encodable : IsEncodable db_options e.header
    pub key : e.header.size_key ≡ length e.key
    pub nonempty : 0 < length e.key
    pub value : size_value_offset e.header ≡ length e.value
    pub compacted : is_uncompacted e.header ≡ false

  -- What an entry adds: its row, its place in the index, and whether it has padding.
  abbrev pub found : ℕ → Entry → Recovery → Recovery
  found fileid e r = record r {
    offset = r.offset + length (entry_bytes e);
    offarray_current =
        r.offarray_current ++ (record { hashed_key = e.header.hash; offset_entry = r.offset } ∷ []);
    has_padding_in_values = r.has_padding_in_values || has_padding e.header;
    index = r.index ++ ((e.header.hash, location fileid r.offset) ∷ []);
  }

  unfoldable pub found_all : ℕ → List Entry → Recovery → Recovery
  found_all fileid [] r = r
  found_all fileid (e ∷ es) r = found_all fileid es (found fileid e r)

  module _ (file : List ℕ) (fileid : ℕ) where
    pub scan_step :
        (fuel : ℕ) (r : Recovery) (h : EntryHeader) (n : ℕ)
        → decode_from p cs db_options verifying (drop r.offset file) ≡ done (h, n)
        → are_sizes_valid r.offset (length file) h ≡ true
        → scan p cs db_options file fileid (suc fuel) r
          ≡ scan p cs db_options file fileid fuel (visit p cs db_options file fileid h n r)
    unfolding scan
    scan_step fuel r h n d v = rw (d, scan) (rw v refl)

    pub written_reads :
        (e : Entry) (w : IsWhole e)
        → let h = written p cs db_options e.header w.encodable in
          (is_uncompacted h ≡ false)
          × (has_padding h ≡ has_padding e.header)
          × (size_value_offset h ≡ length e.value)
    written_reads e w = (
      unfold is_uncompacted in w.compacted,
      unfold has_padding in refl,
      unfold size_value_offset in w.value,
    )

    pub visit-written :
        (e : Entry) (r : Recovery) (w : IsWhole e)
        → r.offset + length (entry_bytes e) < 2 ^ 32
        → visit p cs db_options file fileid
            (written p cs db_options e.header w.encodable)
            (length (encode_to p cs db_options e.header))
            r
          ≡ found fileid e r
    unfolding visit
    visit-written e r w small =
        let (u, q, v) = written_reads e w in
        rw (u, q, v, or-false)
          (ap
            (λ o. record {
              offset = o;
              offarray_current =
                  r.offarray_current
                  ++ (record { hashed_key = e.header.hash; offset_entry = r.offset } ∷ []);
              has_padding_in_values = r.has_padding_in_values || has_padding e.header;
              has_invalid_entries = r.has_invalid_entries;
              index = r.index ++ ((e.header.hash, location fileid r.offset) ∷ []);
            })
            (mod-eq_of_lt (omega (arith, length-entry_bytes e, w.key))
              ∙ omega (arith, length-entry_bytes e, w.key)))

    pub sizes_valid :
        (e : Entry) (r : Recovery) (w : IsWhole e)
        → r.offset + length (entry_bytes e) ≤ length file
        → length file < 2 ^ 31
        → are_sizes_valid r.offset (length file) (written p cs db_options e.header w.encodable)
          ≡ true
    sizes_valid e r w fits small =
        let (u, q, v) = written_reads e w in
        (are_sizes_valid_iff r.offset (length file) _ (omega (arith, length-entry_bytes e))
            (omega (arith, length-entry_bytes e, w.key))).1
          (omega (arith, w.key, w.nonempty), omega (arith, length-entry_bytes e, w.key))
