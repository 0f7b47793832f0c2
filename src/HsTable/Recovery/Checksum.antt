-- ===== src/HsTable/Recovery/Checksum.antt =====
-- The checksum that RecoverFile computes of an entry that was written in several parts.
use kingdb.Prelude.{
  ℕ, ◌+◌, ◌-◌, ◌≤◌, ◌≡◌, ◌≢◌, refl, sym, ap, ◌∙◌, arith, Bool, true, false, ◌||◌, List, ◌++◌,
  length, take, drop, take-drop, drop-append_left, length-append, length-take, length-drop,
  take-append, drop-drop, append_assoc, ◌==◌, ==_iff,
}
use kingdb.Coding.{Platform}
use kingdb.Coding.Fixed.{encode_fixed32-to_memory, length-to_memory}
use kingdb.Options.{DatabaseOptions}
use kingdb.Format.Checksums.{Checksums}
use kingdb.Format.Entry.{encode_body, encode_to, is_uncompacted, size_value_used}
use kingdb.Format.Entry.RoundTrip.{IsEncodable, written}
use kingdb.HsTable.Recovery.{Recovery, is_crc32_valid, visit}
use kingdb.HsTable.Recovery.Written.{Entry, entry_bytes}

or-true : (b : Bool) → (b || true) ≡ true
or-true true = refl
or-true false = refl

unequal : (a b : ℕ) → a ≢ b → (a == b) ≡ false
unequal a b h = ground (arith, ==_iff a b)

module _ (p : Platform) (cs : Checksums) (db_options : DatabaseOptions) (file : List ℕ) (fileid : ℕ)
    (e : Entry) (encodable : IsEncodable db_options e.header) where
  abbrev header_bytes : List ℕ
  header_bytes = encode_to p cs db_options e.header

  -- The key and the value, without the padding behind the latter.
  abbrev pub content : List ℕ
  content = e.key ++ take (size_value_used e.header) e.value

  header_long : 5 ≤ length header_bytes
  unfolding encode_to encode_body
  header_long = rw (length-append, encode_fixed32-to_memory, length-to_memory) (omega arith)

  -- What follows the first five bytes of the entry.
  behind_five :
      (offset : ℕ) (rest : List ℕ)
      → drop offset file ≡ entry_bytes p cs db_options e ++ rest
      → drop (offset + 5) file
        ≡ (drop 5 header_bytes ++ content) ++ (drop (size_value_used e.header) e.value ++ rest)
  behind_five offset rest d =
      drop-drop offset 5 file
      ∙ ap (drop 5) (d ∙ append_assoc header_bytes (e.key ++ e.value) rest)
      ∙ drop-append_left 5 header_bytes ((e.key ++ e.value) ++ rest) header_long
      ∙ ap (λ v. drop 5 header_bytes ++ ((e.key ++ v) ++ rest))
          (sym (take-drop (size_value_used e.header) e.value))
      ∙ simp append_assoc

  summed :
      (offset : ℕ) (rest : List ℕ)
      → e.header.size_key ≡ length e.key
      → size_value_used e.header ≤ length e.value
      → drop offset file ≡ entry_bytes p cs db_options e ++ rest
      → take
          (length header_bytes + e.header.size_key + size_value_used e.header - 5)
          (drop (offset + 5) file)
        ≡ drop 5 header_bytes ++ content
  summed offset rest k u d =
      ap (take (length header_bytes + e.header.size_key + size_value_used e.header - 5))
        (behind_five offset rest d)
      ∙ take-append (length header_bytes + e.header.size_key + size_value_used e.header - 5)
          (drop 5 header_bytes ++ content) _
          (omega (
            arith,
            header_long,
            length-append (drop 5 header_bytes) content,
            length-append e.key (take (size_value_used e.header) e.value),
            length-take (size_value_used e.header) e.value,
            length-drop 5 header_bytes,
          ))

  uncompacted :
      is_uncompacted e.header ≡ true
      → is_uncompacted (written p cs db_options e.header encodable) ≡ true
  uncompacted u = unfold is_uncompacted in u

  used : size_value_used (written p cs db_options e.header encodable) ≡ size_value_used e.header
  used = unfold size_value_used in refl

  invalid :
      (r : Recovery) (rest : List ℕ)
      → e.header.size_key ≡ length e.key
      → size_value_used e.header ≤ length e.value
      → drop r.offset file ≡ entry_bytes p cs db_options e ++ rest
      → e.header.checksum_content ≡ cs.crc32_value content
      → cs.crc32_value content ≢ cs.crc32_value (drop 5 header_bytes ++ content)
      → is_crc32_valid p cs db_options file fileid r.offset
          (written p cs db_options e.header encodable)
          (length header_bytes)
        ≡ false
  unfolding is_crc32_valid
  invalid r rest k u d c differ =
      rw (used, summed r.offset rest k u d) (unequal _ _ (λ q. differ (sym c ∙ q)))

  -- RecoverFile sums the header with the key and the value, where the checksum that was stored is
  -- that of the key and the value alone: unless the two sums agree by accident, an entry that was
  -- written in several parts, and is whole, is left out of the index as invalid.
  pub visit_uncompacted :
      (r : Recovery) (rest : List ℕ)
      → e.header.size_key ≡ length e.key
      → size_value_used e.header ≤ length e.value
      → is_uncompacted e.header ≡ true
      → drop r.offset file ≡ entry_bytes p cs db_options e ++ rest
      → e.header.checksum_content ≡ cs.crc32_value content
      → cs.crc32_value content ≢ cs.crc32_value (drop 5 header_bytes ++ content)
      → let r' =
          visit p cs db_options file fileid
            (written p cs db_options e.header encodable)
            (length header_bytes)
            r in
        (r'.offarray_current ≡ r.offarray_current)
        × (r'.index ≡ r.index)
        × (r'.has_invalid_entries ≡ true)
  unfolding visit
  visit_uncompacted r rest k u un d c differ =
      rw (uncompacted un, invalid r rest k u d c differ) (refl, refl, or-true r.has_invalid_entries)
