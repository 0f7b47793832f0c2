-- ===== src/Format/Footer.antt =====
-- `struct HSTableFooter`: the last 36 bytes of a HSTable.
use kingdb.Prelude.{
  ℕ, ◌^◌, ◌<◌, bit_and, bit_or, ◌≡◌, refl, ◌∙◌, Bool, not, ◌||◌, List, [], ◌++◌, length, ltb, ◌==◌,
  if◌then◌else◌, append_assoc,
}
use kingdb.Coding.{Platform, to_memory, encode_fixed32, encode_fixed64}
use kingdb.Coding.Fixed.{encode_fixed32-to_memory, encode_fixed64-to_memory}
use kingdb.Reader.{Read, done, failed, decoding_error}
use kingdb.Reader.Fields.{◌>>=◌, >>=-done, field32, field64, field32_at, field64_at}
use kingdb.Format.Filetype.{compacted_large, compacted_regular}

pub record HsTableFooter : Type 0 where
  pub filetype : ℕ
  pub flags : ℕ
  pub offset_indexes : ℕ
  pub num_entries : ℕ
  pub magic_number : ℕ
  pub crc32 : ℕ

abbrev pub footer_size : ℕ
footer_size = 36

-- HSTableFooterFlags
abbrev pub has_padding_in_values : ℕ
has_padding_in_values = 0x1

abbrev pub has_invalid_entries : ℕ
has_invalid_entries = 0x2

unfoldable pub is_type_large : HsTableFooter → Bool
is_type_large f = not (bit_and f.filetype compacted_large == 0)

unfoldable pub is_type_compacted : HsTableFooter → Bool
is_type_compacted f =
    not (bit_and f.filetype compacted_regular == 0) || not (bit_and f.filetype compacted_large == 0)

unfoldable pub set_has_padding_in_values : HsTableFooter → HsTableFooter
set_has_padding_in_values f = record f { flags = bit_or f.flags has_padding_in_values }

unfoldable pub set_has_invalid_entries : HsTableFooter → HsTableFooter
set_has_invalid_entries f = record f { flags = bit_or f.flags has_invalid_entries }

-- EncodeTo writes all but the checksum, which the function that writes the footer adds.
unfoldable pub encode_to : Platform → HsTableFooter → List ℕ
encode_to p f =
    encode_fixed32 p f.filetype
    ++ (encode_fixed32 p f.flags
        ++ (encode_fixed64 p f.offset_indexes
            ++ (encode_fixed64 p f.num_entries ++ encode_fixed64 p f.magic_number)))

unfoldable pub decode_from : Platform → List ℕ → Read HsTableFooter
decode_from p buffer = if ltb (length buffer) footer_size then failed decoding_error else do
  filetype ← field32 p buffer 0
  flags ← field32 p buffer 4
  offset_indexes ← field64 p buffer 8
  num_entries ← field64 p buffer 16
  magic_number ← field64 p buffer 24
  crc32 ← field32 p buffer 32
  done (record {
    filetype = filetype;
    flags = flags;
    offset_indexes = offset_indexes;
    num_entries = num_entries;
    magic_number = magic_number;
    crc32 = crc32;
  })

-- The fields fit their types.
pub record IsEncodable (f : HsTableFooter) : Type 0 where
  pub filetype : f.filetype < 2 ^ 32
  pub flags : f.flags < 2 ^ 32
  pub offset_indexes : f.offset_indexes < 2 ^ 64
  pub num_entries : f.num_entries < 2 ^ 64
  pub magic_number : f.magic_number < 2 ^ 64
  pub crc32 : f.crc32 < 2 ^ 32

-- The bytes of a footer with its checksum, one field after the other.
abbrev memory : Platform → HsTableFooter → List ℕ
memory p f =
    to_memory p 4 f.filetype
    ++ (to_memory p 4 f.flags
        ++ (to_memory p 8 f.offset_indexes
            ++ (to_memory p 8 f.num_entries
                ++ (to_memory p 8 f.magic_number ++ to_memory p 4 f.crc32))))

encode_footer-memory :
    (p : Platform) (f : HsTableFooter) → encode_to p f ++ encode_fixed32 p f.crc32 ≡ memory p f
unfolding encode_to
encode_footer-memory p f = simp (encode_fixed32-to_memory, encode_fixed64-to_memory, append_assoc)

pub length-encode_footer : (p : Platform) (f : HsTableFooter) → length (encode_to p f) ≡ 32
unfolding encode_to to_memory
length-encode_footer p f = simp (encode_fixed32-to_memory, encode_fixed64-to_memory)

-- DecodeFrom reads back the footer that EncodeTo wrote, once its checksum is behind it.
pub decode_footer-encode_footer :
    (p : Platform) (f : HsTableFooter)
    → IsEncodable f
    → decode_from p (encode_to p f ++ encode_fixed32 p f.crc32) ≡ done f
decode_footer-encode_footer p f e = rw (encode_footer-memory p f) (
    unfold decode_from to_memory in
    >>=-done _ (field32_at p (memory p f) 0 f.filetype _ refl e.filetype)
    ∙ >>=-done _ (field32_at p (memory p f) 4 f.flags _ refl e.flags)
    ∙ >>=-done _ (field64_at p (memory p f) 8 f.offset_indexes _ refl e.offset_indexes)
    ∙ >>=-done _ (field64_at p (memory p f) 16 f.num_entries _ refl e.num_entries)
    ∙ >>=-done _ (field64_at p (memory p f) 24 f.magic_number _ refl e.magic_number)
    ∙ >>=-done _ (field32_at p (memory p f) 32 f.crc32 [] refl e.crc32))
