-- ===== src/Format/Header/Laws.antt =====
-- What DecodeFrom makes of the header of a HSTable.
use kingdb.Prelude.{
  ℕ, ◌^◌, ◌<◌, ◌≤◌, ◌≡◌, refl, ◌∙◌, arith, List, ◌++◌, length, drop, le→ltb, ==_refl, append_assoc,
  Option, none, some,
}
use kingdb.Coding.{Platform, to_memory}
use kingdb.Coding.Fixed.{encode_fixed32-to_memory, encode_fixed64-to_memory}
use kingdb.Options.{DatabaseOptions}
use kingdb.Reader.{done}
use kingdb.Reader.Fields.{◌>>=◌, >>=-done, field32_at, field64_at}
use kingdb.Format.Checksums.{Checksums}
use kingdb.Format.OptionEncoder
use kingdb.Format.Header.{
  HsTableHeader, encode_body, encode_to, check, decode_from, decode_options,
  is_file_version_supported,
}

module _ (p : Platform) (cs : Checksums) (h : HsTableHeader) (o : DatabaseOptions) (rest : List ℕ)
    (filetype_fits : h.filetype < 2 ^ 32) (timestamp_fits : h.timestamp < 2 ^ 64) where
  abbrev body_memory : List ℕ
  body_memory =
      to_memory p 4 1
      ++ (to_memory p 4 0 ++ (to_memory p 4 h.filetype ++ to_memory p 8 h.timestamp))

  abbrev tail : List ℕ
  tail = OptionEncoder.encode_to p cs o ++ rest

  abbrev buffer : List ℕ
  buffer = to_memory p 4 (cs.crc32_value body_memory) ++ (body_memory ++ tail)

  body-memory : encode_body p cs h ≡ body_memory
  unfolding encode_body
  body-memory = simp (encode_fixed32-to_memory, encode_fixed64-to_memory)

  encode_to-memory : encode_to p cs h o ++ rest ≡ buffer
  unfolding encode_to
  encode_to-memory = rw (body-memory, encode_fixed32-to_memory) (simp append_assoc)

  -- The header as it is read: with the checksum and the version that were written.
  abbrev pub written : HsTableHeader
  written = record h {
    crc32 = cs.crc32_value (encode_body p cs h);
    data_format_major = 1;
    data_format_minor = 0;
  }

  check-buffer :
      (target : Option DatabaseOptions)
      → check p cs buffer (record written { crc32 = cs.crc32_value body_memory }) target
        ≡ decode_options p cs buffer (record written { crc32 = cs.crc32_value body_memory }) target
  unfolding check is_file_version_supported to_memory
  check-buffer target = rw (==_refl (cs.crc32_value body_memory))

  buffer_long : 24 ≤ length buffer
  unfolding to_memory
  buffer_long = omega arith

  decode_from-buffer :
      (target : Option DatabaseOptions)
      → decode_from p cs buffer target
        ≡ decode_options p cs buffer (record written { crc32 = cs.crc32_value body_memory }) target
  unfolding decode_from to_memory
  decode_from-buffer target = rw (le→ltb (length buffer) 24 buffer_long) (
      >>=-done _ (
        field32_at p buffer 0 (cs.crc32_value body_memory) _ refl
          (cs.crc32_value_bound body_memory))
      ∙ >>=-done _ (field32_at p buffer 4 1 _ refl (omega arith))
      ∙ >>=-done _ (field32_at p buffer 8 0 _ refl (omega arith))
      ∙ >>=-done _ (field32_at p buffer 12 h.filetype _ refl filetype_fits)
      ∙ >>=-done _ (field64_at p buffer 16 h.timestamp tail refl timestamp_fits)
      ∙ check-buffer target)

  drop-buffer : drop 24 buffer ≡ tail
  unfolding to_memory
  drop-buffer = refl

  -- DecodeFrom reads back the header that EncodeTo wrote, with the version of this build and the
  -- checksum that was written; where it is asked for the options, its result is that of the
  -- decoder of options on the bytes behind the header.
  pub decode_header-encode_header :
      (decode_from p cs (encode_to p cs h o ++ rest) none ≡ done (written, none))
      × ((target : DatabaseOptions)
          → decode_from p cs (encode_to p cs h o ++ rest) (some target) ≡ (
              OptionEncoder.decode_from p cs (OptionEncoder.encode_to p cs o ++ rest) target
              >>= λ output. done (written, some output)))
  decode_header-encode_header = (
    rw (encode_to-memory, body-memory) (decode_from-buffer none ∙ unfold decode_options in refl),
    (λ target.
        rw (encode_to-memory, body-memory)
          (decode_from-buffer (some target) ∙ unfold decode_options in rw drop-buffer)),
  )
