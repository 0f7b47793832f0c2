-- ===== src/Format/Entry/RoundTrip.antt =====
-- DecodeFrom reads back what EncodeTo wrote.
use kingdb.Prelude.{
  ltb, le→ltb, ◌+◌, ◌%◌, ℕ, suc, ◌-◌, ◌^◌, ◌≤◌, ◌<◌, ◌≡◌, refl, ◌∙◌, ap, arith, Bool, Bool-cases,
  inl, inr, true, false, List, [], ◌∷◌, ◌++◌, length, length-append, take-append, append_assoc,
  le→ltb, ==_refl, if◌then◌else◌,
}
use kingdb.Prelude.Int.{pos}
use kingdb.Coding.{Platform, encode_fixed32, encode_fixed64, encode_varint32, encode_varint64}
use kingdb.Coding.Fixed.{length-to_memory, encode_fixed64-to_memory}
use kingdb.Options.{DatabaseOptions, ReadOptions, has_compression}
use kingdb.Reader.{
  done, read_uint8, read_fixed32, read_fixed64, read_varint32, read_varint64, bytes_read,
}
use kingdb.Reader.Laws.{
  over, start-over, >>=-done, read_uint8-over, read_fixed32-over, read_fixed64-over,
  read_varint32-over, read_varint64-over,
}
use kingdb.Format.Checksums.{Checksums}
use kingdb.Format.Entry.{
  EntryHeader, encode_body, encode_to, read_compressed_sizes, read_hash, fill, read_fields,
  verify_header, verify_fields, decode_from,
}

-- A header whose fields fit their types. Without compression the two compressed sizes are not
-- stored, so they must be zero.
pub record IsEncodable (db_options : DatabaseOptions) (h : EntryHeader) : Type 0 where
  pub checksum_content : h.checksum_content < 2 ^ 32
  pub flags : h.flags < 2 ^ 32
  pub size_key : h.size_key < 2 ^ 64
  pub size_value : h.size_value < 2 ^ 64
  pub size_value_compressed : h.size_value_compressed < 2 ^ 64
  pub size_padding : h.size_padding < 2 ^ 64
  pub hash : h.hash < 2 ^ 64
  pub stored :
      has_compression db_options.compression ≡ false
      → (h.size_value_compressed ≡ 0) × (h.size_padding ≡ 0)

-- The comparison of the checksum passes if it is that of the bytes before `rest`.
verify_front :
    (p : Platform) (cs : Checksums) (db_options : DatabaseOptions) (read_options : ReadOptions)
    (b : ℕ) (body rest : List ℕ) (h : EntryHeader)
    → h.checksum_header ≡ cs.crc8 body
    → h.size_header_serialized ≡ suc (length body)
    → length body < 2 ^ 63
    → verify_header p cs db_options read_options (b ∷ (body ++ rest)) h
      ≡ done (h, h.size_header_serialized)
verify_front p cs db_options read_options b body rest h ec es small =
    let covered : (h.size_header_serialized + 2 ^ 64 - 1) % 2 ^ 64 ≡ length body =
      omega (arith, es, small) in
    let long : ltb (length (body ++ rest)) (length body) ≡ false =
      le→ltb (length (body ++ rest)) (length body) (omega (arith, length-append body rest)) in
    elim (Bool-cases read_options.verify_checksums) [
      | inl v ↦
          unfold verify_header in
          rw (v, covered, long, take-append (length body) body rest refl, ec, ==_refl)
      | inr v ↦ unfold verify_header in rw v
    ]

module _ (p : Platform) (cs : Checksums) (db_options : DatabaseOptions) (h : EntryHeader)
    (e : IsEncodable db_options h) where
  -- The part that depends on the compression.
  compressed_sizes_over :
      (c : Bool) (rest : List ℕ)
      → (c ≡ false → (h.size_value_compressed ≡ 0) × (h.size_padding ≡ 0))
      → read_compressed_sizes p cs db_options c (
          over (
            (if c
              then encode_fixed64 p h.size_value_compressed ++ encode_varint64 h.size_padding
              else [])
            ++ rest))
        ≡ done ((h.size_value_compressed, h.size_padding), over rest)
  unfolding read_compressed_sizes
  compressed_sizes_over true rest s = rw append_assoc (
      >>=-done (read_fixed64 p) _ _
        (read_fixed64-over p h.size_value_compressed _ e.size_value_compressed)
      ∙ >>=-done read_varint64 _ _ (read_varint64-over h.size_padding rest e.size_padding))
  compressed_sizes_over false rest s = let (z, z') = s refl in rw (z, z')

  enough : (rest : List ℕ) → 8 ≤ length (encode_fixed64 p h.hash ++ rest)
  enough rest =
      rw (length-append, encode_fixed64-to_memory p h.hash, length-to_memory) (omega arith)

  hash_over :
      (rest : List ℕ)
      → read_hash p cs db_options (over (encode_fixed64 p h.hash ++ rest))
        ≡ done (h.hash, over rest)
  unfolding read_hash
  hash_over rest =
      rw (read_fixed64-over p h.hash rest e.hash)
        (rw (le→ltb (length (encode_fixed64 p h.hash ++ rest)) 8 (enough rest)))

  abbrev body_over : List ℕ → List ℕ
  body_over rest =
      encode_fixed32 p h.checksum_content
      ++ (encode_varint32 h.flags
          ++ (encode_varint64 h.size_key
              ++ (encode_varint64 h.size_value
                  ++ ((if has_compression db_options.compression
                        then encode_fixed64 p h.size_value_compressed
                          ++ encode_varint64 h.size_padding
                        else [])
                      ++ (encode_fixed64 p h.hash ++ rest)))))

  encode_body-append : (rest : List ℕ) → encode_body p cs db_options h ++ rest ≡ body_over rest
  unfolding encode_body
  encode_body-append rest = simp append_assoc

  -- The header as it is read: with the checksum and the length that were written.
  abbrev pub written : EntryHeader
  written = record h {
    checksum_header = cs.crc8 (encode_body p cs db_options h);
    size_header_serialized = length (encode_to p cs db_options h);
  }

  fields_over :
      (n b : ℕ) (rest : List ℕ)
      → read_fields p cs db_options n (over (b ∷ body_over rest))
        ≡ done (
          record h {
            checksum_header = b;
            size_header_serialized = bytes_read n (pos (length rest));
          },
          over rest,
        )
  unfolding read_fields
  fields_over n b rest =
      >>=-done read_uint8 _ _ (read_uint8-over b (body_over rest))
      ∙ >>=-done (read_fixed32 p) _ _ (read_fixed32-over p h.checksum_content _ e.checksum_content)
      ∙ >>=-done read_varint32 _ _ (read_varint32-over h.flags _ e.flags)
      ∙ >>=-done read_varint64 _ _ (read_varint64-over h.size_key _ e.size_key)
      ∙ >>=-done read_varint64 _ _ (read_varint64-over h.size_value _ e.size_value)
      ∙ >>=-done (read_compressed_sizes p cs db_options (has_compression db_options.compression)) _
          _ (compressed_sizes_over (has_compression db_options.compression) _ e.stored)
      ∙ >>=-done (read_hash p cs db_options)
          (fill n b h.checksum_content h.flags h.size_key h.size_value h.size_value_compressed
            h.size_padding)
          (over (encode_fixed64 p h.hash ++ rest)) (hash_over rest)

  written_length :
      (rest : List ℕ)
      → length (encode_to p cs db_options h ++ rest) < 2 ^ 31
      → bytes_read (length (encode_to p cs db_options h ++ rest)) (pos (length rest))
        ≡ length (encode_to p cs db_options h)
  written_length rest small =
      rw length-append (omega (arith, length-append (encode_to p cs db_options h) rest))

  verify_written :
      (read_options : ReadOptions) (rest : List ℕ)
      → length (encode_to p cs db_options h ++ rest) < 2 ^ 31
      → verify_header p cs db_options read_options (encode_to p cs db_options h ++ rest) written
        ≡ done (written, length (encode_to p cs db_options h))
  unfolding encode_to
  verify_written read_options rest small =
      verify_front p cs db_options read_options _ (encode_body p cs db_options h) rest written refl
        refl (omega (arith, small, length-append (encode_body p cs db_options h) rest))

  -- DecodeFrom reads the header that EncodeTo wrote, with the checksum and the length that were
  -- written, and reports that length: for every header that fits its types, on a host of either byte
  -- order, with or without compression and verification, and whatever follows in a buffer of less than
  -- 2 GiB.
  pub decode_from-encode_to :
      (read_options : ReadOptions) (rest : List ℕ)
      → length (encode_to p cs db_options h ++ rest) < 2 ^ 31
      → decode_from p cs db_options read_options (encode_to p cs db_options h ++ rest)
        ≡ done (written, length (encode_to p cs db_options h))
  unfolding decode_from encode_to
  decode_from-encode_to read_options rest small =
      ap (verify_fields p cs db_options read_options (encode_to p cs db_options h ++ rest)) (
        ap (read_fields p cs db_options _) (
          start-over _ small
          ∙ ap (λ b. over (cs.crc8 (encode_body p cs db_options h) ∷ b)) (encode_body-append rest))
        ∙ fields_over _ _ rest
        ∙ ap (λ n. done (record written { size_header_serialized = n }, over rest))
            (written_length rest small))
      ∙ verify_written read_options rest small
