-- ===== src/Format/OptionEncoder/Laws.antt =====
-- What DecodeFrom makes of the options that EncodeTo wrote.
use kingdb.Prelude.{
  ℕ, ◌^◌, ◌<◌, ◌≤◌, ◌≡◌, refl, ◌∙◌, arith, List, ◌++◌, length, le→ltb, ==_refl, append_assoc,
}
use kingdb.Coding.{Platform, to_memory}
use kingdb.Coding.Fixed.{encode_fixed32-to_memory, encode_fixed64-to_memory}
use kingdb.Status.{status_io_error}
use kingdb.Options.{
  DatabaseOptions, CompressionType, ChecksumType, no_checksum, HashType, murmurhash3_64, xxhash_64,
  no_compression, lz4_compression, crc32c, hash_code, compression_code, checksum_code,
}
use kingdb.Reader.{Read, done, failed}
use kingdb.Reader.Fields.{◌>>=◌, >>=-done, field32_at, field64_at}
use kingdb.Format.Checksums.{Checksums}
use kingdb.Format.OptionEncoder.{
  hash_of, compression_of, checksum_of, encode_body, encode_to, decode_fields, check_version,
  check_crc32, decode_versions, decode_from,
}

module _ (p : Platform) (cs : Checksums) (o output : DatabaseOptions) (rest : List ℕ)
    (fits : o.storage_hstable_size < 2 ^ 64) where
  abbrev body_memory : List ℕ
  body_memory =
      to_memory p 4 0
      ++ (to_memory p 4 9
          ++ (to_memory p 4 0
              ++ (to_memory p 4 0
                  ++ (to_memory p 4 1
                      ++ (to_memory p 4 0
                          ++ (to_memory p 8 o.storage_hstable_size
                              ++ (to_memory p 4 (hash_code o.hash)
                                  ++ (to_memory p 4 (compression_code o.compression)
                                      ++ to_memory p 4 (checksum_code o.checksum)))))))))

  body-memory : encode_body p cs o ≡ body_memory
  unfolding encode_body
  body-memory = simp (encode_fixed32-to_memory, encode_fixed64-to_memory)

  abbrev buffer : List ℕ
  buffer = to_memory p 4 (cs.crc32_value body_memory) ++ (body_memory ++ rest)

  encode_to-memory : encode_to p cs o ++ rest ≡ buffer
  unfolding encode_to
  encode_to-memory = rw (body-memory, encode_fixed32-to_memory) (simp append_assoc)

  hash_code-lt : (h : HashType) → hash_code h < 2 ^ 32
  hash_code-lt murmurhash3_64 = omega arith
  hash_code-lt xxhash_64 = omega arith

  compression_code-lt : (c : CompressionType) → compression_code c < 2 ^ 32
  compression_code-lt no_compression = omega arith
  compression_code-lt lz4_compression = omega arith

  checksum_code-lt : (c : ChecksumType) → checksum_code c < 2 ^ 32
  checksum_code-lt no_checksum = omega arith
  checksum_code-lt crc32c = omega arith

  hash_of-hash_code : (h : HashType) → hash_of (hash_code h) ≡ done h
  unfolding hash_of
  hash_of-hash_code murmurhash3_64 = refl
  hash_of-hash_code xxhash_64 = refl

  -- The options after the version has been checked, up to the test of the checksum's type.
  decode_fields-buffer : decode_fields p cs buffer output ≡ (do
    compression ← compression_of (compression_code o.compression)
    checksum ← checksum_of (compression_code o.compression) (checksum_code o.checksum)
    done (record output {
      storage_hstable_size = o.storage_hstable_size;
      hash = o.hash;
      compression = compression;
      checksum = checksum;
    }))
  unfolding decode_fields to_memory
  decode_fields-buffer =
      >>=-done _ (field64_at p buffer 28 o.storage_hstable_size _ refl fits)
      ∙ >>=-done _ (field32_at p buffer 36 (hash_code o.hash) _ refl (hash_code-lt o.hash))
      ∙ >>=-done _ (
          field32_at p buffer 40 (compression_code o.compression) _ refl
            (compression_code-lt o.compression))
      ∙ >>=-done _ (
          field32_at p buffer 44 (checksum_code o.checksum) rest refl (checksum_code-lt o.checksum))
      ∙ >>=-done _ (hash_of-hash_code o.hash)

  decode_versions-buffer : decode_versions p cs buffer output ≡ decode_fields p cs buffer output
  unfolding to_memory
  decode_versions-buffer =
      >>=-done _ (field32_at p buffer 20 1 _ refl (omega arith))
      ∙ >>=-done _ (field32_at p buffer 24 0 _ refl (omega arith))
      ∙ unfold check_version in refl

  check_crc32-buffer :
      (next : Read DatabaseOptions)
      → check_crc32 p cs buffer (cs.crc32_value body_memory) next ≡ next
  unfolding check_crc32 to_memory
  check_crc32-buffer next = rw (==_refl (cs.crc32_value body_memory))

  buffer_long : 48 ≤ length buffer
  unfolding to_memory
  buffer_long = omega arith

  decode_from-buffer : decode_from p cs buffer output ≡ decode_fields p cs buffer output
  unfolding decode_from
  decode_from-buffer = rw (le→ltb (length buffer) 48 buffer_long) (
      >>=-done _ (
        field32_at p buffer 0 (cs.crc32_value body_memory) _ refl
          (cs.crc32_value_bound body_memory))
      ∙ check_crc32-buffer (decode_versions p cs buffer output)
      ∙ decode_versions-buffer)

  decode_from-encode_to : decode_from p cs (encode_to p cs o ++ rest) output ≡ (do
    compression ← compression_of (compression_code o.compression)
    checksum ← checksum_of (compression_code o.compression) (checksum_code o.checksum)
    done (record output {
      storage_hstable_size = o.storage_hstable_size;
      hash = o.hash;
      compression = compression;
      checksum = checksum;
    }))
  decode_from-encode_to = rw encode_to-memory (decode_from-buffer ∙ decode_fields-buffer)

  -- DecodeFrom reads back the four stored options of a database that compresses and has a checksum,
  -- and keeps the other options that it is given.
  pub decode_compressed :
      o.compression ≡ lz4_compression
      → o.checksum ≡ crc32c
      → decode_from p cs (encode_to p cs o ++ rest) output
        ≡ done (record output {
          storage_hstable_size = o.storage_hstable_size;
          hash = o.hash;
          compression = o.compression;
          checksum = o.checksum;
        })
  unfolding compression_of checksum_of
  decode_compressed c k = decode_from-encode_to ∙ rw (c, k)

  -- DecodeFrom refuses the options of every database that was created without compression, since it
  -- tests the type of the compression where it means the type of the checksum.
  pub decode_uncompressed :
      o.compression ≡ no_compression
      → decode_from p cs (encode_to p cs o ++ rest) output
        ≡ failed (status_io_error "Unknown checksum type")
  unfolding compression_of checksum_of
  decode_uncompressed c = decode_from-encode_to ∙ rw c

  -- Nor does it see that a database has no checksum: it reads the type as CRC-32C.
  pub decode_no_checksum :
      o.compression ≡ lz4_compression
      → o.checksum ≡ no_checksum
      → decode_from p cs (encode_to p cs o ++ rest) output
        ≡ done (record output {
          storage_hstable_size = o.storage_hstable_size;
          hash = o.hash;
          compression = o.compression;
          checksum = crc32c;
        })
  unfolding compression_of checksum_of
  decode_no_checksum c k = decode_from-encode_to ∙ rw c
