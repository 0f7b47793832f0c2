-- ===== src/Format/Entry/Errors.antt =====
-- DecodeFrom of the entry header on buffers that no encoder wrote.
use kingdb.Prelude.{
  drop, length-drop, suc, le→ltb, ℕ, ◌-◌, ◌+◌, ◌%◌, ◌^◌, ◌≤◌, ◌<◌, ◌≡◌, ◌≢◌, refl, sym, ◌∙◌, ap,
  arith, Bool-cases, true, false, inl, inr, none, List, [], ◌∷◌, ◌++◌, length, ltb,
}
use kingdb.Prelude.Int.{pos, negsuc}
use mathlib.Core.Path.{subst}
use kingdb.Coding.{
  encode_fixed32, encode_varint32, encode_varint64, Platform, get_fixed32, get_varint32,
  get_fixed64,
}
use kingdb.Options.{DatabaseOptions, ReadOptions, has_compression}
use kingdb.Reader.{
  Cursor, Read, done, failed, out_of_bounds, start, read_uint8, read_fixed32, read_fixed64,
  read_varint32, read_varint64, decoding_error, Reader, ◌>>=◌, bytes_read,
}
use kingdb.Format.Entry.RoundTrip.{IsEncodable}
use kingdb.Reader.Laws.{
  read_fixed32-over, read_varint32-over, read_varint64-over, over, start-over, >>=-out_of_bounds,
  >>=-done, read_uint8-over,
}
use kingdb.Reader.Bounds.{
  InBounds, read_fixed32-InBounds, read_fixed64-InBounds, read_varint32-InBounds,
  read_varint64-InBounds,
}
use kingdb.Format.Checksums.{Checksums}
use kingdb.Format.Entry.{
  EntryHeader, read_compressed_sizes, read_hash, read_fields, verify_header, verify_fields,
  decode_from,
}

module _ (p : Platform) (cs : Checksums) (db_options : DatabaseOptions) where
  hash-InBounds :
      (n : ℕ) (bytes : List ℕ)
      → length bytes ≤ n
      → InBounds n (read_hash p cs db_options (over bytes))
  unfolding read_hash
  hash-InBounds n bytes l = elim (Bool-cases (ltb (length bytes) 8)) [
    | inl short ↦ rw short tt
    | inr long ↦ rw long (read_fixed64-InBounds p n bytes (ground arith) l)
  ]

  -- Without compression nothing else is loaded unchecked.
  sizes-InBounds :
      (n : ℕ) (bytes : List ℕ)
      → length bytes ≤ n
      → InBounds n (read_compressed_sizes p cs db_options false (over bytes))
  unfolding read_compressed_sizes
  sizes-InBounds n bytes l = (refl, l)

  -- The length that is reported is that of the bytes that were read: one at least, and at most `n`.
  abbrev Reported : ℕ → Read (EntryHeader × Cursor) → Type 0
  Reported n (done (h, c)) = (1 ≤ h.size_header_serialized) × (h.size_header_serialized ≤ n)
  Reported n (failed s) = Unit
  Reported n out_of_bounds = ⊥

  Reported-cases :
      {A : Type 0} (n : ℕ) (r : Read (A × Cursor)) (f : A → Reader EntryHeader)
      → InBounds n r
      → ((a : A) (bytes : List ℕ) → length bytes ≤ n → Reported (suc n) (f a (over bytes)))
      → Reported
          (suc n)
          (elim r [ done (a, c') ↦ f a c' | failed s ↦ failed s | out_of_bounds ↦ out_of_bounds ])
  Reported-cases n (done (a, c)) f (h, l) k =
      subst (λ x. Reported (suc n) (f a x)) (sym h) (k a c.ptr l)
  Reported-cases n (failed s) f h k = tt
  Reported-cases n out_of_bounds f h k = h

  Reported-bind :
      {A : Type 0} (n : ℕ) (m : Reader A) (f : A → Reader EntryHeader) (c : Cursor)
      → InBounds n (m c)
      → ((a : A) (bytes : List ℕ) → length bytes ≤ n → Reported (suc n) (f a (over bytes)))
      → Reported (suc n) ((m >>= f) c)
  Reported-bind n m f c = Reported-cases n (m c) f

  reported_small :
      (n k : ℕ)
      → k ≤ n
      → suc n < 2 ^ 31
      → (1 ≤ bytes_read (suc n) (pos k)) × (bytes_read (suc n) (pos k) ≤ suc n)
  reported_small n k l small = (omega arith, omega arith)

  fields-Reported :
      (bytes : List ℕ)
      → has_compression db_options.compression ≡ false
      → 5 ≤ length bytes
      → length bytes < 2 ^ 31
      → Reported (length bytes) (read_fields p cs db_options (length bytes) (over bytes))
  unfolding read_fields
  fields-Reported [] plain long small = absurd (omega arith)
  fields-Reported (b ∷ rest) plain long small =
      let n = length rest in
      subst (Reported (suc n))
        (sym (>>=-done read_uint8 _ (over (b ∷ rest)) (read_uint8-over b rest)))
        (Reported-bind n (read_fixed32 p) _ (over rest)
          (read_fixed32-InBounds p n rest (omega arith) (omega arith))
          λ _ b1 l1.
            Reported-bind n read_varint32 _ (over b1) (read_varint32-InBounds n b1 l1) λ _ b2 l2.
              Reported-bind n read_varint64 _ (over b2) (read_varint64-InBounds n b2 l2) λ _ b3 l3.
                Reported-bind n read_varint64 _ (over b3) (read_varint64-InBounds n b3 l3)
                  λ _ b4 l4.
                    Reported-bind n
                      (read_compressed_sizes p cs db_options
                        (has_compression db_options.compression))
                      _ (over b4) (rw plain (sizes-InBounds n b4 l4))
                      λ _ b5 l5.
                        Reported-bind n (read_hash p cs db_options) _ (over b5)
                          (hash-InBounds n b5 l5) λ _ b6 l6. reported_small n (length b6) l6 small)

  covered_inside :
      (buffer : List ℕ) (k : ℕ)
      → 1 ≤ k
      → k ≤ length buffer
      → length buffer < 2 ^ 31
      → ltb (length (drop 1 buffer)) ((k + 2 ^ 64 - 1) % 2 ^ 64) ≡ false
  covered_inside buffer k one l small =
      le→ltb (length (drop 1 buffer)) ((k + 2 ^ 64 - 1) % 2 ^ 64)
        (omega (arith, length-drop 1 buffer))

  verify-ne-out_of_bounds :
      (read_options : ReadOptions) (buffer : List ℕ) (r : Read (EntryHeader × Cursor))
      → length buffer < 2 ^ 31
      → Reported (length buffer) r
      → verify_fields p cs db_options read_options buffer r ≢ out_of_bounds
  unfolding verify_header
  verify-ne-out_of_bounds read_options buffer (done (h, c)) small (one, l) =
      rw (covered_inside buffer h.size_header_serialized one l small) (ground arith)
  verify-ne-out_of_bounds read_options buffer (failed s) small i = λ e. cc
  verify-ne-out_of_bounds read_options buffer out_of_bounds small i = absurd i

  -- In a database without compression DecodeFrom reads nothing outside a buffer of 5 bytes or more
  -- and less than 2 GiB, whatever the bytes are: neither a load of a field, nor the loop of a varint,
  -- nor the checksum of the header.
  pub decode_from_in_bounds :
      (read_options : ReadOptions) (buffer : List ℕ)
      → has_compression db_options.compression ≡ false
      → 5 ≤ length buffer
      → length buffer < 2 ^ 31
      → decode_from p cs db_options read_options buffer ≢ out_of_bounds
  unfolding decode_from
  decode_from_in_bounds read_options buffer plain long small = rw (start-over buffer small) (
      verify-ne-out_of_bounds read_options buffer _ small (fields-Reported buffer plain long small))

  -- The count is negative: the limit of GetVarint32 lies before the pointer.
  negative_count :
      (num b b0 b1 b2 b3 k : ℕ) (rest : List ℕ)
      → read_fields p cs db_options num
          (record { ptr = b ∷ b0 ∷ b1 ∷ b2 ∷ b3 ∷ rest; size = negsuc k })
        ≡ failed decoding_error
  unfolding read_fields read_uint8 read_fixed32 get_fixed32 read_varint32 get_varint32
  negative_count num b b0 b1 b2 b3 k rest = refl

  start_negative :
      (buffer : List ℕ)
      → 2 ^ 31 ≤ length buffer
      → length buffer < 2 ^ 32
      → start buffer ≡ record { ptr = buffer; size = negsuc (2 ^ 32 - length buffer - 1) }
  start_negative buffer h g = ground arith

  -- DecodeFrom fails on every buffer of 2 GiB or more and less than 4 GiB, because its size is kept
  -- in an `int`: no entry that starts that far before the end of its file can be read.
  pub decode_from_too_large :
      (read_options : ReadOptions) (buffer : List ℕ)
      → 2 ^ 31 ≤ length buffer
      → length buffer < 2 ^ 32
      → decode_from p cs db_options read_options buffer ≡ failed decoding_error
  unfolding decode_from
  decode_from_too_large read_options (b ∷ b0 ∷ b1 ∷ b2 ∷ b3 ∷ rest) h g =
      let buffer = b ∷ b0 ∷ b1 ∷ b2 ∷ b3 ∷ rest in
      ap (verify_fields p cs db_options read_options buffer) (
        ap (read_fields p cs db_options (length buffer)) (start_negative buffer h g)
        ∙ negative_count (length buffer) b b0 b1 b2 b3 _ rest)
  decode_from_too_large read_options _ h g = absurd (omega arith)

get_fixed64_short : (p : Platform) (bytes : List ℕ) → length bytes < 8 → get_fixed64 p bytes ≡ none
unfolding get_fixed64
get_fixed64_short p (b0 ∷ b1 ∷ b2 ∷ b3 ∷ b4 ∷ b5 ∷ b6 ∷ b7 ∷ rest) h = absurd (omega arith)
get_fixed64_short p _ h = refl

module _ (p : Platform) (cs : Checksums) (db_options : DatabaseOptions) (h : EntryHeader)
    (e : IsEncodable db_options h)
    (compressed : has_compression db_options.compression ≡ true) where
  -- The front of a header, as EncodeTo writes it, up to the size of the value.
  abbrev pub cut_header : ℕ → List ℕ → List ℕ
  cut_header b tail =
      b
      ∷ (encode_fixed32 p h.checksum_content
          ++ (encode_varint32 h.flags
              ++ (encode_varint64 h.size_key ++ (encode_varint64 h.size_value ++ tail))))

  sizes_out_of_bounds :
      (tail : List ℕ)
      → length tail < 8
      → read_compressed_sizes p cs db_options true (over tail) ≡ out_of_bounds
  unfolding read_compressed_sizes read_fixed64 get_fixed64
  sizes_out_of_bounds tail short = rw (get_fixed64_short p tail short)

  cut_fields :
      (n b : ℕ) (tail : List ℕ)
      → length tail < 8
      → read_fields p cs db_options n (over (cut_header b tail)) ≡ out_of_bounds
  unfolding read_fields
  cut_fields n b tail short =
      >>=-done read_uint8 _ _ (read_uint8-over b _)
      ∙ >>=-done (read_fixed32 p) _ _ (read_fixed32-over p h.checksum_content _ e.checksum_content)
      ∙ >>=-done read_varint32 _ _ (read_varint32-over h.flags _ e.flags)
      ∙ >>=-done read_varint64 _ _ (read_varint64-over h.size_key _ e.size_key)
      ∙ >>=-done read_varint64 _ _ (read_varint64-over h.size_value tail e.size_value)
      ∙ >>=-out_of_bounds
          (read_compressed_sizes p cs db_options (has_compression db_options.compression)) _
          (over tail) (rw compressed (sizes_out_of_bounds tail short))

  -- In a database with compression DecodeFrom reads behind the buffer when a header is cut off less
  -- than 8 bytes behind the size of its value: the fixed-width field that follows is loaded before
  -- the bytes left are counted.
  pub decode_from_reads_behind :
      (read_options : ReadOptions) (b : ℕ) (tail : List ℕ)
      → length tail < 8
      → length (cut_header b tail) < 2 ^ 31
      → decode_from p cs db_options read_options (cut_header b tail) ≡ out_of_bounds
  unfolding decode_from
  decode_from_reads_behind read_options b tail short small =
      ap (verify_fields p cs db_options read_options (cut_header b tail)) (
        ap (read_fields p cs db_options (length (cut_header b tail))) (start-over _ small)
        ∙ cut_fields _ b tail short)
