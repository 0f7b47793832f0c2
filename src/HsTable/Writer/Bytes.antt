-- ===== src/HsTable/Writer/Bytes.antt =====
-- Bytes that are written into a file or into the buffer.
use kingdb.Prelude.{
  ℕ, zero, suc, ◌+◌, ◌-◌, ◌≤◌, ◌≡◌, refl, sym, ap, ◌∙◌, arith, some, List, [], ◌∷◌, ◌++◌, length,
  take, drop, length-append, length-take, length-drop, take-append, append-nil, append_assoc,
  le→ltb,
}
use kingdb.HsTable.Recovery.Rewrite.{resize, zeros}
use kingdb.HsTable.Writer.{Manager, write_at, copy_to_buffer}

none_missing : (n m : ℕ) → n ≤ m → n - m ≡ 0
none_missing n m h = omega arith

pub resize_within : (n : ℕ) (file : List ℕ) → n ≤ length file → resize n file ≡ take n file
unfolding zeros
resize_within n file h =
    ap (λ k. take n file ++ zeros k) (none_missing n (length file) h) ∙ append-nil (take n file)

pub length-resize_within : (n : ℕ) (file : List ℕ) → n ≤ length file → length (resize n file) ≡ n
length-resize_within n file h =
    ap length (resize_within n file h) ∙ omega (arith, length-take n file)

pub take_all : (n : ℕ) (xs : List ℕ) → length xs ≤ n → take n xs ≡ xs
take_all zero [] h = refl
take_all zero (x ∷ xs) h = absurd (omega arith)
take_all (suc n) [] h = refl
take_all (suc n) (x ∷ xs) h = ap (λ t. x ∷ t) (take_all n xs (omega arith))

drop_all : (n : ℕ) (xs : List ℕ) → length xs ≤ n → drop n xs ≡ []
drop_all zero [] h = refl
drop_all zero (x ∷ xs) h = absurd (omega arith)
drop_all (suc n) [] h = refl
drop_all (suc n) (x ∷ xs) h = drop_all n xs (omega arith)

-- A write at the end of a file.
pub write_at_end :
    (offset : ℕ) (bytes file : List ℕ)
    → length file ≡ offset
    → write_at offset bytes file ≡ file ++ bytes
unfolding write_at
write_at_end offset bytes file h =
    ap (λ f. f ++ (bytes ++ drop (offset + length bytes) file))
      (resize_within offset file (omega arith) ∙ take_all offset file (omega arith))
    ∙ ap (λ t. file ++ (bytes ++ t)) (drop_all (offset + length bytes) file (omega arith))
    ∙ ap (λ t. file ++ t) (append-nil bytes)

module _ (offset : ℕ) (bytes buffer : List ℕ) (fits : offset + length bytes ≤ length buffer) where
  written :
      write_at offset bytes buffer
      ≡ take offset buffer ++ (bytes ++ drop (offset + length bytes) buffer)
  unfolding write_at
  written =
      ap (λ f. f ++ (bytes ++ drop (offset + length bytes) buffer))
        (resize_within offset buffer (omega arith))

  pub length-write_at : length (write_at offset bytes buffer) ≡ length buffer
  length-write_at =
      ap length written
      ∙ omega (
        arith,
        length-append (take offset buffer) (bytes ++ drop (offset + length bytes) buffer),
        length-append bytes (drop (offset + length bytes) buffer),
        length-take offset buffer,
        length-drop (offset + length bytes) buffer,
      )

  -- Up to the end of the write, the buffer is what it was, and what was written.
  pub take-write_at :
      take (offset + length bytes) (write_at offset bytes buffer) ≡ take offset buffer ++ bytes
  take-write_at =
      ap (take (offset + length bytes)) (written ∙ sym (append_assoc (take offset buffer) bytes _))
      ∙ take-append (offset + length bytes) (take offset buffer ++ bytes) _
          (omega (arith, length-append (take offset buffer) bytes, length-take offset buffer))

pub copy_fits :
    (offset : ℕ) (bytes : List ℕ) (m : Manager)
    → offset + length bytes ≤ length m.buffer_raw
    → copy_to_buffer offset bytes m
      ≡ some (record m { buffer_raw = write_at offset bytes m.buffer_raw })
unfolding copy_to_buffer
copy_fits offset bytes m h = rw (le→ltb (length m.buffer_raw) (offset + length bytes) h) refl
