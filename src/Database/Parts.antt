-- ===== src/Database/Parts.antt =====
-- The parts that PutPart hands on.
use kingdb.Prelude.{
  ℕ, zero, suc, ◌+◌, ◌-◌, ◌%◌, ◌^◌, ◌<◌, ◌≤◌, ◌≡◌, refl, ap, ◌∙◌, arith, false, Option, some, List,
  [], ◌∷◌, length, take, drop, drop-drop, length-drop, ltb, le→ltb, lt→ltb, ltb→lt, if◌then◌else◌,
  All, Bool-cases, inl, inr,
}
use native.Mathlib.Nat.{mod-eq_of_lt}
use kingdb.Status.{Status, status_ok, is_ok}
use kingdb.Options.{DatabaseOptions}
use kingdb.ByteArray.{ByteArray, bytes}
use kingdb.Database.{ValidSizeHandler, chunk_at, put_parts, put_part}
use kingdb.Database.Pieces.{
  pieces, joined, Adjacent, joined-pieces, pieces_small, lt→leb, below_size, below_max, below_zero,
  from_zero, sub_zero, add_zero, pieces_more, drop_all, take_rest, last_part, not_below, add_assoc,
  choose, in_value, in_chunk, pieces-Adjacent,
}

module _ {S : Type 0} (db_options : DatabaseOptions) (handler : ValidSizeHandler S) where
  -- The parts handed on one by one, until one is refused.
  unfoldable pub feed : ℕ → List (ℕ × List ℕ) → S → Status × S
  feed size_value [] s = (status_ok, s)
  feed size_value ((o, bs) ∷ ps) s =
      let (status, s') = handler bs o size_value s in
      let rest = feed size_value ps s' in if is_ok status then rest else (status, s')

  abbrev max : ℕ
  max = db_options.storage_maximum_part_size

  round :
      (r : Status × S) (rest : S → Option (Status × S)) (rest' : S → Status × S)
      → ((s : S) → rest s ≡ some (rest' s))
      → (if is_ok r.0 then rest r.1 else some (r.0, r.1))
        ≡ some (if is_ok r.0 then rest' r.1 else (r.0, r.1))
  round (status, s) rest rest' h = rw (h s) (choose (is_ok status) (rest' s) (status, s))

  bytes-chunk_at :
      (chunk : ByteArray) (offset : ℕ)
      → chunk.size ≡ length chunk.resource
      → offset < chunk.size
      → chunk.size + max < 2 ^ 64
      → bytes (chunk_at db_options handler chunk chunk.size offset)
        ≡ take max (drop offset chunk.resource)
  unfolding chunk_at
  bytes-chunk_at chunk offset e l fits =
      elim (Bool-cases (ltb ((offset + max) % 2 ^ 64) chunk.size)) [
        | inl t ↦ rw t refl
        | inr t ↦ rw t (
            take_rest max (chunk.size - offset) (drop offset chunk.resource)
              (omega (arith, length-drop offset chunk.resource))
              (last_part offset max chunk.size t l fits))
      ]

  put_parts-pieces :
      (fuel : ℕ) (chunk : ByteArray) (offset_chunk size_value offset : ℕ) (s : S)
      → chunk.size ≡ length chunk.resource
      → 0 < max
      → chunk.size + max < 2 ^ 64
      → offset_chunk + chunk.size < 2 ^ 64
      → chunk.size - offset < fuel
      → put_parts db_options handler fuel chunk offset_chunk size_value chunk.size offset s
        ≡ some (
            feed size_value
              (pieces fuel max (offset_chunk + offset) (drop offset chunk.resource))
              s)
  unfolding put_parts feed
  put_parts-pieces zero chunk offset_chunk size_value offset s e m fits far h = absurd (omega arith)
  put_parts-pieces (suc fuel) chunk offset_chunk size_value offset s e m fits far h =
      elim (Bool-cases (ltb offset chunk.size)) [
        | inl t ↦
            let l = ltb→lt offset chunk.size t in
            rw
              (
                t,
                bytes-chunk_at chunk offset e l fits,
                mod-eq_of_lt (in_value offset_chunk offset chunk.size l far),
                mod-eq_of_lt (in_chunk offset max chunk.size l fits),
                pieces_more fuel max (offset_chunk + offset) (drop offset chunk.resource)
                    (omega (arith, length-drop offset chunk.resource)),
              )
              (round
                (handler (take max (drop offset chunk.resource)) (offset_chunk + offset) size_value
                  s)
                (λ s'.
                  put_parts db_options handler fuel chunk offset_chunk size_value chunk.size
                    (offset + max) s')
                (λ s'.
                  feed size_value
                    (pieces fuel max (offset_chunk + offset + max)
                      (drop max (drop offset chunk.resource)))
                    s')
                (λ s'.
                  put_parts-pieces fuel chunk offset_chunk size_value (offset + max) s' e m fits far
                    (omega arith)
                  ∙ ap
                      (λ o. some (
                        feed size_value (pieces fuel max o (drop (offset + max) chunk.resource))
                          s'))
                      (add_assoc offset_chunk offset max)
                  ∙ ap
                      (λ bs.
                        some
                          (feed size_value (pieces fuel max (offset_chunk + offset + max) bs) s'))
                      (drop-drop offset max chunk.resource)))
        | inr t ↦
            rw
              (
                t,
                drop_all offset chunk.resource
                    (not_below offset chunk.size (length chunk.resource) t e),
              )
              (unfold pieces in refl)
      ]

  -- PutPart of a value above the maximum size of a part, from a chunk that starts at its resource:
  -- it ends, having handed on the parts of the chunk one by one, up to the first that is refused.
  -- Joined, the parts are the chunk; none is larger than the maximum; and each part lies behind the
  -- one before it, the first at the offset of the chunk.
  pub put_part-feed :
      (chunk : ByteArray) (offset_chunk size_value : ℕ) (s : S)
      → chunk.offset ≡ 0
      → chunk.size ≡ length chunk.resource
      → 0 < max
      → max < size_value
      → chunk.size + max < 2 ^ 64
      → offset_chunk + chunk.size ≤ size_value
      → size_value < 2 ^ 64
      → let parts = pieces (suc chunk.size) max offset_chunk chunk.resource in
        (put_part db_options handler false chunk offset_chunk size_value s
          ≡ some (feed size_value parts s))
        × (joined parts ≡ chunk.resource)
        × All (λ q. length q.1 ≤ max) parts
        × Adjacent offset_chunk parts
  unfolding put_part
  put_part-feed chunk offset_chunk size_value s o e m large fits inside far = (
    rw
        (
          mod-eq_of_lt (below_size (offset_chunk + chunk.size) size_value inside far),
          le→ltb size_value (offset_chunk + chunk.size) inside,
          lt→leb max size_value large,
        )
        (put_parts-pieces (suc chunk.size) chunk offset_chunk size_value 0 s e m fits (omega arith)
            (omega arith)
          ∙ ap (λ a. some (feed size_value (pieces (suc chunk.size) max a chunk.resource) s))
              (add_zero offset_chunk)),
    joined-pieces (suc chunk.size) max offset_chunk chunk.resource m (omega arith),
    pieces_small (suc chunk.size) max offset_chunk chunk.resource,
    pieces-Adjacent (suc chunk.size) max offset_chunk chunk.resource,
  )

  first_part :
      (chunk : ByteArray)
      → chunk.size ≤ max
      → max < 2 ^ 64
      → bytes (chunk_at db_options handler chunk chunk.size 0) ≡ take chunk.size chunk.resource
  unfolding chunk_at
  first_part chunk small fits =
      rw (mod-eq_of_lt (from_zero max fits), le→ltb (0 + max) chunk.size (omega arith))
        (ap (λ n. take n chunk.resource) (sub_zero chunk.size))

  put_parts_done :
      (fuel : ℕ) (chunk : ByteArray) (offset_chunk size_value offset : ℕ) (s : S)
      → 0 < fuel
      → chunk.size ≤ offset
      → put_parts db_options handler fuel chunk offset_chunk size_value chunk.size offset s
        ≡ some (status_ok, s)
  unfolding put_parts
  put_parts_done zero chunk offset_chunk size_value offset s f l = absurd (omega arith)
  put_parts_done (suc fuel) chunk offset_chunk size_value offset s f l =
      rw (le→ltb offset chunk.size l) refl

  -- PutPart does not add to the offset that a chunk has in its resource but replaces it: where the
  -- value is above the maximum size of a part and the chunk is not, what is handed on are the first
  -- bytes of the resource, wherever the chunk starts.
  pub put_part_offset :
      (chunk : ByteArray) (offset_chunk size_value : ℕ) (s : S)
      → 0 < chunk.size
      → chunk.size ≤ max
      → max < size_value
      → offset_chunk + chunk.size ≤ size_value
      → size_value < 2 ^ 64
      → put_part db_options handler false chunk offset_chunk size_value s ≡ (
          let (status, s') = handler (take chunk.size chunk.resource) offset_chunk size_value s in
          some (if is_ok status then (status_ok, s') else (status, s')))
  unfolding put_part put_parts
  put_part_offset chunk offset_chunk size_value s m small large inside far =
      rw
        (
          mod-eq_of_lt (below_size (offset_chunk + chunk.size) size_value inside far),
          le→ltb size_value (offset_chunk + chunk.size) inside,
          lt→leb max size_value large,
          lt→ltb 0 chunk.size m,
          first_part chunk small (below_max max size_value large far),
          mod-eq_of_lt (below_zero offset_chunk chunk.size size_value inside far),
          add_zero offset_chunk,
          mod-eq_of_lt (from_zero max (below_max max size_value large far)),
        )
        (round (handler (take chunk.size chunk.resource) offset_chunk size_value s)
          (λ s'.
            put_parts db_options handler chunk.size chunk offset_chunk size_value chunk.size
              (0 + max) s')
          (λ s'. (status_ok, s'))
          (λ s'.
            put_parts_done chunk.size chunk offset_chunk size_value (0 + max) s' m (omega arith)))
