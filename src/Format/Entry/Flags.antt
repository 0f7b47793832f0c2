-- ===== src/Format/Entry/Flags.antt =====
-- The flags of an entry: each setter changes one of them, and the others and the other fields stay.
use kingdb.Prelude.{
  ℕ, ◌+◌, ◌-◌, ◌*◌, ◌/◌, ◌%◌, ◌^◌, ◌<◌, bit_and, bit_or, ◌≡◌, refl, arith, Bool, true, false,
}
use kingdb.Prelude.Bits.{bit_and_step, bit_and_ones, bit_or_step, bit_or-zero}
use kingdb.Format.Entry.{
  EntryHeader, set_has_padding, has_padding, set_is_uncompacted, is_uncompacted, set_type_delete,
  is_type_delete, set_entry_full, is_entry_full,
}

-- The four flags of a word as digits, lowest first, and what is above them.
and_low :
    (f : ℕ)
    → (bit_and f 1 ≡ f % 2)
      × (bit_and f 2 ≡ f / 2 % 2 * 2)
      × (bit_and f 4 ≡ f / 4 % 2 * 4)
      × (bit_and f 8 ≡ f / 8 % 2 * 8)
and_low f = omega (
  arith,
  bit_and_ones 1 f 1 refl,
  bit_and_ones 1 (f / 2) 1 refl,
  bit_and_ones 1 (f / 2 / 2) 1 refl,
  bit_and_ones 1 (f / 2 / 2 / 2) 1 refl,
  bit_and_step f 2,
  bit_and_step f 4,
  bit_and_step (f / 2) 2,
  bit_and_step f 8,
  bit_and_step (f / 2) 4,
  bit_and_step (f / 2 / 2) 2,
)

or_low :
    (f : ℕ)
    → (bit_or f 1 ≡ f / 2 * 2 + 1)
      × (bit_or f 2 ≡ f / 4 * 4 + 2 + f % 2)
      × (bit_or f 4 ≡ f / 8 * 8 + 4 + f % 4)
      × (bit_or f 8 ≡ f / 16 * 16 + 8 + f % 8)
or_low f = (one f, two f, four f, eight f)
  where
    one : (g : ℕ) → bit_or g 1 ≡ g / 2 * 2 + 1
    one g = omega (arith, bit_or_step g 1, bit_or-zero (g / 2))

    two : (g : ℕ) → bit_or g 2 ≡ g / 4 * 4 + 2 + g % 2
    two g = omega (arith, bit_or_step g 2, one (g / 2))

    four : (g : ℕ) → bit_or g 4 ≡ g / 8 * 8 + 4 + g % 4
    four g = omega (arith, bit_or_step g 4, two (g / 2))

    eight : (g : ℕ) → bit_or g 8 ≡ g / 16 * 16 + 8 + g % 8
    eight g = omega (arith, bit_or_step g 8, four (g / 2))

clear_low :
    (f : ℕ)
    → f < 2 ^ 32
    → (bit_and f (2 ^ 32 - 1 - 2) ≡ f / 4 * 4 + f % 2)
      × (bit_and f (2 ^ 32 - 1 - 4) ≡ f / 8 * 8 + f % 4)
clear_low f h = omega (
  arith,
  bit_and_step f 4294967293,
  bit_and_step (f / 2) 2147483646,
  bit_and_ones 30 (f / 2 / 2) 1073741823 refl,
  bit_and_step f 4294967291,
  bit_and_step (f / 2) 2147483645,
  bit_and_step (f / 2 / 2) 1073741822,
  bit_and_ones 29 (f / 2 / 2 / 2) 536870911 refl,
)

-- What a caller sees of the flags.
pub record Flags : Type 0 where
  pub deleted : Bool
  pub uncompacted : Bool
  pub padded : Bool
  pub full : Bool

abbrev pub flags_of : EntryHeader → Flags
flags_of h = record {
  deleted = is_type_delete h;
  uncompacted = is_uncompacted h;
  padded = has_padding h;
  full = is_entry_full h;
}

module _ (h : EntryHeader) (fits : h.flags < 2 ^ 32) where
  -- Each setter changes the flag that it names, to the value that it is given, and no other flag;
  -- SetTypeDelete and SetEntryFull set theirs.
  pub setters_flags :
      (b : Bool)
      → (flags_of (set_has_padding b h) ≡ record (flags_of h) { padded = b })
        × (flags_of (set_is_uncompacted b h) ≡ record (flags_of h) { uncompacted = b })
        × (flags_of (set_type_delete h) ≡ record (flags_of h) { deleted = true })
        × (flags_of (set_entry_full h) ≡ record (flags_of h) { full = true })
  unfolding set_has_padding set_is_uncompacted set_type_delete set_entry_full has_padding
      is_uncompacted is_type_delete is_entry_full
  setters_flags true = (
    ground (arith, or_low h.flags, and_low h.flags, and_low (bit_or h.flags 4)),
    ground (arith, or_low h.flags, and_low h.flags, and_low (bit_or h.flags 2)),
    ground (arith, or_low h.flags, and_low h.flags, and_low (bit_or h.flags 1)),
    ground (arith, or_low h.flags, and_low h.flags, and_low (bit_or h.flags 8)),
  )
  setters_flags false = (
    ground (
      arith,
      clear_low h.flags fits,
      and_low h.flags,
      and_low (bit_and h.flags (2 ^ 32 - 1 - 4)),
    ),
    ground (
      arith,
      clear_low h.flags fits,
      and_low h.flags,
      and_low (bit_and h.flags (2 ^ 32 - 1 - 2)),
    ),
    ground (arith, or_low h.flags, and_low h.flags, and_low (bit_or h.flags 1)),
    ground (arith, or_low h.flags, and_low h.flags, and_low (bit_or h.flags 8)),
  )
