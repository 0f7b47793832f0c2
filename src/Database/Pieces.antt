-- ===== src/Database/Pieces.antt =====
-- A value cut into parts of a maximum size, and the arithmetic of their offsets.
use kingdb.Prelude.{
  ℕ, zero, suc, ◌+◌, ◌-◌, ◌%◌, ◌^◌, ◌<◌, ◌≤◌, ◌≡◌, refl, sym, ap, ◌∙◌, arith, Bool, true, false,
  some, List, [], ◌∷◌, ◌++◌, length, take, take-drop, drop, length-take, length-drop, ltb, leb,
  lt→ltb, ltb→lt, if◌then◌else◌, All, Bool-cases, inl, inr,
}
use mathlib.Core.Path.{subst}

-- A value cut into parts of `max` bytes, each with its offset. The fuel is the number of parts at most.
unfoldable pub pieces : ℕ → ℕ → ℕ → List ℕ → List (ℕ × List ℕ)
pieces zero max offset bs = []
pieces (suc fuel) max offset [] = []
pieces (suc fuel) max offset (b ∷ bs) =
    (offset, take max (b ∷ bs)) ∷ pieces fuel max (offset + max) (drop max (b ∷ bs))

unfoldable pub joined : List (ℕ × List ℕ) → List ℕ
joined [] = []
joined ((o, bs) ∷ ps) = bs ++ joined ps

-- The parts lie one behind the other, the first at the given offset.
abbrev pub Adjacent : ℕ → List (ℕ × List ℕ) → Type 0
Adjacent offset [] = Unit {0}
Adjacent offset ((o, bs) ∷ ps) = (o ≡ offset) × Adjacent (offset + length bs) ps

pub joined-pieces :
    (fuel max offset : ℕ) (bs : List ℕ)
    → 0 < max
    → length bs ≤ fuel
    → joined (pieces fuel max offset bs) ≡ bs
unfolding pieces joined
joined-pieces zero max offset [] m h = refl
joined-pieces zero max offset (b ∷ bs) m h = absurd (omega arith)
joined-pieces (suc fuel) max offset [] m h = refl
joined-pieces (suc fuel) max offset (b ∷ bs) m h =
    ap (λ t. take max (b ∷ bs) ++ t)
      (joined-pieces fuel max (offset + max) (drop max (b ∷ bs)) m
        (omega (arith, length-drop max (b ∷ bs))))
    ∙ take-drop max (b ∷ bs)

pub pieces_small :
    (fuel max offset : ℕ) (bs : List ℕ) → All (λ q. length q.1 ≤ max) (pieces fuel max offset bs)
unfolding pieces
pieces_small zero max offset bs = tt
pieces_small (suc fuel) max offset [] = tt
pieces_small (suc fuel) max offset (b ∷ bs) = (
  omega (arith, length-take max (b ∷ bs)),
  pieces_small fuel max (offset + max) (drop max (b ∷ bs)),
)

pub lt→leb : (a b : ℕ) → a < b → leb b a ≡ false
lt→leb a b h = ground arith

pub below_size : (a b : ℕ) → a ≤ b → b < 2 ^ 64 → a < 2 ^ 64
below_size a b h k = omega arith

pub below_max : (a b : ℕ) → a < b → b < 2 ^ 64 → a < 2 ^ 64
below_max a b h k = omega arith

pub below_zero : (a n b : ℕ) → a + n ≤ b → b < 2 ^ 64 → a + 0 < 2 ^ 64
below_zero a n b h k = omega arith

pub from_zero : (a : ℕ) → a < 2 ^ 64 → 0 + a < 2 ^ 64
from_zero a h = omega arith

pub sub_zero : (a : ℕ) → a - 0 ≡ a
sub_zero a = omega arith

pub add_zero : (a : ℕ) → a + 0 ≡ a
add_zero a = omega arith

pub pieces_more :
    (fuel max offset : ℕ) (bs : List ℕ)
    → 0 < length bs
    → pieces (suc fuel) max offset bs
      ≡ (offset, take max bs) ∷ pieces fuel max (offset + max) (drop max bs)
unfolding pieces
pieces_more fuel max offset [] h = absurd (omega arith)
pieces_more fuel max offset (b ∷ bs) h = refl

pub drop_all : (n : ℕ) (bs : List ℕ) → length bs ≤ n → drop n bs ≡ []
drop_all zero [] h = refl
drop_all zero (b ∷ bs) h = absurd (omega arith)
drop_all (suc n) [] h = refl
drop_all (suc n) (b ∷ bs) h = drop_all n bs (omega arith)

-- To take as many bytes as there are, or more.
pub take_rest : (m n : ℕ) (bs : List ℕ) → length bs ≡ n → n ≤ m → take n bs ≡ take m bs
take_rest zero zero [] e l = refl
take_rest (suc m) zero [] e l = refl
take_rest zero (suc n) bs e l = absurd (omega arith)
take_rest m zero (b ∷ bs) e l = absurd (omega arith)
take_rest (suc m) (suc n) [] e l = refl
take_rest (suc m) (suc n) (b ∷ bs) e l =
    ap (λ t. b ∷ t) (take_rest m n bs (omega arith) (omega arith))

pub last_part :
    (offset max size : ℕ)
    → ltb ((offset + max) % 2 ^ 64) size ≡ false
    → offset < size
    → size + max < 2 ^ 64
    → size - offset ≤ max
last_part offset max size t l fits = ground (arith, lt→ltb ((offset + max) % 2 ^ 64) size)

pub not_below : (a size n : ℕ) → ltb a size ≡ false → size ≡ n → n ≤ a
not_below a size n t e = ground (arith, lt→ltb a size)

pub taken : (n offset : ℕ) (bs : List ℕ) → n < length bs → offset + n ≡ offset + length (take n bs)
taken n offset bs h = omega (arith, length-take n bs)

pub pieces-nil : (fuel max offset : ℕ) → pieces fuel max offset [] ≡ []
unfolding pieces
pieces-nil zero max offset = refl
pieces-nil (suc fuel) max offset = refl

pub add_assoc : (a b c : ℕ) → a + (b + c) ≡ a + b + c
add_assoc a b c = omega arith

pub choose :
    {A : Type 0} (b : Bool) (x y : A) → (if b then some x else some y) ≡ some (if b then x else y)
choose true x y = refl
choose false x y = refl

pub in_value : (a b size : ℕ) → b < size → a + size < 2 ^ 64 → a + b < 2 ^ 64
in_value a b size l h = omega arith

pub in_chunk : (a b size : ℕ) → a < size → size + b < 2 ^ 64 → a + b < 2 ^ 64
in_chunk a b size l h = omega arith

pub pieces-Adjacent :
    (fuel max offset : ℕ) (bs : List ℕ) → Adjacent offset (pieces fuel max offset bs)
unfolding pieces
pieces-Adjacent zero max offset bs = tt
pieces-Adjacent (suc fuel) max offset [] = tt
pieces-Adjacent (suc fuel) max offset (b ∷ bs) = elim (Bool-cases (ltb max (length (b ∷ bs)))) [
  | inl t ↦ (
    refl,
    subst (λ n. Adjacent n (pieces fuel max (offset + max) (drop max (b ∷ bs))))
        (taken max offset (b ∷ bs) (ltb→lt max _ t))
        (pieces-Adjacent fuel max (offset + max) (drop max (b ∷ bs))),
  )
  | inr t ↦ (
    refl,
    subst (Adjacent _)
        (sym (
          ap (pieces fuel max (offset + max)) (drop_all max (b ∷ bs) (not_below max _ _ t refl))
          ∙ pieces-nil fuel max (offset + max)))
        tt,
  )
]
