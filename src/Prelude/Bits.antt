-- ===== src/Prelude/Bits.antt =====
-- `|` and `&` of words as arithmetic: a step on the lowest digit, disjoint fields, low masks, and
-- single flags.
use Prim.Native.Nat.{
  ℕ, zero, suc, ◌+◌, ◌*◌, ◌/◌, ◌%◌, ◌^◌, ◌≤◌, ◌<◌, bit_and, bit_or, min, max, digits,
  bit_and-bitwise, bit_or-bitwise,
}
use mathlib.Core.Path.{◌≡◌, refl, sym, ap, ◌∙◌}
use native.Mathlib.Nat.{pow-suc, one-le-pow, div-add-mod}
use native.Mathlib.Omega.{arith}

-- The fuel of `digits` does not matter once it covers the first number.
fuel_enough :
    (z : ℕ → ℕ) (f : ℕ → ℕ → ℕ) (n m a b : ℕ) → a ≤ n → a ≤ m → digits z f n a b ≡ digits z f m a b
fuel_enough z f zero zero a b p q = refl
fuel_enough z f zero (suc m) zero b p q = refl
fuel_enough z f zero (suc m) (suc a) b p q = absurd (omega arith)
fuel_enough z f (suc n) zero zero b p q = refl
fuel_enough z f (suc n) zero (suc a) b p q = absurd (omega arith)
fuel_enough z f (suc n) (suc m) zero b p q = refl
fuel_enough z f (suc n) (suc m) (suc a) b p q =
    ap (λ (t : ℕ). t * 2 + f (suc a % 2) (b % 2))
      (fuel_enough z f n m (suc a / 2) (b / 2) (omega arith) (omega arith))

pub bit_or_step : (a b : ℕ) → bit_or a b ≡ bit_or (a / 2) (b / 2) * 2 + max (a % 2) (b % 2)
bit_or_step zero b = omega (arith, bit_or-bitwise 0 b, bit_or-bitwise 0 (b / 2))
bit_or_step (suc a) b = omega (
  arith,
  bit_or-bitwise (suc a) b,
  bit_or-bitwise (suc a / 2) (b / 2),
  fuel_enough (λ y. y) max a (suc a / 2) (suc a / 2) (b / 2) (omega arith) (omega arith),
)

pub bit_and_step : (a b : ℕ) → bit_and a b ≡ bit_and (a / 2) (b / 2) * 2 + min (a % 2) (b % 2)
bit_and_step zero b = omega (arith, bit_and-bitwise 0 b, bit_and-bitwise 0 (b / 2))
bit_and_step (suc a) b = omega (
  arith,
  bit_and-bitwise (suc a) b,
  bit_and-bitwise (suc a / 2) (b / 2),
  fuel_enough (λ y. zero) min a (suc a / 2) (suc a / 2) (b / 2) (omega arith) (omega arith),
)

or_zero_below : (n a : ℕ) → a ≤ n → bit_or a 0 ≡ a
or_zero_below n zero h = bit_or-bitwise 0 0
or_zero_below zero (suc a) h = absurd (omega arith)
or_zero_below (suc n) (suc a) h =
    omega (arith, bit_or_step (suc a) 0, or_zero_below n (suc a / 2) (omega arith))

pub bit_or-zero : (a : ℕ) → bit_or a 0 ≡ a
bit_or-zero a = or_zero_below a a (omega arith)

pub zero-bit_or : (b : ℕ) → bit_or 0 b ≡ b
zero-bit_or b = bit_or-bitwise 0 b

and_zero_below : (n a : ℕ) → a ≤ n → bit_and a 0 ≡ 0
and_zero_below n zero h = bit_and-bitwise 0 0
and_zero_below zero (suc a) h = absurd (omega arith)
and_zero_below (suc n) (suc a) h =
    omega (arith, bit_and_step (suc a) 0, and_zero_below n (suc a / 2) (omega arith))

pub bit_and-zero : (a : ℕ) → bit_and a 0 ≡ 0
bit_and-zero a = and_zero_below a a (omega arith)

double_shift : (k b : ℕ) → b * 2 ^ suc k ≡ 2 * (b * 2 ^ k)
double_shift k b = omega (arith, ap (λ (t : ℕ). b * t) (pow-suc 2 k))

-- A field above the first `k` bits is added to what fills only those bits.
pub bit_or_above : (k a b : ℕ) → a < 2 ^ k → bit_or a (b * 2 ^ k) ≡ a + b * 2 ^ k
bit_or_above zero zero b h = omega (arith, zero-bit_or (b * 1))
bit_or_above zero (suc a) b h = absurd (omega arith)
bit_or_above (suc k) a b h = ground (
  arith,
  bit_or_step a (b * 2 ^ suc k),
  double_shift k b,
  pow-suc 2 k,
  bit_or_above k (a / 2) b (omega (arith, pow-suc 2 k)),
)

-- `|` of two words below `2 ^ k` is below `2 ^ k`.
pub bit_or-lt : (k a b : ℕ) → a < 2 ^ k → b < 2 ^ k → bit_or a b < 2 ^ k
bit_or-lt zero zero zero h g = omega (arith, zero-bit_or 0)
bit_or-lt zero (suc a) b h g = absurd (omega arith)
bit_or-lt zero zero (suc b) h g = absurd (omega arith)
bit_or-lt (suc k) a b h g = omega (
  arith,
  bit_or_step a b,
  bit_or-lt k (a / 2) (b / 2) (omega (arith, pow-suc 2 k)) (omega (arith, pow-suc 2 k)),
  pow-suc 2 k,
)

le_or_fuel : (n a b : ℕ) → a ≤ n → a ≤ bit_or a b
le_or_fuel n zero b h = omega arith
le_or_fuel zero (suc a) b h = absurd (omega arith)
le_or_fuel (suc n) (suc a) b h =
    omega (arith, bit_or_step (suc a) b, le_or_fuel n (suc a / 2) (b / 2) (omega arith))

pub le-bit_or : (a b : ℕ) → a ≤ bit_or a b
le-bit_or a b = le_or_fuel a a b (omega arith)

-- The remainder by `2 * p` from that of the half by `p`.
mod_double : (p a : ℕ) → 0 < p → a % (p * 2) ≡ a / 2 % p * 2 + a % 2
mod_double p a h = grind (arith, div-add-mod (a / 2) p)

-- A mask of `k` ones keeps the remainder by `2 ^ k`.
pub bit_and_ones : (k a m : ℕ) → m + 1 ≡ 2 ^ k → bit_and a m ≡ a % 2 ^ k
bit_and_ones zero a m e = omega (arith, ap (λ t. bit_and a t) zero_mask, bit_and-zero a)
  where
    zero_mask : m ≡ 0
    zero_mask = omega arith
bit_and_ones (suc k) a m e = ground (
  arith,
  bit_and_step a m,
  pow-suc 2 k,
  bit_and_ones k (a / 2) (m / 2) (omega (arith, pow-suc 2 k)),
  mod_double (2 ^ k) a (one-le-pow k 2 (omega arith)),
)

or_comm_below : (n a b : ℕ) → a + b ≤ n → bit_or a b ≡ bit_or b a
or_comm_below n zero b h = zero-bit_or b ∙ sym (bit_or-zero b)
or_comm_below zero (suc a) b h = absurd (omega arith)
or_comm_below (suc n) (suc a) b h =
    omega (arith, bit_or_step (suc a) b, bit_or_step b (suc a), or_comm_below n (suc a / 2) (b / 2))

pub bit_or_comm : (a b : ℕ) → bit_or a b ≡ bit_or b a
bit_or_comm a b = or_comm_below (a + b) a b (omega arith)
