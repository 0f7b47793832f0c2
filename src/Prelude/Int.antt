-- ===== src/Prelude/Int.antt =====
-- Signed integers over the native numbers: what the source keeps in an `int`.
use Prim.Native.Nat.{ℕ, ◌+◌, ◌-◌, ◌%◌, ◌^◌}
use mathlib.Core.Path.{◌≡◌}
use mathlib.Core.Bool.{Bool, true}
use native.Mathlib.Omega.{arith}
use package.kingdb.Prelude.Tests.{ltb, leb, if◌then◌else◌}

-- `negsuc n` is -(n + 1).
pub data ℤ : Type 0 where
  pos : ℕ → ℤ
  negsuc : ℕ → ℤ

-- a - b, as an integer.
abbrev pub sub_ℕ : ℕ → ℕ → ℤ
sub_ℕ a b = if leb b a then pos (a - b) else negsuc (b - a - 1)

infixl 65 ◌-ℤ◌
abbrev pub ◌-ℤ◌ : ℤ → ℕ → ℤ
pos a -ℤ b = sub_ℕ a b
negsuc a -ℤ b = negsuc (a + b)

-- An unsigned number assigned to an `int` of 32 bits.
abbrev pub int32 : ℕ → ℤ
int32 n = let r = n % 2 ^ 32 in if ltb r (2 ^ 31) then pos r else negsuc (2 ^ 32 - r - 1)

-- `a < b` for a number `b`.
abbrev pub ltb_ℤ : ℤ → ℕ → Bool
ltb_ℤ (pos a) b = ltb a b
ltb_ℤ (negsuc a) b = true

pub sub_front : (a n r : ℕ) → a ≡ n + r → pos a -ℤ n ≡ pos r
sub_front a n r h = ground arith
