-- ===== src/Prelude/Maps.antt =====
-- Ordered maps and sets with numbers for keys, as association lists and lists: std::map and
-- std::set, which the models read through their lookups and sums.
use Prim.Native.Nat.{ℕ, ◌+◌}
use mathlib.Core.Path.{◌≡◌, refl, ap}
use mathlib.Core.Bool.{Bool, true, false}
use mathlib.Core.Option.{Option, none, some}
use mathlib.Core.List.{List, [], ◌∷◌}
use native.Mathlib.Omega.{arith}
use package.kingdb.Prelude.Tests.{◌==◌, ==_iff, if◌then◌else◌}

abbrev pub NatMap {ℓ} : Type ℓ → Type ℓ
NatMap A = List (ℕ × A)

abbrev pub NatSet : Type 0
NatSet = List ℕ

-- What `map[k]` reads where the key may be missing.
abbrev pub get_or {ℓ} : {A : Type ℓ} → A → Option A → A
get_or a none = a
get_or a (some b) = b

module _ {ℓ} {A : Type ℓ} where
  unfoldable pub lookup : ℕ → NatMap A → Option A
  lookup k [] = none
  lookup k ((j, a) ∷ m) = if j == k then some a else lookup k m

  -- `map[k] = a`
  unfoldable pub insert : ℕ → A → NatMap A → NatMap A
  insert k a [] = (k, a) ∷ []
  insert k a ((j, b) ∷ m) = let rest = insert k a m in if j == k then (j, a) ∷ m else (j, b) ∷ rest

  unfoldable pub erase : ℕ → NatMap A → NatMap A
  erase k [] = []
  erase k ((j, b) ∷ m) = let rest = erase k m in if j == k then rest else (j, b) ∷ rest

  -- A key has one value.
  abbrev pub Distinct : NatMap A → Type ℓ
  Distinct [] = Unit {ℓ}
  Distinct ((j, b) ∷ m) = (lookup j m ≡ none) × Distinct m

  pub lookup-insert :
      (j k : ℕ) (a : A) (m : NatMap A)
      → lookup j (insert k a m) ≡ (if k == j then some a else lookup j m)
  unfolding lookup insert
  lookup-insert j k a [] = refl
  lookup-insert j k a ((i, b) ∷ m) =
      ground (arith, lookup-insert j k a m, ==_iff i k, ==_iff i j, ==_iff k j)

  pub lookup-erase :
      (j k : ℕ) (m : NatMap A) → lookup j (erase k m) ≡ (if k == j then none else lookup j m)
  unfolding lookup erase
  lookup-erase j k [] = ground arith
  lookup-erase j k ((i, b) ∷ m) =
      ground (arith, lookup-erase j k m, ==_iff i k, ==_iff i j, ==_iff k j)

  pub insert-Distinct : (k : ℕ) (a : A) (m : NatMap A) → Distinct m → Distinct (insert k a m)
  unfolding insert
  insert-Distinct k a [] d = (unfold lookup in refl, tt)
  insert-Distinct k a ((j, b) ∷ m) d =
      ground (arith, lookup-insert j k a m, insert-Distinct k a m d.1, ==_iff j k, ==_iff k j)

  pub erase-Distinct : (k : ℕ) (m : NatMap A) → Distinct m → Distinct (erase k m)
  unfolding erase
  erase-Distinct k [] d = tt
  erase-Distinct k ((j, b) ∷ m) d =
      ground (arith, lookup-erase j k m, erase-Distinct k m d.1, ==_iff j k, ==_iff k j)

unfoldable pub contains : ℕ → NatSet → Bool
contains k [] = false
contains k (j ∷ s) = if j == k then true else contains k s

unfoldable pub set_insert : ℕ → NatSet → NatSet
unfolding contains
set_insert k s = if contains k s then s else k ∷ s

unfoldable pub set_erase : ℕ → NatSet → NatSet
set_erase k [] = []
set_erase k (j ∷ s) = let rest = set_erase k s in if j == k then rest else j ∷ rest

pub contains-set_insert :
    (j k : ℕ) (s : NatSet) → contains j (set_insert k s) ≡ (if k == j then true else contains j s)
unfolding set_insert contains
contains-set_insert j k s = ground (arith, ==_iff k j)

pub contains-set_erase :
    (j k : ℕ) (s : NatSet) → contains j (set_erase k s) ≡ (if k == j then false else contains j s)
unfolding contains set_erase
contains-set_erase j k [] = ground arith
contains-set_erase j k (i ∷ s) =
    ground (arith, contains-set_erase j k s, ==_iff i k, ==_iff i j, ==_iff k j)

-- The sum of the values whose keys pass a test.
unfoldable pub total : (ℕ → Bool) → NatMap ℕ → ℕ
total t [] = 0
total t ((j, v) ∷ m) = (if t j then v else 0) + total t m

abbrev pub counted : Bool → ℕ → ℕ
counted b v = if b then v else 0

same : (t : ℕ → Bool) (j k : ℕ) → (j == k) ≡ true → t j ≡ t k
same t j k e = ap t ((==_iff j k).0 e)

pub total-insert :
    (t : ℕ → Bool) (k v : ℕ) (m : NatMap ℕ)
    → total t (insert k v m) + counted (t k) (get_or 0 (lookup k m)) ≡ total t m + counted (t k) v
unfolding total insert lookup
total-insert t k v [] = ground arith
total-insert t k v ((j, w) ∷ m) = ground (arith, total-insert t k v m, ==_iff j k, same t j k)

pub total-erase :
    (t : ℕ → Bool) (k : ℕ) (m : NatMap ℕ)
    → Distinct m
    → total t (erase k m) + counted (t k) (get_or 0 (lookup k m)) ≡ total t m
unfolding total erase lookup
total-erase t k [] d = ground arith
total-erase t k ((j, w) ∷ m) d = ground (arith, total-erase t k m d.1, d.0, ==_iff j k, same t j k)

-- Two tests that differ at one key, which only the first accepts.
pub total-without :
    (t u : ℕ → Bool) (k : ℕ) (m : NatMap ℕ)
    → ((j : ℕ) → u j ≡ (if k == j then false else t j))
    → t k ≡ true
    → Distinct m
    → total u m + get_or 0 (lookup k m) ≡ total t m
unfolding total lookup
total-without t u k [] h e d = refl
total-without t u k ((j, w) ∷ m) h e d =
    ground (arith, total-without t u k m h e d.1, h j, d.0, ==_iff j k, ==_iff k j, same t j k)

-- Tests that differ only at a key that is missing.
pub total_cong :
    (t u : ℕ → Bool) (k : ℕ) (m : NatMap ℕ)
    → ((j : ℕ) → (k == j) ≡ false → u j ≡ t j)
    → lookup k m ≡ none
    → total u m ≡ total t m
unfolding total lookup
total_cong t u k [] h e = refl
total_cong t u k ((j, w) ∷ m) h e =
    ground (arith, total_cong t u k m h, h j, ==_iff j k, ==_iff k j)
