-- ===== src/WriteBuffer/Lookup.antt =====
-- Get answers from the last order that was accepted for a key.
use kingdb.Prelude.{
  ℕ, ◌≡◌, refl, sym, ap, ◌∙◌, Bool, true, false, Option, none, some, List, [], ◌∷◌, ◌++◌,
  if◌then◌else◌,
}
use kingdb.Order.{Order}
use kingdb.WriteBuffer.{
  WriteBuffer, buffer_live, buffer_copy, same_bytes, find_loop, answer_live, answer_copy, get,
}

abbrev pub or_else : Option Order → Option Order → Option Order
or_else (some o) p = some o
or_else none p = p

-- The last order with a key, counted from the end of the list.
unfoldable pub last_order : List ℕ → List Order → Option Order
last_order key [] = none
last_order key (o ∷ os) =
    or_else (last_order key os) (if same_bytes o.key key then some o else none)

or_else_assoc : (a b c : Option Order) → or_else (or_else a b) c ≡ or_else a (or_else b c)
or_else_assoc none b c = refl
or_else_assoc (some o) b c = refl

or_else-none : (a : Option Order) → or_else a none ≡ a
or_else-none none = refl
or_else-none (some o) = refl

or_else_if :
    (b : Bool) (o : Order) (found : Option Order)
    → or_else (if b then some o else none) found ≡ (if b then some o else found)
or_else_if true o found = refl
or_else_if false o found = refl

find_loop-last_order :
    (key : List ℕ) (os : List Order) (found : Option Order)
    → find_loop key found os ≡ or_else (last_order key os) found
unfolding find_loop last_order
find_loop-last_order key [] found = refl
find_loop-last_order key (o ∷ os) found =
    find_loop-last_order key os (if same_bytes o.key key then some o else found)
    ∙ ap (or_else (last_order key os)) (sym (or_else_if (same_bytes o.key key) o found))
    ∙ sym (or_else_assoc (last_order key os) _ found)

pub last_order-append :
    (key : List ℕ) (xs ys : List Order)
    → last_order key (xs ++ ys) ≡ or_else (last_order key ys) (last_order key xs)
unfolding last_order
last_order-append key [] ys = sym (or_else-none (last_order key ys))
last_order-append key (x ∷ xs) ys =
    ap (λ o. or_else o (if same_bytes x.key key then some x else none))
      (last_order-append key xs ys)
    ∙ or_else_assoc (last_order key ys) (last_order key xs) _

find_live : (key : List ℕ) (os : List Order) → find_loop key none os ≡ last_order key os
find_live key os = find_loop-last_order key os none ∙ or_else-none (last_order key os)

-- The two parts of Get, for what their loops found.
answers :
    (live copy : Option Order)
    → (elim live [ some o ↦ answer_live o | none ↦ answer_copy copy ])
      ≡ answer_copy (or_else live copy)
unfolding answer_live answer_copy
answers none copy = refl
answers (some o) copy = refl

-- As long as the buffer is not closing, Get answers from the last order with the key in the two
-- buffers together, the one being persisted first: the value of a put that is self-contained, the
-- status of a delete, and not found for a part of a larger entry or where there is no order.
pub get-last_order :
    (key : List ℕ) (w : WriteBuffer)
    → w.stop_requested ≡ false
    → get key w ≡ answer_copy (last_order key (buffer_copy w ++ buffer_live w))
unfolding get
get-last_order key w h =
    rw (h, find_live key (buffer_live w))
      (answers (last_order key (buffer_live w)) (find_loop key none (buffer_copy w))
        ∙ ap answer_copy (
            ap (or_else (last_order key (buffer_live w))) (find_live key (buffer_copy w))
            ∙ sym (last_order-append key (buffer_copy w) (buffer_live w))))
