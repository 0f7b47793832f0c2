-- ===== src/RateLimiter/Window.antt =====
-- The rate of writing after any number of flushes: the average of the last ten.
use kingdb.Prelude.{
  ℕ, zero, suc, ◌+◌, ◌-◌, ◌*◌, ◌/◌, ◌^◌, ◌<◌, ◌≤◌, ◌≡◌, refl, sym, ap, ◌∙◌, arith, true, false,
  ◌&&◌, List, [], ◌∷◌, ◌++◌, length, length-append, append_assoc, append-nil, drop, drop-drop,
  length-drop, ltb, leb, ◌==◌, if◌then◌else◌, All, Bool-cases, inl, inr,
}
use native.Mathlib.Nat.{mod-eq_of_lt}
use kingdb.RateLimiter.{
  RateLimiter, new_rate_limiter, store_writing_rate, sum_rates, get_writing_rate,
}

-- A rate stored after each flush.
unfoldable pub store_all : List ℕ → RateLimiter → RateLimiter
store_all [] r = r
store_all (rate ∷ rates) r = store_all rates (store_writing_rate rate r)

abbrev pub last_ten : List ℕ → List ℕ
last_ten rates = drop (length rates - 10) rates

unfoldable pub total : List ℕ → ℕ
total [] = 0
total (rate ∷ rates) = rate + total rates

-- The least of the limit and the average, where neither is 0: no limit is 0, and no average is the
-- default.
abbrev pub limited : ℕ → ℕ → ℕ
limited rate_limit average =
    if average == 0
    then 1024 * 1024
    else if rate_limit == 0
    then average
    else if leb average rate_limit
    then average
    else rate_limit

drop_append : (n : ℕ) (xs ys : List ℕ) → n ≤ length xs → drop n (xs ++ ys) ≡ drop n xs ++ ys
drop_append zero xs ys h = refl
drop_append (suc n) [] ys h = absurd (omega arith)
drop_append (suc n) (x ∷ xs) ys h = drop_append n xs ys (omega arith)

not_leb : (a b : ℕ) → leb a b ≡ false → b < a
not_leb a b h = ground arith

leb→le : (a b : ℕ) → leb a b ≡ true → a ≤ b
leb→le a b h = ground arith

-- A rate behind the last ten pushes the first of them out.
one_more :
    (history : List ℕ) (rate : ℕ)
    → (if leb 10 (length (last_ten history)) then drop 1 (last_ten history) else last_ten history)
        ++ (rate ∷ [])
      ≡ last_ten (history ++ (rate ∷ []))
one_more history rate = elim (Bool-cases (leb 10 (length (last_ten history)))) [
  | inl t ↦ rw t (
      ap (λ xs. xs ++ (rate ∷ [])) (sym (drop-drop (length history - 10) 1 history))
      ∙ shifted (length history - 10 + 1) (omega (arith, long t)) (omega (arith, long t, grown)))
  | inr t ↦ rw t (shifted (length history - 10) (omega arith) (omega (arith, short t, grown)))
]
  where
    grown : length (history ++ (rate ∷ [])) ≡ length history + 1
    grown = length-append history (rate ∷ [])

    long : leb 10 (length (last_ten history)) ≡ true → 10 ≤ length history
    long t = omega (arith, leb→le 10 _ t, length-drop (length history - 10) history)

    short : leb 10 (length (last_ten history)) ≡ false → length history < 10
    short t = omega (arith, not_leb 10 _ t, length-drop (length history - 10) history)

    shifted :
        (n : ℕ)
        → n ≤ length history
        → n ≡ length (history ++ (rate ∷ [])) - 10
        → drop n history ++ (rate ∷ []) ≡ last_ten (history ++ (rate ∷ []))
    shifted n h e =
        sym (drop_append n history (rate ∷ []) h) ∙ ap (λ m. drop m (history ++ (rate ∷ []))) e

rates-store_all :
    (rates history : List ℕ) (r : RateLimiter)
    → r.rates ≡ last_ten history
    → (store_all rates r).rates ≡ last_ten (history ++ rates)
unfolding store_all store_writing_rate
rates-store_all [] history r e = rw append-nil e
rates-store_all (rate ∷ rates) history r e =
    rates-store_all rates (history ++ (rate ∷ [])) (store_writing_rate rate r)
      (rw e (one_more history rate))
    ∙ ap last_ten (append_assoc history (rate ∷ []) rates)

rate_limit-store_all :
    (rates : List ℕ) (r : RateLimiter)
    → ((store_all rates r).rate_limit ≡ r.rate_limit)
      × ((store_all rates r).rate_writing_default ≡ r.rate_writing_default)
unfolding store_all store_writing_rate
rate_limit-store_all [] r = (refl, refl)
rate_limit-store_all (rate ∷ rates) r = rate_limit-store_all rates (store_writing_rate rate r)

sum_rates-total :
    (rates : List ℕ) (sum : ℕ)
    → sum + total rates < 2 ^ 64
    → sum_rates sum rates ≡ sum + total rates
unfolding sum_rates total
sum_rates-total [] sum h = omega arith
sum_rates-total (rate ∷ rates) sum h =
    let small : sum + rate < 2 ^ 64 = omega (arith, h) in
    rw (mod-eq_of_lt small) (sum_rates-total rates (sum + rate) (omega (arith, h)) ∙ omega arith)

total-IsSmall :
    (rates : List ℕ) → All (λ rate. rate < 2 ^ 60) rates → total rates ≤ length rates * 2 ^ 60
unfolding total
total-IsSmall [] h = omega arith
total-IsSmall (rate ∷ rates) (x, h) = omega (arith, total-IsSmall rates h)

All-drop :
    (n : ℕ) (rates : List ℕ)
    → All (λ rate. rate < 2 ^ 60) rates
    → All (λ rate. rate < 2 ^ 60) (drop n rates)
All-drop zero rates h = h
All-drop (suc n) [] h = h
All-drop (suc n) (rate ∷ rates) (x, h) = All-drop n rates h

choice :
    (rate_limit average : ℕ)
    → (if ltb 0 rate_limit && ltb rate_limit average
        then rate_limit
        else if ltb 0 average
        then average
        else 1024 * 1024)
      ≡ limited rate_limit average
choice rate_limit average = ground arith

limited_positive : (rate_limit average : ℕ) → 0 < limited rate_limit average
limited_positive rate_limit average = ground arith

limited_rate :
    (r : RateLimiter) (window : List ℕ)
    → r.rates ≡ window
    → r.rate_writing_default ≡ 1024 * 1024
    → 0 < length window
    → total window < 2 ^ 64
    → get_writing_rate r ≡ limited r.rate_limit (total window / length window)
unfolding get_writing_rate
limited_rate r window e d some_rate small =
    rw
      (
        e,
        d,
        not_zero (length window) some_rate,
        sum_rates-total window 0 (omega (arith, small)),
        from_zero (total window),
      )
      (choice r.rate_limit (total window / length window))
  where
    not_zero : (n : ℕ) → 0 < n → (n == 0) ≡ false
    not_zero n h = ground arith

    from_zero : (n : ℕ) → 0 + n ≡ n
    from_zero n = omega arith

-- Behind any flushes, one at least, GetWritingRate is the average of the last ten rates that were
-- stored, or the limit where there is one and the average is above it, or 1 MiB where the average is
-- 0; it is never 0. The rates are below 2 ^ 60, so that their sum does not wrap around.
pub get_writing_rate-store_all :
    (rate_limit rate : ℕ) (rates : List ℕ)
    → All (λ n. n < 2 ^ 60) (rate ∷ rates)
    → let window = last_ten (rate ∷ rates) in
      (get_writing_rate (store_all (rate ∷ rates) (new_rate_limiter rate_limit))
        ≡ limited rate_limit (total window / length window))
      × (0 < get_writing_rate (store_all (rate ∷ rates) (new_rate_limiter rate_limit)))
get_writing_rate-store_all rate_limit rate rates small =
    let r = store_all (rate ∷ rates) (new_rate_limiter rate_limit) in
    let window = last_ten (rate ∷ rates) in
    let (same_limit, same_default) =
      rate_limit-store_all (rate ∷ rates) (new_rate_limiter rate_limit) in
    let at_most : length window ≤ 10 =
      omega (arith, length-drop (length (rate ∷ rates) - 10) (rate ∷ rates)) in
    let some_rate : 0 < length window =
      omega (arith, length-drop (length (rate ∷ rates) - 10) (rate ∷ rates)) in
    let e =
      limited_rate r window (rates-store_all (rate ∷ rates) [] (new_rate_limiter rate_limit) refl)
        same_default some_rate
        (omega (
          arith,
          at_most,
          total-IsSmall window (All-drop (length (rate ∷ rates) - 10) (rate ∷ rates) small),
        ))
      ∙ ap (λ n. limited n (total window / length window)) same_limit in
    (e, rw e (limited_positive rate_limit (total window / length window)))
