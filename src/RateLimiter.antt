-- ===== src/RateLimiter.antt =====
-- cache/rate_limiter.h: the rate at which the database writes, an average over the last flushes. What
-- Tick does with it, in numbers of type double, and the clock are not modelled.
pub mod Window
mod Runs
use kingdb.Prelude.{
  ℕ, ◌+◌, ◌*◌, ◌%◌, ◌/◌, ◌^◌, Bool, ◌&&◌, List, [], ◌∷◌, ◌++◌, length, drop, ltb, leb, ◌==◌,
  if◌then◌else◌,
}

-- The fields that the rate of writing depends on.
pub record RateLimiter : Type 0 where
  pub rate_limit : ℕ
  pub rate_writing_default : ℕ
  pub rates : List ℕ

abbrev pub new_rate_limiter : ℕ → RateLimiter
new_rate_limiter rate_limit = record {
  rate_limit = rate_limit;
  rate_writing_default = 1 * 1024 * 1024;
  rates = [];
}

unfoldable pub store_writing_rate : ℕ → RateLimiter → RateLimiter
store_writing_rate rate r = record r {
  rates = (if leb 10 (length r.rates) then drop 1 r.rates else r.rates) ++ (rate ∷ []);
}

-- The loop over the rates, from a sum.
unfoldable pub sum_rates : ℕ → List ℕ → ℕ
sum_rates sum [] = sum
sum_rates sum (rate ∷ rates) = sum_rates ((sum + rate) % 2 ^ 64) rates

unfoldable pub get_writing_rate : RateLimiter → ℕ
unfolding sum_rates
get_writing_rate r =
    let rate_limit_current = sum_rates 0 r.rates / length r.rates in
    if length r.rates == 0
    then r.rate_writing_default
    else if ltb 0 r.rate_limit && ltb r.rate_limit rate_limit_current
    then r.rate_limit
    else if ltb 0 rate_limit_current
    then rate_limit_current
    else r.rate_writing_default
