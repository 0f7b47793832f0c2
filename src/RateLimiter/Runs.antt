-- ===== src/RateLimiter/Runs.antt =====
-- The rate of writing on concrete rates, and the theorem at a concrete input.
use kingdb.Prelude.{ℕ, ◌/◌, ◌<◌, ◌≡◌, refl, arith, List, [], ◌∷◌, length}
use kingdb.RateLimiter.{new_rate_limiter, store_writing_rate, sum_rates, get_writing_rate}
use kingdb.RateLimiter.Window.{store_all, last_ten, total, limited, get_writing_rate-store_all}

abbrev rates_of_flushes : List ℕ
rates_of_flushes = 2 ∷ 4 ∷ 6 ∷ 8 ∷ 10 ∷ 12 ∷ 14 ∷ 16 ∷ 18 ∷ 20 ∷ []

-- The first of the eleven rates is forgotten.
average_of_ten : get_writing_rate (store_all (1000 ∷ rates_of_flushes) (new_rate_limiter 0)) ≡ 11
unfolding get_writing_rate store_all store_writing_rate sum_rates
average_of_ten = refl

below_limit : get_writing_rate (store_all rates_of_flushes (new_rate_limiter 7)) ≡ 7
unfolding get_writing_rate store_all store_writing_rate sum_rates
below_limit = refl

get_writing_rate-store_all_example :
    (get_writing_rate (store_all (1000 ∷ rates_of_flushes) (new_rate_limiter 7))
      ≡ limited 7 (
          total (last_ten (1000 ∷ rates_of_flushes)) / length (last_ten (1000 ∷ rates_of_flushes))))
    × (0 < get_writing_rate (store_all (1000 ∷ rates_of_flushes) (new_rate_limiter 7)))
get_writing_rate-store_all_example =
    get_writing_rate-store_all 7 1000 rates_of_flushes (omega arith)
