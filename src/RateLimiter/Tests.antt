-- ===== src/RateLimiter/Tests.antt =====
-- A limiter of two calls in ten ticks.
use opendht.Prelude.{◌≡◌, ◌+◌, ◌-◌, ◌≤◌, refl, [], ◌∷◌, arith}
use opendht.RateLimiter.{RateLimiter, pop_before, limit, admitted, count_in}
use opendht.RateLimiter.Window.{admitted_window, limit_refused}

abbrev two_in_ten : RateLimiter
two_in_ten = record { quota = 2; period = 10; records = [] }

abbrev full : RateLimiter
full = record { quota = 2; period = 10; records = 3 ∷ 12 ∷ [] }

admits : admitted two_in_ten (1 ∷ 5 ∷ 11 ∷ 12 ∷ 13 ∷ []) ≡ 1 ∷ 5 ∷ 12 ∷ []
unfolding admitted limit pop_before
admits = refl

admitted_window_example :
    count_in 5 (5 + 10) two_in_ten.records
      + count_in 5 (5 + 10) (admitted two_in_ten (1 ∷ 5 ∷ 11 ∷ 12 ∷ 13 ∷ []))
    ≤ 2
admitted_window_example =
    admitted_window two_in_ten 0 5 (1 ∷ 5 ∷ 11 ∷ 12 ∷ 13 ∷ []) (omega arith) (omega arith)
      (omega arith)

limit_refused_example : 2 ≤ count_in (13 - 10) 13 full.records
unfolding limit pop_before
limit_refused_example = limit_refused full 13 (omega arith) (omega arith) refl
