-- ===== src/RateLimiter.antt =====
-- include/opendht/rate_limiter.h: `RateLimiter`, a sliding window of the times of admitted calls.
pub mod Window
mod Tests
use opendht.Prelude.{
  ℕ, ◌+◌, ◌-◌, ◌≤◌, Bool, true, false, List, [], ◌∷◌, ◌++◌, ltb, leb, ◌==◌, if◌then◌else◌, length,
}
use opendht.Time.{TimePoint, Duration}

-- std::numeric_limits<size_t>::max(): no limit.
abbrev pub unlimited : ℕ
unlimited = 18446744073709551615

-- `records` is the queue, its front first.
pub record RateLimiter : Type 0 where
  pub quota : ℕ
  pub period : Duration
  pub records : List TimePoint

-- `while (not records.empty() and records.front() < limit) records.pop();`
unfoldable pub pop_before : TimePoint → List TimePoint → List TimePoint
pop_before limit [] = []
pop_before limit (t ∷ ts) = elim (ltb t limit) [ true ↦ pop_before limit ts | false ↦ t ∷ ts ]

unfoldable pub maintain : RateLimiter → TimePoint → RateLimiter × ℕ
maintain r now =
    let left = pop_before (now - r.period) r.records in (record r { records = left }, length left)

-- `limit` of the source: the limiter after the call, and whether the call is admitted.
unfoldable pub limit : RateLimiter → TimePoint → RateLimiter × Bool
unfolding maintain
limit r now =
    if r.quota == unlimited
    then (r, true)
    else let (r', used) = maintain r now in
      if leb r'.quota used
      then (r', false)
      else (record r' { records = r'.records ++ now ∷ [] }, true)

-- A history of calls: the times of those that are admitted.
unfoldable pub admitted : RateLimiter → List TimePoint → List TimePoint
admitted r [] = []
admitted r (now ∷ ts) =
    let (r', ok) = limit r now in let rest = admitted r' ts in if ok then now ∷ rest else rest

-- Calls at times that do not fall, from `now` on.
abbrev pub Ascending : TimePoint → List TimePoint → Type 0
Ascending now [] = Unit
Ascending now (t ∷ ts) = (now ≤ t) × Ascending t ts

-- How many of the times lie in a window.
abbrev pub count_in : TimePoint → TimePoint → List TimePoint → ℕ
count_in lo hi [] = 0
count_in lo hi (t ∷ ts) = (if leb lo t then if leb t hi then 1 else 0 else 0) + count_in lo hi ts
