-- ===== src/RateLimiter/Window.antt =====
-- No window of the limiter's period holds more admitted calls than the quota.
use opendht.Prelude.{
  ℕ, ◌+◌, ◌-◌, ◌<◌, ◌≤◌, ◌≡◌, ◌≢◌, refl, false, List, [], ◌∷◌, ◌++◌, arith, ltb, if◌then◌else◌,
  length, length-append, inl, inr, Bool-cases, ltb→lt, ◌⊎◌, All,
}
use opendht.Time.{TimePoint}
use opendht.RateLimiter.{
  RateLimiter, unlimited, pop_before, maintain, limit, admitted, Ascending, count_in,
}

count_in-append :
    (lo hi : ℕ) (xs ys : List ℕ) → count_in lo hi (xs ++ ys) ≡ count_in lo hi xs + count_in lo hi ys
count_in-append lo hi [] ys = omega arith
count_in-append lo hi (x ∷ xs) ys = omega (arith, count_in-append lo hi xs ys)

count_in-le-length : (lo hi : ℕ) (xs : List ℕ) → count_in lo hi xs ≤ length xs
count_in-le-length lo hi [] = omega arith
count_in-le-length lo hi (x ∷ xs) = ground (arith, count_in-le-length lo hi xs)

-- What `maintain` drops lies before the limit.
count_in-pop_before :
    (lo hi n : ℕ) (xs : List ℕ) → n ≤ lo → count_in lo hi (pop_before n xs) ≡ count_in lo hi xs
unfolding pop_before
count_in-pop_before lo hi n [] h = refl
count_in-pop_before lo hi n (x ∷ xs) h = ground (arith, count_in-pop_before lo hi n xs h)

length-pop_before-le : (n : ℕ) (xs : List ℕ) → length (pop_before n xs) ≤ length xs
unfolding pop_before
length-pop_before-le n [] = omega arith
length-pop_before-le n (x ∷ xs) = ground (arith, length-pop_before-le n xs)

-- After a call the records are within the quota.
pub limit_bounded :
    (r : RateLimiter) (now : TimePoint)
    → r.quota ≢ unlimited
    → length r.records ≤ r.quota
    → length (limit r now).0.records ≤ (limit r now).0.quota
unfolding limit
limit_bounded r now q h = ground (
  arith,
  length-pop_before-le (now - r.period) r.records,
  length-append (pop_before (now - r.period) r.records) (now ∷ []),
)

limit_keeps :
    (r : RateLimiter) (now : TimePoint)
    → ((limit r now).0.quota ≡ r.quota) × ((limit r now).0.period ≡ r.period)
unfolding limit
limit_keeps r now = ground arith

admitted_late :
    (r : RateLimiter) (now lo hi : TimePoint) (ts : List TimePoint)
    → hi < now
    → Ascending now ts
    → count_in lo hi (admitted r ts) ≡ 0
unfolding admitted
admitted_late r now lo hi [] h p = refl
admitted_late r now lo hi (t ∷ ts) h p = ground (arith, admitted_late (limit r t).0 t lo hi ts)

-- A call inside the window moves into the records what it admits, and drops nothing of the window.
limit_counts :
    (r : RateLimiter) (now lo : TimePoint)
    → now ≤ lo + r.period
    → count_in lo (lo + r.period) (limit r now).0.records
        ≡ count_in lo (lo + r.period) r.records
          + (if (limit r now).1 then count_in lo (lo + r.period) (now ∷ []) else 0)
      ⊎ (r.quota ≡ unlimited)
unfolding limit maintain
limit_counts r now lo h = ground (
  arith,
  count_in-pop_before lo (lo + r.period) (now - r.period) r.records,
  count_in-append lo (lo + r.period) (pop_before (now - r.period) r.records) (now ∷ []),
)

-- In every window of one period, closed at both ends, the calls that are admitted and the records
-- that the limiter began with are at most `quota`, whatever the calls, at times that do not fall.
pub admitted_window :
    (r : RateLimiter) (start lo : TimePoint) (ts : List TimePoint)
    → r.quota ≢ unlimited
    → length r.records ≤ r.quota
    → Ascending start ts
    → count_in lo (lo + r.period) r.records + count_in lo (lo + r.period) (admitted r ts) ≤ r.quota
unfolding admitted
admitted_window r start lo [] q h p = omega (arith, count_in-le-length lo (lo + r.period) r.records)
admitted_window r start lo (now ∷ ts) q h p = elim (Bool-cases (ltb (lo + r.period) now)) [
  | inl late ↦ ground (
    arith,
    count_in-le-length lo (lo + r.period) r.records,
    admitted_late (limit r now).0 now lo (lo + r.period) ts (ltb→lt _ _ late) p.1,
  )
  | inr inside ↦ ground (
    arith,
    limit_counts r now lo,
    limit_keeps r now,
    limit_bounded r now q h,
    admitted_window (limit r now).0 now lo ts,
  )
]

length-count_in :
    (lo n hi : ℕ) (xs : List ℕ)
    → n ≤ lo
    → Ascending lo xs
    → All (λ t. t ≤ hi) xs
    → length xs ≡ count_in n hi xs
length-count_in lo n hi [] h p q = refl
length-count_in lo n hi (x ∷ xs) h p q =
    ground (arith, length-count_in x n hi xs (omega arith) p.1 q.1)

length-pop_before :
    (lo n hi : ℕ) (xs : List ℕ)
    → Ascending lo xs
    → All (λ t. t ≤ hi) xs
    → length (pop_before n xs) ≡ count_in n hi xs
unfolding pop_before
length-pop_before lo n hi [] p q = refl
length-pop_before lo n hi (x ∷ xs) p q =
    ground (arith, length-pop_before x n hi xs p.1 q.1, length-count_in x n hi xs)

-- A call is refused only where the records of the last period, `now` included, have reached the quota;
-- the records stand in the order of their times, none later than `now`.
pub limit_refused :
    (r : RateLimiter) (now : TimePoint)
    → Ascending 0 r.records
    → All (λ t. t ≤ now) r.records
    → (limit r now).1 ≡ false
    → r.quota ≤ count_in (now - r.period) now r.records
unfolding limit
limit_refused r now p q e = ground (arith, length-pop_before 0 (now - r.period) now r.records p q)
