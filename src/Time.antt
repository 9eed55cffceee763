-- ===== src/Time.antt =====
-- include/opendht/utils.h: the clock's `time_point` and `duration`. A time is the number of clock ticks
-- (nanoseconds) since `time_point::min()`, so that `min()` is 0 and the times that a clock returns
-- lie near 2 ^ 63. Then `now - d` of the model, which stops at 0, is the program's for every d that
-- it subtracts, and `t < now - d` says the same as `t + d < now`.
use opendht.Prelude.{ℕ, ◌*◌}

abbrev pub TimePoint : Type 0
TimePoint = ℕ

abbrev pub Duration : Type 0
Duration = ℕ

abbrev pub time_min : TimePoint
time_min = 0

-- time_point::max(), 2 ^ 64 - 1 ticks after `min()`.
abbrev pub time_max : TimePoint
time_max = 18446744073709551615

abbrev pub seconds : ℕ → Duration
seconds n = n * 1000000000

abbrev pub minutes : ℕ → Duration
minutes n = n * 60000000000
