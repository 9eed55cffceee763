-- ===== src/Prelude/Int.antt =====
-- Signed integers over the native numbers, as far as the program's `int` results need them.
use Prim.Native.Nat.{ℕ, suc, ◌-◌, max}
use opendht.Prelude.Tests.{leb, if◌then◌else◌}

-- `negsuc n` is -(n + 1).
pub data ℤ : Type 0 where
  pos : ℕ → ℤ
  negsuc : ℕ → ℤ

-- a - b, as an integer.
abbrev pub sub_ℕ : ℕ → ℕ → ℤ
sub_ℕ a b = if leb b a then pos (a - b) else negsuc (b - a - 1)

-- std::max(a, b) + 1, for a and b that are -1 at least.
abbrev pub suc_max : ℤ → ℤ → ℕ
suc_max (pos a) (pos b) = suc (max a b)
suc_max (pos a) (negsuc b) = suc a
suc_max (negsuc a) (pos b) = suc b
suc_max (negsuc a) (negsuc b) = 0
