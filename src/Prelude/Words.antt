-- ===== src/Prelude/Words.antt =====
-- `size_t` and `ssize_t` on a 64-bit machine: numbers modulo 2 ^ 64, and signed differences.
use opendht.Prelude.Int.{ℤ, pos, negsuc, sub_ℕ}
use Prim.Native.Nat.{ℕ, suc, ◌+◌, ◌-◌, ◌%◌}
use mathlib.Core.Path.{◌≡◌}
use native.Mathlib.Omega.{arith}

-- 2 ^ 64
abbrev pub word : ℕ
word = 18446744073709551616

unfoldable pub add_size : ℕ → ℕ → ℕ
add_size a b = (a + b) % word

unfoldable pub sub_size : ℕ → ℕ → ℕ
sub_size a b = (a + word - b % word) % word

-- `size += diff`, for a signed difference.
unfoldable pub add_diff : ℕ → ℤ → ℕ
unfolding add_size sub_size
add_diff a (pos n) = add_size a n
add_diff a (negsuc n) = sub_size a (suc n)

pub add_size-mod : (a b s : ℕ) → a ≡ s % word → add_size a b ≡ (s + b) % word
unfolding add_size
add_size-mod a b s h = omega arith

pub sub_size-mod : (a b s : ℕ) → a ≡ (s + b) % word → sub_size a b ≡ s % word
unfolding sub_size
sub_size-mod a b s h = omega arith

-- Adding the difference of two sizes takes the old size out and puts the new one in.
pub add_diff-mod :
    (a new old s : ℕ) → a ≡ (s + old) % word → add_diff a (sub_ℕ new old) ≡ (s + new) % word
unfolding add_diff
add_diff-mod a new old s h = ground arith
