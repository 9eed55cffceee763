-- ===== src/Prelude/Bits.antt =====
-- Exclusive or on native numbers: its lowest digit, its digits, cancellation and range. The native
-- operation stands for a recursion on digits with a counter; the counter is dropped here.
use Prim.Native.Nat.{
  ℕ, zero, suc, ◌+◌, ◌*◌, ◌/◌, ◌%◌, ◌^◌, ◌≤◌, ◌<◌, bit_xor, bit_xor-bitwise, digits, differ,
}
use mathlib.Core.Path.{◌≡◌, refl, sym, ap, ◌∙◌}
use native.Mathlib.Nat.{pow-suc, pow-succ', le_refl, div-div-eq-div-mul, div-one}
use native.Mathlib.Omega.{arith}

abbrev xor_digits : ℕ → ℕ → ℕ → ℕ
xor_digits = digits (λ b. b) differ

xor_digits_count : (n m a b : ℕ) → a ≤ n → a ≤ m → xor_digits n a b ≡ xor_digits m a b
xor_digits_count zero zero a b p q = refl
xor_digits_count zero (suc m) zero b p q = refl
xor_digits_count zero (suc m) (suc a) b p q = absurd (omega arith)
xor_digits_count (suc n) zero zero b p q = refl
xor_digits_count (suc n) zero (suc a) b p q = absurd (omega arith)
xor_digits_count (suc n) (suc m) zero b p q = refl
xor_digits_count (suc n) (suc m) (suc a) b p q =
    rw (xor_digits_count n m (suc a / 2) (b / 2) (omega arith) (omega arith))

zero-bit_xor : (b : ℕ) → bit_xor 0 b ≡ b
zero-bit_xor b = bit_xor-bitwise 0 b

pub differ_bound : (x y : ℕ) → x < 2 → y < 2 → differ x y < 2
differ_bound zero y p q = q
differ_bound (suc x) zero p q = p
differ_bound (suc x) (suc y) p q = differ_bound x y (omega arith) (omega arith)

pub bit_xor_step : (a b : ℕ) → bit_xor a b ≡ bit_xor (a / 2) (b / 2) * 2 + differ (a % 2) (b % 2)
bit_xor_step zero b = omega (arith, zero-bit_xor b, zero-bit_xor (b / 2))
bit_xor_step (suc a) b = omega (
  arith,
  bit_xor-bitwise (suc a) b,
  bit_xor-bitwise (suc a / 2) (b / 2),
  xor_digits_count a (suc a / 2) (suc a / 2) (b / 2) (omega arith) (le_refl _),
)

differ_cancel : (x y d : ℕ) → x < 2 → y < 2 → d < 2 → differ x d ≡ differ y d → x ≡ y
differ_cancel zero zero d p q r e = refl
differ_cancel zero (suc zero) zero p q r e = e
differ_cancel zero (suc zero) (suc zero) p q r e = absurd (omega arith)
differ_cancel (suc zero) zero zero p q r e = e
differ_cancel (suc zero) zero (suc zero) p q r e = absurd (omega arith)
differ_cancel (suc zero) (suc zero) d p q r e = refl
differ_cancel _ _ d p q r e = absurd (omega arith)

cancel_below : (n a b d : ℕ) → a ≤ n → b ≤ n → bit_xor a d ≡ bit_xor b d → a ≡ b
cancel_below zero zero zero d p q e = refl
cancel_below zero (suc a) b d p q e = absurd (omega arith)
cancel_below zero a (suc b) d p q e = absurd (omega arith)
cancel_below (suc n) a b d p q e =
    let low : differ (a % 2) (d % 2) < 2 =
      differ_bound (a % 2) (d % 2) (omega arith) (omega arith) in
    let low' : differ (b % 2) (d % 2) < 2 =
      differ_bound (b % 2) (d % 2) (omega arith) (omega arith) in
    let high : a / 2 ≡ b / 2 =
      cancel_below n (a / 2) (b / 2) (d / 2) (omega arith) (omega arith)
        (omega (arith, bit_xor_step a d, bit_xor_step b d)) in
    let digit : a % 2 ≡ b % 2 =
      differ_cancel (a % 2) (b % 2) (d % 2) (omega arith) (omega arith) (omega arith)
        (omega (arith, bit_xor_step a d, bit_xor_step b d)) in
    omega arith

-- Equal exclusive ors with one number come from equal numbers.
pub bit_xor_cancel : (a b d : ℕ) → bit_xor a d ≡ bit_xor b d → a ≡ b
bit_xor_cancel a b d = cancel_below (a + b) a b d (omega arith) (omega arith)

pub bit_xor-lt : (k a b : ℕ) → a < 2 ^ k → b < 2 ^ k → bit_xor a b < 2 ^ k
bit_xor-lt zero zero zero p q = omega (arith, zero-bit_xor 0)
bit_xor-lt zero (suc a) b p q = absurd (omega arith)
bit_xor-lt zero a (suc b) p q = absurd (omega arith)
bit_xor-lt (suc k) a b p q = omega (
  arith,
  pow-suc 2 k,
  bit_xor_step a b,
  differ_bound (a % 2) (b % 2) (omega arith) (omega arith),
  bit_xor-lt k (a / 2) (b / 2) (omega (arith, pow-suc 2 k)) (omega (arith, pow-suc 2 k)),
)

pub bit_xor_self : (n a : ℕ) → a ≤ n → bit_xor a a ≡ 0
bit_xor_self n zero h = zero-bit_xor 0
bit_xor_self zero (suc a) h = absurd (omega arith)
bit_xor_self (suc n) (suc a) h = omega (
  arith,
  bit_xor_step (suc a) (suc a),
  differ_self (suc a % 2) (omega arith),
  bit_xor_self n (suc a / 2) (omega arith),
)
  where
    differ_self : (x : ℕ) → x < 2 → differ x x ≡ 0
    differ_self zero p = refl
    differ_self (suc zero) p = refl
    differ_self (suc (suc x)) p = absurd (omega arith)

-- The digit of `a` that stands for `2 ^ k`.

abbrev pub digit : ℕ → ℕ → ℕ
digit a k = a / 2 ^ k % 2

half-bit_xor : (a b : ℕ) → bit_xor a b / 2 ≡ bit_xor (a / 2) (b / 2)
half-bit_xor a b =
    omega (arith, bit_xor_step a b, differ_bound (a % 2) (b % 2) (omega arith) (omega arith))

low-bit_xor : (a b : ℕ) → bit_xor a b % 2 ≡ differ (a % 2) (b % 2)
low-bit_xor a b =
    omega (arith, bit_xor_step a b, differ_bound (a % 2) (b % 2) (omega arith) (omega arith))

half-pow : (a k : ℕ) → a / 2 ^ suc k ≡ a / 2 / 2 ^ k
half-pow a k = ap (λ (t : ℕ). a / t) (pow-succ' 2 k) ∙ sym (div-div-eq-div-mul a 2 (2 ^ k))

pub digit-bit_xor : (k a b : ℕ) → digit (bit_xor a b) k ≡ differ (digit a k) (digit b k)
digit-bit_xor zero a b = rw (div-one (bit_xor a b), div-one a, div-one b) (low-bit_xor a b)
digit-bit_xor (suc k) a b =
    rw (half-pow (bit_xor a b) k, half-pow a k, half-pow b k, half-bit_xor a b)
      (digit-bit_xor k (a / 2) (b / 2))
