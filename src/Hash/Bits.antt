-- ===== src/Hash/Bits.antt =====
-- The bit operations of `Hash<N>`: lowbit, commonBits, getBit and setBit.
use opendht.Prelude.{
  ℕ, zero, suc, ◌+◌, ◌-◌, ◌*◌, ◌/◌, ◌%◌, ◌<◌, ◌≤◌, ◌≡◌, ◌≢◌, refl, sym, ap, ◌∙◌, Bool, true, ◌&&◌,
  ◌||◌, [], ◌∷◌, arith, bit_xor, ltb, ◌==◌, if◌then◌else◌, length, get_or, inl, inr, Bool-cases,
  ltb→lt, ◌⊎◌, All-get_or,
}
use Prim.Native.Nat.{differ}
use opendht.Prelude.Bits.{digit, digit-bit_xor, bit_xor-lt, bit_xor_cancel, bit_xor_self}
use opendht.Prelude.Bytes.{every_below, every_below_at}
use opendht.Hash.{Hash, IsHash, common_bytes, leading_zeros, common_bits, get_bit}

pub byte_at : (h : Hash) (n i : ℕ) → IsHash n h → get_or h i 0 < 256
byte_at h n i v = All-get_or (λ x. x < 256) h i 0 (omega arith) v.bytes

-- What `leading_zeros` counts: the digits below it are 0, and the next is 1.
counts_zeros : ℕ → Bool
counts_zeros x =
    let z = leading_zeros 8 x in
    every_below 8 (λ k. if ltb k z then digit x (7 - k) == 0 else true)
    && (x == 0 || (ltb z 8 && digit x (7 - z) == 1))

counts_zeros_table : every_below 256 counts_zeros ≡ true
unfolding every_below counts_zeros leading_zeros
counts_zeros_table = refl

counts_zeros_lem : (x : ℕ) → x < 256 → counts_zeros x ≡ true
counts_zeros_lem x h = every_below_at 256 counts_zeros x counts_zeros_table h

&&-left : (a b : Bool) → (a && b) ≡ true → a ≡ true
&&-left a b h = ground arith

leading_zeros_below : (x k : ℕ) → x < 256 → k < 8 → k < leading_zeros 8 x → digit x (7 - k) ≡ 0
unfolding counts_zeros
leading_zeros_below x k hx hk h = ground (
  arith,
  every_below_at 8 (λ k. if ltb k (leading_zeros 8 x) then digit x (7 - k) == 0 else true) k
      (&&-left _ _ (counts_zeros_lem x hx)) hk,
)

leading_zeros_at :
    (x : ℕ) → x < 256 → x ≢ 0 → (leading_zeros 8 x < 8) × (digit x (7 - leading_zeros 8 x) ≡ 1)
unfolding counts_zeros
leading_zeros_at x hx h = ground (arith, counts_zeros_lem x hx)

common_bytes-le : (a b : Hash) → common_bytes a b ≤ length a
unfolding common_bytes
common_bytes-le [] b = omega arith
common_bytes-le (x ∷ xs) [] = omega arith
common_bytes-le (x ∷ xs) (y ∷ ys) = ground (arith, common_bytes-le xs ys)

common_bytes_agree : (a b : Hash) (i : ℕ) → i < common_bytes a b → get_or a i 0 ≡ get_or b i 0
unfolding common_bytes
common_bytes_agree [] b i h = absurd (omega arith)
common_bytes_agree (x ∷ xs) [] i h = absurd (omega arith)
common_bytes_agree (x ∷ xs) (y ∷ ys) zero h = ground arith
common_bytes_agree (x ∷ xs) (y ∷ ys) (suc i) h = ground (arith, common_bytes_agree xs ys i)

common_bytes_differ :
    (a b : Hash)
    → length a ≡ length b
    → common_bytes a b < length a
    → get_or a (common_bytes a b) 0 ≢ get_or b (common_bytes a b) 0
unfolding common_bytes
common_bytes_differ [] b e h p = absurd (omega arith)
common_bytes_differ (x ∷ xs) [] e h p = absurd (omega arith)
common_bytes_differ (x ∷ xs) (y ∷ ys) e h p = ground (arith, common_bytes_differ xs ys)

digit_bound : (x k : ℕ) → digit x k < 2
digit_bound x k = omega arith

differ-zero : (x y : ℕ) → x < 2 → y < 2 → differ x y ≡ 0 → x ≡ y
differ-zero zero zero p q e = refl
differ-zero zero (suc y) p q e = absurd (omega arith)
differ-zero (suc x) zero p q e = absurd (omega arith)
differ-zero (suc zero) (suc zero) p q e = refl
differ-zero (suc (suc x)) _ p q e = absurd (omega arith)
differ-zero (suc zero) (suc (suc y)) p q e = absurd (omega arith)

differ-one : (x y : ℕ) → differ x y ≡ 1 → x ≢ y
differ-one zero zero e p = absurd (omega arith)
differ-one zero (suc y) e p = absurd (omega arith)
differ-one (suc x) zero e p = absurd (omega arith)
differ-one (suc x) (suc y) e p = differ-one x y e (omega arith)

-- Digit 7 - k of two bytes agrees below the leading zeros of their exclusive or, and not there.
byte_agree :
    (x y k : ℕ)
    → x < 256
    → y < 256
    → k < 8
    → k < leading_zeros 8 (bit_xor x y)
    → digit x (7 - k) ≡ digit y (7 - k)
byte_agree x y k hx hy hk h =
    differ-zero (digit x (7 - k)) (digit y (7 - k)) (digit_bound x (7 - k)) (digit_bound y (7 - k))
      (sym (digit-bit_xor (7 - k) x y)
        ∙ leading_zeros_below (bit_xor x y) k (bit_xor-lt 8 x y hx hy) hk h)

xor-zero : (x y : ℕ) → bit_xor x y ≡ 0 → x ≡ y
xor-zero x y h = bit_xor_cancel x y y (h ∙ sym (bit_xor_self y y (omega arith)))

byte_differ :
    (x y : ℕ)
    → x < 256
    → y < 256
    → x ≢ y
    → let z = leading_zeros 8 (bit_xor x y) in (z < 8) × (digit x (7 - z) ≢ digit y (7 - z))
byte_differ x y hx hy h =
    let at = leading_zeros_at (bit_xor x y) (bit_xor-lt 8 x y hx hy) (λ e. h (xor-zero x y e)) in
    (at.0, differ-one _ _ (sym (digit-bit_xor (7 - leading_zeros 8 (bit_xor x y)) x y) ∙ at.1))

get_bit_congr :
    (a b : Hash) (i : ℕ)
    → digit (get_or a (i / 8) 0) (7 - i % 8) ≡ digit (get_or b (i / 8) 0) (7 - i % 8)
    → get_bit a i ≡ get_bit b i
unfolding get_bit
get_bit_congr a b i h = rw h

get_bit_apart :
    (a b : Hash) (i : ℕ)
    → digit (get_or a (i / 8) 0) (7 - i % 8) ≢ digit (get_or b (i / 8) 0) (7 - i % 8)
    → get_bit a i ≢ get_bit b i
unfolding get_bit
get_bit_apart a b i h e = ground (
  arith,
  digit_bound (get_or a (i / 8) 0) (7 - i % 8),
  digit_bound (get_or b (i / 8) 0) (7 - i % 8),
)

common_bytes_full : (a b : Hash) → length a ≡ length b → common_bytes a b ≡ length a → a ≡ b
unfolding common_bytes
common_bytes_full [] [] e h = refl
common_bytes_full [] (y ∷ ys) e h = absurd (omega arith)
common_bytes_full (x ∷ xs) [] e h = absurd (omega arith)
common_bytes_full (x ∷ xs) (y ∷ ys) e h = ground (arith, common_bytes_full xs ys)

common_bytes_self : (a : Hash) → common_bytes a a ≡ length a
unfolding common_bytes
common_bytes_self [] = refl
common_bytes_self (x ∷ xs) = ground (arith, common_bytes_self xs)

module _ (n : ℕ) (a b : Hash) (va : IsHash n a) (vb : IsHash n b) where
  abbrev first_apart : ℕ
  first_apart = bit_xor (get_or a (common_bytes a b) 0) (get_or b (common_bytes a b) 0)

  common_bits_cases :
      ((common_bytes a b ≡ n) × (common_bits a b ≡ 8 * n))
      ⊎ ((common_bytes a b < n)
          × (common_bits a b ≡ 8 * common_bytes a b + leading_zeros 8 first_apart)
          × (leading_zeros 8 first_apart < 8)
          × (digit (get_or a (common_bytes a b) 0) (7 - leading_zeros 8 first_apart)
              ≢ digit (get_or b (common_bytes a b) 0) (7 - leading_zeros 8 first_apart)))
  unfolding common_bits
  common_bits_cases = elim (Bool-cases (common_bytes a b == length a)) [
    | inl full ↦ inl (ground (arith, va.size), ground (arith, va.size))
    | inr part ↦
        let below : common_bytes a b < length a = ground (arith, common_bytes-le a b) in
        let apart =
          byte_differ (get_or a (common_bytes a b) 0) (get_or b (common_bytes a b) 0)
            (byte_at a n (common_bytes a b) va) (byte_at b n (common_bytes a b) vb)
            (common_bytes_differ a b (va.size ∙ sym vb.size) below) in
        inr (omega (arith, va.size), rw part, apart.0, apart.1)
  ]

  -- Two ids agree on the bits that `commonBits` counts.
  pub common_bits_agree : (i : ℕ) → i < common_bits a b → get_bit a i ≡ get_bit b i
  common_bits_agree i h = get_bit_congr a b i (elim common_bits_cases [
    | inl (full, e) ↦
        ap (λ (x : ℕ). digit x (7 - i % 8)) (common_bytes_agree a b (i / 8) (omega arith))
    | inr (part, e, small, _) ↦ elim (Bool-cases (ltb (i / 8) (common_bytes a b))) [
      | inl low ↦
          ap (λ (x : ℕ). digit x (7 - i % 8)) (common_bytes_agree a b (i / 8) (ltb→lt _ _ low))
      | inr high ↦
          let here : i / 8 ≡ common_bytes a b = ground (arith, high) in
          rw here (
            byte_agree _ _ (i % 8) (byte_at a n (common_bytes a b) va)
              (byte_at b n (common_bytes a b) vb) (omega arith) (omega arith))
    ]
  ])

  -- If they are not equal, it counts to the first bit on which they differ.
  pub common_bits_differ :
      a ≢ b
      → (common_bits a b < 8 * n) × (get_bit a (common_bits a b) ≢ get_bit b (common_bits a b))
  common_bits_differ ne = elim common_bits_cases [
    | inl (full, e) ↦
        absurd (ne (common_bytes_full a b (va.size ∙ sym vb.size) (full ∙ sym va.size)))
    | inr (part, e, small, apart) ↦
        let q : common_bits a b / 8 ≡ common_bytes a b = omega arith in
        let r : common_bits a b % 8 ≡ leading_zeros 8 first_apart = omega arith in
        (omega arith, get_bit_apart a b (common_bits a b) (rw (q, r) apart))
  ]

-- An id has all its 8 * N bits in common with itself.
pub common_bits_self : (n : ℕ) (a : Hash) → IsHash n a → common_bits a a ≡ 8 * n
unfolding common_bits
common_bits_self n a va = ground (arith, common_bytes_self a, va.size)
