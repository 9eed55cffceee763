-- ===== src/Hash/CmpBits.antt =====
-- cmp compares the bits that getBit reads.
use opendht.Prelude.{
  ℕ, zero, suc, ◌+◌, ◌-◌, ◌*◌, ◌/◌, ◌^◌, subst, All, ==_iff, ◌%◌, ◌<◌, ◌≤◌, ◌≡◌, ◌≢◌, sym, ◌∙◌,
  refl, true, false, [], ◌∷◌, arith, ltb, ◌==◌, Ordering, length, inl, inr, Bool-cases, ltb→lt,
  ltb-false→le,
}
use native.Mathlib.Nat.{pow-suc, div-div-eq-div-mul, div-lt_iff_lt-mul, div-mul-le_self}
use opendht.Prelude.Bits.{digit}
use opendht.Hash.{Hash, IsHash, get_bit, cmp, common_bits}
use opendht.Hash.Order.{cmp-flip, cmp_self}
use opendht.Hash.Bits.{common_bits_agree, common_bits_differ}

two_pow_pos : (m : ℕ) → 0 < 2 ^ m
two_pow_pos zero = omega arith
two_pow_pos (suc m) = rw (pow-suc 2 m) (omega (arith, two_pow_pos m))

half_power : (x m : ℕ) → x / 2 ^ suc m ≡ x / 2 ^ m / 2
half_power x m = rw (pow-suc 2 m) (sym (div-div-eq-div-mul x (2 ^ m) 2))

half_digit : (q q' : ℕ) → q / 2 ≡ q' / 2 → q % 2 ≡ q' % 2 → q ≡ q'
half_digit q q' h k = omega arith

half_digit_lt : (q q' : ℕ) → q / 2 ≡ q' / 2 → q % 2 ≡ 0 → q' % 2 ≡ 1 → q < q'
half_digit_lt q q' h k l = omega arith

-- Bytes that agree on the first i digits.
same_prefix :
    (x y i : ℕ)
    → x < 256
    → y < 256
    → i ≤ 8
    → ((j : ℕ) → j < i → digit x (7 - j) ≡ digit y (7 - j))
    → x / 2 ^ (8 - i) ≡ y / 2 ^ (8 - i)
same_prefix x y zero hx hy h agree = omega arith
same_prefix x y (suc i) hx hy h agree =
    let shorter = same_prefix x y i hx hy (omega arith) (λ j p. agree j (omega arith)) in
    let step : 8 - i ≡ suc (7 - i) = omega arith in
    let back : 7 - i ≡ 8 - suc i = omega arith in
    let upper : x / 2 ^ (7 - i) / 2 ≡ y / 2 ^ (7 - i) / 2 =
      sym (half_power x (7 - i))
      ∙ subst (λ m. x / 2 ^ m ≡ y / 2 ^ m) step shorter
      ∙ half_power y (7 - i) in
    let lower = agree i (omega arith) in
    subst (λ m. x / 2 ^ m ≡ y / 2 ^ m) back (half_digit _ _ upper lower)

-- Bytes that agree on the digits before digit i, and have 0 and 1 there.
first_digit_lt :
    (x y i : ℕ)
    → x < 256
    → y < 256
    → i < 8
    → ((j : ℕ) → j < i → digit x (7 - j) ≡ digit y (7 - j))
    → digit x (7 - i) ≡ 0
    → digit y (7 - i) ≡ 1
    → x < y
first_digit_lt x y i hx hy hi agree h0 h1 =
    let shorter = same_prefix x y i hx hy (omega arith) agree in
    let step : 8 - i ≡ suc (7 - i) = omega arith in
    let upper : x / 2 ^ (7 - i) / 2 ≡ y / 2 ^ (7 - i) / 2 =
      sym (half_power x (7 - i))
      ∙ subst (λ m. x / 2 ^ m ≡ y / 2 ^ m) step shorter
      ∙ half_power y (7 - i) in
    let less = half_digit_lt (x / 2 ^ (7 - i)) (y / 2 ^ (7 - i)) upper h0 h1 in
    let below = (div-lt_iff_lt-mul (two_pow_pos (7 - i))).0 less in
    omega (arith, below, div-mul-le_self y (2 ^ (7 - i)))

digit_zero : (x k : ℕ) → (digit x k == 1) ≡ false → digit x k ≡ 0
digit_zero x k h = ground arith

digit_same : (x y k : ℕ) → (digit x k == 1) ≡ (digit y k == 1) → digit x k ≡ digit y k
digit_same x y k h = ground arith

get_bit_head : (x : ℕ) (xs : Hash) (i : ℕ) → i < 8 → get_bit (x ∷ xs) i ≡ (digit x (7 - i) == 1)
unfolding get_bit
get_bit_head x xs i h =
    let at : i / 8 ≡ 0 = omega arith in let within : i % 8 ≡ i = omega arith in rw (at, within) refl

get_bit_tail : (x : ℕ) (xs : Hash) (i : ℕ) → get_bit (x ∷ xs) (8 + i) ≡ get_bit xs i
unfolding get_bit
get_bit_tail x xs i =
    let at : (8 + i) / 8 ≡ suc (i / 8) = omega arith in
    let within : (8 + i) % 8 ≡ i % 8 = omega arith in rw (at, within) refl

-- At the first bit where two hashes differ, the one that has 0 there is the smaller one.
pub cmp_first_bit :
    (a b : Hash) (i : ℕ)
    → length a ≡ length b
    → All (λ x. x < 256) a
    → All (λ x. x < 256) b
    → ((j : ℕ) → j < i → get_bit a j ≡ get_bit b j)
    → i < 8 * length a
    → get_bit a i ≡ false
    → get_bit b i ≡ true
    → cmp a b ≡ Ordering.lt
unfolding cmp
cmp_first_bit [] b i e va vb agree h h0 h1 = absurd (omega arith)
cmp_first_bit (x ∷ xs) [] i e va vb agree h h0 h1 = absurd (omega arith)
cmp_first_bit (x ∷ xs) (y ∷ ys) i e va vb agree h h0 h1 =
    let head = (λ (j : ℕ) (p : j < i) (q : j < 8).
      digit_same x y (7 - j) (sym (get_bit_head x xs j q) ∙ agree j p ∙ get_bit_head y ys j q)) in
    elim (Bool-cases (ltb i 8)) [
      | inl here ↦
          let small : i < 8 = ltb→lt i 8 here in
          let below =
            first_digit_lt x y i va.0 vb.0 small (λ j p. head j p (omega arith))
              (digit_zero x (7 - i) (sym (get_bit_head x xs i small) ∙ h0))
              ((==_iff _ _).0 (sym (get_bit_head y ys i small) ∙ h1)) in
          ground (arith, below)
      | inr there ↦
          let beyond : 8 ≤ i = ltb-false→le i 8 there in
          let split : i ≡ 8 + (i - 8) = omega arith in
          let prefix = same_prefix x y 8 va.0 vb.0 (omega arith) (λ j p. head j (omega arith) p) in
          let same : x ≡ y = omega (arith, prefix) in
          let ih =
            cmp_first_bit xs ys (i - 8) (omega arith) va.1 vb.1
              (λ j p. sym (get_bit_tail x xs j) ∙ agree (8 + j) (omega arith) ∙ get_bit_tail y ys j)
              (omega arith)
              (sym (get_bit_tail x xs (i - 8)) ∙ subst (λ k. get_bit (x ∷ xs) k ≡ false) split h0)
              (sym (get_bit_tail y ys (i - 8)) ∙ subst (λ k. get_bit (y ∷ ys) k ≡ true) split h1) in
          ground (arith, same, ih)
    ]

-- Of two hashes the smaller one has 0 and the other 1 at the first bit where they differ.
pub cmp_lt_bit :
    (n : ℕ) (a b : Hash)
    → IsHash n a
    → IsHash n b
    → cmp a b ≡ Ordering.lt
    → (common_bits a b < 8 * n)
      × (get_bit a (common_bits a b) ≡ false)
      × (get_bit b (common_bits a b) ≡ true)
cmp_lt_bit n a b va vb h =
    let i : ℕ = common_bits a b in
    let apart : a ≢ b = λ e. ground (arith, h, subst (λ c. cmp a c ≡ Ordering.eq) e (cmp_self a)) in
    let (inside, differ) = common_bits_differ n a b va vb apart in
    let agree = common_bits_agree n a b va vb in
    elim (Bool-cases (get_bit a i)) [
      | inl a_set ↦ elim (Bool-cases (get_bit b i)) [
        | inl b_set ↦ absurd (differ (a_set ∙ sym b_set))
        | inr b_clear ↦
            let above =
              cmp_first_bit b a i (vb.size ∙ sym va.size) vb.bytes va.bytes (λ j p. sym (agree j p))
                (omega (arith, vb.size)) b_clear a_set in
            absurd (ground (arith, above, h, cmp-flip a b))
      ]
      | inr a_clear ↦ elim (Bool-cases (get_bit b i)) [
        | inl b_set ↦ (inside, a_clear, b_set)
        | inr b_clear ↦ absurd (differ (a_clear ∙ sym b_clear))
      ]
    ]
