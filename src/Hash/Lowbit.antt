-- ===== src/Hash/Lowbit.antt =====
-- lowbit of `Hash<N>`: the lowest bit that is set.
use opendht.Prelude.{
  ℕ, zero, suc, ◌+◌, ◌-◌, ◌*◌, ◌/◌, ◌%◌, ◌<◌, ◌≤◌, ◌≡◌, ◌≢◌, refl, sym, Bool, true, false, ◌&&◌,
  ◌||◌, arith, ltb, ◌==◌, if◌then◌else◌, length, get_or, inl, inr, Bool-cases, Option-cases, none,
  some, ==_iff, ltb→lt, subst, [], ◌∷◌,
}
use opendht.Prelude.Int.{ℤ, pos, negsuc}
use opendht.Prelude.Bits.{digit}
use opendht.Prelude.Bytes.{every_below, every_below_at}
use opendht.Hash.{Hash, IsHash, get_bit, last_nonzero, last_digit, lowbit}
use opendht.Hash.Bits.{byte_at}

-- `last_nonzero h n` finds the last byte below n that is not 0.
last_nonzero-none : (h : Hash) (n i : ℕ) → last_nonzero h n ≡ none → i < n → get_or h i 0 ≡ 0
unfolding last_nonzero
last_nonzero-none h zero i e lt = absurd (omega arith)
last_nonzero-none h (suc n) i e lt = elim (Bool-cases (i == n)) [
  | inl here ↦ rw ((==_iff i n).0 here) (ground arith)
  | inr there ↦ last_nonzero-none h n i (ground arith) (ground arith)
]

last_nonzero-some : (h : Hash) (n k : ℕ) → last_nonzero h n ≡ some k → (k < n) × (get_or h k 0 ≢ 0)
unfolding last_nonzero
last_nonzero-some h zero k e = cc
last_nonzero-some h (suc n) k e = ground (arith, last_nonzero-some h n k)

last_nonzero_above :
    (h : Hash) (n k i : ℕ) → last_nonzero h n ≡ some k → k < i → i < n → get_or h i 0 ≡ 0
unfolding last_nonzero
last_nonzero_above h zero k i e p q = cc
last_nonzero_above h (suc n) k i e p q = elim (Bool-cases (get_or h n 0 == 0)) [
  | inl z ↦ elim (Bool-cases (i == n)) [
    | inl here ↦ rw ((==_iff i n).0 here) (ground arith)
    | inr there ↦ last_nonzero_above h n k i (ground arith) p (ground arith)
  ]
  | inr nz ↦ absurd (ground arith)
]

-- The lowest digit that is set, at place 7 - j, has j for its number.
finds_digit : ℕ → Bool
finds_digit x = x == 0 || (elim (last_digit x 8) [
  | none ↦ false
  | some j ↦
      ltb j 8
      && (digit x (7 - j) == 1
          && every_below 8 (λ k. if ltb j k then digit x (7 - k) == 0 else true))
])

finds_digit_table : every_below 256 finds_digit ≡ true
unfolding every_below finds_digit last_digit
finds_digit_table = refl

last_digit-none : (x : ℕ) → x < 256 → last_digit x 8 ≡ none → x ≡ 0
unfolding finds_digit
last_digit-none x h e = ground (arith, every_below_at 256 finds_digit x finds_digit_table h)

last_digit-some :
    (x j : ℕ) → x < 256 → x ≢ 0 → last_digit x 8 ≡ some j → (j < 8) × (digit x (7 - j) ≡ 1)
unfolding finds_digit
last_digit-some x j h nz e = ground (arith, every_below_at 256 finds_digit x finds_digit_table h)

last_digit_above :
    (x j k : ℕ) → x < 256 → x ≢ 0 → last_digit x 8 ≡ some j → j < k → k < 8 → digit x (7 - k) ≡ 0
unfolding finds_digit
last_digit_above x j k h nz e p q =
    let found : every_below 8 (λ k. if ltb j k then digit x (7 - k) == 0 else true) ≡ true =
      ground (arith, every_below_at 256 finds_digit x finds_digit_table h) in
    ground (arith, every_below_at 8 (λ k. if ltb j k then digit x (7 - k) == 0 else true) k found)

-- Either the hash is zero and `lowbit` is -1, or `lowbit` is the number of its last bit that is set.
abbrev pub IsLowbit : ℕ → Hash → ℤ → Type 0
IsLowbit n h (negsuc k) = (k ≡ 0) × ((i : ℕ) → get_bit h i ≡ false)
IsLowbit n h (pos k) =
    (k < 8 * n) × (get_bit h k ≡ true) × ((i : ℕ) → get_bit h (suc (k + i)) ≡ false)

get_or_beyond : (h : Hash) (i : ℕ) → length h ≤ i → get_or h i 0 ≡ 0
get_or_beyond [] i p = refl
get_or_beyond (x ∷ xs) zero p = absurd (omega arith)
get_or_beyond (x ∷ xs) (suc i) p = get_or_beyond xs i (omega arith)

get_bit_clear : (h : Hash) (i : ℕ) → get_or h (i / 8) 0 ≡ 0 → get_bit h i ≡ false
unfolding get_bit
get_bit_clear h i e = rw e (ground arith)

get_bit_of :
    (h : Hash) (i d : ℕ) → digit (get_or h (i / 8) 0) (7 - i % 8) ≡ d → get_bit h i ≡ (d == 1)
unfolding get_bit
get_bit_of h i d e = rw e

module _ (n : ℕ) (h : Hash) (v : IsHash n h) where
  clear : last_nonzero h (length h) ≡ none → (i : ℕ) → get_bit h i ≡ false
  clear e i = get_bit_clear h i (elim (Bool-cases (ltb (i / 8) (length h))) [
    | inl inside ↦ last_nonzero-none h (length h) (i / 8) e (ltb→lt _ _ inside)
    | inr beyond ↦ get_or_beyond h (i / 8) (ground arith)
  ])

  module _ (q j : ℕ) (eq : last_nonzero h (length h) ≡ some q)
      (ej : last_digit (get_or h q 0) 8 ≡ some j) where
    found : (8 * q + j < 8 * n) × (get_bit h (8 * q + j) ≡ true)
    found =
        let last = last_nonzero-some h (length h) q eq in
        let low = last_digit-some (get_or h q 0) j (byte_at h n q v) last.1 ej in
        let at : (8 * q + j) / 8 ≡ q = omega arith in
        let in_byte : (8 * q + j) % 8 ≡ j = omega arith in
        (omega (arith, v.size), get_bit_of h (8 * q + j) 1 (rw (at, in_byte) low.1))

    above : (i : ℕ) → get_bit h (suc (8 * q + j + i)) ≡ false
    above i = elim (Bool-cases (suc (8 * q + j + i) / 8 == q)) [
      | inl same ↦
          let last = last_nonzero-some h (length h) q eq in
          let low = last_digit-some (get_or h q 0) j (byte_at h n q v) last.1 ej in
          let at : suc (8 * q + j + i) / 8 ≡ q = (==_iff _ _).0 same in
          get_bit_of h (suc (8 * q + j + i)) 0 (
            rw at (
              last_digit_above (get_or h q 0) j (suc (8 * q + j + i) % 8) (byte_at h n q v) last.1
                ej (omega arith) (omega arith)))
      | inr later ↦
          let last = last_nonzero-some h (length h) q eq in
          let low = last_digit-some (get_or h q 0) j (byte_at h n q v) last.1 ej in
          let apart : suc (8 * q + j + i) / 8 ≢ q = λ e. ground (arith, later) in
          get_bit_clear h (suc (8 * q + j + i))
            (elim (Bool-cases (ltb (suc (8 * q + j + i) / 8) (length h))) [
              | inl inside ↦
                  last_nonzero_above h (length h) q (suc (8 * q + j + i) / 8) eq (omega arith)
                    (ltb→lt _ _ inside)
              | inr beyond ↦ get_or_beyond h (suc (8 * q + j + i) / 8) (ground arith)
            ])
    ]

lowbit-none : (h : Hash) → last_nonzero h (length h) ≡ none → lowbit h ≡ negsuc 0
unfolding lowbit
lowbit-none h e = rw (e, lowbit)

lowbit-some :
    (h : Hash) (q j : ℕ)
    → last_nonzero h (length h) ≡ some q
    → last_digit (get_or h q 0) 8 ≡ some j
    → lowbit h ≡ pos (8 * q + j)
unfolding lowbit
lowbit-some h q j e f = rw (e, lowbit) (rw (f, lowbit) (ground arith))

-- `lowbit` is -1 only if no bit of the hash is set, and else it is the number of a bit that is set,
-- below 8 * N, such that no bit of a greater number is set.
pub lowbit-IsLowbit : (n : ℕ) (h : Hash) → IsHash n h → IsLowbit n h (lowbit h)
lowbit-IsLowbit n h v = elim (Option-cases (last_nonzero h (length h))) [
  | inl e ↦ subst (IsLowbit n h) (sym (lowbit-none h e)) (refl, clear n h v e)
  | inr (q, e) ↦ elim (Option-cases (last_digit (get_or h q 0) 8)) [
    | inl none_set ↦ absurd (
        (last_nonzero-some h (length h) q e).1
          (last_digit-none (get_or h q 0) (byte_at h n q v) none_set))
    | inr (j, ej) ↦
        subst (IsLowbit n h) (sym (lowbit-some h q j e ej))
          ((found n h v q j e ej).0, (found n h v q j e ej).1, above n h v q j e ej)
  ]
]
