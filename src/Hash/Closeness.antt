-- ===== src/Hash/Closeness.antt =====
-- commonBits and xorCmp agree: an id that has more bits in common is closer.
use opendht.Prelude.{
  ℕ, ◌+◌, ◌*◌, ◌<◌, ◌≡◌, refl, sym, ◌∙◌, true, false, [], ◌∷◌, arith, Ordering, bit_xor, ltb, ◌==◌,
  if◌then◌else◌, length, Bool-cases, inl, inr, zero, suc, ◌≤◌, ◌%◌, All,
}
use opendht.Prelude.Bits.{bit_xor-lt, bit_xor_cancel, bit_xor_self}
use opendht.Prelude.Bytes.{every_below, every_below_at}
use opendht.Hash.{Hash, IsHash, common_bits, common_bytes, leading_zeros, xor_cmp}

more_zeros_table :
    every_below 256 (λ x.
      every_below 256 (λ y. if ltb (leading_zeros 8 y) (leading_zeros 8 x) then ltb x y else true))
    ≡ true
unfolding every_below leading_zeros
more_zeros_table = refl

more_zeros : (x y : ℕ) → x < 256 → y < 256 → leading_zeros 8 y < leading_zeros 8 x → x < y
more_zeros x y hx hy h = ground (
  arith,
  every_below_at 256 (λ y. if ltb (leading_zeros 8 y) (leading_zeros 8 x) then ltb x y else true) y
      (every_below_at 256
        (λ x.
          every_below 256
            (λ y. if ltb (leading_zeros 8 y) (leading_zeros 8 x) then ltb x y else true))
        x more_zeros_table hx)
      hy,
)

common_bytes_same :
    (x y : ℕ) (xs ys : Hash)
    → (x == y) ≡ true
    → common_bytes (x ∷ xs) (y ∷ ys) ≡ suc (common_bytes xs ys)
unfolding common_bytes
common_bytes_same x y xs ys e = ground arith

common_bytes_apart :
    (x y : ℕ) (xs ys : Hash) → (x == y) ≡ false → common_bytes (x ∷ xs) (y ∷ ys) ≡ 0
unfolding common_bytes
common_bytes_apart x y xs ys e = ground arith

suc-== : (a b : ℕ) → (suc a == suc b) ≡ (a == b)
suc-== a b = ground arith

common_bits-cons :
    (x y : ℕ) (xs ys : Hash)
    → common_bits (x ∷ xs) (y ∷ ys)
      ≡ (if x == y then 8 + common_bits xs ys else leading_zeros 8 (bit_xor x y))
unfolding common_bits
common_bits-cons x y xs ys = elim (Bool-cases (x == y)) [
  | inl e ↦
      rw (e, common_bytes_same x y xs ys e)
        (elim (Bool-cases (common_bytes xs ys == length xs)) [
          | inl full ↦ rw (full, suc-== (common_bytes xs ys) (length xs) ∙ full) (omega arith)
          | inr part ↦ rw (part, suc-== (common_bytes xs ys) (length xs) ∙ part) (omega arith)
        ])
  | inr e ↦ rw (e, common_bytes_apart x y xs ys e) (ground arith)
]

leading_zeros-le : (fuel x : ℕ) → leading_zeros fuel x ≤ fuel
unfolding leading_zeros
leading_zeros-le zero x = omega arith
leading_zeros-le (suc fuel) x = ground (arith, leading_zeros-le fuel (x * 2 % 256))

xor-zero : (x y : ℕ) → bit_xor x y ≡ 0 → x ≡ y
xor-zero x y h = bit_xor_cancel x y y (h ∙ sym (bit_xor_self y y (omega arith)))

by_bytes :
    (s a b : Hash)
    → length a ≡ length s
    → length b ≡ length s
    → All (λ x. x < 256) s
    → All (λ x. x < 256) a
    → All (λ x. x < 256) b
    → common_bits b s < common_bits a s
    → xor_cmp s a b ≡ Ordering.lt
unfolding xor_cmp
by_bytes [] [] [] e f vs va vb h = absurd (omega arith)
by_bytes [] [] (y ∷ ys) e f vs va vb h = absurd (omega arith)
by_bytes [] (x ∷ xs) b e f vs va vb h = absurd (omega arith)
by_bytes (s ∷ ss) [] b e f vs va vb h = absurd (omega arith)
by_bytes (s ∷ ss) (x ∷ xs) [] e f vs va vb h = absurd (omega arith)
by_bytes (s ∷ ss) (x ∷ xs) (y ∷ ys) e f vs va vb h = ground (
  arith,
  common_bits-cons x s xs ss,
  common_bits-cons y s ys ss,
  by_bytes ss xs ys,
  leading_zeros-le 8 (bit_xor x s),
  bit_xor_self s s (omega arith),
  xor-zero y s,
  more_zeros (bit_xor x s) (bit_xor y s) (bit_xor-lt 8 x s va.0 vs.0) (bit_xor-lt 8 y s vb.0 vs.0),
)

-- An id that has more bits in common with `s` than another is the closer one to `s`.
pub xor_cmp-common_bits :
    (n : ℕ) (s a b : Hash)
    → IsHash n s
    → IsHash n a
    → IsHash n b
    → common_bits b s < common_bits a s
    → xor_cmp s a b ≡ Ordering.lt
xor_cmp-common_bits n s a b vs va vb h =
    by_bytes s a b (va.size ∙ sym vs.size) (vb.size ∙ sym vs.size) vs.bytes va.bytes vb.bytes h
