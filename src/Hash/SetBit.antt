-- ===== src/Hash/SetBit.antt =====
-- setBit and getBit of `Hash<N>`.
use opendht.Prelude.{
  ℕ, ◌-◌, ◌*◌, ◌/◌, ◌%◌, ◌<◌, ◌≡◌, ◌≢◌, refl, ◌∙◌, Bool, true, false, ◌&&◌, arith, ltb, ◌==◌,
  if◌then◌else◌, length, get_or, inl, inr, Bool-cases, length-set, get_or-set_self, get_or-set_ne,
  All-set, ==_iff, ltb→lt,
}
use opendht.Prelude.Bits.{digit}
use opendht.Prelude.Bytes.{every_below, every_below_at}
use opendht.Hash.{Hash, IsHash, get_bit, set_bit, set_bit_byte}
use opendht.Hash.Bits.{byte_at}

-- `set_bit_byte` gives digit `bit` the value, and leaves the seven others.
writes : Bool → ℕ → ℕ → ℕ → Bool
writes b num bit k =
    digit (set_bit_byte num bit b) k == (if k == bit then if b then 1 else 0 else digit num k)

writes_all : Bool → ℕ → Bool
writes_all b num =
    ltb (set_bit_byte num 0 b) 256
    && every_below 8 (λ bit. ltb (set_bit_byte num bit b) 256 && every_below 8 (writes b num bit))

writes_table : (b : Bool) → every_below 256 (writes_all b) ≡ true
unfolding every_below writes_all writes set_bit_byte
writes_table true = refl
writes_table false = refl

&&-parts : (a b : Bool) → (a && b) ≡ true → (a ≡ true) × (b ≡ true)
&&-parts a b h = ground arith

module _ (b : Bool) (num bit : ℕ) (small : num < 256) (in_byte : bit < 8) where
  at_bit : (ltb (set_bit_byte num bit b) 256 && every_below 8 (writes b num bit)) ≡ true
  unfolding writes_all
  at_bit =
      every_below_at 8 (λ i. ltb (set_bit_byte num i b) 256 && every_below 8 (writes b num i)) bit
        (&&-parts _ _ (every_below_at 256 (writes_all b) num (writes_table b) small)).1 in_byte

  set_bit_byte-lt : set_bit_byte num bit b < 256
  set_bit_byte-lt =
      ltb→lt _ _
        (&&-parts (ltb (set_bit_byte num bit b) 256) (every_below 8 (writes b num bit)) at_bit).0

  digit-set_bit_byte :
      (k : ℕ)
      → k < 8
      → digit (set_bit_byte num bit b) k ≡ (if k == bit then if b then 1 else 0 else digit num k)
  unfolding writes
  digit-set_bit_byte k h =
      (==_iff _ _).0 (every_below_at 8 (writes b num bit) k (&&-parts _ _ at_bit).1 h)

module _ (n : ℕ) (h : Hash) (nbit : ℕ) (b : Bool) (v : IsHash n h) (inside : nbit < 8 * n) where
  -- `setBit` yields a hash of the same size.
  pub set_bit-IsHash : IsHash n (set_bit h nbit b)
  unfolding set_bit
  set_bit-IsHash = record {
    size = length-set h (nbit / 8) _ ∙ v.size;
    bytes =
        All-set (λ x. x < 256) h (nbit / 8) _
          (set_bit_byte-lt b (get_or h (nbit / 8) 0) (7 - nbit % 8) (byte_at h n (nbit / 8) v)
            (omega arith))
          v.bytes;
  }

  -- After `setBit(i, b)` bit i is `b`, and every other bit is as it was.
  pub get_bit-set_bit :
      (j : ℕ) → get_bit (set_bit h nbit b) j ≡ (if j == nbit then b else get_bit h j)
  unfolding set_bit get_bit
  get_bit-set_bit j = elim (Bool-cases (j / 8 == nbit / 8)) [
    | inl here ↦
        let same : j / 8 ≡ nbit / 8 = (==_iff _ _).0 here in
        let room : nbit / 8 < length h = omega (arith, v.size) in
        rw
          (
            same,
            get_or-set_self h (nbit / 8) (set_bit_byte (get_or h (nbit / 8) 0) (7 - nbit % 8) b) 0
                room,
          )
          (ground (
            arith,
            digit-set_bit_byte b (get_or h (nbit / 8) 0) (7 - nbit % 8) (byte_at h n (nbit / 8) v)
                (omega arith) (7 - j % 8) (omega arith),
          ))
    | inr there ↦
        let other : nbit / 8 ≢ j / 8 = λ e. ground (arith, there) in
        rw
          (get_or-set_ne h (nbit / 8) (j / 8)
            (set_bit_byte (get_or h (nbit / 8) 0) (7 - nbit % 8) b) 0 other)
          (ground arith)
  ]
