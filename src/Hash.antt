-- ===== src/Hash.antt =====
-- include/opendht/infohash.h: `Hash<N>`, an array of N bytes that names nodes and values. A hash is
-- the list of its bytes, and N is its length. An `int` result of which callers read the sign is an
-- `Ordering`: `lt` below 0, `eq` at 0, `gt` above.
pub mod Order
pub mod Bits
pub mod Lowbit
pub mod Hex
pub mod SetBit
pub mod CmpBits
pub mod Closeness
mod Tests
use opendht.Prelude.{
  ℕ, zero, suc, ◌+◌, ◌-◌, ◌*◌, ◌/◌, ◌%◌, ◌^◌, ◌<◌, ◌≡◌, Bool, true, false, not, ◌||◌, List, [], ◌∷◌,
  Option, none, some, compare, Ordering, bit_and, bit_xor, ltb, ◌==◌, if◌then◌else◌, length, get_or,
  set, take, replicate, All,
}
use opendht.Prelude.Bits.{digit}
use opendht.Prelude.Int.{ℤ, negsuc, sub_ℕ}

abbrev pub Hash : Type 0
Hash = List ℕ

-- `Hash<N>` is an array of N bytes.
pub record IsHash (n : ℕ) (h : Hash) : Type 0 where
  pub size : length h ≡ n
  pub bytes : All (λ x. x < 256) h

-- Hash::zero, Hash()
abbrev pub zero_hash : ℕ → Hash
zero_hash n = replicate n 0

-- operator==
unfoldable pub equal : Hash → Hash → Bool
equal (x ∷ xs) (y ∷ ys) = elim (x == y) [ true ↦ equal xs ys | false ↦ false ]
equal _ _ = true

-- operator<
unfoldable pub less : Hash → Hash → Bool
less (x ∷ xs) (y ∷ ys) = elim (x == y) [ true ↦ less xs ys | false ↦ ltb x y ]
less _ _ = false

-- operator^
unfoldable pub xor_hash : Hash → Hash → Hash
xor_hash (x ∷ xs) (y ∷ ys) = bit_xor x y ∷ xor_hash xs ys
xor_hash _ _ = []

-- operator bool
unfoldable pub nonzero : Hash → Bool
nonzero [] = false
nonzero (x ∷ xs) = elim (x == 0) [ true ↦ nonzero xs | false ↦ true ]

-- The first loop of `lowbit`, from byte i - 1 down: the last byte that is not 0.
unfoldable pub last_nonzero : Hash → ℕ → Option ℕ
last_nonzero h zero = none
last_nonzero h (suc i) = elim (get_or h i 0 == 0) [ true ↦ last_nonzero h i | false ↦ some i ]

-- The second loop of `lowbit`, from j - 1 down; `0x80 >> j` selects the digit of 2 ^ (7 - j).
unfoldable pub last_digit : ℕ → ℕ → Option ℕ
last_digit x zero = none
last_digit x (suc j) = elim (digit x (7 - j) == 0) [ true ↦ last_digit x j | false ↦ some j ]

unfoldable pub lowbit : Hash → ℤ
unfolding last_nonzero last_digit
lowbit h = elim (last_nonzero h (length h)) [
  | none ↦ negsuc 0
  | some i ↦ elim (last_digit (get_or h i 0) 8) [
    | none ↦ sub_ℕ (8 * i) 1
    | some j ↦ sub_ℕ (8 * i + j) 0
  ]
]

-- cmp: memcmp.
unfoldable pub cmp : Hash → Hash → Ordering
cmp (x ∷ xs) (y ∷ ys) = elim (compare x y) [
  | Ordering.lt ↦ Ordering.lt
  | Ordering.eq ↦ cmp xs ys
  | Ordering.gt ↦ Ordering.gt
]
cmp _ _ = Ordering.eq

-- The first loop of `commonBits`.
unfoldable pub common_bytes : Hash → Hash → ℕ
common_bytes (x ∷ xs) (y ∷ ys) = elim (x == y) [ true ↦ suc (common_bytes xs ys) | false ↦ 0 ]
common_bytes _ _ = 0

-- `while ((x & 0x80) == 0) { x <<= 1; j++; }` on a byte, with fuel.
unfoldable pub leading_zeros : ℕ → ℕ → ℕ
leading_zeros zero x = 0
leading_zeros (suc fuel) x = elim (digit x 7 == 0) [
  | true ↦ suc (leading_zeros fuel (x * 2 % 256))
  | false ↦ 0
]

unfoldable pub common_bits : Hash → Hash → ℕ
unfolding common_bytes leading_zeros
common_bits id1 id2 =
    let i = common_bytes id1 id2 in
    let x = bit_xor (get_or id1 i 0) (get_or id2 i 0) in
    if i == length id1 then 8 * length id1 else 8 * i + leading_zeros 8 x

-- xorCmp: which of id1 and id2 is closer to `self`.
unfoldable pub xor_cmp : Hash → Hash → Hash → Ordering
xor_cmp (s ∷ ss) (x ∷ xs) (y ∷ ys) = elim (x == y) [
  | true ↦ xor_cmp ss xs ys
  | false ↦ if ltb (bit_xor x s) (bit_xor y s) then Ordering.lt else Ordering.gt
]
xor_cmp _ _ _ = Ordering.eq

unfoldable pub get_bit : Hash → ℕ → Bool
get_bit h nbit = digit (get_or h (nbit / 8) 0) (7 - nbit % 8) == 1

-- `num ^= (-b ^ num) & (1 << bit)`: `-b` has all digits set or none.
unfoldable pub set_bit_byte : ℕ → ℕ → Bool → ℕ
set_bit_byte num bit b = bit_xor num (bit_and (bit_xor (if b then 255 else 0) num) (2 ^ bit))

unfoldable pub set_bit : Hash → ℕ → Bool → Hash
unfolding set_bit_byte
set_bit h nbit b = set h (nbit / 8) (set_bit_byte (get_or h (nbit / 8) 0) (7 - nbit % 8) b)

unfoldable pub from_bytes : ℕ → List ℕ → Hash
from_bytes n bytes = if ltb (length bytes) n then zero_hash n else take n bytes
