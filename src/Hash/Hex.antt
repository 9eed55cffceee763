-- ===== src/Hash/Hex.antt =====
-- Hexadecimal text of `Hash<N>`: fromString, toString and HexMap. A text is the list of its character
-- codes.
use opendht.Prelude.{
  ℕ, zero, suc, ◌+◌, ◌-◌, ◌*◌, ◌/◌, ◌%◌, ◌<◌, ◌≡◌, refl, Bool, true, false, ◌&&◌, List, [], ◌∷◌,
  arith, ltb, leb, if◌then◌else◌, length, replicate, All, ◌++◌, length-append,
}
use opendht.Hash.{Hash, IsHash, zero_hash}

-- hex2bin: the value of a digit, and the flag `valid` after the call.
unfoldable pub hex2bin : ℕ → Bool → ℕ × Bool
hex2bin c valid =
    if leb b'a' c && leb c b'f'
    then (10 + c - b'a', valid)
    else if leb b'A' c && leb c b'F'
    then (10 + c - b'A', valid)
    else if leb b'0' c && leb c b'9'
    then (c - b'0', valid)
    else (0, false)

-- The loop of `fromString` over the bytes that are left: the rest of `data`, and the flag. The loop
-- ends when the flag falls, and the bytes not reached stay 0.
unfoldable pub hex_loop : ℕ → List ℕ → Bool → List ℕ × Bool
hex_loop zero text valid = ([], valid)
hex_loop (suc k) (c ∷ d ∷ text) true =
    let (high, v1) = hex2bin c true in
    let (low, v2) = hex2bin d v1 in
    let (rest, v3) = hex_loop k text v2 in ((high * 16 + low) ∷ rest, v3)
hex_loop (suc k) text valid = (replicate (suc k) 0, valid)

unfoldable pub from_string : ℕ → List ℕ → Hash
unfolding hex_loop hex2bin
from_string n text =
    if ltb (length text) (2 * n)
    then zero_hash n
    else let (bytes, valid) = hex_loop n text true in if valid then bytes else zero_hash n

-- HexMap's `hex_digits`
unfoldable pub hex_digit : ℕ → ℕ
hex_digit d = if ltb d 10 then b'0' + d else b'a' + (d - 10)

-- toString, to_c_str, toHexArray
unfoldable pub to_hex : Hash → List ℕ
unfolding hex_digit
to_hex [] = []
to_hex (x ∷ xs) = hex_digit (x / 16 % 16) ∷ hex_digit (x % 16) ∷ to_hex xs

hex2bin-hex_digit : (d : ℕ) → d < 16 → hex2bin (hex_digit d) true ≡ (d, true)
unfolding hex2bin hex_digit
hex2bin-hex_digit d h = ground arith

length-to_hex : (h : Hash) → length (to_hex h) ≡ 2 * length h
unfolding to_hex
length-to_hex [] = omega arith
length-to_hex (x ∷ xs) = omega (arith, length-to_hex xs)

hex_loop-to_hex :
    (h : Hash) (rest : List ℕ)
    → All (λ x. x < 256) h
    → hex_loop (length h) (to_hex h ++ rest) true ≡ (h, true)
unfolding hex_loop to_hex
hex_loop-to_hex [] rest v = refl
hex_loop-to_hex (x ∷ xs) rest v =
    rw
      (
        hex2bin-hex_digit (x / 16 % 16) (omega arith),
        hex2bin-hex_digit (x % 16) (omega arith),
        hex_loop-to_hex xs rest v.1,
      )
      (ground arith)

-- The text of a hash is read back as the hash, also when more text follows.
pub from_string-to_hex :
    (n : ℕ) (h : Hash) (rest : List ℕ) → IsHash n h → from_string n (to_hex h ++ rest) ≡ h
unfolding from_string
from_string-to_hex n h rest v = rw (← v.size) (
    rw (hex_loop-to_hex h rest v.bytes)
      (ground (arith, length-append (to_hex h) rest, length-to_hex h)))
