-- ===== src/Hash/Tests.antt =====
-- Hashes of two bytes.
use opendht.Prelude.{◌≡◌, ◌≢◌, ◌++◌, refl, [], ◌∷◌, arith, Ordering, ap, get_or}
use opendht.Prelude.Int.{pos}
use opendht.Hash.{Hash, IsHash, xor_cmp, cmp, xor_hash, common_bits, lowbit}
use opendht.Hash.Order.{xor_cmp-cmp, xor_cmp_eq}
use opendht.Hash.Closeness.{xor_cmp-common_bits}
use opendht.Hash.Hex.{from_string, to_hex, from_string-to_hex}

abbrev here : Hash
here = 0xab ∷ 0x50 ∷ []

abbrev near : Hash
near = 0xab ∷ 0x54 ∷ []

abbrev far : Hash
far = 0xa0 ∷ 0x50 ∷ []

abbrev farther : Hash
farther = 0x2b ∷ 0x50 ∷ []

here-IsHash : IsHash 2 here
here-IsHash = record { size = refl; bytes = omega arith }

near-IsHash : IsHash 2 near
near-IsHash = record { size = refl; bytes = omega arith }

far-IsHash : IsHash 2 far
far-IsHash = record { size = refl; bytes = omega arith }

common_bits-here-near : common_bits here near ≡ 13
unfolding common_bits
common_bits-here-near = refl

lowbit-here : lowbit here ≡ pos 11
unfolding lowbit
lowbit-here = refl

xor_cmp-cmp_example : xor_cmp here near far ≡ cmp (xor_hash near here) (xor_hash far here)
xor_cmp-cmp_example = xor_cmp-cmp here near far refl refl

xor_cmp_eq_example : near ≡ near
unfolding xor_cmp
xor_cmp_eq_example = xor_cmp_eq here near near refl refl refl

xor_cmp-common_bits_example : xor_cmp here near far ≡ Ordering.lt
unfolding common_bits
xor_cmp-common_bits_example =
    xor_cmp-common_bits 2 here near far here-IsHash near-IsHash far-IsHash (omega arith)

here_ne_near : here ≢ near
here_ne_near e = omega (arith, ap (λ (h : Hash). get_or h 1 0) e)

from_string-to_hex_example : from_string 2 (to_hex here ++ b'z' ∷ []) ≡ here
from_string-to_hex_example = from_string-to_hex 2 here (b'z' ∷ []) here-IsHash

reads_ab50 : from_string 2 (b'A' ∷ b'b' ∷ b'5' ∷ b'0' ∷ []) ≡ here
unfolding from_string
reads_ab50 = refl

refuses_text : from_string 2 (b'A' ∷ b'b' ∷ b'5' ∷ b'g' ∷ []) ≡ 0 ∷ 0 ∷ []
unfolding from_string
refuses_text = refl
