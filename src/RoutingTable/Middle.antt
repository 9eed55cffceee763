-- ===== src/RoutingTable/Middle.antt =====
-- The middle of a bucket's range.
use opendht.Prelude.{
  ℕ, suc, ◌+◌, ◌-◌, ◌*◌, ◌<◌, ◌≤◌, ◌≡◌, ◌∙◌, sym, subst, true, false, List, ◌∷◌, some, inl, inr,
  arith, Ordering, Bool-cases, length, ltb, ltb→lt, ltb-false→le,
}
use opendht.Prelude.Int.{ℤ, pos, negsuc, suc_max}
use opendht.Hash.{Hash, IsHash, cmp, get_bit, set_bit, lowbit, common_bits}
use opendht.Hash.Bits.{common_bits_agree}
use opendht.Hash.CmpBits.{cmp_first_bit, cmp_lt_bit}
use opendht.Hash.Lowbit.{IsLowbit, lowbit-IsLowbit}
use opendht.Hash.SetBit.{set_bit-IsHash, get_bit-set_bit}
use opendht.RoutingTable.{Bucket, Place, depth, middle, next_lowbit}

-- From the depth on, no bit of the two ids is set.
clear_from :
    (n : ℕ) (h : Hash) (z : ℤ) (i : ℕ)
    → IsLowbit n h z
    → suc_max z (negsuc 0) ≤ i
    → get_bit h i ≡ false
clear_from n h (negsuc k) i low p = low.1 i
clear_from n h (pos k) i low p =
    let back : suc (k + (i - suc k)) ≡ i = omega (arith, p) in
    subst (λ j. get_bit h j ≡ false) back (low.2 (i - suc k))

suc_max_left : (y z : ℤ) → suc_max y (negsuc 0) ≤ suc_max y z
suc_max_left (pos a) (pos b) = omega arith
suc_max_left (pos a) (negsuc b) = omega arith
suc_max_left (negsuc a) (pos b) = omega arith
suc_max_left (negsuc a) (negsuc b) = omega arith

suc_max_right : (y z : ℤ) → suc_max z (negsuc 0) ≤ suc_max y z
suc_max_right (pos a) (pos b) = omega arith
suc_max_right (pos a) (negsuc b) = omega arith
suc_max_right (negsuc a) (pos b) = omega arith
suc_max_right (negsuc a) (negsuc b) = omega arith

middle-some :
    (p : Place) (m : Hash)
    → middle p ≡ some m
    → (depth p < 8 * length p.bucket.first) × (m ≡ set_bit p.bucket.first (depth p) true)
unfolding middle
middle-some p m e = ground (arith, e)

-- The middle is a hash above the first id of the bucket.
pub middle_above :
    (n : ℕ) (p : Place) (m : Hash)
    → IsHash n p.bucket.first
    → middle p ≡ some m
    → IsHash n m × (cmp p.bucket.first m ≡ Ordering.lt)
unfolding depth
middle_above n p m v e =
    let first : Hash = p.bucket.first in
    let d : ℕ = depth p in
    let (inside, made) = middle-some p m e in
    let room : d < 8 * n = omega (arith, inside, v.size) in
    let vm = set_bit-IsHash n first d true v room in
    let reads = get_bit-set_bit n first d true v room in
    let clear =
      clear_from n first (lowbit first) d (lowbit-IsLowbit n first v) (suc_max_left _ _) in
    (
      subst (IsHash n) (sym made) vm,
      subst (λ h. cmp first h ≡ Ordering.lt) (sym made)
          (cmp_first_bit first (set_bit first d true) d (v.size ∙ sym vm.size) v.bytes vm.bytes
            (λ j q. ground (arith, reads j)) inside clear (ground (arith, reads d))),
    )

-- The middle is below the first id of the next bucket.
pub middle_below :
    (n : ℕ) (p : Place) (m : Hash) (next : Bucket) (rest : List Bucket)
    → IsHash n p.bucket.first
    → IsHash n next.first
    → p.after ≡ next ∷ rest
    → cmp p.bucket.first next.first ≡ Ordering.lt
    → middle p ≡ some m
    → cmp m next.first ≡ Ordering.lt
unfolding depth next_lowbit
middle_below n p m next rest v w e below em =
    let first : Hash = p.bucket.first in
    let d : ℕ = depth p in
    let (inside, made) = middle-some p m em in
    let room : d < 8 * n = omega (arith, inside, v.size) in
    let vm = set_bit-IsHash n first d true v room in
    let reads = get_bit-set_bit n first d true v room in
    let i : ℕ = common_bits first next.first in
    let (small, clear, set) = cmp_lt_bit n first next.first v w below in
    let agree = common_bits_agree n first next.first v w in
    let deep : suc_max (lowbit next.first) (negsuc 0) ≤ d =
      rw e (suc_max_right (lowbit first) (lowbit next.first)) in
    let before : i < d = elim (Bool-cases (ltb i d)) [
      | inl e ↦ ltb→lt i d e
      | inr e ↦
          let clear_next =
            clear_from n next.first (lowbit next.first) i (lowbit-IsLowbit n next.first w)
              (omega (arith, deep, ltb-false→le i d e)) in
          absurd (ground (arith, set, clear_next))
    ] in
    subst (λ h. cmp h next.first ≡ Ordering.lt) (sym made)
      (cmp_first_bit (set_bit first d true) next.first i (vm.size ∙ sym w.size) vm.bytes w.bytes
        (λ j q. ground (arith, reads j, agree j q)) (omega (arith, vm.size))
        (ground (arith, reads i)) set)
