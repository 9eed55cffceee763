-- ===== src/Hash/Order.antt =====
-- The orders of `Hash<N>`: operator==, operator<, cmp and xorCmp.
use opendht.Prelude.{
  suc, ◌≡◌, refl, sym, ap, ◌∙◌, ◌↔◌, true, false, [], ◌∷◌, arith, Ordering, length,
}
use opendht.Prelude.Bits.{bit_xor_cancel}
use opendht.Hash.{Hash, equal, less, xor_hash, cmp, xor_cmp}

-- What a comparison says once its sides are exchanged.
abbrev pub flip : Ordering → Ordering
flip Ordering.lt = Ordering.gt
flip Ordering.eq = Ordering.eq
flip Ordering.gt = Ordering.lt

-- On hashes of one size `==` holds exactly of equal hashes.
pub equal_iff : (a b : Hash) → length a ≡ length b → (equal a b ≡ true) ↔ (a ≡ b)
unfolding equal
equal_iff [] [] e = (λ h. refl, λ h. refl)
equal_iff [] (y ∷ ys) e = absurd (omega arith)
equal_iff (x ∷ xs) [] e = absurd (omega arith)
equal_iff (x ∷ xs) (y ∷ ys) e =
    let ih = equal_iff xs ys (omega arith) in (λ h. ground (arith, ih.0), λ h. ground (arith, ih.1))

-- `<` says what `cmp` says by a negative result.
pub less-cmp : (a b : Hash) → less a b ≡ (elim (cmp a b) [ Ordering.lt ↦ true | _ ↦ false ])
unfolding less cmp
less-cmp [] b = refl
less-cmp (x ∷ xs) [] = refl
less-cmp (x ∷ xs) (y ∷ ys) = ground (arith, less-cmp xs ys)

pub cmp_self : (a : Hash) → cmp a a ≡ Ordering.eq
unfolding cmp
cmp_self [] = refl
cmp_self (x ∷ xs) = ground (arith, cmp_self xs)

pub cmp-flip : (a b : Hash) → cmp b a ≡ flip (cmp a b)
unfolding cmp
cmp-flip [] [] = refl
cmp-flip [] (y ∷ ys) = refl
cmp-flip (x ∷ xs) [] = refl
cmp-flip (x ∷ xs) (y ∷ ys) = ground (arith, cmp-flip xs ys)

pub cmp_eq : (a b : Hash) → length a ≡ length b → cmp a b ≡ Ordering.eq → a ≡ b
unfolding cmp
cmp_eq [] [] e h = refl
cmp_eq [] (y ∷ ys) e h = absurd (omega arith)
cmp_eq (x ∷ xs) [] e h = absurd (omega arith)
cmp_eq (x ∷ xs) (y ∷ ys) e h = ground (arith, cmp_eq xs ys)

pub cmp_trans :
    (a b c : Hash)
    → length a ≡ length b
    → length b ≡ length c
    → cmp a b ≡ Ordering.lt
    → cmp b c ≡ Ordering.lt
    → cmp a c ≡ Ordering.lt
unfolding cmp
cmp_trans [] b c e f h k = cc
cmp_trans (x ∷ xs) [] c e f h k = cc
cmp_trans (x ∷ xs) (y ∷ ys) [] e f h k = cc
cmp_trans (x ∷ xs) (y ∷ ys) (z ∷ zs) e f h k = ground (arith, cmp_trans xs ys zs)

-- `xorCmp` compares the distances to its object: the exclusive ors, as `cmp` compares them.
pub xor_cmp-cmp :
    (s a b : Hash)
    → length a ≡ length s
    → length b ≡ length s
    → xor_cmp s a b ≡ cmp (xor_hash a s) (xor_hash b s)
unfolding xor_cmp cmp xor_hash
xor_cmp-cmp [] [] b e f = refl
xor_cmp-cmp [] (x ∷ xs) b e f = absurd (omega arith)
xor_cmp-cmp (s ∷ ss) [] b e f = absurd (omega arith)
xor_cmp-cmp (s ∷ ss) (x ∷ xs) [] e f = absurd (omega arith)
xor_cmp-cmp (s ∷ ss) (x ∷ xs) (y ∷ ys) e f =
    ground (arith, xor_cmp-cmp ss xs ys, bit_xor_cancel x y s)

length-xor_hash : (a b : Hash) → length a ≡ length b → length (xor_hash a b) ≡ length b
unfolding xor_hash
length-xor_hash [] [] e = refl
length-xor_hash [] (y ∷ ys) e = absurd (omega arith)
length-xor_hash (x ∷ xs) [] e = absurd (omega arith)
length-xor_hash (x ∷ xs) (y ∷ ys) e = ap suc (length-xor_hash xs ys (omega arith))

pub xor_hash_cancel :
    (a b s : Hash) → length a ≡ length s → length b ≡ length s → xor_hash a s ≡ xor_hash b s → a ≡ b
unfolding xor_hash
xor_hash_cancel [] [] s e f h = refl
xor_hash_cancel [] (y ∷ ys) s e f h = absurd (omega arith)
xor_hash_cancel (x ∷ xs) [] s e f h = absurd (omega arith)
xor_hash_cancel (x ∷ xs) (y ∷ ys) [] e f h = absurd (omega arith)
xor_hash_cancel (x ∷ xs) (y ∷ ys) (s ∷ ss) e f h =
    ground (arith, xor_hash_cancel xs ys ss, bit_xor_cancel x y s)

pub xor_cmp-flip :
    (s a b : Hash)
    → length a ≡ length s
    → length b ≡ length s
    → xor_cmp s b a ≡ flip (xor_cmp s a b)
xor_cmp-flip s a b e f =
    rw (xor_cmp-cmp s b a f e, xor_cmp-cmp s a b e f) (cmp-flip (xor_hash a s) (xor_hash b s))

-- No two hashes of the same size are equally close to a third.
pub xor_cmp_eq :
    (s a b : Hash) → length a ≡ length s → length b ≡ length s → xor_cmp s a b ≡ Ordering.eq → a ≡ b
xor_cmp_eq s a b e f h = xor_hash_cancel a b s e f (
    cmp_eq (xor_hash a s) (xor_hash b s) (length-xor_hash a s e ∙ sym (length-xor_hash b s f))
      (sym (xor_cmp-cmp s a b e f) ∙ h))

-- Being closer is transitive.
pub xor_cmp_trans :
    (s a b c : Hash)
    → length a ≡ length s
    → length b ≡ length s
    → length c ≡ length s
    → xor_cmp s a b ≡ Ordering.lt
    → xor_cmp s b c ≡ Ordering.lt
    → xor_cmp s a c ≡ Ordering.lt
xor_cmp_trans s a b c e f g h k =
    xor_cmp-cmp s a c e g
    ∙ cmp_trans (xor_hash a s) (xor_hash b s) (xor_hash c s)
        (length-xor_hash a s e ∙ sym (length-xor_hash b s f))
        (length-xor_hash b s f ∙ sym (length-xor_hash c s g)) (sym (xor_cmp-cmp s a b e f) ∙ h)
        (sym (xor_cmp-cmp s b c f g) ∙ k)
