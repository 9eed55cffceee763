-- ===== src/Prelude/Lists.antt =====
-- Lists measured and indexed by native numbers, under the library's names, and predicates on them.
use Prim.Native.Nat.{ℕ, zero, suc, ◌+◌, ◌<◌, min}
use mathlib.Core.Path.{◌≡◌, refl, ap}
use mathlib.Core.Logic.{◌≢◌, inl, inr}
use mathlib.Core.Bool.{Bool, true, false}
use mathlib.Core.Option.{Option, none, some}
use opendht.Prelude.Tests.{Bool-cases, Option-cases}
use mathlib.Core.List.{List, [], ◌∷◌, ◌++◌}
use native.Mathlib.Omega.{arith}

module _ {ℓ} {A : Type ℓ} where
  abbrev pub length : List A → ℕ
  length [] = 0
  length (x ∷ xs) = suc (length xs)

  abbrev pub get_or : List A → ℕ → A → A
  get_or [] i d = d
  get_or (x ∷ xs) zero d = x
  get_or (x ∷ xs) (suc i) d = get_or xs i d

  -- A write out of bounds changes nothing.
  abbrev pub set : List A → ℕ → A → List A
  set [] i v = []
  set (x ∷ xs) zero v = v ∷ xs
  set (x ∷ xs) (suc i) v = x ∷ set xs i v

  abbrev pub take : ℕ → List A → List A
  take zero xs = []
  take (suc n) [] = []
  take (suc n) (x ∷ xs) = x ∷ take n xs

  abbrev pub replicate : ℕ → A → List A
  replicate zero a = []
  replicate (suc n) a = a ∷ replicate n a

  -- A predicate of every element; it computes to a tuple.
  abbrev pub All {κ} : (A → Type κ) → List A → Type κ
  All P [] = Unit
  All P (x ∷ xs) = P x × All P xs

module _ {ℓ} {A : Type ℓ} where
  pub length-append : (xs ys : List A) → length (xs ++ ys) ≡ length xs + length ys
  length-append [] ys = omega arith
  length-append (x ∷ xs) ys = omega (arith, length-append xs ys)

  pub length-set : (xs : List A) (i : ℕ) (v : A) → length (set xs i v) ≡ length xs
  length-set [] i v = refl
  length-set (x ∷ xs) zero v = refl
  length-set (x ∷ xs) (suc i) v = ap suc (length-set xs i v)

  pub get_or-set_self :
      (xs : List A) (i : ℕ) (v d : A) → i < length xs → get_or (set xs i v) i d ≡ v
  get_or-set_self [] i v d h = elim h [ ]
  get_or-set_self (x ∷ xs) zero v d h = refl
  get_or-set_self (x ∷ xs) (suc i) v d h = get_or-set_self xs i v d (omega arith)

  pub get_or-set_ne :
      (xs : List A) (i j : ℕ) (v d : A) → i ≢ j → get_or (set xs i v) j d ≡ get_or xs j d
  get_or-set_ne [] i j v d h = refl
  get_or-set_ne (x ∷ xs) zero zero v d h = absurd (h refl)
  get_or-set_ne (x ∷ xs) zero (suc j) v d h = refl
  get_or-set_ne (x ∷ xs) (suc i) zero v d h = refl
  get_or-set_ne (x ∷ xs) (suc i) (suc j) v d h = get_or-set_ne xs i j v d (λ e. h (ap suc e))

  pub length-take : (n : ℕ) (xs : List A) → length (take n xs) ≡ min n (length xs)
  length-take zero xs = omega arith
  length-take (suc n) [] = omega arith
  length-take (suc n) (x ∷ xs) = omega (arith, length-take n xs)

  pub length-replicate : (n : ℕ) (a : A) → length (replicate n a) ≡ n
  length-replicate zero a = refl
  length-replicate (suc n) a = ap suc (length-replicate n a)

  pub All-append {κ} :
      (P : A → Type κ) (front back : List A) → All P front → All P back → All P (front ++ back)
  All-append P [] back _ h = h
  All-append P (a ∷ front) back (p, ps) h = (p, All-append P front back ps h)

  -- What holds of all elements holds of one, and of those before and behind it.
  pub All-around {κ} :
      (P : A → Type κ) (xs : List A) (x : A) (ys : List A)
      → All P (xs ++ x ∷ ys)
      → All P xs × P x × All P ys
  All-around P [] x ys h = (tt, h.0, h.1)
  All-around P (z ∷ xs) x ys h =
      let rest = All-around P xs x ys h.1 in ((h.0, rest.0), rest.1, rest.2)

  pub All-map {κ κ'} :
      {P : A → Type κ} {Q : A → Type κ'} (xs : List A) → ((a : A) → P a → Q a) → All P xs → All Q xs
  All-map [] f h = tt
  All-map (x ∷ xs) f h = (f x h.0, All-map xs f h.1)

  pub All-set {κ} :
      (P : A → Type κ) (xs : List A) (i : ℕ) (v : A) → P v → All P xs → All P (set xs i v)
  All-set P [] i v hv h = h
  All-set P (x ∷ xs) zero v hv h = (hv, h.1)
  All-set P (x ∷ xs) (suc i) v hv h = (h.0, All-set P xs i v hv h.1)

  pub All-get_or {κ} :
      (P : A → Type κ) (xs : List A) (i : ℕ) (d : A) → P d → All P xs → P (get_or xs i d)
  All-get_or P [] i d hd h = hd
  All-get_or P (x ∷ xs) zero d hd h = h.0
  All-get_or P (x ∷ xs) (suc i) d hd h = All-get_or P xs i d hd h.1

-- std::find_if: what stands before the first element that fits, the element, and what follows.
module _ {ℓ} {A : Type ℓ} where
  unfoldable pub locate : (A → Bool) → List A → Option (List A × A × List A)
  locate p [] = none
  locate p (x ∷ xs) = elim (p x) [
    | true ↦ some ([], x, xs)
    | false ↦ elim (locate p xs) [ none ↦ none | some (a, y, b) ↦ some (x ∷ a, y, b) ]
  ]

  pub locate-some :
      (p : A → Bool) (xs a : List A) (y : A) (b : List A)
      → locate p xs ≡ some (a, y, b)
      → (xs ≡ a ++ y ∷ b) × (p y ≡ true)
  unfolding locate
  locate-some p [] a y b e = cc
  locate-some p (x ∷ xs) a y b e = elim (Bool-cases (p x)) [
    | inl hit ↦ ground arith
    | inr miss ↦ elim (Option-cases (locate p xs)) [
      | inl gone ↦ ground arith
      | inr (t, found) ↦ ground (arith, locate-some p xs t.0 t.1 t.2 found)
    ]
  ]

  pub locate-none : (p : A → Bool) (xs : List A) → locate p xs ≡ none → All (λ x. p x ≡ false) xs
  unfolding locate
  locate-none p [] e = tt
  locate-none p (x ∷ xs) e = elim (Option-cases (locate p xs)) [
    | inl gone ↦ (ground arith, locate-none p xs gone)
    | inr (t, found) ↦ absurd (ground arith)
  ]
