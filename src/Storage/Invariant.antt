-- ===== src/Storage/Invariant.antt =====
-- The invariant of a `Storage` beside the shared buckets, and the laws of the steps that its
-- operations are made of.
use opendht.Prelude.{
  ℕ, ◌+◌, ◌%◌, ◌≤◌, ◌≡◌, ◌≢◌, refl, sym, ap, true, List, [], ◌∷◌, ◌++◌, none, some, arith, ◌==◌,
  if◌then◌else◌, length, All, inl, inr, Option-cases,
}
use opendht.Prelude.Words.{word, sub_size-mod}
use opendht.Hash.{Hash}
use opendht.Value.{Value}
use opendht.Value
use opendht.Storage.BucketLaws.{has_entry, is_entry_id, erase_size, erase_entries}
use opendht.Storage.{ValueStorage, Storage, Shared, max_values, at_bucket, cancel_job}
use opendht.Storage.Removal.{release, sum_size}

unfoldable pub ids : List ValueStorage → List ℕ
ids [] = []
ids (vs ∷ rest) = vs.stored.id ∷ ids rest

abbrev pub Distinct : List ℕ → Type 0
Distinct [] = Unit
Distinct (i ∷ is) = All (λ j. i ≢ j) is × Distinct is

-- What one value, and what all values of a storage, count against bucket r.
unfoldable pub charge_of : ℕ → ValueStorage → ℕ
unfolding Value.size
charge_of r vs = elim vs.store_bucket [
  | none ↦ 0
  | some k ↦ if k == r then Value.size vs.stored else 0
]

unfoldable pub charge : ℕ → List ValueStorage → ℕ
unfolding charge_of
charge r [] = 0
charge r (vs ∷ rest) = charge_of r vs + charge r rest

-- A value's bucket, if any, has the value's entry.
abbrev pub IsLinked : Hash → Shared → ValueStorage → Type 0
IsLinked key sh vs =
    (elim vs.store_bucket [
      | none ↦ true
      | some k ↦ has_entry key vs.stored.id vs.expiration (sh.bucket k).stored_values
    ])
    ≡ true

pub record IsStorage (key : Hash) (st : Storage) (sh : Shared) : Type 0 where
  pub sized : st.total_size ≡ sum_size st.values % word
  pub distinct : Distinct (ids st.values)
  pub linked : All (IsLinked key sh) st.values
  pub bounded : length st.values ≤ max_values

pub charge-append : (r : ℕ) (a b : List ValueStorage) → charge r (a ++ b) ≡ charge r a + charge r b
unfolding charge
charge-append r [] b = omega arith
charge-append r (x ∷ a) b = omega (arith, charge-append r a b)

pub sum_size-append : (a b : List ValueStorage) → sum_size (a ++ b) ≡ sum_size a + sum_size b
unfolding sum_size
sum_size-append [] b = omega arith
sum_size-append (x ∷ a) b = omega (arith, sum_size-append a b)

pub ids-append : (a b : List ValueStorage) → ids (a ++ b) ≡ ids a ++ ids b
unfolding ids
ids-append [] b = refl
ids-append (x ∷ a) b = ap (◌∷◌ x.stored.id) (ids-append a b)

pub All-ids :
    (b : List ValueStorage) (i : ℕ) → All (λ j. i ≢ j) (ids b) → All (λ w. i ≢ w.stored.id) b
unfolding ids
All-ids [] i h = tt
All-ids (w ∷ ws) i h = (h.0, All-ids ws i h.1)

-- The ids around one of them differ from it.
pub Distinct-around :
    (a b : List ValueStorage) (x : ValueStorage)
    → Distinct (ids (a ++ x ∷ b))
    → All (λ w. x.stored.id ≢ w.stored.id) a × All (λ w. x.stored.id ≢ w.stored.id) b
unfolding ids
Distinct-around [] b x d = (tt, All-ids b x.stored.id d.0)
Distinct-around (w ∷ a) b x d =
    let rest = Distinct-around a b x d.1 in ((λ e. apart a (sym e) d.0, rest.0), rest.1)
  where
    apart :
        (a : List ValueStorage)
        → w.stored.id ≡ x.stored.id
        → All (λ j. w.stored.id ≢ j) (ids (a ++ x ∷ b))
        → ⊥
    apart [] e h = h.0 e
    apart (y ∷ ys) e h = apart ys e h.1

pub Distinct-drop :
    (a b : List ValueStorage) (x : ValueStorage)
    → Distinct (ids (a ++ x ∷ b))
    → Distinct (ids (a ++ b))
unfolding ids
Distinct-drop [] b x d = d.1
Distinct-drop (w ∷ a) b x d = (skip a d.0, Distinct-drop a b x d.1)
  where
    skip :
        (a : List ValueStorage)
        → All (λ j. w.stored.id ≢ j) (ids (a ++ x ∷ b))
        → All (λ j. w.stored.id ≢ j) (ids (a ++ b))
    skip [] h = h.1
    skip (y ∷ ys) h = (h.0, skip ys h.1)

-- A bucket that loses the entry of a value that is linked to it loses the value's size.
pub release_balance :
    (key : Hash) (vs : ValueStorage) (sh : Shared) (r s : ℕ)
    → IsLinked key sh vs
    → (sh.bucket r).total_size ≡ (s + charge_of r vs) % word
    → ((release key vs sh).bucket r).total_size ≡ s % word
unfolding release at_bucket cancel_job charge_of
release_balance key vs sh r s l h = ground (
  arith,
  erase_size (sh.bucket r) key vs.stored vs.expiration,
  sub_size-mod (sh.bucket r).total_size (Value.size vs.stored) s,
)

-- The values of other ids stay linked.
pub release-IsLinked :
    (key : Hash) (vs w : ValueStorage) (sh : Shared)
    → vs.stored.id ≢ w.stored.id
    → IsLinked key sh w
    → IsLinked key (release key vs sh) w
unfolding release at_bucket cancel_job
release-IsLinked key vs w sh ne l = elim (Option-cases w.store_bucket) [
  | inl e ↦ ground arith
  | inr (k, e) ↦ ground (
    arith,
    erase_entries (sh.bucket k) key vs.stored vs.expiration key w.stored.id w.expiration
        (is_entry_id key key vs.stored.id w.stored.id vs.expiration w.expiration ne),
  )
]
