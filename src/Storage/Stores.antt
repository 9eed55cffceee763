-- ===== src/Storage/Stores.antt =====
-- `Storage::store` and `Storage::refresh`: the value that is found afterwards, the invariant, and the
-- buckets' balance.
use opendht.Prelude.{
  ℕ, ◌+◌, ◌%◌, ◌≡◌, ◌≢◌, ap, true, false, List, [], ◌∷◌, ◌++◌, Option, none, arith, All, All-map,
  inl, inr, Option-cases,
}
use opendht.Prelude.Words.{word, add_size-mod}
use opendht.Time.{TimePoint}
use opendht.Hash.{Hash}
use opendht.Value.{Value}
use opendht.Value
use opendht.Storage.Bucket
use opendht.Storage.Bucket.{StorageBucket}
use opendht.Storage.BucketLaws.{insert_size, insert_has, insert_keeps}
use opendht.Storage.{ValueStorage, Shared, at_bucket, is_stored}
use opendht.Storage.Removal.{release}
use opendht.Storage.{cancel_job}
use opendht.Storage.Invariant.{
  ids, Distinct, charge_of, IsLinked, release_balance, release-IsLinked,
}

unfoldable pub erased : Hash → ValueStorage → Shared → Shared
erased key it sh = at_bucket it.store_bucket (λ b. Bucket.erase b key it.stored it.expiration) sh

unfoldable pub inserted : Hash → Value → TimePoint → Option ℕ → Shared → Shared
inserted key v expiration sb sh = at_bucket sb (λ b. Bucket.insert b key v expiration) sh

pub erased_balance :
    (key : Hash) (it : ValueStorage) (sh : Shared) (r s : ℕ)
    → IsLinked key sh it
    → (sh.bucket r).total_size ≡ (s + charge_of r it) % word
    → ((erased key it sh).bucket r).total_size ≡ s % word
unfolding charge_of erased release cancel_job
erased_balance key it sh r s l h =
    release_balance key (record it { expiration_job = none }) sh r s l h

erased-IsLinked :
    (key : Hash) (vs w : ValueStorage) (sh : Shared)
    → vs.stored.id ≢ w.stored.id
    → IsLinked key sh w
    → IsLinked key (erased key vs sh) w
unfolding erased release cancel_job
erased-IsLinked key vs w sh ne l =
    release-IsLinked key (record vs { expiration_job = none }) w sh ne l

-- What a value that is put under bucket sb counts against bucket r.
pub inserted_balance :
    (key : Hash) (vs : ValueStorage) (sh : Shared) (r s : ℕ)
    → (sh.bucket r).total_size ≡ s % word
    → ((inserted key vs.stored vs.expiration vs.store_bucket sh).bucket r).total_size
      ≡ (s + charge_of r vs) % word
unfolding inserted at_bucket charge_of
inserted_balance key vs sh r s h = ground (
  arith,
  insert_size (sh.bucket r) key vs.stored vs.expiration,
  add_size-mod (sh.bucket r).total_size (Value.size vs.stored) s,
)

inserted-IsLinked :
    (key : Hash) (vs w : ValueStorage) (sh : Shared)
    → IsLinked key sh w
    → IsLinked key (inserted key vs.stored vs.expiration vs.store_bucket sh) w
unfolding inserted at_bucket
inserted-IsLinked key vs w sh l = elim (Option-cases w.store_bucket) [
  | inl e ↦ ground arith
  | inr (k, e) ↦
      ground
        (arith, insert_keeps (sh.bucket k) key vs.stored vs.expiration key w.stored.id w.expiration)
]

pub inserted_self :
    (key : Hash) (vs : ValueStorage) (sh : Shared)
    → IsLinked key (inserted key vs.stored vs.expiration vs.store_bucket sh) vs
unfolding inserted at_bucket
inserted_self key vs sh = elim (Option-cases vs.store_bucket) [
  | inl e ↦ ground arith
  | inr (k, e) ↦ ground (arith, insert_has (sh.bucket k) key vs.stored vs.expiration)
]

pub Distinct-snoc :
    (xs : List ValueStorage) (x : ValueStorage)
    → All (λ w. w.stored.id ≢ x.stored.id) xs
    → Distinct (ids xs)
    → Distinct (ids (xs ++ x ∷ []))
unfolding ids
Distinct-snoc [] x ne d = (tt, tt)
Distinct-snoc (w ∷ ws) x ne d = (extend ws d.0, Distinct-snoc ws x ne.1 d.1)
  where
    extend :
        (ws : List ValueStorage)
        → All (λ j. w.stored.id ≢ j) (ids ws)
        → All (λ j. w.stored.id ≢ j) (ids (ws ++ x ∷ []))
    extend [] h = (ne.0, tt)
    extend (y ∷ ys) h = (h.0, extend ys h.1)

pub ids-replace :
    (a b : List ValueStorage) (x y : ValueStorage)
    → x.stored.id ≡ y.stored.id
    → ids (a ++ x ∷ b) ≡ ids (a ++ y ∷ b)
unfolding ids
ids-replace [] b x y e = ap (λ i. i ∷ ids b) e
ids-replace (w ∷ a) b x y e = ap (◌∷◌ w.stored.id) (ids-replace a b x y e)

pub not_stored : (v : Value) (w : ValueStorage) → is_stored v w ≡ false → w.stored.id ≢ v.id
unfolding is_stored
not_stored v w e = ground arith

pub stored_id :
    (v : Value) (w : ValueStorage)
    → is_stored v w ≡ true
    → Value.same w.stored v ≡ false
    → w.stored.id ≡ v.id
unfolding is_stored
stored_id v w e ne = ground arith

pub keep_erased :
    (key : Hash) (vs : ValueStorage) (sh : Shared) (ws : List ValueStorage)
    → All (λ w. vs.stored.id ≢ w.stored.id) ws
    → All (IsLinked key sh) ws
    → All (IsLinked key (erased key vs sh)) ws
keep_erased key vs sh [] ne l = tt
keep_erased key vs sh (w ∷ ws) ne l =
    (erased-IsLinked key vs w sh ne.0 l.0, keep_erased key vs sh ws ne.1 l.1)

pub keep_inserted :
    (key : Hash) (vs : ValueStorage) (sh : Shared) (ws : List ValueStorage)
    → All (IsLinked key sh) ws
    → All (IsLinked key (inserted key vs.stored vs.expiration vs.store_bucket sh)) ws
keep_inserted key vs sh ws l = All-map ws (λ w. inserted-IsLinked key vs w sh) l
