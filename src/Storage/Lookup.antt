-- ===== src/Storage/Lookup.antt =====
-- What `getById` finds after `store` and `remove`.
use opendht.Prelude.{
  ℕ, ◌≡◌, ◌≢◌, refl, sym, ap, subst, false, List, [], ◌∷◌, ◌++◌, Option, none, some, arith, ◌==◌,
  if◌then◌else◌, All, inl, inr,
}
use opendht.Time.{TimePoint}
use opendht.Hash.{Hash}
use opendht.Value.{Value}
use opendht.Storage.{ValueStorage, Storage, Shared, StoreResult, get_by_id, store}
use opendht.Storage.Removal.{remove, has_id}
use opendht.Storage.Invariant.{ids, Distinct, IsStorage, Distinct-around}
use opendht.Storage.Frees.{remove_cases}
use opendht.Storage.StoreCases.{Stored, kept, replaced, appended, store-Stored, fresh, edited}

abbrev first : Option Value → Option Value → Option Value
first none o = o
first (some v) o = some v

get_by_id-append :
    (w : ℕ) (a b : List ValueStorage) → get_by_id w (a ++ b) ≡ first (get_by_id w a) (get_by_id w b)
unfolding get_by_id
get_by_id-append w [] b = refl
get_by_id-append w (x ∷ a) b = ground (arith, get_by_id-append w a b)

get_by_id-none :
    (w : ℕ) (a : List ValueStorage) → All (λ x. w ≢ x.stored.id) a → get_by_id w a ≡ none
unfolding get_by_id
get_by_id-none w [] h = refl
get_by_id-none w (x ∷ a) h = ground (arith, get_by_id-none w a h.1)

get_by_id-cons :
    (w : ℕ) (x : ValueStorage) (b : List ValueStorage)
    → get_by_id w (x ∷ b) ≡ (if x.stored.id == w then some x.stored else get_by_id w b)
unfolding get_by_id
get_by_id-cons w x b = refl

touched-lookup :
    (created : TimePoint) (w : ℕ) (a : List ValueStorage) (it : ValueStorage)
    (b : List ValueStorage)
    → get_by_id w (a ++ record it { created = created } ∷ b) ≡ get_by_id w (a ++ it ∷ b)
touched-lookup created w a it b = ground (
  arith,
  get_by_id-append w a (it ∷ b),
  get_by_id-append w a (record it { created = created } ∷ b),
  get_by_id-cons w it b,
  get_by_id-cons w (record it { created = created }) b,
)

module _ (key : Hash) (v : Value) (created expiration : TimePoint) (sb : Option ℕ) where
  abbrev expected : ℕ → Option ℕ → List ValueStorage → Option Value
  expected w none values = get_by_id w values
  expected w (some i) values = if v.id == w then some v else get_by_id w values

  Stored-lookup :
      (st : Storage) (sh : Shared) (t : StoreResult) (w : ℕ)
      → Stored key v created expiration sb st sh t
      → Distinct (ids st.values)
      → get_by_id w t.storage.values ≡ expected w t.changed st.values
  Stored-lookup st sh t w (kept _ c (inl same)) d = rw (c, same)
  Stored-lookup st sh t w (kept _ c (inr (a, it, b, at, done))) d =
      rw (c, done, at) (touched-lookup created w a it b)
  Stored-lookup st sh t w (replaced a it b at same c done _) d =
      let apart = Distinct-around a b it (subst (λ l. Distinct (ids l)) at d) in
      let before : get_by_id it.stored.id a ≡ none = get_by_id-none it.stored.id a apart.0 in
      rw (c, done, at)
        (ground (
          arith,
          same,
          before,
          get_by_id-append w a (it ∷ b),
          get_by_id-append w a (edited key v created expiration sb it ∷ b),
          get_by_id-cons w it b,
          get_by_id-cons w (edited key v created expiration sb it) b,
        ))
  Stored-lookup st sh t w (appended new _ c done _) d =
      rw (c, done)
        (ground (
          arith,
          get_by_id-none v.id st.values (flip_all st.values new),
          get_by_id-append w st.values (fresh key v created expiration sb ∷ []),
          get_by_id-cons w (fresh key v created expiration sb) [],
          get_by_id-none w [] tt,
        ))
    where
      flip_all :
          (xs : List ValueStorage)
          → All (λ w. w.stored.id ≢ v.id) xs
          → All (λ w. v.id ≢ w.stored.id) xs
      flip_all [] h = tt
      flip_all (x ∷ xs) h = ((λ e. h.0 (sym e)), flip_all xs h.1)

  -- Where `store` reports no change, the ids find what they found before.
  pub store_idle-lookup :
      (st : Storage) (sh : Shared) (w : ℕ)
      → (store key v created expiration sb st sh).changed ≡ none
      → get_by_id w (store key v created expiration sb st sh).storage.values ≡ get_by_id w st.values
  store_idle-lookup st sh w e = elim (store-Stored key v created expiration sb st sh) [
    | kept _ _ (inl same) ↦ rw same refl
    | kept _ _ (inr (a, it, b, at, done)) ↦ rw (done, at) (touched-lookup created w a it b)
    | replaced a it b _ _ some_place _ _ ↦ absurd (ground (arith, e, some_place))
    | appended _ _ some_place _ _ ↦ absurd (ground (arith, e, some_place))
  ]

  -- Where `store` reports a change, `getById` finds the new value under its id, and under every other
  -- id what it found before; where it reports none, it finds under every id what it found before.
  pub store_lookup :
      (st : Storage) (sh : Shared) (w : ℕ)
      → IsStorage key st sh
      → get_by_id w (store key v created expiration sb st sh).storage.values
        ≡ expected w (store key v created expiration sb st sh).changed st.values
  store_lookup st sh w h =
      Stored-lookup st sh _ w (store-Stored key v created expiration sb st sh) h.distinct

others :
    (vid : ℕ) (xs : List ValueStorage)
    → All (λ x. has_id vid x ≡ false) xs
    → All (λ x. vid ≢ x.stored.id) xs
others vid [] q = tt
others vid (x ∷ xs) q = (unfold has_id in λ e. ground (arith, q.0), others vid xs q.1)

-- Where `remove` finds nothing, `getById` finds nothing under the id.
pub remove-get_by_id :
    (key : Hash) (vid : ℕ) (st : Storage) (sh : Shared)
    → (remove key vid st sh).2 ≡ none
    → get_by_id vid st.values ≡ none
remove-get_by_id key vid st sh e = elim (remove_cases key vid st sh) [
  | inl (_, absent) ↦ get_by_id-none vid st.values (others vid st.values absent)
  | inr (a, vs, b, at, _, done) ↦ absurd (ground (arith, e, ap (λ x. x.2) done))
]

-- `remove` returns what `getById` found under the id; afterwards nothing is found there, and under
-- every other id what was found before.
pub remove_lookup :
    (key : Hash) (vid : ℕ) (st : Storage) (sh : Shared) (w : ℕ)
    → IsStorage key st sh
    → ((remove key vid st sh).2 ≡ get_by_id vid st.values)
      × (get_by_id w (remove key vid st sh).0.values
          ≡ (if vid == w then none else get_by_id w st.values))
remove_lookup key vid st sh w h = elim (remove_cases key vid st sh) [
  | inl (e, absent) ↦
      let gone : get_by_id vid st.values ≡ none =
        get_by_id-none vid st.values (others vid st.values absent) in
      (rw e (sym gone), rw e (ground arith))
  | inr (a, vs, b, at, same, done) ↦
      let apart = Distinct-around a b vs (subst (λ l. Distinct (ids l)) at h.distinct) in
      let before : get_by_id vs.stored.id a ≡ none = get_by_id-none vs.stored.id a apart.0 in
      let after : get_by_id vs.stored.id b ≡ none = get_by_id-none vs.stored.id b apart.1 in
      (
        rw (done, at) (ground (arith, get_by_id-append vid a (vs ∷ b), get_by_id-cons vid vs b)),
        rw (done, at)
            (ground (
              arith,
              get_by_id-append w a (vs ∷ b),
              get_by_id-append w a b,
              get_by_id-cons w vs b,
            )),
      )
]
