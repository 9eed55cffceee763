-- ===== src/DhtStore/Effects.antt =====
-- What the operations of one storage do to the totals.
use opendht.Prelude.{
  ℕ, suc, ◌+◌, ◌%◌, ◌≡◌, ◌∙◌, refl, ap, sym, List, [], ◌∷◌, ◌++◌, Option, none, some, arith, ltb,
  length, length-append, inl, inr, Bool-cases, Option-cases, locate, locate-some,
}
use opendht.Prelude.Int.{sub_ℕ}
use opendht.Prelude.Words.{
  word, add_size, sub_size, sub_size-mod, add_size-mod, add_diff, add_diff-mod,
}
use opendht.Time.{TimePoint}
use opendht.Hash.{Hash}
use opendht.Value.{Value}
use opendht.Value
use opendht.Storage.{
  ValueStorage, Storage, Shared, max_values, is_stored, store_again, store_new, store,
}
use opendht.Storage.Removal.{sum_size, remove, expire, alive, dead, stored_values}
use opendht.Storage.Invariant.{sum_size-append}
use opendht.Storage.Frees.{remove_cases}
use opendht.Storage.Expiry.{dead_sums}
use opendht.Storage.StoreCases.{kept, replaced, appended, fresh, edited, store-Stored}
use opendht.DhtStore.{Stores, find_store, put_store, negated}
use opendht.DhtStore.Counted.{total_by, bytes, amount, total_by_split}

-- A total `t` of a sum is kept by an operation that changes the sum from `old` to `new`, whatever the
-- other storages have.
abbrev pub Follows : ℕ → ℕ → (ℕ → ℕ) → Type 0
Follows old new change = (t rest : ℕ) → t ≡ (rest + old) % word → change t ≡ (rest + new) % word

stored_length : (xs : List ValueStorage) → length (stored_values xs) ≡ length xs
unfolding stored_values
stored_length [] = refl
stored_length (x ∷ xs) = ap suc (stored_length xs)

sub_size-negated :
    (gone old new : ℕ)
    → old ≡ new + gone
    → Follows old new (λ t. sub_size t (negated (sub_ℕ 0 gone)))
unfolding sub_size
sub_size-negated gone old new h t rest e = ground (arith, e)

-- `expire` takes out what it says.
pub expire_sums :
    (key : Hash) (now : TimePoint) (st : Storage) (sh : Shared)
    → Follows
        (bytes st)
        (bytes (expire key now st sh).0)
        (λ t. sub_size t (negated (expire key now st sh).2))
      × Follows
          (amount st)
          (amount (expire key now st sh).0)
          (λ t. sub_size t (length (expire key now st sh).3))
unfolding expire
expire_sums key now st sh =
    let sums = dead_sums now 0 st.values in
    (
      sub_size-negated (sum_size (dead now st.values)) (bytes st) (sum_size (alive now st.values))
          sums.0,
      λ t rest e.
          sub_size-mod t (length (stored_values (dead now st.values)))
            (rest + length (alive now st.values))
            (e
              ∙ ap (λ (n : ℕ). n % word)
                  (omega (arith, sums.2, stored_length (dead now st.values)))),
    )

-- Where `expire` takes nothing out, the sums stay.
pub expire_idle :
    (key : Hash) (now : TimePoint) (st : Storage) (sh : Shared)
    → (expire key now st sh).3 ≡ []
    → (bytes (expire key now st sh).0 ≡ bytes st) × (amount (expire key now st sh).0 ≡ amount st)
unfolding expire
expire_idle key now st sh e =
    let none_dead : dead now st.values ≡ [] = no_values (dead now st.values) e in
    let sums = dead_sums now 0 st.values in
    (
      omega (arith, sums.0, ap sum_size none_dead ∙ unfold sum_size in refl),
      omega (arith, sums.2, ap length none_dead),
    )
  where
    no_values : (xs : List ValueStorage) → stored_values xs ≡ [] → xs ≡ []
    no_values [] h = refl
    no_values (x ∷ xs) h = absurd (unfold stored_values in ground (arith, h))

pub remove_sums :
    (key : Hash) (vid : ℕ) (st : Storage) (sh : Shared) (v : Value)
    → (remove key vid st sh).2 ≡ some v
    → Follows (bytes st) (bytes (remove key vid st sh).0) (λ t. sub_size t (Value.size v))
      × Follows (amount st) (amount (remove key vid st sh).0) (λ t. sub_size t 1)
remove_sums key vid st sh v e = elim (remove_cases key vid st sh) [
  | inl (same, _) ↦ absurd (ground (arith, e, ap (λ x. x.2) same))
  | inr (a, vs, b, at, _, done) ↦
      let value_is : vs.stored ≡ v = ground (arith, e, ap (λ x. x.2) done) in
      let left : (remove key vid st sh).0.values ≡ a ++ b = ap (λ x. x.0.values) done in
      (
        (λ t rest h. sub_size-mod t (Value.size v) (rest + bytes (remove key vid st sh).0) (
            h
            ∙ ap (λ (n : ℕ). n % word)
                (unfold sum_size in
                  omega (
                    arith,
                    ap sum_size at,
                    ap sum_size left,
                    sum_size-append a (vs ∷ b),
                    sum_size-append a b,
                    ap Value.size value_is,
                  )))),
        (λ t rest h. sub_size-mod t 1 (rest + amount (remove key vid st sh).0) (
            h
            ∙ ap (λ (n : ℕ). n % word)
                (omega (
                  arith,
                  ap length at,
                  ap length left,
                  length-append a (vs ∷ b),
                  length-append a b,
                )))),
      )
]

pub remove_less :
    (key : Hash) (vid : ℕ) (st : Storage) (sh : Shared) (v : Value)
    → (remove key vid st sh).2 ≡ some v
    → amount st ≡ suc (amount (remove key vid st sh).0)
remove_less key vid st sh v e = elim (remove_cases key vid st sh) [
  | inl (same, _) ↦ absurd (ground (arith, e, ap (λ x. x.2) same))
  | inr (a, vs, b, at, _, done) ↦
      let left : (remove key vid st sh).0.values ≡ a ++ b = ap (λ x. x.0.values) done in
      omega (arith, ap length at, ap length left, length-append a (vs ∷ b), length-append a b)
]

pub remove_idle :
    (key : Hash) (vid : ℕ) (st : Storage) (sh : Shared)
    → (remove key vid st sh).2 ≡ none
    → (remove key vid st sh).0 ≡ st
remove_idle key vid st sh e = elim (remove_cases key vid st sh) [
  | inl (same, _) ↦ ap (λ x. x.0) same
  | inr (a, vs, b, at, _, done) ↦ absurd (ground (arith, e, ap (λ x. x.2) done))
]

-- Where `store` changes a value, its differences say what becomes of the sums; elsewhere these stay.
pub store_sums :
    (key : Hash) (v : Value) (created expiration : TimePoint) (sb : Option ℕ) (st : Storage)
    (sh : Shared) (place : ℕ)
    → (store key v created expiration sb st sh).changed ≡ some place
    → Follows
        (bytes st)
        (bytes (store key v created expiration sb st sh).storage)
        (λ t. add_diff t (store key v created expiration sb st sh).diff.size_diff)
      × Follows
          (amount st)
          (amount (store key v created expiration sb st sh).storage)
          (λ t. add_diff t (store key v created expiration sb st sh).diff.values_diff)
unfolding store sum_size add_diff
store_sums key v created expiration sb st sh place e =
    elim (Option-cases (locate (is_stored v) st.values)) [
      | inl absent ↦ elim (Bool-cases (ltb (length st.values) max_values)) [
        | inl room ↦
            rw (absent, store)
              (unfold store_new add_diff in
                rw room (
                  (λ t rest h.
                      add_size-mod t (Value.size v) (rest + bytes st) h
                      ∙ ap (λ (n : ℕ). n % word)
                          (unfold sum_size in
                            omega (
                              arith,
                              sum_size-append st.values (fresh key v created expiration sb ∷ []),
                            ))),
                  (λ t rest h.
                      add_size-mod t 1 (rest + amount st) h
                      ∙ ap (λ (n : ℕ). n % word)
                          (omega (
                            arith,
                            length-append st.values (fresh key v created expiration sb ∷ []),
                          ))),
                ))
        | inr full ↦ absurd (unfold store store_new in ground (arith, e, absent, full))
      ]
      | inr ((a, it, b), found) ↦ elim (Bool-cases (Value.same it.stored v)) [
        | inl same ↦ absurd (unfold store store_again in ground (arith, e, found, same))
        | inr other ↦
            let (at, _) = locate-some (is_stored v) st.values a it b found in
            rw (found, store)
              (unfold store_again in
                rw other (
                  (λ t rest h.
                      add_diff-mod t (Value.size v) (Value.size it.stored)
                        (rest + (sum_size a + sum_size b))
                        (h
                          ∙ ap (λ (n : ℕ). n % word)
                              (unfold sum_size in
                                omega (arith, ap sum_size at, sum_size-append a (it ∷ b))))
                      ∙ ap (λ (n : ℕ). n % word)
                          (unfold sum_size in
                            omega (
                              arith,
                              sum_size-append a (edited key v created expiration sb it ∷ b),
                            ))),
                  (λ t rest h.
                      unfold add_diff add_size in
                      (ap (λ (n : ℕ). (n + 0) % word) h
                        ∙ omega (
                          arith,
                          ap length at,
                          length-append a (it ∷ b),
                          length-append a (edited key v created expiration sb it ∷ b),
                        ))),
                ))
      ]
    ]

pub store_idle :
    (key : Hash) (v : Value) (created expiration : TimePoint) (sb : Option ℕ) (st : Storage)
    (sh : Shared)
    → (store key v created expiration sb st sh).changed ≡ none
    → (bytes (store key v created expiration sb st sh).storage ≡ bytes st)
      × (amount (store key v created expiration sb st sh).storage ≡ amount st)
store_idle key v created expiration sb st sh e =
    elim (store-Stored key v created expiration sb st sh) [
      | kept _ _ (inl same) ↦ rw same (refl, refl)
      | kept _ _ (inr (a, it, b, at, done)) ↦ rw done (
        unfold sum_size in
            omega (
              arith,
              ap sum_size at,
              sum_size-append a (it ∷ b),
              sum_size-append a (record it { created = created } ∷ b),
            ),
        omega (
          arith,
          ap length at,
          length-append a (it ∷ b),
          length-append a (record it { created = created } ∷ b),
        ),
      )
      | replaced a it b _ _ some_place _ _ ↦ absurd (ground (arith, e, some_place))
      | appended _ _ some_place _ _ ↦ absurd (ground (arith, e, some_place))
    ]

-- A total stays that of all storages when one storage is written.
pub follow :
    (f : Storage → ℕ) (key : Hash) (m : Stores) (st st' : Storage) (t : ℕ) (change : ℕ → ℕ)
    → find_store key m ≡ some st
    → Follows (f st) (f st') change
    → t ≡ total_by f m % word
    → change t ≡ total_by f (put_store key st' m) % word
follow f key m st st' t change e follows h =
    let (rest, whole, put, _) = total_by_split f key m st e in
    follows t rest (h ∙ ap (λ (n : ℕ). n % word) whole) ∙ ap (λ (n : ℕ). n % word) (sym (put st'))

-- So it does when a storage is written that has the same values.
pub follow_same :
    (f : Storage → ℕ) (key : Hash) (m : Stores) (st st' : Storage)
    → find_store key m ≡ some st
    → f st' ≡ f st
    → total_by f (put_store key st' m) ≡ total_by f m
follow_same f key m st st' e same =
    let (rest, whole, put, _) = total_by_split f key m st e in put st' ∙ omega (arith, whole, same)
