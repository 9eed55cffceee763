-- ===== src/Storage/StoreCases.antt =====
-- `Storage::store` on each of its branches: the invariant, the buckets' balance, and the value that is
-- found afterwards.
use opendht.Prelude.{
  ℕ, ◌+◌, ◌%◌, ◌<◌, ◌≡◌, ◌≢◌, refl, ap, ◌∙◌, subst, List, [], ◌∷◌, ◌++◌, Option, none, some, arith,
  ltb, length, All, All-append, All-map, inl, inr, Bool-cases, Option-cases, length-append, locate,
  locate-some, locate-none, All-around, ◌⊎◌, ltb→lt,
}
use opendht.Prelude.Words.{word, add_size-mod, add_diff, add_diff-mod}
use opendht.Prelude.Int.{pos, sub_ℕ}
use opendht.Time.{TimePoint}
use opendht.Hash.{Hash}
use opendht.Value.{Value}
use opendht.Value
use opendht.Storage.{
  ValueStorage, Storage, Shared, StoreResult, max_values, is_stored, store_again, store_new, store,
}
use opendht.Storage.Removal.{sum_size}
use opendht.Storage.Invariant.{
  ids, Distinct, charge, IsLinked, IsStorage, charge-append, sum_size-append, Distinct-around,
}
use opendht.Storage.Stores.{
  erased, inserted, erased_balance, inserted_balance, inserted_self, Distinct-snoc, ids-replace,
  not_stored, stored_id, keep_erased, keep_inserted,
}

module _ (key : Hash) (v : Value) (created expiration : TimePoint) (sb : Option ℕ) where
  abbrev pub fresh : ValueStorage
  fresh = record {
    stored = v;
    created = created;
    expiration = expiration;
    expiration_job = none;
    store_bucket = sb;
  }

  abbrev pub edited : ValueStorage → ValueStorage
  edited it = record it {
    stored = v;
    created = created;
    expiration = expiration;
    store_bucket = sb;
  }

  -- The three ways in which a storage comes out of `store`: as it was but for one `created`, with one
  -- value in the place of another of its id, or with one value more.
  pub data Stored (st : Storage) (sh : Shared) (r : StoreResult) : Type 0 where
    kept :
        r.shared ≡ sh
        → r.changed ≡ none
        → ((r.storage ≡ st)
            ⊎ ((a : List ValueStorage) × (it : ValueStorage) × (b : List ValueStorage) × (st.values
                  ≡ a ++ it ∷ b)
                × (r.storage ≡ record st { values = a ++ record it { created = created } ∷ b })))
        → Stored st sh r
    replaced :
        (a : List ValueStorage) (it : ValueStorage) (b : List ValueStorage)
        → st.values ≡ a ++ it ∷ b
        → it.stored.id ≡ v.id
        → r.changed ≡ some (length a)
        → r.storage ≡ record st {
          values = a ++ edited it ∷ b;
          total_size = add_diff st.total_size (sub_ℕ (Value.size v) (Value.size it.stored));
        }
        → r.shared ≡ inserted key v expiration sb (erased key it sh)
        → Stored st sh r
    appended :
        All (λ w. w.stored.id ≢ v.id) st.values
        → length st.values < max_values
        → r.changed ≡ some (length st.values)
        → r.storage ≡ record st {
          values = st.values ++ fresh ∷ [];
          total_size = add_diff st.total_size (pos (Value.size v));
        }
        → r.shared ≡ inserted key v expiration sb sh
        → Stored st sh r

  pub store-Stored :
      (st : Storage) (sh : Shared) → Stored st sh (store key v created expiration sb st sh)
  unfolding store
  store-Stored st sh = elim (Option-cases (locate (is_stored v) st.values)) [
    | inl e ↦
        rw (e, store)
          (elim (Bool-cases (ltb (length st.values) max_values)) [
            | inl room ↦
                unfold store_new inserted in
                rw room (
                  appended
                    (All-map st.values (not_stored v) (locate-none (is_stored v) st.values e))
                    (ltb→lt _ _ room) refl refl refl)
            | inr full ↦ unfold store_new in rw full (kept refl refl (inl refl))
          ])
    | inr ((a, it, b), e) ↦
        let found = locate-some (is_stored v) st.values a it b e in
        rw (e, store)
          (elim (Bool-cases (Value.same it.stored v)) [
            | inl same ↦
                unfold store_again in rw same (kept refl refl (inr (a, it, b, found.0, refl)))
            | inr other ↦
                unfold store_again inserted erased in
                rw other (replaced a it b found.0 (stored_id v it found.1 other) refl refl refl)
          ])
  ]

  Stored-IsStorage :
      (st : Storage) (sh : Shared) (r : StoreResult)
      → Stored st sh r
      → IsStorage key st sh
      → IsStorage key r.storage r.shared
  Stored-IsStorage st sh r (kept e _ (inl same)) h = rw (e, same) h
  Stored-IsStorage st sh r (kept e _ (inr (a, it, b, at, done))) h =
      rw (e, done)
        (record {
          sized =
              h.sized
              ∙ ap (λ (n : ℕ). n % word)
                  (unfold sum_size in
                    omega (
                      arith,
                      ap sum_size at,
                      sum_size-append a (it ∷ b),
                      sum_size-append a (record it { created = created } ∷ b),
                    ));
          distinct =
              subst Distinct (ap ids at ∙ ids-replace a b it (record it { created = created }) refl)
                h.distinct;
          linked =
              let around =
                All-around (IsLinked key sh) a it b (subst (All (IsLinked key sh)) at h.linked) in
              All-append (IsLinked key sh) a (record it { created = created } ∷ b) around.0
                (around.1, around.2);
          bounded = omega (
            arith,
            h.bounded,
            ap length at,
            length-append a (it ∷ b),
            length-append a (record it { created = created } ∷ b),
          );
        })
  Stored-IsStorage st sh r (replaced a it b at same _ done shared) h =
      let around =
        All-around (IsLinked key sh) a it b (subst (All (IsLinked key sh)) at h.linked) in
      let apart = Distinct-around a b it (subst (λ l. Distinct (ids l)) at h.distinct) in
      let cleared = erased key it sh in
      rw (done, shared)
        (record {
          sized =
              add_diff-mod st.total_size (Value.size v) (Value.size it.stored)
                (sum_size a + sum_size b)
                (h.sized
                  ∙ ap (λ (n : ℕ). n % word)
                      (unfold sum_size in
                        omega (arith, ap sum_size at, sum_size-append a (it ∷ b))))
              ∙ ap (λ (n : ℕ). n % word)
                  (unfold sum_size in omega (arith, sum_size-append a (edited it ∷ b)));
          distinct = subst Distinct (ap ids at ∙ ids-replace a b it (edited it) same) h.distinct;
          linked =
              All-append (IsLinked key (inserted key v expiration sb cleared)) a (edited it ∷ b)
                (keep_inserted key (edited it) cleared a (keep_erased key it sh a apart.0 around.0))
                (
                  inserted_self key (edited it) cleared,
                  keep_inserted key (edited it) cleared b
                      (keep_erased key it sh b apart.1 around.2),
                );
          bounded = omega (
            arith,
            h.bounded,
            ap length at,
            length-append a (it ∷ b),
            length-append a (edited it ∷ b),
          );
        })
  Stored-IsStorage st sh r (appended new room _ done shared) h =
      rw (done, shared)
        (record {
          sized =
              unfold add_diff in
              add_size-mod st.total_size (Value.size v) (sum_size st.values) h.sized
              ∙ ap (λ (n : ℕ). n % word)
                  (unfold sum_size in omega (arith, sum_size-append st.values (fresh ∷ [])));
          distinct = Distinct-snoc st.values fresh new h.distinct;
          linked =
              All-append (IsLinked key (inserted key v expiration sb sh)) st.values (fresh ∷ [])
                (keep_inserted key fresh sh st.values h.linked) (inserted_self key fresh sh, tt);
          bounded = omega (arith, room, length-append st.values (fresh ∷ []));
        })

  -- `store` keeps the invariant of the storage, on every branch.
  pub store-IsStorage :
      (st : Storage) (sh : Shared)
      → IsStorage key st sh
      → IsStorage key
          (store key v created expiration sb st sh).storage
          (store key v created expiration sb st sh).shared
  store-IsStorage st sh h = Stored-IsStorage st sh _ (store-Stored st sh) h

  Stored-balance :
      (st : Storage) (sh : Shared) (t : StoreResult) (r s : ℕ)
      → Stored st sh t
      → IsStorage key st sh
      → (sh.bucket r).total_size ≡ (s + charge r st.values) % word
      → (t.shared.bucket r).total_size ≡ (s + charge r t.storage.values) % word
  Stored-balance st sh t r s (kept e _ (inl same)) h bal = rw (e, same) bal
  Stored-balance st sh t r s (kept e _ (inr (a, it, b, at, done))) h bal =
      rw (e, done)
        (bal
          ∙ ap (λ (n : ℕ). n % word)
              (unfold charge in
                omega (
                  arith,
                  ap (charge r) at,
                  charge-append r a (it ∷ b),
                  charge-append r a (record it { created = created } ∷ b),
                )))
  Stored-balance st sh t r s (replaced a it b at same _ done shared) h bal =
      let around =
        All-around (IsLinked key sh) a it b (subst (All (IsLinked key sh)) at h.linked) in
      rw (done, shared)
        (inserted_balance key (edited it) (erased key it sh) r (s + (charge r a + charge r b)) (
            erased_balance key it sh r (s + (charge r a + charge r b)) around.1 (
              bal
              ∙ ap (λ (n : ℕ). n % word)
                  (unfold charge in omega (arith, ap (charge r) at, charge-append r a (it ∷ b)))))
          ∙ ap (λ (n : ℕ). n % word)
              (unfold charge in omega (arith, charge-append r a (edited it ∷ b))))
  Stored-balance st sh t r s (appended new room _ done shared) h bal =
      rw (done, shared)
        (inserted_balance key fresh sh r (s + charge r st.values) bal
          ∙ ap (λ (n : ℕ). n % word)
              (unfold charge in omega (arith, charge-append r st.values (fresh ∷ []))))

  -- `store` changes the size of each bucket by what the storage's values count there: if the size was
  -- that of the storage's values and s more, it still is, on every branch.
  pub store_balance :
      (st : Storage) (sh : Shared) (r s : ℕ)
      → IsStorage key st sh
      → (sh.bucket r).total_size ≡ (s + charge r st.values) % word
      → ((store key v created expiration sb st sh).shared.bucket r).total_size
        ≡ (s + charge r (store key v created expiration sb st sh).storage.values) % word
  store_balance st sh r s h bal = Stored-balance st sh _ r s (store-Stored st sh) h bal
