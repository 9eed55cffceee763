-- ===== src/DhtStore/Totals.antt =====
-- `storageStore` and `storageAddListener` keep the totals.
use opendht.Prelude.{
  ℕ, ◌%◌, ◌≡◌, ◌∙◌, refl, ap, sym, subst, Bool, Option, none, some, arith, ltb, leb, min, length,
  inl, inr, Bool-cases, Option-cases, if◌then◌else◌,
}
use opendht.Prelude.Words.{word, add_diff}
use opendht.Prelude.Map
use opendht.Time.{TimePoint}
use opendht.Hash.{Hash}
use opendht.Value.{Value, TypeStore}
use opendht.Query.{Query}
use opendht.Storage.{Storage, StoreResult, StoreDiff, store}
use opendht.Storage.Removal.{sum_size}
use opendht.DhtStore.{
  DhtStore, find_store, put_store, add_store, new_storage, is_over_limit, expire_store,
}
use opendht.DhtStore.Puts.{
  make_storage, reach_storage, quota_of, has_quota, is_full_for, set_job, count_stored,
  finish_store, store_into, storage_store, expiration_of, reach_listened, storage_add_listener,
  listeners_of,
}
use opendht.DhtStore.Counted.{bytes, amount, total_by-add_store, find_store-add_store, set_job_sums}
use opendht.DhtStore.Measured.{
  find_store-IsMeasured, put_store-EachMeasured, add_store-EachMeasured, store-IsMeasured,
}
use opendht.DhtStore.Effects.{store_sums, store_idle, follow, Follows}
use opendht.DhtStore.Counts.{IsCounted, restate, rewritten, expire_store-IsCounted}

-- A storage that is added has no values.
pub added-IsCounted :
    (now : TimePoint) (key : Hash) (s : DhtStore)
    → IsCounted s
    → IsCounted (record s { stores = add_store key (new_storage now) s.stores })
unfolding sum_size
added-IsCounted now key s h = record {
  sized =
      h.sized
      ∙ ap (λ (n : ℕ). n % word)
          (omega (arith, total_by-add_store bytes key (new_storage now) s.stores));
  counted =
      h.counted
      ∙ ap (λ (n : ℕ). n % word)
          (omega (arith, total_by-add_store amount key (new_storage now) s.stores));
  each = add_store-EachMeasured key (new_storage now) s.stores (omega arith) h.each;
}

pub quota_of_keeps :
    (sa : Option ℕ) (s : DhtStore)
    → ((quota_of sa s).0.stores ≡ s.stores)
      × ((quota_of sa s).0.total_size ≡ s.total_size)
      × ((quota_of sa s).0.total_values ≡ s.total_values)
unfolding quota_of
quota_of_keeps none s = (refl, refl, refl)
quota_of_keeps (some ip) s = elim (Bool-cases (has_quota ip s.quotas)) [
  | inl there ↦ rw there (refl, refl, refl)
  | inr new ↦ rw new (refl, refl, refl)
]

count_stored-IsCounted :
    (key : Hash) (v : Value) (created expiration : TimePoint) (r place job : ℕ) (permanent : Bool)
    (st : Storage) (s : DhtStore)
    → find_store key s.stores ≡ some st
    → (store key v created expiration (some r) st s.shared).changed ≡ some place
    → IsCounted s
    → IsCounted (
        count_stored key place permanent job
          (store key v created expiration (some r) st s.shared)
          s)
unfolding count_stored
count_stored-IsCounted key v created expiration r place job permanent st s e changed h =
    let result : StoreResult = store key v created expiration (some r) st s.shared in
    let next : Option ℕ = if permanent then none else some job in
    let (b, a) = store_sums key v created expiration (some r) st s.shared place changed in
    let (same_bytes, same_amount) = set_job_sums place next result.storage.values in
    let st' : Storage = record result.storage {
      values = set_job place next result.storage.values;
    } in
    record {
      sized =
          follow bytes key s.stores st st' s.total_size (λ t. add_diff t result.diff.size_diff) e
            (subst (λ n. Follows (bytes st) n (λ t. add_diff t result.diff.size_diff))
              (sym same_bytes) b)
            h.sized;
      counted =
          follow amount key s.stores st st' s.total_values (λ t. add_diff t result.diff.values_diff)
            e
            (subst (λ n. Follows (amount st) n (λ t. add_diff t result.diff.values_diff))
              (sym same_amount) a)
            h.counted;
      each =
          put_store-EachMeasured key st' s.stores
            (store-IsMeasured key v created expiration (some r) st s.shared
                (find_store-IsMeasured key s.stores st e h.each)
              ∙ ap (λ (n : ℕ). n % word) (sym same_bytes))
            h.each;
    }

module _ (key_id : ℕ → Hash) (types : TypeStore) (rounds : ℕ) (now : TimePoint) where
  finish_store-IsCounted :
      (key : Hash) (v : Value) (diff : StoreDiff) (s : DhtStore)
      → IsCounted s
      → IsCounted (finish_store key_id rounds now key v diff s).0
  unfolding finish_store
  finish_store-IsCounted key v diff s h = elim (Bool-cases (is_over_limit s)) [
    | inr below ↦ elim (Option-cases (find_store key s.stores)) [
      | inl absent ↦ rw (finish_store, below) (rw absent h)
      | inr (st, e) ↦ rw (finish_store, below) (rw e h)
    ]
    | inl above ↦
        let s' : DhtStore = (expire_store rounds now s).0 in
        let h' = expire_store-IsCounted rounds now s h in
        elim (Bool-cases (expire_store rounds now s).2) [
          | inr runs ↦ rw (finish_store, above) (rw runs h')
          | inl ended ↦ elim (Option-cases (find_store key s'.stores)) [
            | inl absent ↦ rw (finish_store, above) (rw ended (rw absent h'))
            | inr (st, e) ↦ rw (finish_store, above) (rw ended (rw e h'))
          ]
        ]
  ]

  store_into-IsCounted :
      (key : Hash) (v : Value) (created : TimePoint) (sa : Option ℕ) (permanent : Bool)
      (expiration : TimePoint) (job : ℕ) (st : Storage) (s : DhtStore)
      → find_store key s.stores ≡ some st
      → IsCounted s
      → IsCounted
          (store_into key_id types rounds now key v created sa permanent expiration job st s).0
  unfolding store_into
  store_into-IsCounted key v created sa permanent expiration job st s e h =
      let s1 : DhtStore = (quota_of sa s).0 in
      let (stores, size, amount_) = quota_of_keeps sa s in
      let h1 = restate s s1 stores size amount_ h in
      let e1 : find_store key s1.stores ≡ some st = ap (find_store key) stores ∙ e in
      let r : ℕ = (quota_of sa s).1 in
      elim (Bool-cases (is_full_for sa v s1)) [
        | inl full ↦ rw (store_into, full) h1
        | inr room ↦
            elim (Option-cases (store key v created expiration (some r) st s1.shared).changed) [
              | inl idle ↦
                  let (b, a) = store_idle key v created expiration (some r) st s1.shared idle in
                  rw (store_into, room)
                    (rw idle (
                      rewritten key s1 st
                        (store key v created expiration (some r) st s1.shared).storage
                        (store key v created expiration (some r) st s1.shared).shared e1 b a
                        (store-IsMeasured key v created expiration (some r) st s1.shared) h1))
              | inr (place, changed) ↦
                  let result : StoreResult = store key v created expiration (some r) st s1.shared in
                  rw (store_into, room)
                    (rw changed (
                      finish_store-IsCounted key v result.diff
                        (count_stored key place permanent job result s1)
                        (count_stored-IsCounted key v created expiration r place job permanent st s1
                          e1 changed h1)))
            ]
      ]

  pub storage_store-IsCounted :
      (key : Hash) (v : Value) (created : TimePoint) (sa : Option ℕ) (permanent : Bool)
      (expiration : TimePoint) (job : ℕ) (s : DhtStore)
      → IsCounted s
      → IsCounted
          (storage_store key_id types rounds now key v created sa permanent expiration job s).0
  unfolding storage_store reach_storage make_storage
  storage_store-IsCounted key v created sa permanent expiration job s h =
      let since : TimePoint = min created now in
      let until : TimePoint = expiration_of types since v permanent expiration in
      elim (Bool-cases (ltb until now)) [
        | inl late ↦ rw (storage_store, late) h
        | inr timely ↦ elim (Option-cases (find_store key s.stores)) [
          | inr (st, e) ↦
              rw (storage_store, timely)
                (rw (e, reach_storage)
                  (store_into-IsCounted key v since sa permanent until job st s e h))
          | inl absent ↦ elim (Bool-cases (leb s.max_keys (length s.stores))) [
            | inl full ↦ rw (storage_store, timely) (rw (absent, reach_storage) (rw full h))
            | inr room ↦
                rw (storage_store, timely)
                  (rw (absent, reach_storage)
                    (rw room (
                      store_into-IsCounted key v since sa permanent until job (new_storage now)
                        (record s { stores = add_store key (new_storage now) s.stores })
                        (find_store-add_store key (new_storage now) s.stores absent)
                        (added-IsCounted now key s h))))
          ]
        ]
      ]

pub set_listeners :
    (key : Hash) (s : DhtStore) (st st' : Storage)
    → find_store key s.stores ≡ some st
    → st'.values ≡ st.values
    → st'.total_size ≡ st.total_size
    → IsCounted s
    → IsCounted (record s { stores = put_store key st' s.stores })
set_listeners key s st st' e same size h =
    rewritten key s st st' s.shared e (ap sum_size same) (ap length same)
      (λ m. size ∙ m ∙ ap (λ vs. sum_size vs % word) (sym same)) h

pub storage_add_listener-IsCounted :
    (key_id : ℕ → Hash) (now : TimePoint) (key : Hash) (node socket : ℕ) (q : Query) (version : ℕ)
    (s : DhtStore)
    → IsCounted s
    → IsCounted (storage_add_listener key_id now key node socket q version s).0
unfolding storage_add_listener reach_listened
storage_add_listener-IsCounted key_id now key node socket q version s h =
    elim (Option-cases (find_store key s.stores)) [
      | inr (st, e) ↦ elim (Option-cases (Map.find socket (listeners_of node st.listeners))) [
        | inl new ↦ rw (storage_add_listener, e) (rw new (set_listeners key s st _ e refl refl h))
        | inr (old, there) ↦
            rw (storage_add_listener, e) (rw there (set_listeners key s st _ e refl refl h))
      ]
      | inl absent ↦ elim (Bool-cases (leb s.max_keys (length s.stores))) [
        | inl full ↦ rw (storage_add_listener, absent) (rw full h)
        | inr room ↦
            let found = find_store-add_store key (new_storage now) s.stores absent in
            rw (storage_add_listener, absent)
              (rw room (
                set_listeners key (record s { stores = add_store key (new_storage now) s.stores })
                  (new_storage now) _ found refl refl (added-IsCounted now key s h)))
      ]
    ]
