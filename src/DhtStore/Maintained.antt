-- ===== src/DhtStore/Maintained.antt =====
-- `maintainStorage`, `dataPersistence`, `shutdown`'s loop, `storageRefresh`, `listen` and `cancelListen` keep the
-- totals.
use opendht.Prelude.{
  ℕ, ◌+◌, ◌%◌, ◌≡◌, ◌∙◌, refl, ap, sym, Bool, true, false, not, ◌&&◌, List, [], ◌∷◌, none, some,
  arith, ltb, leb, length, length-append, ◌==◌, inl, inr, Bool-cases, Option-cases, locate,
  if◌then◌else◌, locate-some,
}
use opendht.Prelude.Words.{word, add_diff, add_diff-mod}
use opendht.Prelude.Int.{sub_ℕ}
use opendht.Time.{TimePoint, time_max}
use opendht.Hash.{Hash}
use opendht.Value.{TypeStore}
use opendht.Storage.{LocalListener, Storage, Shared, listen, cancel_listen}
use opendht.Storage.Removal.{has_id, clear, refresh, sum_size}
use opendht.Storage.Invariant.{sum_size-append}
use opendht.RoutingTable.{Bucket, Heap}
use opendht.DhtStore.{Stores, DhtStore, find_store, put_store, add_store, new_storage}
use opendht.DhtStore.Counted.{bytes, amount, find_store-add_store, set_job_sums}
use opendht.DhtStore.Measured.{IsMeasured, find_store-IsMeasured, put_store-EachMeasured}
use opendht.DhtStore.Effects.{follow}
use opendht.DhtStore.Counts.{IsCounted, rewritten}
use opendht.DhtStore.Totals.{added-IsCounted, set_listeners}
use opendht.DhtStore.Maintain.{
  max_storage_maintenance_expire_time, maintain_family, maintain_storage, maintain_next,
  data_persistence, maintain_each, storage_refresh, reach_local, listen_local, cancel_local,
}

-- `clear` takes out what it says, if the size of the storage is that of its values.
cleared-IsCounted :
    (key : Hash) (st : Storage) (s : DhtStore)
    → find_store key s.stores ≡ some st
    → IsCounted s
    → IsCounted (record s {
      stores = put_store key (clear key st s.shared).0 s.stores;
      shared = (clear key st s.shared).1;
      total_size = add_diff s.total_size (clear key st s.shared).2.size_diff;
      total_values = add_diff s.total_values (clear key st s.shared).2.values_diff;
    })
unfolding clear sum_size
cleared-IsCounted key st s e h =
    let measured : IsMeasured st = find_store-IsMeasured key s.stores st e h.each in
    let st' : Storage = (clear key st s.shared).0 in
    record {
      sized =
          follow bytes key s.stores st st' s.total_size (λ t. add_diff t (sub_ℕ 0 st.total_size)) e
            (λ t rest eq. add_diff-mod t 0 st.total_size rest (omega (arith, eq, measured)))
            h.sized;
      counted =
          follow amount key s.stores st st' s.total_values
            (λ t. add_diff t (sub_ℕ 0 (length st.values))) e
            (λ t rest eq. add_diff-mod t 0 (length st.values) rest eq) h.counted;
      each = put_store-EachMeasured key st' s.stores (omega arith) h.each;
    }

module _ (types : TypeStore) (heap : Heap) (buckets4 buckets6 : List Bucket) (my_id : Hash)
    (now : TimePoint) where
  maintain_storage-IsCounted :
      (force : Bool) (key : Hash) (st : Storage) (s : DhtStore)
      → find_store key s.stores ≡ some st
      → IsCounted s
      → IsCounted (maintain_storage types heap buckets4 buckets6 my_id now force key st s).0
  unfolding maintain_storage
  maintain_storage-IsCounted force key st s e h =
      let want4 : Bool =
        (maintain_family types heap buckets4 buckets6 my_id now force key false buckets4
          st.values).0 in
      let want6 : Bool =
        (maintain_family types heap buckets4 buckets6 my_id now force key true buckets6
          st.values).0 in
      elim (Bool-cases (not want4 && not want6)) [
        | inl unwanted ↦ rw (maintain_storage, unwanted) (cleared-IsCounted key st s e h)
        | inr wanted ↦ rw (maintain_storage, wanted) h
      ]

  maintain_next-IsCounted :
      (key : Hash) (time : TimePoint) (s : DhtStore)
      → IsCounted s
      → IsCounted (maintain_next types heap buckets4 buckets6 my_id now key time s)
  unfolding maintain_next
  maintain_next-IsCounted key time s h = elim (Option-cases (find_store key s.stores)) [
    | inl absent ↦ rw (absent, maintain_next) h
    | inr (st, e) ↦
        rw (e, maintain_next)
          (set_listeners key s st (record st { maintenance_time = time }) e refl refl h)
  ]

  pub data_persistence-IsCounted :
      (key : Hash) (s : DhtStore)
      → IsCounted s
      → IsCounted (data_persistence types heap buckets4 buckets6 my_id now key s).0
  unfolding data_persistence
  data_persistence-IsCounted key s h = elim (Option-cases (find_store key s.stores)) [
    | inl absent ↦ rw (absent, data_persistence) h
    | inr (st, e) ↦ elim (Bool-cases (ltb st.maintenance_time now)) [
      | inr early ↦ rw (data_persistence, e) (rw early h)
      | inl due ↦
          rw (data_persistence, e)
            (rw due (
              maintain_next-IsCounted key _
                (maintain_storage types heap buckets4 buckets6 my_id now false key st s).0
                (maintain_storage-IsCounted false key st s e h)))
    ]
  ]

  pub maintain_each-IsCounted :
      (m : Stores) (s : DhtStore)
      → IsCounted s
      → IsCounted (maintain_each types heap buckets4 buckets6 my_id now m s).0
  unfolding maintain_each
  maintain_each-IsCounted [] s h = h
  maintain_each-IsCounted ((key, _) ∷ m) s h = elim (Option-cases (find_store key s.stores)) [
    | inl absent ↦ rw (maintain_each, absent) (maintain_each-IsCounted m s h)
    | inr (st, e) ↦
        rw (maintain_each, e)
          (maintain_each-IsCounted m
            (maintain_storage types heap buckets4 buckets6 my_id now true key st s).0
            (maintain_storage-IsCounted true key st s e h))
  ]

-- `refresh` keeps the sizes.
refresh_sums :
    (key : Hash) (now : TimePoint) (vid : ℕ) (types : TypeStore) (st : Storage) (sh : Shared)
    → (sum_size (refresh key now vid types st sh).0.values ≡ sum_size st.values)
      × (length (refresh key now vid types st sh).0.values ≡ length st.values)
      × ((refresh key now vid types st sh).0.total_size ≡ st.total_size)
unfolding refresh
refresh_sums key now vid types st sh = elim (Option-cases (locate (has_id vid) st.values)) [
  | inl absent ↦ rw (refresh, absent) (refl, refl, refl)
  | inr ((a, vs, b), e) ↦
      let (at, _) = locate-some (has_id vid) st.values a vs b e in
      rw (refresh, e)
        (
          unfold sum_size in
              omega (arith, ap sum_size at, sum_size-append a (vs ∷ b), sum_size-append a (_ ∷ b)),
          omega (arith, ap length at, length-append a (vs ∷ b), length-append a (_ ∷ b)),
          refl,
        )
]

pub storage_refresh-IsCounted :
    (types : TypeStore) (now : TimePoint) (key : Hash) (vid job : ℕ) (s : DhtStore)
    → IsCounted s
    → IsCounted (storage_refresh types now key vid job s).0
unfolding storage_refresh
storage_refresh-IsCounted types now key vid job s h =
    elim (Option-cases (find_store key s.stores)) [
      | inl absent ↦ rw (storage_refresh, absent) h
      | inr (st, e) ↦
          let st' : Storage = (refresh key now vid types st s.shared).0 in
          let (b, a, size) = refresh_sums key now vid types st s.shared in
          elim (Option-cases (refresh key now vid types st s.shared).2) [
            | inl unknown ↦
                rw (storage_refresh, e)
                  (rw unknown (
                    rewritten key s st st' (refresh key now vid types st s.shared).1 e b a
                      (λ m. size ∙ m ∙ ap (λ (n : ℕ). n % word) (sym b)) h))
            | inr (n, place) ↦
                let (b', a') =
                  set_job_sums n
                    (if (refresh key now vid types st s.shared).3 == time_max
                      then none
                      else some job)
                    st'.values in
                rw (storage_refresh, e)
                  (rw place (
                    rewritten key s st _ _ e (b' ∙ b) (a' ∙ a)
                      (λ m. size ∙ m ∙ ap (λ (n : ℕ). n % word) (sym (b' ∙ b))) h))
          ]
    ]

listen_keeps :
    (st : Storage) (l : LocalListener)
    → ((listen st l).0.values ≡ st.values) × ((listen st l).0.total_size ≡ st.total_size)
unfolding listen
listen_keeps st l = ground arith

pub listen_local-IsCounted :
    (now : TimePoint) (key : Hash) (l : LocalListener) (s : DhtStore)
    → IsCounted s
    → IsCounted (listen_local now key l s).0
unfolding listen_local reach_local
listen_local-IsCounted now key l s h =
    let new : Storage = new_storage (now + max_storage_maintenance_expire_time) in
    elim (Option-cases (find_store key s.stores)) [
      | inr (st, e) ↦
          let (values, size) = listen_keeps st l in
          rw (listen_local, reach_local, e) (set_listeners key s st _ e values size h)
      | inl absent ↦ elim (Bool-cases (leb s.max_keys (length s.stores))) [
        | inl full ↦ rw (listen_local, reach_local, absent) (rw full h)
        | inr room ↦
            let (values, size) = listen_keeps new l in
            rw (listen_local, reach_local, absent)
              (rw room (
                set_listeners key (record s { stores = add_store key new s.stores }) new _
                  (find_store-add_store key new s.stores absent) values size
                  (added-IsCounted (now + max_storage_maintenance_expire_time) key s h)))
      ]
    ]

pub cancel_local-IsCounted :
    (key : Hash) (token : ℕ) (s : DhtStore) → IsCounted s → IsCounted (cancel_local key token s)
unfolding cancel_local cancel_listen
cancel_local-IsCounted key token s h = elim (Bool-cases (token == 0)) [
  | inl idle ↦ rw (cancel_local, idle) h
  | inr set ↦ elim (Option-cases (find_store key s.stores)) [
    | inl absent ↦ rw (cancel_local, set) (rw absent h)
    | inr (st, e) ↦
        rw (cancel_local, set)
          (rw e (set_listeners key s st (cancel_listen st token) e refl refl h))
  ]
]
