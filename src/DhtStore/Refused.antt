-- ===== src/DhtStore/Refused.antt =====
-- What `storageStore` leaves as it was where it answers `false`.
use opendht.Prelude.{
  ℕ, ◌≡◌, ◌∙◌, refl, ap, false, [], ◌∷◌, Option, none, some, arith, Bool, ltb, leb, min, length,
  inl, inr, Bool-cases, Option-cases, ◌⊎◌,
}
use opendht.Time.{TimePoint}
use opendht.Hash.{Hash}
use opendht.Hash
use opendht.Value.{Value, TypeStore}
use opendht.Storage.{Storage, StoreDiff, StoreResult, store, get_by_id}
use opendht.Storage.Lookup.{store_idle-lookup}
use opendht.DhtStore.{
  Stores, DhtStore, find_store, put_store, add_store, get_local_by_id, new_storage, is_over_limit,
  expire_store,
}
use opendht.DhtStore.Puts.{
  make_storage, reach_storage, quota_of, is_full_for, finish_store, store_into, count_stored,
  storage_store, expiration_of, refused,
}
use opendht.DhtStore.Counted.{find_store-add_store}
use opendht.DhtStore.Totals.{quota_of_keeps}

-- Two states in which the same values are found under k, with the same totals.
abbrev pub SameFor : Hash → DhtStore → DhtStore → Type 0
SameFor k s t =
    ((w : ℕ) → get_local_by_id k w t.stores ≡ get_local_by_id k w s.stores)
    × (t.total_size ≡ s.total_size)
    × (t.total_values ≡ s.total_values)

-- A key, or one that differs from it.
abbrev pub Separate : Hash → Hash → Type 0
Separate key k = (k ≡ key) ⊎ (Hash.equal key k ≡ false)

get_local_by_id-put_store :
    (key k : Hash) (w : ℕ) (st st' : Storage) (m : Stores)
    → find_store key m ≡ some st
    → get_by_id w st'.values ≡ get_by_id w st.values
    → get_local_by_id k w (put_store key st' m) ≡ get_local_by_id k w m
unfolding get_local_by_id find_store put_store
get_local_by_id-put_store key k w st st' [] e same = refl
get_local_by_id-put_store key k w st st' ((h, o) ∷ m) e same =
    elim (Bool-cases (Hash.equal h key)) [
      | inl hit ↦
          let here : o ≡ st = ground arith in
          elim (Bool-cases (Hash.equal h k)) [
            | inl found ↦ ground (arith, same, here)
            | inr other ↦ ground arith
          ]
      | inr miss ↦
          let there : find_store key m ≡ some st = ground arith in
          ground (arith, get_local_by_id-put_store key k w st st' m there same)
    ]

find_store-add_other :
    (key k : Hash) (st : Storage) (m : Stores)
    → Hash.equal key k ≡ false
    → find_store k (add_store key st m) ≡ find_store k m
unfolding find_store add_store
find_store-add_other key k st [] e = ground arith
find_store-add_other key k st ((h, o) ∷ m) e = ground (arith, find_store-add_other key k st m e)

added_lookup :
    (now : TimePoint) (key k : Hash) (w : ℕ) (m : Stores)
    → find_store key m ≡ none
    → Separate key k
    → get_local_by_id k w (add_store key (new_storage now) m) ≡ get_local_by_id k w m
unfolding get_local_by_id get_by_id
added_lookup now key k w m absent (inl same) = rw same (
    rw (get_local_by_id, find_store-add_store key (new_storage now) m absent)
      (rw (get_local_by_id, absent) refl))
added_lookup now key k w m absent (inr other) =
    rw (get_local_by_id, find_store-add_other key k (new_storage now) m other) refl

module _ (key_id : ℕ → Hash) (types : TypeStore) (rounds : ℕ) (now : TimePoint) where
  finish_store-takes :
      (key : Hash) (v : Value) (diff : StoreDiff) (s : DhtStore)
      → (finish_store key_id rounds now key v diff s).2 ≡ refused
      → ⊥
  unfolding finish_store
  finish_store-takes key v diff s e = elim (Bool-cases (is_over_limit s)) [
    | inr below ↦ elim (Option-cases (find_store key s.stores)) [
      | inl absent ↦ ground arith
      | inr (st, there) ↦ ground arith
    ]
    | inl above ↦ elim (Bool-cases (expire_store rounds now s).2) [
      | inr runs ↦ ground arith
      | inl ended ↦ elim (Option-cases (find_store key (expire_store rounds now s).0.stores)) [
        | inl absent ↦ ground arith
        | inr (st, there) ↦ ground arith
      ]
    ]
  ]

  store_into-refused :
      (key k : Hash) (v : Value) (created : TimePoint) (sa : Option ℕ) (permanent : Bool)
      (expiration : TimePoint) (job : ℕ) (st : Storage) (s : DhtStore)
      → find_store key s.stores ≡ some st
      → (store_into key_id types rounds now key v created sa permanent expiration job st s).2
        ≡ refused
      → SameFor k s
          (store_into key_id types rounds now key v created sa permanent expiration job st s).0
  unfolding store_into
  store_into-refused key k v created sa permanent expiration job st s e denied =
      let s1 : DhtStore = (quota_of sa s).0 in
      let (stores, size, amount) = quota_of_keeps sa s in
      let e1 : find_store key s1.stores ≡ some st = ap (find_store key) stores ∙ e in
      let r : ℕ = (quota_of sa s).1 in
      elim (Bool-cases (is_full_for sa v s1)) [
        | inl full ↦ rw (store_into, full) ((λ w. rw stores refl), size, amount)
        | inr room ↦
            elim (Option-cases (store key v created expiration (some r) st s1.shared).changed) [
              | inl idle ↦
                  let result : StoreResult = store key v created expiration (some r) st s1.shared in
                  rw (store_into, room)
                    (rw idle (
                      (λ w.
                          get_local_by_id-put_store key k w st result.storage s1.stores e1 (
                            store_idle-lookup key v created expiration (some r) st s1.shared w idle)
                          ∙ ap (get_local_by_id k w) stores),
                      size,
                      amount,
                    ))
              | inr (place, changed) ↦
                  let result : StoreResult = store key v created expiration (some r) st s1.shared in
                  absurd (
                    finish_store-takes key v result.diff
                      (count_stored key place permanent job result s1)
                      (ground (arith, denied, room, changed)))
            ]
      ]

  -- Where `storageStore` answers `false`, as the value is too old, as there are too many keys or local
  -- bytes, or as the storage has the value or is full, every id finds under the key, and under every
  -- key that differs from it, the value that it found before, and the totals are as before.
  pub storage_store-refused :
      (key k : Hash) (v : Value) (created : TimePoint) (sa : Option ℕ) (permanent : Bool)
      (expiration : TimePoint) (job : ℕ) (s : DhtStore)
      → Separate key k
      → (storage_store key_id types rounds now key v created sa permanent expiration job s).2
        ≡ refused
      → SameFor k s
          (storage_store key_id types rounds now key v created sa permanent expiration job s).0
  unfolding storage_store reach_storage make_storage
  storage_store-refused key k v created sa permanent expiration job s apart denied =
      let since : TimePoint = min created now in
      let until : TimePoint = expiration_of types since v permanent expiration in
      elim (Bool-cases (ltb until now)) [
        | inl late ↦ rw (storage_store, late) ((λ w. refl), refl, refl)
        | inr timely ↦ elim (Option-cases (find_store key s.stores)) [
          | inr (st, e) ↦
              let here : (store_into key_id types rounds now key v since sa permanent until job st
                    s).2
                  ≡ refused =
                ground (arith, denied, timely, e) in
              rw (storage_store, timely)
                (rw (e, reach_storage)
                  (store_into-refused key k v since sa permanent until job st s e here))
          | inl absent ↦ elim (Bool-cases (leb s.max_keys (length s.stores))) [
            | inl full ↦
                rw (storage_store, timely)
                  (rw (absent, reach_storage) (rw full ((λ w. refl), refl, refl)))
            | inr room ↦
                let s1 : DhtStore = record s {
                  stores = add_store key (new_storage now) s.stores;
                } in
                let here : (store_into key_id types rounds now key v since sa permanent until job
                      (new_storage now) s1).2
                    ≡ refused =
                  ground (arith, denied, timely, absent, room) in
                let (same, size, amount) =
                  store_into-refused key k v since sa permanent until job (new_storage now) s1
                    (find_store-add_store key (new_storage now) s.stores absent) here in
                rw (storage_store, timely)
                  (rw (absent, reach_storage)
                    (rw room (
                      (λ w. same w ∙ added_lookup now key k w s.stores absent apart),
                      size,
                      amount,
                    )))
          ]
        ]
      ]
