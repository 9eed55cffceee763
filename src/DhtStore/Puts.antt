-- ===== src/DhtStore/Puts.antt =====
-- src/dht.cpp: `storageStore` and `storageAddListener`, and how `cancelPut` takes a value out.
use opendht.Prelude.{
  ℕ, zero, suc, Bool, true, false, ◌&&◌, ◌||◌, not, List, [], ◌∷◌, ◌++◌, Option, none, some, ltb,
  leb, ◌==◌, if◌then◌else◌, length, min, ◌+◌,
}
use opendht.Prelude.Int.{ℤ, pos, negsuc}
use opendht.Prelude.Words.{add_size, add_diff}
use opendht.Prelude.Map.{Map}
use opendht.Prelude.Map
use opendht.Time.{TimePoint, time_min, time_max}
use opendht.Hash.{Hash}
use opendht.Value.{Value, TypeStore, type_expiration}
use opendht.Value
use opendht.Query.{Query, get_filter}
use opendht.Storage.{
  ValueStorage, Listener, Storage, Shared, StoreDiff, StoreResult, get, cancel_job, store,
}
use opendht.Storage.Bucket
use opendht.Storage.Removal.{remove}
use opendht.DhtStore.{
  Notice, tell_values, maintain_at, DhtStore, find_store, put_store, add_store, new_storage,
  storage_changed, storage_removed, is_over_limit, expire_store,
}

abbrev pub storage_limit_unlimited : ℕ
storage_limit_unlimited = 18446744073709551615

-- Where a key is not there: its new storage, unless there are too many.
unfoldable pub make_storage : TimePoint → Hash → DhtStore → Option (DhtStore × List Notice)
unfolding add_store
make_storage now key s =
    if leb s.max_keys (length s.stores)
    then none
    else some (
      record s { stores = add_store key (new_storage now) s.stores },
      if s.maintain_storage then maintain_at key now ∷ [] else [],
    )

-- The storage of the key, as `storageStore` and the notices find it.
unfoldable pub reach_storage :
    TimePoint → Hash → DhtStore → Option (Storage × DhtStore × List Notice)
unfolding find_store make_storage
reach_storage now key s = elim (find_store key s.stores) [
  | some st ↦ some (st, s, [])
  | none ↦ elim (make_storage now key s) [
    | none ↦ none
    | some (s', told) ↦ some (new_storage now, s', told)
  ]
]

unfoldable pub insert_quota : ℕ → List ℕ → List ℕ
insert_quota ip [] = ip ∷ []
insert_quota ip (i ∷ is) = if ltb ip i then ip ∷ i ∷ is else i ∷ insert_quota ip is

abbrev pub has_quota : ℕ → List ℕ → Bool
has_quota ip [] = false
has_quota ip (i ∷ is) = i == ip || has_quota ip is

-- The bucket of an address, or the local one: store_quota.try_emplace.
unfoldable pub quota_of : Option ℕ → DhtStore → DhtStore × ℕ
unfolding insert_quota
quota_of none s = (s, 0)
quota_of (some ip) s = if has_quota ip s.quotas then (s, suc ip) else (
  record s {
    quotas = insert_quota ip s.quotas;
    shared = record s.shared {
      bucket = λ k. if k == suc ip then Bucket.empty else s.shared.bucket k;
    };
  },
  suc ip,
)

unfoldable pub is_full_for : Option ℕ → Value → DhtStore → Bool
unfolding Value.size add_size
is_full_for (some ip) v s = false
is_full_for none v s =
    not (s.max_local == storage_limit_unlimited)
    && ltb s.max_local (add_size (s.shared.bucket 0).total_size (Value.size v))

-- The entry at a place.
unfoldable pub job_at : ℕ → List ValueStorage → Option ℕ
job_at n [] = none
job_at zero (vs ∷ rest) = vs.expiration_job
job_at (suc n) (vs ∷ rest) = job_at n rest

unfoldable pub set_job : ℕ → Option ℕ → List ValueStorage → List ValueStorage
set_job n j [] = []
set_job zero j (vs ∷ rest) = record vs { expiration_job = j } ∷ rest
set_job (suc n) j (vs ∷ rest) = vs ∷ set_job n j rest

-- What the caller of `storageStore` gets: `false`, `true`, or nothing, as the loops of `expireStore` have
-- not ended, or as `expireStore` has erased the storage that is then used.
pub data Outcome : Type 0 where
  refused accepted running dangling : Outcome

abbrev pub is_positive : ℤ → Bool
is_positive (pos n) = ltb 0 n
is_positive (negsuc n) = false

-- The expiration of a value that is stored.
unfoldable pub expiration_of : TypeStore → TimePoint → Value → Bool → TimePoint → TimePoint
unfolding type_expiration
expiration_of types created v permanent expiration =
    if expiration == time_min
    then if permanent then time_max else created + type_expiration types v.type
    else expiration

-- The totals and the job of the value, after Storage::store. A job that the scheduler cancels is gone.
unfoldable pub count_stored : Hash → ℕ → Bool → ℕ → StoreResult → DhtStore → DhtStore
unfolding put_store add_diff job_at set_job cancel_job
count_stored key place permanent job r s =
    let next : Option ℕ = if permanent then none else some job in
    let sh : Shared = cancel_job (job_at place r.storage.values) r.shared in
    record s {
      stores =
          put_store key (record r.storage { values = set_job place next r.storage.values })
            s.stores;
      shared =
          if permanent
          then sh
          else record sh { has_task = λ k. if k == job then true else sh.has_task k };
      total_size = add_diff s.total_size r.diff.size_diff;
      total_values = add_diff s.total_values r.diff.values_diff;
    }

-- The end of `storageStore`: old values go if there are too many bytes, and listeners are told.
unfoldable pub finish_store :
    (ℕ → Hash)
    → ℕ
    → TimePoint
    → Hash
    → Value
    → StoreDiff
    → DhtStore
    → DhtStore × List Notice × Outcome
unfolding is_over_limit expire_store find_store storage_changed
finish_store key_id rounds now key v diff s =
    let new_value : Bool = is_positive diff.values_diff || ltb 0 diff.edited_values in
    elim (is_over_limit s) [
      | false ↦ elim (find_store key s.stores) [
        | none ↦ (s, [], dangling)
        | some st ↦ (s, storage_changed key_id key st v new_value, accepted)
      ]
      | true ↦
          let (s', told, ended) = expire_store rounds now s in
          elim ended [
            | false ↦ (s', told, running)
            | true ↦ elim (find_store key s'.stores) [
              | none ↦ (s', told, dangling)
              | some st ↦ (s', told ++ storage_changed key_id key st v new_value, accepted)
            ]
          ]
    ]

module _ (key_id : ℕ → Hash) (types : TypeStore) (rounds : ℕ) (now : TimePoint) where
  -- `storageStore` where the key's storage is there.
  unfoldable pub store_into :
      Hash
      → Value
      → TimePoint
      → Option ℕ
      → Bool
      → TimePoint
      → ℕ
      → Storage
      → DhtStore
      → DhtStore × List Notice × Outcome
  unfolding quota_of is_full_for store put_store count_stored finish_store
  store_into key v created sa permanent expiration job st s =
      let (s1, r) = quota_of sa s in
      elim (is_full_for sa v s1) [
        | true ↦ (s1, [], refused)
        | false ↦
            let result = store key v created expiration (some r) st s1.shared in
            elim result.changed [
              | none ↦ (
                record s1 {
                  stores = put_store key result.storage s1.stores;
                  shared = result.shared;
                },
                [],
                refused,
              )
              | some place ↦
                  finish_store key_id rounds now key v result.diff
                    (count_stored key place permanent job result s1)
            ]
      ]

  -- `storageStore`. `job` is the address of the job that the scheduler makes.
  unfoldable pub storage_store :
      Hash
      → Value
      → TimePoint
      → Option ℕ
      → Bool
      → TimePoint
      → ℕ
      → DhtStore
      → DhtStore × List Notice × Outcome
  unfolding expiration_of reach_storage store_into
  storage_store key v created sa permanent expiration job s =
      let since = min created now in
      let until = expiration_of types since v permanent expiration in
      elim (ltb until now) [
        | true ↦ (s, [], refused)
        | false ↦ elim (reach_storage now key s) [
          | none ↦ (s, [], refused)
          | some (st, s1, told) ↦
              let (s2, more, outcome) = store_into key v since sa permanent until job st s1 in
              (s2, told ++ more, outcome)
        ]
      ]

-- The storage that `storageAddListener` finds or makes; it is not maintained.
unfoldable pub reach_listened : TimePoint → Hash → DhtStore → Option (Storage × DhtStore)
unfolding find_store add_store
reach_listened now key s = elim (find_store key s.stores) [
  | some st ↦ some (st, s)
  | none ↦
      if leb s.max_keys (length s.stores)
      then none
      else some (new_storage now, record s { stores = add_store key (new_storage now) s.stores })
]

abbrev pub listeners_of : ℕ → Map (Map Listener) → Map Listener
listeners_of node ls = elim (Map.find node ls) [ none ↦ [] | some m ↦ m ]

-- `storageAddListener`, for the node, its socket, the query and its version.
unfoldable pub storage_add_listener :
    (ℕ → Hash) → TimePoint → Hash → ℕ → ℕ → Query → ℕ → DhtStore → DhtStore × List Notice
unfolding reach_listened Map.find Map.emplace Map.assign Map.update get get_filter put_store
storage_add_listener key_id now key node socket q version s = elim (reach_listened now key s) [
  | none ↦ (s, [])
  | some (st, s1) ↦
      let mine = listeners_of node st.listeners in
      elim (Map.find socket mine) [
        | none ↦
            let vals = get (get_filter key_id q.restriction) st.values in
            let l : Listener = record { time = now; query = q; version = version } in
            let st' : Storage = record st {
              listeners = Map.assign node (Map.emplace socket l mine) st.listeners;
            } in
            (
              record s1 { stores = put_store key st' s1.stores },
              elim vals [ [] ↦ [] | v ∷ vs ↦ tell_values node socket key (v ∷ vs) ∷ [] ],
            )
        | some old ↦
            let st' : Storage = record st {
              listeners =
                  Map.assign node (Map.update socket (λ l. record l { time = now; query = q }) mine)
                    st.listeners;
            } in
            (record s1 { stores = put_store key st' s1.stores }, [])
      ]
]

-- `cancelPut`, where a search had the value.
unfoldable pub take_back : Hash → ℕ → DhtStore → DhtStore × List Notice
unfolding find_store remove put_store storage_removed Value.size
take_back key vid s = elim (find_store key s.stores) [
  | none ↦ (s, [])
  | some st ↦
      let (st', sh, found) = remove key vid st s.shared in
      let s' : DhtStore = record s { stores = put_store key st' s.stores; shared = sh } in
      elim found [ none ↦ (s', []) | some v ↦ storage_removed key st' (v ∷ []) (Value.size v) s' ]
]
