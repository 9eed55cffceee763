-- ===== src/DhtStore/Maintain.antt =====
-- src/dht.cpp: `maintainStorage`, `dataPersistence`, the loop of `shutdown` over the storages, `storageRefresh`,
-- and what `listen` and `cancelListen` do to a storage. The calls of `announce` are recorded; it does not touch
-- the storages. `heap` are the nodes of both routing tables.
use opendht.Prelude.{
  ℕ, Bool, true, false, not, ◌&&◌, ◌||◌, List, [], ◌∷◌, ◌++◌, Option, none, some, ltb, leb, ◌==◌,
  if◌then◌else◌, length, ◌+◌,
}
use opendht.Prelude.Words.{add_diff}
use opendht.Prelude.Map.{Map}
use opendht.Time.{TimePoint, Duration, time_max, minutes}
use opendht.Hash.{Hash, xor_cmp}
use opendht.Value.{Value, TypeStore, type_expiration}
use opendht.Storage.{
  ValueStorage, Listener, LocalListener, Storage, Shared, cancel_job, listen, cancel_listen,
}
use opendht.Storage.Removal.{clear, refresh}
use opendht.RoutingTable.{Bucket, Heap, target_nodes, is_lt, find_closest_nodes}
use opendht.DhtStore.{
  Notice, maintain_at, Stores, DhtStore, find_store, put_store, add_store, new_storage,
}
use opendht.DhtStore.Puts.{job_at, set_job}

-- MAX_STORAGE_MAINTENANCE_EXPIRE_TIME
abbrev pub max_storage_maintenance_expire_time : Duration
max_storage_maintenance_expire_time = minutes 10

-- A call of `announce`: the key, whether it is for IPv6, the value, and when it was created.
pub record Announce : Type 0 where
  pub key : Hash
  pub is_v6 : Bool
  pub value : Value
  pub created : TimePoint

-- The loop over the values of a storage.
unfoldable pub announce_values :
    TypeStore → TimePoint → Bool → Hash → Bool → List ValueStorage → List Announce
unfolding type_expiration
announce_values types now force key is_v6 [] = []
announce_values types now force key is_v6 (vs ∷ rest) =
    let later = announce_values types now force key is_v6 rest in
    if force
      || ltb (now + max_storage_maintenance_expire_time)
          (vs.created + type_expiration types vs.stored.type)
    then record { key = key; is_v6 = is_v6; value = vs.stored; created = vs.created } ∷ later
    else later

abbrev last_node : ℕ → List ℕ → ℕ
last_node n [] = n
last_node n (k ∷ ks) = last_node k ks

module _ (types : TypeStore) (heap : Heap) (buckets4 buckets6 : List Bucket) (my_id : Hash)
    (now : TimePoint) where
  -- `maintain` for one family: whether this node still wants the values, and what it announces.
  unfoldable pub maintain_family :
      Bool → Hash → Bool → List Bucket → List ValueStorage → Bool × List Announce
  unfolding find_closest_nodes xor_cmp announce_values
  maintain_family force key is_v6 buckets values =
      elim (find_closest_nodes heap key now target_nodes buckets) [
        | [] ↦ (true, [])
        | n ∷ ns ↦
            if force || is_lt (xor_cmp key (heap (last_node n ns)).id my_id)
            then (false, announce_values types now force key is_v6 values)
            else (true, [])
      ]

  -- maintainStorage, for the storage `st` of the key.
  unfoldable pub maintain_storage : Bool → Hash → Storage → DhtStore → DhtStore × List Announce
  unfolding maintain_family clear put_store add_diff
  maintain_storage force key st s =
      let (want4, told4) = maintain_family force key false buckets4 st.values in
      let (want6, told6) = maintain_family force key true buckets6 st.values in
      let (st', sh, diff) = clear key st s.shared in
      (
        if not want4 && not want6
            then record s {
              stores = put_store key st' s.stores;
              shared = sh;
              total_size = add_diff s.total_size diff.size_diff;
              total_values = add_diff s.total_values diff.values_diff;
            }
            else s,
        told4 ++ told6,
      )

  unfoldable pub maintain_next : Hash → TimePoint → DhtStore → DhtStore
  unfolding find_store put_store
  maintain_next key time s = elim (find_store key s.stores) [
    | none ↦ s
    | some st ↦ record s { stores = put_store key (record st { maintenance_time = time }) s.stores }
  ]

  unfoldable pub data_persistence : Hash → DhtStore → DhtStore × List Announce × List Notice
  unfolding find_store maintain_storage maintain_next
  data_persistence key s = elim (find_store key s.stores) [
    | none ↦ (s, [], [])
    | some st ↦ elim (ltb st.maintenance_time now) [
      | false ↦ (s, [], [])
      | true ↦
          let (s', told) = maintain_storage false key st s in
          let next = now + max_storage_maintenance_expire_time in
          (maintain_next key next s', told, maintain_at key next ∷ [])
    ]
  ]

  -- The loop of `shutdown`, for the keys that it goes over.
  unfoldable pub maintain_each : Stores → DhtStore → DhtStore × List Announce
  unfolding find_store maintain_storage
  maintain_each [] s = (s, [])
  maintain_each ((key, _) ∷ m) s = elim (find_store key s.stores) [
    | none ↦ maintain_each m s
    | some st ↦
        let (s1, told) = maintain_storage true key st s in
        let (s2, more) = maintain_each m s1 in (s2, told ++ more)
  ]

-- A message to a listener that a value is refreshed: node, socket, key and id.
pub record Refreshed : Type 0 where
  pub node : ℕ
  pub socket : ℕ
  pub key : Hash
  pub vid : ℕ

unfoldable pub refreshed_node : Hash → ℕ → ℕ → Map Listener → List Refreshed
refreshed_node key vid node [] = []
refreshed_node key vid node ((socket, l) ∷ ls) =
    record { node = node; socket = socket; key = key; vid = vid } ∷ refreshed_node key vid node ls

unfoldable pub refreshed_all : Hash → ℕ → Map (Map Listener) → List Refreshed
unfolding refreshed_node
refreshed_all key vid [] = []
refreshed_all key vid ((node, ls) ∷ nodes) =
    refreshed_node key vid node ls ++ refreshed_all key vid nodes

-- storageRefresh. `job` is the address of the job that the scheduler makes.
unfoldable pub storage_refresh :
    TypeStore → TimePoint → Hash → ℕ → ℕ → DhtStore → DhtStore × List Refreshed × Bool
unfolding find_store put_store refreshed_all refresh cancel_job job_at set_job
storage_refresh types now key vid job s = elim (find_store key s.stores) [
  | none ↦ (s, [], false)
  | some st ↦
      let told = refreshed_all key vid st.listeners in
      let (st', sh, place, until) = refresh key now vid types st s.shared in
      elim place [
        | none ↦ (record s { stores = put_store key st' s.stores; shared = sh }, told, true)
        | some n ↦
            let permanent = until == time_max in
            let sh' : Shared = cancel_job (job_at n st'.values) sh in
            (
              record s {
                stores =
                    put_store key
                      (record st' {
                        values = set_job n (if permanent then none else some job) st'.values;
                      })
                      s.stores;
                shared =
                    if permanent
                    then sh'
                    else record sh' { has_task = λ k. if k == job then true else sh'.has_task k };
              },
              told,
              true,
            )
      ]
]

-- The storage that `listen` finds or makes.
unfoldable pub reach_local : TimePoint → Hash → DhtStore → Option (Storage × DhtStore)
unfolding find_store add_store
reach_local now key s = elim (find_store key s.stores) [
  | some st ↦ some (st, s)
  | none ↦
      let st : Storage = new_storage (now + max_storage_maintenance_expire_time) in
      if leb s.max_keys (length s.stores)
      then none
      else some (st, record s { stores = add_store key st s.stores })
]

-- What `listen` does to the storages, and the storage's token, 0 if there is none.
unfoldable pub listen_local : TimePoint → Hash → LocalListener → DhtStore → DhtStore × ℕ
unfolding reach_local listen put_store
listen_local now key l s = elim (reach_local now key s) [
  | none ↦ (s, 0)
  | some (st, s1) ↦
      let (st', token) = listen st l in (record s1 { stores = put_store key st' s1.stores }, token)
]

-- What `cancelListen` does to the storages, for the storage's token.
unfoldable pub cancel_local : Hash → ℕ → DhtStore → DhtStore
unfolding find_store put_store cancel_listen
cancel_local key token s = if token == 0 then s else elim (find_store key s.stores) [
  | none ↦ s
  | some st ↦ record s { stores = put_store key (cancel_listen st token) s.stores }
]
