-- ===== src/DhtStore/Calls.antt =====
-- Sequences of the calls that change the storages of a node.
use opendht.Prelude.{ℕ, Bool, List, [], ◌∷◌, Option}
use opendht.Time.{TimePoint}
use opendht.Hash.{Hash}
use opendht.Value.{Value, TypeStore}
use opendht.Query.{Query}
use opendht.Storage.{LocalListener}
use opendht.RoutingTable.{Bucket, Heap}
use opendht.DhtStore.{DhtStore, expire_storage, expire_store}
use opendht.DhtStore.Puts.{storage_store, storage_add_listener, take_back}
use opendht.DhtStore.Counts.{
  IsCounted, expire_storage-IsCounted, expire_store-IsCounted, take_back-IsCounted,
}
use opendht.DhtStore.Totals.{storage_store-IsCounted, storage_add_listener-IsCounted}
use opendht.DhtStore.Maintain.{
  data_persistence, maintain_each, storage_refresh, listen_local, cancel_local,
}
use opendht.DhtStore.Maintained.{
  data_persistence-IsCounted, maintain_each-IsCounted, storage_refresh-IsCounted,
  listen_local-IsCounted, cancel_local-IsCounted,
}

-- `storageStore`, `storageAddListener`, `expireStorage`, `expireStore`, `cancelPut`, `dataPersistence` and `shutdown`
-- with the nodes, the two tables and the id of this node, `storageRefresh`, `listen` and `cancelListen`.
pub data StoreCall : Type 0 where
  put_value : Hash → Value → TimePoint → Option ℕ → Bool → TimePoint → ℕ → StoreCall
  listen_to : Hash → ℕ → ℕ → Query → ℕ → StoreCall
  expire_key : Hash → StoreCall
  expire_keys : StoreCall
  cancel_value : Hash → ℕ → StoreCall
  persist_key : Heap → List Bucket → List Bucket → Hash → Hash → StoreCall
  shut_down : Heap → List Bucket → List Bucket → Hash → StoreCall
  refresh_value : Hash → ℕ → ℕ → StoreCall
  listen_here : Hash → LocalListener → StoreCall
  cancel_here : Hash → ℕ → StoreCall

module _ (key_id : ℕ → Hash) (types : TypeStore) (rounds : ℕ) where
  -- A call at a time.
  unfoldable pub apply_call : TimePoint → StoreCall → DhtStore → DhtStore
  unfolding storage_store storage_add_listener expire_storage expire_store take_back
      data_persistence maintain_each storage_refresh listen_local cancel_local
  apply_call now (put_value key v created sa permanent expiration job) s =
      (storage_store key_id types rounds now key v created sa permanent expiration job s).0
  apply_call now (listen_to key node socket q version) s =
      (storage_add_listener key_id now key node socket q version s).0
  apply_call now (expire_key key) s = (expire_storage now key s).0
  apply_call now expire_keys s = (expire_store rounds now s).0
  apply_call now (cancel_value key vid) s = (take_back key vid s).0
  apply_call now (persist_key heap buckets4 buckets6 my_id key) s =
      (data_persistence types heap buckets4 buckets6 my_id now key s).0
  apply_call now (shut_down heap buckets4 buckets6 my_id) s =
      (maintain_each types heap buckets4 buckets6 my_id now s.stores s).0
  apply_call now (refresh_value key vid job) s = (storage_refresh types now key vid job s).0
  apply_call now (listen_here key l) s = (listen_local now key l s).0
  apply_call now (cancel_here key token) s = cancel_local key token s

  unfoldable pub apply_calls : List (TimePoint × StoreCall) → DhtStore → DhtStore
  unfolding apply_call
  apply_calls [] s = s
  apply_calls ((now, c) ∷ cs) s = apply_calls cs (apply_call now c s)

  apply_call-IsCounted :
      (now : TimePoint) (c : StoreCall) (s : DhtStore)
      → IsCounted s
      → IsCounted (apply_call now c s)
  unfolding apply_call
  apply_call-IsCounted now (put_value key v created sa permanent expiration job) s h =
      storage_store-IsCounted key_id types rounds now key v created sa permanent expiration job s h
  apply_call-IsCounted now (listen_to key node socket q version) s h =
      storage_add_listener-IsCounted key_id now key node socket q version s h
  apply_call-IsCounted now (expire_key key) s h = expire_storage-IsCounted now key s h
  apply_call-IsCounted now expire_keys s h = expire_store-IsCounted rounds now s h
  apply_call-IsCounted now (cancel_value key vid) s h = take_back-IsCounted key vid s h
  apply_call-IsCounted now (persist_key heap buckets4 buckets6 my_id key) s h =
      data_persistence-IsCounted types heap buckets4 buckets6 my_id now key s h
  apply_call-IsCounted now (shut_down heap buckets4 buckets6 my_id) s h =
      maintain_each-IsCounted types heap buckets4 buckets6 my_id now s.stores s h
  apply_call-IsCounted now (refresh_value key vid job) s h =
      storage_refresh-IsCounted types now key vid job s h
  apply_call-IsCounted now (listen_here key l) s h = listen_local-IsCounted now key l s h
  apply_call-IsCounted now (cancel_here key token) s h = cancel_local-IsCounted key token s h

  -- If the total of bytes is the sum of the sizes of all values in the storages, the total of values is
  -- their number, and each storage's own size is that of its values, each modulo 2 ^ 64, this is so after
  -- any sequence of these calls, at any times: `storageStore`, `storageAddListener`, `expireStorage`,
  -- `expireStore`, also where its second loop has not ended, what `cancelPut` takes out, `dataPersistence` and
  -- the loop of `shutdown`, which clear storages, `storageRefresh`, and what `listen` and `cancelListen` do to
  -- the storages.
  pub apply_calls-IsCounted :
      (cs : List (TimePoint × StoreCall)) (s : DhtStore)
      → IsCounted s
      → IsCounted (apply_calls cs s)
  unfolding apply_calls
  apply_calls-IsCounted [] s h = h
  apply_calls-IsCounted ((now, c) ∷ cs) s h =
      apply_calls-IsCounted cs (apply_call now c s) (apply_call-IsCounted now c s h)
