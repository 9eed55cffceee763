-- ===== src/DhtStore/Tests.antt =====
-- A node with two values of two addresses, which are one byte too many.
use opendht.Prelude.{
  length, ℕ, ◌≡◌, refl, true, false, List, [], ◌∷◌, none, some, arith, inl, ◌⊎◌, ◌%◌,
}
use opendht.Time.{TimePoint, minutes}
use opendht.Node.{is_good}
use opendht.Node
use opendht.Hash.{Hash, cmp, xor_cmp}
use opendht.Hash
use opendht.Value.{Value, TypeStore, type_expiration}
use opendht.Value
use opendht.Prelude.{locate}
use opendht.Prelude.Map
use opendht.Prelude.Words.{add_size, sub_size, add_diff}
use opendht.Storage.{store, store_new, is_stored, at_bucket, cancel_job}
use opendht.Storage.Bucket
use opendht.RoutingTable.{
  Heap, find_from, find_bucket, sorted_insert, sorted_bucket_insert, visit, find_closest_nodes,
}
use opendht.RoutingTable
use opendht.Storage.Bucket.{take_entry, is_entry}
use opendht.Storage.Removal.{
  clear, sum_size, expire, alive, dead, release, release_all, stored_values, live_nodes,
}
use opendht.DhtStore.{
  Notice, storage_changed, DhtStore, is_over_limit, evict, evict_round, find_store, add_store,
  put_store, expire_store, expire_each, expire_storage, expire_at, storage_removed, discard_unused,
  is_unused, erase_store, used_quotas,
}
use opendht.DhtStore.Puts.{
  dangling, storage_store, expiration_of, reach_storage, make_storage, store_into, quota_of,
  insert_quota, is_full_for, count_stored, finish_store, job_at, set_job,
}
use opendht.DhtStore.Counted.{total_by, amount}
use opendht.DhtStore.Counts.{IsCounted}
use opendht.DhtStore.Maintain.{
  Announce, announce_values, maintain_family, maintain_storage, maintain_next, data_persistence,
}
use opendht.DhtStore.Calls.{
  StoreCall, put_value, expire_keys, cancel_value, persist_key, shut_down, refresh_value,
  listen_here, apply_call, apply_calls, apply_calls-IsCounted,
}
use opendht.DhtStore.Refused.{SameFor, storage_store-refused}
use opendht.DhtStore.Ends.{Exhausted, IsMissing, evict_ends}

abbrev one_key : Hash
one_key = 1 ∷ 2 ∷ []

abbrev other_key : Hash
other_key = 3 ∷ 4 ∷ []

abbrev four_bytes : ℕ → Value
four_bytes id = record {
  ref = id;
  id = id;
  owner = none;
  type = 0;
  body = 7 ∷ 7 ∷ 7 ∷ 7 ∷ [];
  user_type = [];
  seq = 0;
  signature = [];
  cypher = [];
  push_type = [];
}

abbrev no_keys : ℕ → Hash
no_keys k = Hash.zero_hash 20

abbrev no_types : TypeStore
no_types = []

abbrev idle_node : DhtStore
idle_node = record {
  stores = [];
  shared = record { bucket = λ r. Bucket.empty; has_task = λ j. false };
  quotas = [];
  total_values = 0;
  total_size = 0;
  max_keys = 8;
  max_size = 7;
  max_local = 3;
  maintain_storage = false;
}

idle_node-IsCounted : IsCounted idle_node
unfolding total_by
idle_node-IsCounted = record { sized = refl; counted = refl; each = tt }

-- Nodes that are good, and near the second key.
abbrev near_node : Heap
near_node k = record (Node.new (3 ∷ k % 256 ∷ []) k 1 false) {
  time = minutes 200;
  reply_time = minutes 200;
}

abbrev near_table : List RoutingTable.Bucket
near_table = record (RoutingTable.new 2 (0 ∷ 0 ∷ []) 0) { nodes = 4 ∷ 9 ∷ [] } ∷ []

abbrev two_puts : List (TimePoint × StoreCall)
two_puts =
    (10, put_value one_key (four_bytes 5) 10 (some 1) false 100 0)
    ∷ (11, put_value other_key (four_bytes 6) 11 (some 2) false 90 1)
    ∷ (12, cancel_value one_key 9)
    ∷ (13, refresh_value other_key 6 2)
    ∷ (14, listen_here one_key (record { query = 0; filter = none; get_cb = λ vs e. true }))
    ∷ (15, persist_key near_node near_table near_table (128 ∷ 0 ∷ []) other_key)
    ∷ (20, expire_keys)
    ∷ (21, shut_down near_node near_table near_table (128 ∷ 0 ∷ []))
    ∷ []

apply_calls-IsCounted_example : IsCounted (apply_calls no_keys no_types 3 two_puts idle_node)
apply_calls-IsCounted_example =
    apply_calls-IsCounted no_keys no_types 3 two_puts idle_node idle_node-IsCounted

-- A local value of four bytes, where three are allowed.
storage_store-refused_example :
    SameFor one_key idle_node
      (storage_store no_keys no_types 3 10 one_key (four_bytes 5) 10 none false 100 0 idle_node).0
unfolding storage_store
storage_store-refused_example =
    storage_store-refused no_keys no_types 3 10 one_key one_key (four_bytes 5) 10 none false 100 0
      idle_node (inl refl) refl

-- The node after one put, and after two, which do not fit its limit.
abbrev one_put : DhtStore
one_put =
    apply_call no_keys no_types 3 10 (put_value one_key (four_bytes 5) 10 (some 1) false 100 0)
      idle_node

abbrev full_node : DhtStore
full_node =
    record (apply_call no_keys no_types 3 10
      (put_value other_key (four_bytes 6) 10 (some 2) false 90 1)
      (record one_put { max_size = 20 })) { max_size = 7 }

full_node_amount : total_by amount full_node.stores ≡ 2
unfolding apply_call storage_store expiration_of type_expiration reach_storage find_store
    make_storage add_store store_into quota_of insert_quota is_full_for store store_new is_stored
    locate at_bucket Bucket.insert Bucket.emplace count_stored finish_store is_over_limit put_store
    total_by Hash.less Hash.equal Value.size job_at set_job add_diff add_size sub_size cancel_job
    Value.same
full_node_amount = refl

evict_ends_example :
    ((evict 3 full_node).2 ≡ true)
      × ((is_over_limit (evict 3 full_node).0 ≡ false) ⊎ Exhausted (evict 3 full_node).0)
    ⊎ IsMissing (evict 3 full_node).0
evict_ends_example = evict_ends 3 full_node (rw full_node_amount (omega arith))

-- The value is due as soon as it is stored, `expireStore` erases its storage, and `storageStore` then
-- uses it.
storage_store_dangles :
    (storage_store no_keys no_types 3 10 other_key (four_bytes 6) 10 (some 2) false 10 1 one_put).2
    ≡ dangling
unfolding apply_call storage_store expiration_of type_expiration reach_storage find_store
    make_storage add_store store_into quota_of insert_quota is_full_for store store_new is_stored
    locate at_bucket Bucket.insert Bucket.emplace count_stored finish_store is_over_limit put_store
    total_by Hash.less Hash.equal Value.size job_at set_job add_diff add_size sub_size cancel_job
    Value.same expire_store expire_each expire_storage expire_at expire alive dead release_all
    release Bucket.erase take_entry is_entry sum_size stored_values storage_removed discard_unused
    is_unused erase_store evict evict_round used_quotas live_nodes
storage_store_dangles = refl

-- The nodes of the table are nearer to the second key than this node, so its values are announced to
-- both families and go.
abbrev persisted : DhtStore × List Announce × List Notice
persisted =
    data_persistence ((0, minutes 30) ∷ []) near_node near_table near_table (128 ∷ 0 ∷ []) 15
      other_key
      (apply_call no_keys no_types 3 10 (put_value other_key (four_bytes 6) 10 (some 2) false 90 1)
        (record idle_node { max_size = 20 }))

persisted_totals : (persisted.0.total_values ≡ 0) × (length persisted.1 ≡ 2)
unfolding apply_call storage_store expiration_of type_expiration Map.find reach_storage find_store
    make_storage add_store store_into quota_of insert_quota is_full_for store store_new is_stored
    locate at_bucket Bucket.insert Bucket.emplace count_stored finish_store is_over_limit put_store
    Hash.less Hash.equal Value.size job_at set_job add_diff add_size sub_size cancel_job Value.same
    data_persistence maintain_storage maintain_family announce_values maintain_next
    find_closest_nodes find_bucket find_from visit sorted_bucket_insert sorted_insert cmp xor_cmp
    is_good Node.new RoutingTable.new clear release_all release Bucket.erase take_entry is_entry
    storage_changed
persisted_totals = (refl, refl)
