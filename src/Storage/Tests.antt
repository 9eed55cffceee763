-- ===== src/Storage/Tests.antt =====
-- A storage with two values, one of them in the quota bucket of an address, and what its operations do.
use opendht.Prelude.{
  ℕ, ◌≡◌, ◌%◌, ◌+◌, refl, [], ◌∷◌, none, some, arith, ◌==◌, if◌then◌else◌, ◌≤◌, ◌<◌, List, All,
  ◌++◌,
}
use mathlib.Core.List.{Perm}
use opendht.Prelude.Words.{word}
use opendht.Value.{Value, size}
use opendht.Hash.{Hash, equal}
use opendht.Storage.{ValueStorage, Storage, Shared, store, get_by_id}
use opendht.Storage.Bucket.{StorageBucket, empty, is_entry}
use opendht.Storage.BucketLaws.{has_entry}
use opendht.Storage.Removal.{remove, expire, sum_size, stored_values}
use opendht.Storage.Invariant.{IsStorage, ids, charge}
use opendht.Storage.StoreCases.{store-IsStorage, store_balance}
use opendht.Storage.Lookup.{store_lookup, remove_lookup}
use opendht.Storage.Frees.{remove_balance}
use opendht.Storage.Expiry.{expire_balance, expire_splits}

abbrev key : Hash
key = 1 ∷ 2 ∷ []

abbrev value : ℕ → ℕ → List ℕ → Value
value ref id body = record {
  ref = ref;
  id = id;
  owner = none;
  type = 0;
  body = body;
  user_type = [];
  seq = 0;
  signature = [];
  cypher = [];
  push_type = [];
}

abbrev old_value : Value
old_value = value 100 5 (9 ∷ 9 ∷ 9 ∷ [])

abbrev new_value : Value
new_value = value 101 5 (8 ∷ [])

abbrev held : ℕ → Value → ValueStorage
held expiration v = record {
  stored = v;
  created = 10;
  expiration = expiration;
  expiration_job = some 1;
  store_bucket = some 7;
}

abbrev two_values : Storage
two_values = record {
  maintenance_time = 0;
  listeners = [];
  local_listeners = [];
  listener_token = 1;
  values =
      held 50 old_value
      ∷ record (held 90 (value 102 6 (4 ∷ 4 ∷ []))) { store_bucket = none; expiration_job = none }
      ∷ [];
  total_size = 5;
}

abbrev quota : StorageBucket
quota = record {
  stored_values = record { expiration = 50; key = key; id = 5 } ∷ [];
  total_size = 3;
}

abbrev heap : Shared
heap = record { bucket = λ r. if r == 7 then quota else empty; has_task = λ j. j == 1 }

two_values-IsStorage : IsStorage key two_values heap
unfolding sum_size size ids has_entry is_entry equal
two_values-IsStorage = record {
  sized = refl;
  distinct = omega arith;
  linked = (refl, (refl, tt));
  bounded = omega arith;
}

-- The value of id 5 is replaced, and put under the quota of another address.
store-IsStorage_example :
    IsStorage key
      (store key new_value 20 70 (some 8) two_values heap).storage
      (store key new_value 20 70 (some 8) two_values heap).shared
store-IsStorage_example =
    store-IsStorage key new_value 20 70 (some 8) two_values heap two_values-IsStorage

store_balance_example :
    ((store key new_value 20 70 (some 8) two_values heap).shared.bucket 7).total_size
    ≡ (0 + charge 7 (store key new_value 20 70 (some 8) two_values heap).storage.values) % word
unfolding charge size
store_balance_example =
    store_balance key new_value 20 70 (some 8) two_values heap 7 0 two_values-IsStorage refl

store_lookup_example :
    get_by_id 5 (store key new_value 20 70 (some 8) two_values heap).storage.values ≡ some new_value
unfolding store
store_lookup_example =
    store_lookup key new_value 20 70 (some 8) two_values heap 5 two_values-IsStorage

remove_balance_example :
    ((remove key 5 two_values heap).1.bucket 7).total_size
    ≡ (0 + charge 7 (remove key 5 two_values heap).0.values) % word
unfolding charge size
remove_balance_example = remove_balance key two_values heap two_values-IsStorage 5 7 0 refl

remove_lookup_example :
    ((remove key 5 two_values heap).2 ≡ get_by_id 5 two_values.values)
    × (get_by_id 5 (remove key 5 two_values heap).0.values ≡ none)
remove_lookup_example = remove_lookup key 5 two_values heap 5 two_values-IsStorage

expire_balance_example :
    ((expire key 60 two_values heap).1.bucket 7).total_size
    ≡ (0 + charge 7 (expire key 60 two_values heap).0.values) % word
unfolding charge size
expire_balance_example = expire_balance key 60 two_values heap two_values-IsStorage 7 0 refl

expire_splits_example :
    (gone : List ValueStorage) × Perm two_values.values
      (gone ++ (expire key 60 two_values heap).0.values)
    × All (λ w. 60 < w.expiration) (expire key 60 two_values heap).0.values
    × All (λ w. w.expiration ≤ 60) gone
    × ((expire key 60 two_values heap).3 ≡ stored_values gone)
expire_splits_example = expire_splits key 60 two_values heap
