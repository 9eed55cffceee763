-- ===== src/Storage.antt =====
-- src/storage.h: `Storage`, the values stored under one hash, with their listeners. `StorageBucket`s
-- are shared by all storages, so they stand in a heap, by address, and so do the scheduler's jobs, of
-- which only "has a task" is seen here. std::partition keeps the order of both its parts here; the
-- standard leaves it open, and no theorem reads it.
pub mod Bucket
pub mod BucketLaws
pub mod Removal
pub mod Invariant
pub mod Frees
pub mod Expiry
pub mod Stores
pub mod StoreCases
pub mod Lookup
mod Tests
use opendht.Prelude.{
  ℕ, suc, ◌+◌, Bool, true, false, ◌||◌, List, [], ◌∷◌, ◌++◌, Option, none, some, ltb, ◌==◌,
  if◌then◌else◌, length, max, locate, ◌%◌,
}
use opendht.Prelude.Int.{ℤ, pos, sub_ℕ}
use opendht.Prelude.Words.{word, add_diff}
use opendht.Prelude.Map.{Map}
use opendht.Prelude.Map
use opendht.Time.{TimePoint, Duration, time_max, minutes}
use opendht.Value.{Value, TypeStore, type_expiration}
use opendht.Value
use opendht.Filter.{passes}
use opendht.Query.{Query}
use opendht.Hash.{Hash}
use Bucket.{StorageBucket}

pub record ValueStorage : Type 0 where
  pub stored : Value
  pub created : TimePoint
  pub expiration : TimePoint
  pub expiration_job : Option ℕ
  pub store_bucket : Option ℕ

-- src/listener.h: a remote listener.
pub record Listener : Type 0 where
  pub time : TimePoint
  pub query : Query
  pub version : ℕ

-- src/listener.h: a local listener, its query by an identity; `get_cb values expired`.
pub record LocalListener : Type 0 where
  pub query : ℕ
  pub filter : Option (Value → Bool)
  pub get_cb : List Value → Bool → Bool

pub record Storage : Type 0 where
  pub maintenance_time : TimePoint
  pub listeners : Map (Map Listener)
  pub local_listeners : Map LocalListener
  pub listener_token : ℕ
  pub values : List ValueStorage
  pub total_size : ℕ

-- The heap that storages share.
pub record Shared : Type 0 where
  pub bucket : ℕ → StorageBucket
  pub has_task : ℕ → Bool

pub record StoreDiff : Type 0 where
  pub size_diff : ℤ
  pub values_diff : ℤ
  pub listeners_diff : ℤ
  pub edited_values : ℕ

abbrev pub no_diff : StoreDiff
no_diff = record {
  size_diff = pos 0;
  values_diff = pos 0;
  listeners_diff = pos 0;
  edited_values = 0;
}

abbrev pub max_values : ℕ
max_values = 65536

-- Node::NODE_EXPIRE_TIME
abbrev pub node_expire_time : Duration
node_expire_time = minutes 10

-- A call on `store_bucket`, if it is set.
unfoldable pub at_bucket : Option ℕ → (StorageBucket → StorageBucket) → Shared → Shared
at_bucket none f sh = sh
at_bucket (some r) f sh = record sh {
  bucket = λ k. if k == r then f (sh.bucket k) else sh.bucket k;
}

-- Job::cancel, if there is a job.
unfoldable pub cancel_job : Option ℕ → Shared → Shared
cancel_job none sh = sh
cancel_job (some j) sh = record sh { has_task = λ k. if k == j then false else sh.has_task k }

unfoldable pub get_by_id : ℕ → List ValueStorage → Option Value
get_by_id vid [] = none
get_by_id vid (vs ∷ rest) =
    let later = get_by_id vid rest in if vs.stored.id == vid then some vs.stored else later

-- Storage::get
unfoldable pub get : Option (Value → Bool) → List ValueStorage → List Value
unfolding passes
get f [] = []
get f (vs ∷ rest) =
    let later = get f rest in if passes f vs.stored then vs.stored ∷ later else later

-- `listen`: the storage, and the token, or 0 if the callback declines.
unfoldable pub listen : Storage → LocalListener → Storage × ℕ
unfolding get Map.emplace
listen st l =
    let newvals = get l.filter st.values in
    let token = (st.listener_token + 1) % word in
    let added = (record st {
      listener_token = token;
      local_listeners = Map.emplace token l st.local_listeners;
    }) in
    let accepted : Bool = elim newvals [ [] ↦ true | w ∷ ws ↦ l.get_cb (w ∷ ws) false ] in
    if accepted then (added, token) else (st, 0)

unfoldable pub cancel_listen : Storage → ℕ → Storage
unfolding Map.erase
cancel_listen st token = record st { local_listeners = Map.erase token st.local_listeners }

-- What `store` returns: the state after it, the place of the entry that changed, and the difference.
pub record StoreResult : Type 0 where
  pub storage : Storage
  pub shared : Shared
  pub changed : Option ℕ
  pub diff : StoreDiff

unfoldable pub is_stored : Value → ValueStorage → Bool
unfolding Value.same
is_stored v vr = Value.same vr.stored v || vr.stored.id == v.id

module _ (key : Hash) (v : Value) (created expiration : TimePoint) (sb : Option ℕ) where
  -- `store` where the value, or another of its id, is there, behind `before`.
  unfoldable pub store_again :
      Storage → Shared → List ValueStorage → ValueStorage → List ValueStorage → StoreResult
  unfolding Value.same at_bucket Bucket.insert Bucket.erase Value.size add_diff
  store_again st sh before it after =
      if Value.same it.stored v
      then record {
        storage = record st { values = before ++ record it { created = created } ∷ after };
        shared = sh;
        changed = none;
        diff = no_diff;
      }
      else let size_diff = sub_ℕ (Value.size v) (Value.size it.stored) in
        let cleared =
          at_bucket it.store_bucket (λ b. Bucket.erase b key it.stored it.expiration) sh in
        let edited = (record it {
          stored = v;
          created = created;
          expiration = expiration;
          store_bucket = sb;
        }) in
        record {
          storage = record st {
            values = before ++ edited ∷ after;
            total_size = add_diff st.total_size size_diff;
          };
          shared = at_bucket sb (λ b. Bucket.insert b key v expiration) cleared;
          changed = some (length before);
          diff = record no_diff { size_diff = size_diff; edited_values = 1 };
        }

  unfoldable pub store_new : Storage → Shared → StoreResult
  unfolding at_bucket Bucket.insert Value.size add_diff
  store_new st sh =
      let size_new = pos (Value.size v) in
      let fresh : ValueStorage = record {
        stored = v;
        created = created;
        expiration = expiration;
        expiration_job = none;
        store_bucket = sb;
      } in
      if ltb (length st.values) max_values
      then record {
        storage = record st {
          values = st.values ++ fresh ∷ [];
          total_size = add_diff st.total_size size_new;
        };
        shared = at_bucket sb (λ b. Bucket.insert b key v expiration) sh;
        changed = some (length st.values);
        diff = record no_diff { size_diff = size_new; values_diff = pos 1 };
      }
      else record { storage = st; shared = sh; changed = none; diff = no_diff }

  unfoldable pub store : Storage → Shared → StoreResult
  unfolding locate is_stored store_again store_new
  store st sh = elim (locate (is_stored v) st.values) [
    | none ↦ store_new st sh
    | some (before, it, after) ↦ store_again st sh before it after
  ]
