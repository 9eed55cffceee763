-- ===== src/Storage/Removal.antt =====
-- src/storage.h: the operations of `Storage` that refresh values or take them out.
use opendht.Prelude.{
  ℕ, ◌+◌, Bool, List, [], ◌∷◌, ◌++◌, Option, none, some, ltb, ◌==◌, if◌then◌else◌, length, max,
  locate,
}
use opendht.Prelude.Int.{ℤ, sub_ℕ}
use opendht.Prelude.Words.{sub_size, add_diff}
use opendht.Prelude.Map.{Map}
use opendht.Time.{TimePoint, time_max}
use opendht.Value.{Value, TypeStore, type_expiration}
use opendht.Value
use opendht.Hash.{Hash}
use opendht.Storage.{
  ValueStorage, Listener, Storage, Shared, StoreDiff, no_diff, at_bucket, cancel_job,
  node_expire_time,
}
use opendht.Storage.Bucket

unfoldable pub has_id : ℕ → ValueStorage → Bool
has_id vid vs = vs.stored.id == vid

-- `refresh`: the entry's place and its expiration, or nothing and time_point::max().
unfoldable pub refresh :
    Hash → TimePoint → ℕ → TypeStore → Storage → Shared → Storage × Shared × Option ℕ × TimePoint
unfolding locate has_id at_bucket Bucket.refresh type_expiration
refresh key now vid types st sh = elim (locate (has_id vid) st.values) [
  | none ↦ (st, sh, none, time_max)
  | some (before, vs, after) ↦
      let expiration = max vs.expiration (now + type_expiration types vs.stored.type) in
      (
        record st {
          values = before ++ record vs { created = now; expiration = expiration } ∷ after;
        },
        at_bucket vs.store_bucket (λ b. Bucket.refresh b key vs.stored vs.expiration expiration) sh,
        some (length before),
        expiration,
      )
]

-- What every removal does for a value: its bucket forgets it, and its job is cancelled.
unfoldable pub release : Hash → ValueStorage → Shared → Shared
unfolding at_bucket cancel_job Bucket.erase
release key vs sh =
    cancel_job vs.expiration_job
      (at_bucket vs.store_bucket (λ b. Bucket.erase b key vs.stored vs.expiration) sh)

unfoldable pub release_all : Hash → List ValueStorage → Shared → Shared
unfolding release
release_all key [] sh = sh
release_all key (vs ∷ rest) sh = release_all key rest (release key vs sh)

unfoldable pub remove : Hash → ℕ → Storage → Shared → Storage × Shared × Option Value
unfolding locate has_id release Value.size sub_size
remove key vid st sh = elim (locate (has_id vid) st.values) [
  | none ↦ (st, sh, none)
  | some (before, vs, after) ↦ (
    record st {
      values = before ++ after;
      total_size = sub_size st.total_size (Value.size vs.stored);
    },
    release key vs sh,
    some vs.stored,
  )
]

unfoldable pub clear : Hash → Storage → Shared → Storage × Shared × StoreDiff
unfolding release_all
clear key st sh = (
  record st { values = []; total_size = 0 },
  release_all key st.values sh,
  record no_diff { size_diff = sub_ℕ 0 st.total_size; values_diff = sub_ℕ 0 (length st.values) },
)

-- The loop over the listeners of one node.
unfoldable pub live_listeners : TimePoint → Map Listener → Map Listener
live_listeners now [] = []
live_listeners now ((k, l) ∷ ls) =
    let rest = live_listeners now ls in
    if ltb (l.time + node_expire_time) now then rest else (k, l) ∷ rest

-- The loop over the nodes; a node that has no listener left is erased.
unfoldable pub live_nodes : TimePoint → Map (Map Listener) → Map (Map Listener)
unfolding live_listeners
live_nodes now [] = []
live_nodes now ((node, ls) ∷ nodes) =
    let rest = live_nodes now nodes in
    elim (live_listeners now ls) [ [] ↦ rest | l ∷ left ↦ (node, l ∷ left) ∷ rest ]

-- std::partition by `expiration > now`.
unfoldable pub alive : TimePoint → List ValueStorage → List ValueStorage
alive now [] = []
alive now (vs ∷ rest) =
    let later = alive now rest in if ltb now vs.expiration then vs ∷ later else later

unfoldable pub dead : TimePoint → List ValueStorage → List ValueStorage
dead now [] = []
dead now (vs ∷ rest) =
    let later = dead now rest in if ltb now vs.expiration then later else vs ∷ later

-- The sum of the sizes.
unfoldable pub sum_size : List ValueStorage → ℕ
unfolding Value.size
sum_size [] = 0
sum_size (vs ∷ rest) = Value.size vs.stored + sum_size rest

unfoldable pub stored_values : List ValueStorage → List Value
stored_values [] = []
stored_values (vs ∷ rest) = vs.stored ∷ stored_values rest

unfoldable pub expire : Hash → TimePoint → Storage → Shared → Storage × Shared × ℤ × List Value
unfolding live_nodes alive dead sum_size stored_values release_all add_diff
expire key now st sh =
    let gone = dead now st.values in
    let size_diff = sub_ℕ 0 (sum_size gone) in
    (
      record st {
        listeners = live_nodes now st.listeners;
        values = alive now st.values;
        total_size = add_diff st.total_size size_diff;
      },
      release_all key gone sh,
      size_diff,
      stored_values gone,
    )
