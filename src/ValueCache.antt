-- ===== src/ValueCache.antt =====
-- src/value_cache.h: `ValueCache`, the values that a listener knows of. The callbacks are whether they
-- are set; the calls of a queue are events, in the order of the queue. `now + d` is a time below
-- `time_point::max()`.
pub mod Cached
pub mod Shrink
pub mod View
pub mod Bound
pub mod Returns
mod Tests
use opendht.Prelude.{
  ℕ, zero, suc, ◌+◌, min, Bool, true, false, ◌&&◌, List, [], ◌∷◌, ◌++◌, Option, none, some, ltb,
  leb, if◌then◌else◌, length,
}
use opendht.Prelude.Map.{Map}
use opendht.Prelude.Map
use opendht.Time.{TimePoint, time_max}
use opendht.Value.{Value, TypeStore, type_expiration}

pub data SyncStatus : Type 0 where
  added synced unsynced removed : SyncStatus

pub record CacheValueStorage : Type 0 where
  pub stored : Value
  pub created : TimePoint
  pub expiration : TimePoint

pub record ValueCache : Type 0 where
  pub values : Map CacheValueStorage
  pub callback : Bool
  pub sync_callback : Bool
  pub status : SyncStatus

-- A call of `callback(values, expired)`, or of `syncCallback(status)`.
pub data Event : Type 0 where
  values_added : List Value → Event
  values_expired : List Value → Event
  status_changed : SyncStatus → Event

abbrev pub max_values : ℕ
max_values = 4096

-- The constructor.
unfoldable pub new : Bool → Bool → ValueCache × List Event
new callback sync_callback = (
  record { values = []; callback = callback; sync_callback = sync_callback; status = unsynced },
  if sync_callback then status_changed added ∷ [] else [],
)

abbrev stored_values : Map CacheValueStorage → List Value
stored_values [] = []
stored_values ((k, c) ∷ m) = c.stored ∷ stored_values m

-- A call of the callback, if it is set and there are values.
abbrev pub call_if : Bool → (List Value → Event) → List Value → List Event
call_if callback e [] = []
call_if true e (v ∷ vs) = e (v ∷ vs) ∷ []
call_if false e (v ∷ vs) = []

unfoldable pub clear : ValueCache → ValueCache × List Event
clear c = (record c { values = [] }, call_if c.callback values_expired (stored_values c.values))

unfoldable pub touch : TypeStore → TimePoint → CacheValueStorage → CacheValueStorage
unfolding type_expiration
touch types now c = record c {
  created = now;
  expiration = now + type_expiration types c.stored.type;
}

-- The loop of `addValues`: the cache, and the values that are new.
unfoldable pub add_loop :
    TypeStore → TimePoint → List Value → Map CacheValueStorage → Map CacheValueStorage × List Value
unfolding Map.find Map.emplace Map.update touch type_expiration
add_loop types now [] m = (m, [])
add_loop types now (v ∷ vs) m = elim (Map.find v.id m) [
  | none ↦
      let entry : CacheValueStorage = record {
        stored = v;
        created = now;
        expiration = now + type_expiration types v.type;
      } in
      let (m', nvals) = add_loop types now vs (Map.emplace v.id entry m) in (m', v ∷ nvals)
  | some c ↦ add_loop types now vs (Map.update v.id (touch types now) m)
]

unfoldable pub add_values :
    List Value → TypeStore → TimePoint → ValueCache → ValueCache × List Event
unfolding add_loop
add_values new_values types now c =
    let (m, nvals) = add_loop types now new_values c.values in
    (record c { values = m }, call_if c.callback values_added nvals)

unfoldable pub expire_value : ℕ → ValueCache → ValueCache × List Event
unfolding Map.find Map.erase
expire_value vid c = elim (Map.find vid c.values) [
  | none ↦ (c, [])
  | some v ↦ (
    record c { values = Map.erase vid c.values },
    call_if c.callback values_expired (v.stored ∷ []),
  )
]

unfoldable pub refresh_value : ℕ → TypeStore → TimePoint → ValueCache → ValueCache
unfolding Map.find Map.update touch
refresh_value vid types now c = record c { values = Map.update vid (touch types now) c.values }

-- The first loop of `expireValues`: what stays, what goes, and the least expiration that stays.
unfoldable pub sweep :
    TimePoint → Map CacheValueStorage → TimePoint → Map CacheValueStorage × List Value × TimePoint
sweep now [] next = ([], [], next)
sweep now ((k, c) ∷ m) next =
    if leb c.expiration now
    then (let (kept, gone, n) = sweep now m next in (kept, c.stored ∷ gone, n))
    else (let (kept, gone, n) = sweep now m (min next c.expiration) in ((k, c) ∷ kept, gone, n))

-- The search for the oldest value, from the oldest creation and its key so far.
unfoldable pub oldest : Map CacheValueStorage → TimePoint → Option ℕ → Option ℕ
oldest [] creation found = found
oldest ((k, c) ∷ m) creation found =
    let here = oldest m c.created (some k) in
    let rest = oldest m creation found in if ltb c.created creation then here else rest

-- The second loop of `expireValues`, with fuel: a round that finds no oldest value changes nothing.
unfoldable pub shrink : ℕ → Map CacheValueStorage → Option (Map CacheValueStorage × List Value)
unfolding oldest Map.find Map.erase
shrink zero m = if leb (length m) max_values then some (m, []) else none
shrink (suc fuel) m =
    let idle = shrink fuel m in
    if leb (length m) max_values then some (m, []) else elim (oldest m time_max none) [
      | none ↦ idle
      | some k ↦ elim (Map.find k m) [
        | none ↦ idle
        | some c ↦ elim (shrink fuel (Map.erase k m)) [
          | none ↦ none
          | some (m', gone) ↦ some (m', c.stored ∷ gone)
        ]
      ]
    ]

-- expireValues: the cache, the events and the next expiration, or none without enough fuel.
unfoldable pub expire_values :
    ℕ → TimePoint → TimePoint → ValueCache → Option (ValueCache × List Event × TimePoint)
unfolding sweep shrink
expire_values fuel now next c =
    let (kept, gone, n) = sweep now c.values next in
    elim (shrink fuel kept) [
      | none ↦ none
      | some (m, more) ↦
          some (record c { values = m }, call_if c.callback values_expired (gone ++ more), n)
    ]

unfoldable pub refresh_all : List ℕ → TypeStore → TimePoint → ValueCache → ValueCache
unfolding refresh_value
refresh_all [] types now c = c
refresh_all (vid ∷ vids) types now c = refresh_all vids types now (refresh_value vid types now c)

unfoldable pub expire_all : List ℕ → ValueCache → ValueCache × List Event
unfolding expire_value
expire_all [] c = (c, [])
expire_all (vid ∷ vids) c =
    let (c', calls) = expire_value vid c in
    let (c'', later) = expire_all vids c' in (c'', calls ++ later)

unfoldable pub on_values :
    ℕ
    → List Value
    → List ℕ
    → List ℕ
    → TypeStore
    → TimePoint
    → ValueCache
    → Option (ValueCache × List Event × TimePoint)
unfolding add_values refresh_all expire_all expire_values
on_values fuel new_values refreshed expired types now c =
    let (c1, added_calls) = add_values new_values types now c in
    let (c2, expired_calls) = expire_all expired (refresh_all refreshed types now c1) in
    elim (expire_values fuel now time_max c2) [
      | none ↦ none
      | some (c3, late_calls, next) ↦ some (c3, added_calls ++ (expired_calls ++ late_calls), next)
    ]

abbrev same_status : SyncStatus → Bool → Bool
same_status synced true = true
same_status unsynced false = true
same_status _ _ = false

unfoldable pub on_synced : Bool → ValueCache → ValueCache × List Event
on_synced is_synced c =
    let new_status = if is_synced then synced else unsynced in
    if same_status c.status is_synced then (c, []) else (
      record c { status = new_status },
      if c.sync_callback then status_changed new_status ∷ [] else [],
    )
