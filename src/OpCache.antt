-- ===== src/OpCache.antt =====
-- src/op_cache.h and src/op_cache.cpp: `OpValueCache`, the values that the nodes of a search announce, with
-- how many announce each, and `OpCache`, which passes them on to listeners. `callback` answers a call
-- on it; the calls are events. The times are those of the system clock.
pub mod Known
pub mod Entries
pub mod Counts
mod Tests
use opendht.Prelude.{
  ℕ, ◌+◌, ◌-◌, ◌%◌, Bool, true, false, not, ◌&&◌, List, [], ◌∷◌, Option, none, some, ltb, ◌==◌,
  if◌then◌else◌,
}
use opendht.Prelude.Map.{Map}
use opendht.Prelude.Map
use opendht.Time.{TimePoint, Duration, time_max, seconds}
use opendht.Value.{Value}
use opendht.Value
use opendht.Filter.{Filter, passes, filter_values}
use opendht.Storage.{LocalListener}
use opendht.ValueCache.{
  SyncStatus, added, synced, unsynced, removed, Event, values_added, values_expired,
}

pub record OpCacheValueStorage : Type 0 where
  pub stored : Value
  pub ref_count : ℕ
  pub updated : TimePoint

pub record OpValueCache : Type 0 where
  pub nodes : ℕ
  pub synced_nodes : ℕ
  pub values : Map OpCacheValueStorage

-- `unsigned` has 32 bits, size_t has 64.
abbrev pub unsigned_mod : ℕ
unsigned_mod = 4294967296

abbrev pub size_mod : ℕ
size_mod = 18446744073709551616

-- A value that is announced under the id of one that is there, and is another: it is taken if its
-- sequence number is greater.
unfoldable pub is_edit : Value → OpCacheValueStorage → Bool
unfolding Value.equal
is_edit v c = if Value.equal c.stored v then false else ltb c.stored.seq v.seq

unfoldable pub merge : TimePoint → Value → OpCacheValueStorage → OpCacheValueStorage
unfolding Value.equal
merge t v c =
    if Value.equal c.stored v
    then record c { ref_count = (c.ref_count + 1) % unsigned_mod; updated = t }
    else if ltb c.stored.seq v.seq
    then record c { stored = v; updated = t }
    else record c { updated = t }

-- The loop of `onValuesAdded`: the cache, and `newValues`.
unfoldable pub added_loop :
    TimePoint → List Value → Map OpCacheValueStorage → Map OpCacheValueStorage × List Value
unfolding Map.find Map.emplace Map.update merge is_edit
added_loop t [] m = (m, [])
added_loop t (v ∷ vs) m = elim (Map.find v.id m) [
  | none ↦
      let fresh : OpCacheValueStorage = record { stored = v; ref_count = 1; updated = t } in
      let (m', news) = added_loop t vs (Map.emplace v.id fresh m) in (m', v ∷ news)
  | some c ↦
      let (m', news) = added_loop t vs (Map.update v.id (merge t v) m) in
      (m', if is_edit v c then v ∷ news else news)
]

-- What a call of the callback on these values is, and its answer: `true` without a call if there are none.
abbrev pub call : (List Value → Event) → List Value → List Event
call e [] = []
call e (v ∷ vs) = e (v ∷ vs) ∷ []

abbrev pub answer : (List Value → Bool) → List Value → Bool
answer callback [] = true
answer callback (v ∷ vs) = callback (v ∷ vs)

unfoldable pub on_values_added :
    (List Value → Bool → Bool)
    → List Value
    → TimePoint
    → OpValueCache
    → OpValueCache × List Event × Bool
unfolding added_loop
on_values_added callback vals t c =
    let (m, news) = added_loop t vals c.values in
    (record c { values = m }, call values_added news, answer (λ vs. callback vs false) news)

abbrev pub drop_ref : TimePoint → OpCacheValueStorage → OpCacheValueStorage
drop_ref t c = record c { ref_count = (c.ref_count + unsigned_mod - 1) % unsigned_mod; updated = t }

-- The loop of `onValuesExpired` over ids: the cache, and `expiredValues`.
unfoldable pub expired_loop :
    TimePoint → List ℕ → Map OpCacheValueStorage → Map OpCacheValueStorage × List Value
unfolding Map.find Map.update Map.erase
expired_loop t [] m = (m, [])
expired_loop t (vid ∷ vids) m = elim (Map.find vid m) [
  | none ↦ expired_loop t vids m
  | some c ↦ elim (ltb t c.updated) [
    | true ↦ expired_loop t vids m
    | false ↦ elim ((drop_ref t c).ref_count == 0) [
      | true ↦ let (m', gone) = expired_loop t vids (Map.erase vid m) in (m', c.stored ∷ gone)
      | false ↦ expired_loop t vids (Map.update vid (drop_ref t) m)
    ]
  ]
]

-- onValuesExpired of ids.
unfoldable pub on_ids_expired :
    (List Value → Bool → Bool)
    → List ℕ
    → TimePoint
    → OpValueCache
    → OpValueCache × List Event × Bool
unfolding expired_loop
on_ids_expired callback vids t c =
    let (m, gone) = expired_loop t vids c.values in
    (record c { values = m }, call values_expired gone, answer (λ vs. callback vs true) gone)

abbrev pub ids_of : List Value → List ℕ
ids_of [] = []
ids_of (v ∷ vs) = v.id ∷ ids_of vs

-- onValuesExpired of values, of which only the ids are read.
unfoldable pub on_values_expired :
    (List Value → Bool → Bool)
    → List Value
    → TimePoint
    → OpValueCache
    → OpValueCache × List Event × Bool
unfolding on_ids_expired
on_values_expired callback vals t c = on_ids_expired callback (ids_of vals) t c

-- onValue
unfoldable pub on_value :
    (List Value → Bool → Bool)
    → List Value
    → Bool
    → TimePoint
    → OpValueCache
    → OpValueCache × List Event × Bool
unfolding on_values_added on_values_expired
on_value callback vals true t c = on_values_expired callback vals t c
on_value callback vals false t c = on_values_added callback vals t c

-- onNodeChanged
unfoldable pub on_node_changed : SyncStatus → OpValueCache → OpValueCache
on_node_changed added c = record c { nodes = (c.nodes + 1) % size_mod }
on_node_changed removed c = record c { nodes = (c.nodes + size_mod - 1) % size_mod }
on_node_changed synced c = record c { synced_nodes = (c.synced_nodes + 1) % size_mod }
on_node_changed unsynced c = record c { synced_nodes = (c.synced_nodes + size_mod - 1) % size_mod }

unfoldable pub is_synced : OpValueCache → Bool
is_synced c = ltb 0 c.nodes && c.synced_nodes == c.nodes

-- getValues
unfoldable pub get_values : Map OpCacheValueStorage → List Value
get_values [] = []
get_values ((k, c) ∷ m) = c.stored ∷ get_values m

-- get(filter)
unfoldable pub get : Filter → Map OpCacheValueStorage → List Value
unfolding passes
get f [] = []
get f ((k, c) ∷ m) = let rest = get f m in if passes f c.stored then c.stored ∷ rest else rest

-- get(id)
unfoldable pub get_by_id : ℕ → OpValueCache → Option Value
unfolding Map.find
get_by_id vid c = elim (Map.find vid c.values) [ none ↦ none | some s ↦ some s.stored ]

pub record OpCache : Type 0 where
  pub cache : OpValueCache
  pub listeners : Map LocalListener
  pub last_removed : TimePoint
  pub search_token : ℕ

-- A call of a listener's callback: its token, the values, and whether they are expired.
pub record Call : Type 0 where
  pub token : ℕ
  pub values : List Value
  pub expired : Bool

abbrev pub expiration_time : Duration
expiration_time = seconds 60

-- The constructor, at the time `now`, before `searchToken` is set.
unfoldable pub new : TimePoint → OpCache
new now = record {
  cache = record { nodes = 0; synced_nodes = 0; values = [] };
  listeners = [];
  last_removed = now;
  search_token = 0;
}

-- The loops of OpCache::onValuesAdded and onValuesExpired.
unfoldable pub tell : List Value → Bool → Map LocalListener → List Call
unfolding filter_values
tell vals expired [] = []
tell vals expired ((token, l) ∷ ls) =
    record { token = token; values = filter_values l.filter vals; expired = expired }
    ∷ tell vals expired ls

-- OpCache::onValue: the callback of the cache tells all listeners and answers `true`.
unfoldable pub op_on_value : List Value → Bool → OpCache → OpCache × List Call
unfolding on_value tell
op_on_value vals expired op =
    let (cache, events, ok) = on_value (λ vs e. true) vals expired 0 op.cache in
    (
      record op { cache = cache },
      elim events [
        | [] ↦ []
        | e ∷ es ↦ elim e [
          | values_added vs ↦ tell vs false op.listeners
          | values_expired vs ↦ tell vs true op.listeners
          | _ ↦ []
        ]
      ],
    )

-- addListener: the cache, and whether the listener stays.
unfoldable pub add_listener : ℕ → LocalListener → OpCache → OpCache × Bool
unfolding get Map.emplace
add_listener token l op =
    let there = get l.filter op.cache.values in
    let accepted : Bool = elim there [ [] ↦ true | v ∷ vs ↦ l.get_cb (v ∷ vs) false ] in
    if accepted
    then (record op { listeners = Map.emplace token l op.listeners }, true)
    else (op, false)

-- removeListener
unfoldable pub remove_listener : ℕ → TimePoint → OpCache → OpCache × Bool
unfolding Map.find Map.erase
remove_listener token now op = (
  record op { last_removed = now; listeners = Map.erase token op.listeners },
  elim (Map.find token op.listeners) [ none ↦ false | some _ ↦ true ],
)

unfoldable pub remove_all : OpCache → OpCache
remove_all op = record op { listeners = [] }

unfoldable pub is_done : OpCache → Bool
is_done op = elim op.listeners [ [] ↦ true | _ ∷ _ ↦ false ]

-- isExpired
unfoldable pub is_expired : OpCache → TimePoint → Bool
unfolding is_done
is_expired op now = is_done op && ltb (op.last_removed + expiration_time) now

-- getExpiration
unfoldable pub get_expiration : OpCache → TimePoint
unfolding is_done
get_expiration op = if is_done op then op.last_removed + expiration_time else time_max
