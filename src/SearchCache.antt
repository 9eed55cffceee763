-- ===== src/SearchCache.antt =====
-- src/op_cache.h and src/op_cache.cpp: `SearchCache`, the listen operations of a search by query. The map
-- is by the address of the query. `onListen` and `onCancel` stand for the network: the first answers
-- the token of a search, and the second is called with it, which is recorded.
pub mod Tokens
pub mod Expiry
mod Tests
use opendht.Prelude.{
  ℕ, ◌+◌, ◌%◌, min, Bool, true, false, not, ◌&&◌, ◌||◌, List, [], ◌∷◌, ◌++◌, Option, none, some,
  ltb, ◌==◌, if◌then◌else◌, length,
}
use opendht.Prelude.Map.{Map}
use opendht.Prelude.Map
use opendht.Time.{TimePoint, time_max}
use opendht.Value.{Value}
use opendht.Filter.{Filter}
use opendht.Query.{Query, satisfied}
use opendht.Storage.{LocalListener}
use opendht.OpCache.{OpCache, size_mod, add_listener, remove_listener, get_expiration, is_synced}
use opendht.OpCache

-- An entry of the map: the query, and its cache.
pub record Op : Type 0 where
  pub query : Query
  pub cache : OpCache

pub record SearchCache : Type 0 where
  pub ops : Map Op
  pub next_token : ℕ
  pub next_expiration : TimePoint

abbrev pub empty_cache : SearchCache
empty_cache = record { ops = []; next_token = 1; next_expiration = time_max }

-- The loop of `getOp` over the queries that may satisfy q.
unfoldable pub satisfying : Query → Map Op → Option ℕ
unfolding satisfied
satisfying q [] = none
satisfying q ((r, op) ∷ ops) =
    let rest = satisfying q ops in if satisfied q op.query then some r else rest

-- getOp: the address of the entry.
unfoldable pub get_op : ℕ → Query → Map Op → Option ℕ
unfolding Map.find satisfying
get_op r q ops = elim (Map.find r ops) [ some _ ↦ some r | none ↦ satisfying q ops ]

-- `nextToken_++`, and once more if that is 0.
unfoldable pub token_after : ℕ → ℕ
token_after n = let n' = (n + 1) % size_mod in if n' == 0 then 1 else n'

-- The end of `listen`, where the listener is added to the entry at address `at`.
unfoldable pub join : ℕ → LocalListener → SearchCache → SearchCache × ℕ
unfolding Map.find Map.update token_after add_listener
join at l sc = elim (Map.find at sc.ops) [
  | none ↦ (record sc { next_token = token_after sc.next_token }, 0)
  | some op ↦
      let (cache, ok) = add_listener sc.next_token l op.cache in
      (
        record sc {
          ops = Map.update at (λ o. record o { cache = cache }) sc.ops;
          next_token = token_after sc.next_token;
        },
        if ok then sc.next_token else 0,
      )
]

-- `listen` for the query q at address r, at the time `now`; `search` is what `onListen` returns. The
-- cache, and the token, or 0 if the listener declines.
unfoldable pub listen : ℕ → Query → LocalListener → ℕ → TimePoint → SearchCache → SearchCache × ℕ
unfolding get_op Map.emplace OpCache.new join
listen r q l search now sc = elim (get_op r q sc.ops) [
  | some at ↦ join at l sc
  | none ↦
      let op : Op = record {
        query = q;
        cache = record (OpCache.new now) { search_token = search };
      } in
      join r l (record sc { ops = Map.emplace r op sc.ops })
]

-- The loop of `cancelListen`: the entries, and the expiration of the one that had the listener.
unfoldable pub cancel_loop : ℕ → TimePoint → Map Op → Map Op × Option TimePoint
unfolding remove_listener get_expiration
cancel_loop token now [] = ([], none)
cancel_loop token now ((r, op) ∷ ops) =
    let (rest, found) = cancel_loop token now ops in
    let (cache, had) = remove_listener token now op.cache in
    if had
    then ((r, record op { cache = cache }) ∷ ops, some (get_expiration cache))
    else ((r, record op { cache = cache }) ∷ rest, found)

unfoldable pub cancel_listen : ℕ → TimePoint → SearchCache → SearchCache × Bool
unfolding cancel_loop
cancel_listen token now sc =
    let (ops, found) = cancel_loop token now sc.ops in
    elim found [
      | none ↦ (record sc { ops = ops }, false)
      | some e ↦ (record sc { ops = ops; next_expiration = min sc.next_expiration e }, true)
    ]

-- The tokens of the searches, in the order of the map.
unfoldable pub search_tokens : Map Op → List ℕ
search_tokens [] = []
search_tokens ((r, op) ∷ ops) = op.cache.search_token ∷ search_tokens ops

-- cancelAll: the calls of `onCancel`.
unfoldable pub cancel_all : SearchCache → SearchCache × List ℕ
unfolding search_tokens
cancel_all sc = (record sc { ops = [] }, search_tokens sc.ops)

unfoldable pub clear : SearchCache → SearchCache
clear sc = record sc { ops = []; next_expiration = time_max }

-- The loop of `expire`, with the next expiration so far: the entries that stay, that expiration in the
-- end, and the calls of `onCancel`.
unfoldable pub expire_loop : TimePoint → Map Op → TimePoint → Map Op × TimePoint × List ℕ
unfolding get_expiration
expire_loop now [] next = ([], next, [])
expire_loop now ((r, op) ∷ ops) next =
    let e : TimePoint = get_expiration op.cache in
    elim (ltb e now) [
      | true ↦
          let (kept, n, calls) = expire_loop now ops next in
          (kept, n, op.cache.search_token ∷ calls)
      | false ↦
          let (kept, n, calls) = expire_loop now ops (min next e) in ((r, op) ∷ kept, n, calls)
    ]

-- expire: the cache, the time that it returns, and the calls.
unfoldable pub expire : TimePoint → SearchCache → SearchCache × TimePoint × List ℕ
unfolding expire_loop
expire now sc =
    let (ops, next, calls) = expire_loop now sc.ops time_max in
    (record sc { ops = ops; next_expiration = next }, next, calls)

-- get(filter, query): whether it answers; `gcb` is the answer of the callback on the values.
unfoldable pub get : Filter → ℕ → Query → (List Value → Bool) → SearchCache → Bool
unfolding get_op Map.find OpCache.get is_synced
get f r q gcb sc = elim (get_op r q sc.ops) [
  | none ↦ false
  | some at ↦ elim (Map.find at sc.ops) [
    | none ↦ false
    | some op ↦
        let refused : Bool = elim (OpCache.get f op.cache.cache.values) [
          | [] ↦ false
          | v ∷ vs ↦ not (gcb (v ∷ vs))
        ] in
        refused || is_synced op.cache.cache
  ]
]

-- The inner loop of get(filter).
unfoldable pub merge_values : List Value → Map Value → Map Value
unfolding Map.emplace
merge_values [] m = m
merge_values (v ∷ vs) m = merge_values vs (Map.emplace v.id v m)

unfoldable pub merge_ops : Filter → Map Op → Map Value → Map Value
unfolding merge_values OpCache.get
merge_ops f [] m = m
merge_ops f ((r, op) ∷ ops) m =
    merge_ops f ops (merge_values (OpCache.get f op.cache.cache.values) m)

abbrev values_of : Map Value → List Value
values_of [] = []
values_of ((k, v) ∷ m) = v ∷ values_of m

-- get(filter)
unfoldable pub get_values : Filter → Map Op → List Value
unfolding merge_ops OpCache.get
get_values f ((r, op) ∷ []) = OpCache.get f op.cache.cache.values
get_values f ops = values_of (merge_ops f ops [])

-- get(id)
unfoldable pub get_by_id : ℕ → Map Op → Option Value
unfolding OpCache.get_by_id
get_by_id vid [] = none
get_by_id vid ((r, op) ∷ ops) =
    let rest = get_by_id vid ops in
    elim (OpCache.get_by_id vid op.cache.cache) [ none ↦ rest | some v ↦ some v ]

-- size(): the number of entries and of values.
unfoldable pub size : Map Op → ℕ × ℕ
size [] = (0, 0)
size ((r, op) ∷ ops) =
    let (n, tot) = size ops in (n + 1, (length op.cache.cache.values + tot) % size_mod)
