-- ===== src/RoutingTable/Joins.antt =====
-- src/routing_table.cpp: `RoutingTable::onNewNode`. A ping is recorded. NetworkEngine::sendPing gives the
-- node a request, and may set it expired where the packet cannot be sent: `heap_after pings` holds the
-- nodes once these pings have been sent, and `is_pending_after pings n` says whether node n has a pending
-- message then. `heap` gives the ids, which do not change.
use opendht.Prelude.{
  ℕ, zero, suc, Bool, true, false, not, ◌&&◌, ◌||◌, List, [], ◌∷◌, ◌++◌, Option, none, some, ltb,
  leb, ◌==◌, length, if◌then◌else◌,
}
use opendht.Time.{TimePoint}
use opendht.Hash.{Hash}
use opendht.Node.{is_good}
use opendht.RoutingTable.{
  Bucket, Heap, Place, target_nodes, table, find_bucket, contains, depth, split,
}

-- The list of buckets, and the other members.
pub record Routing : Type 0 where
  pub buckets : List Bucket
  pub grow_time : TimePoint
  pub is_client : Bool

unfoldable pub has_node : ℕ → List ℕ → Bool
has_node node [] = false
has_node node (n ∷ ns) = n == node || has_node node ns

-- The nodes with the new one in the place of the first that is expired, if there is one.
unfoldable pub replace_expired : Heap → ℕ → List ℕ → Option (List ℕ)
replace_expired heap node [] = none
replace_expired heap node (n ∷ ns) = elim (heap n).expired [
  | true ↦ some (node ∷ ns)
  | false ↦ elim (replace_expired heap node ns) [ none ↦ none | some ns' ↦ some (n ∷ ns') ]
]

-- The loop over dubious nodes: whether there is one, and the one that is pinged.
unfoldable pub is_dubious : Heap → TimePoint → List ℕ → Bool
unfolding is_good
is_dubious heap now [] = false
is_dubious heap now (n ∷ ns) = not (is_good (heap n) now) || is_dubious heap now ns

unfoldable pub dubious_ping : Heap → TimePoint → (ℕ → Bool) → List ℕ → List ℕ
unfolding is_good
dubious_ping heap now is_pending [] = []
dubious_ping heap now is_pending (n ∷ ns) =
    let rest = dubious_ping heap now is_pending ns in
    if not (is_good (heap n) now) && not (is_pending n) then n ∷ [] else rest

abbrev pub cached_ping : Bucket → List ℕ
cached_ping b = elim b.cached [ none ↦ [] | some n ↦ n ∷ [] ]

-- How a call goes on: it returns, or calls itself on a table that is split.
pub data Join : Type 0 where
  returns : Routing → List ℕ → Bool → Join
  retries : Routing → List ℕ → Join

module _ (heap : Heap) (heap_after : List ℕ → Heap) (is_pending_after : List ℕ → ℕ → Bool)
    (node : ℕ) (confirm : ℕ) (now : TimePoint) (my_id : Hash) where
  unfoldable pub may_split : Routing → Place → Bool → List ℕ → Bool
  unfolding is_dubious table depth
  may_split r p mine pings =
      (mine || (r.is_client && ltb (depth p) 6))
      && (not (is_dubious (heap_after pings) now p.bucket.nodes) || length (table p) == 1)

  unfoldable pub keeps_cached : Bucket → Bool
  keeps_cached b = (elim b.cached [ none ↦ false | some _ ↦ true ]) && confirm == 0

  -- Where the bucket of the node is full and has no expired node.
  unfoldable pub join_full : Routing → Place → Bool → List ℕ → Join
  unfolding may_split keeps_cached dubious_ping table split
  join_full r p mine pings =
      let asked =
        pings ++ dubious_ping (heap_after pings) now (is_pending_after pings) p.bucket.nodes in
      elim (may_split r p mine pings) [
        | true ↦
            retries
              (record r {
                buckets = (split heap (record p { bucket = record p.bucket { cached = none } })).0;
              })
              (asked ++ cached_ping p.bucket)
        | false ↦
            returns
              (if keeps_cached p.bucket then record r { buckets = table p } else record r {
                buckets = table (record p { bucket = record p.bucket { cached = some node } });
              })
              asked true
      ]

  -- The function at the bucket of the node, after the writes to `b->time` and `grow_time`.
  unfoldable pub join_bucket : Routing → Place → Bool → List ℕ → Join
  unfolding table replace_expired join_full
  join_bucket r p mine pings = elim (leb target_nodes (length p.bucket.nodes)) [
    | false ↦
        returns
          (record r {
            buckets =
                table (record p { bucket = record p.bucket { nodes = node ∷ p.bucket.nodes } });
          })
          pings true
    | true ↦ elim (replace_expired (heap_after pings) node p.bucket.nodes) [
      | some ns ↦
          returns
            (record r { buckets = table (record p { bucket = record p.bucket { nodes = ns } }) })
            pings true
      | none ↦ join_full r p mine pings
    ]
  ]

  abbrev pub confirmed : Bucket → Bucket
  confirmed b = record b { time = if confirm == 2 then now else b.time }

  unfoldable pub join_at : Routing → Place → List ℕ → Join
  unfolding has_node contains table join_bucket
  join_at r p pings =
      let here : Place = record p { bucket = confirmed p.bucket } in
      elim (has_node node p.bucket.nodes) [
        | true ↦ returns (record r { buckets = table here }) pings false
        | false ↦
            let mine = contains here my_id in
            join_bucket (record r { grow_time = if mine then now else r.grow_time }) here mine pings
      ]

  unfoldable pub join : Routing → List ℕ → Join
  unfolding find_bucket join_at
  join r pings = elim (find_bucket (heap node).id r.buckets) [
    | none ↦ returns r pings false
    | some p ↦ join_at r p pings
  ]

  -- `onNewNode`, with at most so many calls of itself: the table, the pings, and the answer, or none if
  -- it has not returned.
  unfoldable pub on_new_node : ℕ → Routing → List ℕ → Routing × List ℕ × Option Bool
  unfolding join
  on_new_node zero r pings = (r, pings, none)
  on_new_node (suc calls) r pings = elim (join r pings) [
    | returns r' pings' answer ↦ (r', pings', some answer)
    | retries r' pings' ↦ on_new_node calls r' pings'
  ]
