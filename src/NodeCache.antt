-- ===== src/NodeCache.antt =====
-- include/opendht/node_cache.h and src/node_cache.cpp: `NodeCache::NodeMap`, the nodes of one address
-- family by id. A node is an address in a heap, and `alive` says of which nodes something else holds a
-- pointer, so that a weak pointer to them can be locked.
pub mod Nearest
pub mod Lookup
mod Tests
use opendht.Prelude.{
  ℕ, zero, suc, ◌+◌, ◌-◌, min, Bool, true, false, not, ◌&&◌, ◌||◌, List, [], ◌∷◌, ◌++◌, Option,
  none, some, Ordering, ltb, ◌==◌, if◌then◌else◌, length,
}
use opendht.Time.{TimePoint}
use opendht.Hash.{Hash, xor_cmp, nonzero}
use opendht.Hash
use opendht.Node.{Node, Requests, is_old}
use opendht.Node
use opendht.RoutingTable.{Heap, is_lt}

-- std::map<InfoHash, std::weak_ptr<Node>>, in the order of the ids.
abbrev pub Refs : Type 0
Refs = List (Hash × ℕ)

pub record NodeMap : Type 0 where
  pub refs : Refs
  pub cleanup_counter : ℕ

abbrev pub cleanup_max_nodes : ℕ
cleanup_max_nodes = 4096

abbrev pub cleanup_freq : ℕ
cleanup_freq = 4096

unfoldable pub find_ref : Hash → Refs → Option ℕ
unfolding Hash.equal
find_ref id [] = none
find_ref id ((h, n) ∷ m) = if Hash.equal h id then some n else find_ref id m

unfoldable pub erase_ref : Hash → Refs → Refs
unfolding Hash.equal
erase_ref id [] = []
erase_ref id ((h, n) ∷ m) = if Hash.equal h id then m else (h, n) ∷ erase_ref id m

-- `(*this)[id] = n`
unfoldable pub set_ref : Hash → ℕ → Refs → Refs
unfolding Hash.equal Hash.less
set_ref id n [] = (id, n) ∷ []
set_ref id n ((h, o) ∷ m) =
    if Hash.equal h id
    then (h, n) ∷ m
    else if Hash.less id h
    then (id, n) ∷ (h, o) ∷ m
    else (h, o) ∷ set_ref id n m

-- What stands before lower_bound(id), in reverse, and what stands from there on.
unfoldable pub around : Hash → Refs → Refs → Refs × Refs
unfolding Hash.less
around id before [] = (before, [])
around id before ((h, n) ∷ m) =
    if Hash.less h id then around id ((h, n) ∷ before) m else (before, (h, n) ∷ m)

-- A node that `getCachedNodes` takes.
unfoldable pub is_offered : (ℕ → Bool) → Heap → ℕ → Bool
is_offered alive heap n = alive n && (not (heap n).expired && not (heap n).is_client)

-- The loop of `getCachedNodes`, from it_p down and from it_n up, for `count` more nodes. It has as many
-- rounds as there are entries.
unfoldable pub nearest : (ℕ → Bool) → Heap → Hash → ℕ → ℕ → Refs → Refs → List ℕ
unfolding is_offered
nearest alive heap id zero count prev next = []
nearest alive heap id (suc rounds) zero prev next = []
nearest alive heap id (suc rounds) (suc count) [] [] = []
nearest alive heap id (suc rounds) (suc count) [] ((h, n) ∷ next) = elim (is_offered alive heap n) [
  | true ↦ n ∷ nearest alive heap id rounds count [] next
  | false ↦ nearest alive heap id rounds (suc count) [] next
]
nearest alive heap id (suc rounds) (suc count) ((g, p) ∷ prev) [] = elim (is_offered alive heap p) [
  | true ↦ p ∷ nearest alive heap id rounds count prev []
  | false ↦ nearest alive heap id rounds (suc count) prev []
]
nearest alive heap id (suc rounds) (suc count) ((g, p) ∷ prev) ((h, n) ∷ next) =
    elim (is_lt (xor_cmp id g h)) [
      | true ↦ elim (is_offered alive heap p) [
        | true ↦ p ∷ nearest alive heap id rounds count prev ((h, n) ∷ next)
        | false ↦ nearest alive heap id rounds (suc count) prev ((h, n) ∷ next)
      ]
      | false ↦ elim (is_offered alive heap n) [
        | true ↦ n ∷ nearest alive heap id rounds count ((g, p) ∷ prev) next
        | false ↦ nearest alive heap id rounds (suc count) ((g, p) ∷ prev) next
      ]
    ]

unfoldable pub get_cached_nodes : (ℕ → Bool) → Heap → Hash → ℕ → NodeMap → List ℕ
unfolding around nearest
get_cached_nodes alive heap id count m =
    let (prev, next) = around id [] m.refs in
    nearest alive heap id (length prev + length next) count prev next

-- getNode(id)
unfoldable pub get_node : (ℕ → Bool) → Hash → NodeMap → NodeMap × Option ℕ
unfolding find_ref erase_ref
get_node alive id m = elim (find_ref id m.refs) [
  | none ↦ (m, none)
  | some n ↦ if alive n then (m, some n) else (record m { refs = erase_ref id m.refs }, none)
]

-- The loop of `cleanup` over a part of the map, with the rounds that are left: the entries that stay, and
-- the rounds left then.
unfoldable pub sweep_refs : (ℕ → Bool) → ℕ → Refs → Refs × ℕ
sweep_refs alive rounds [] = ([], rounds)
sweep_refs alive zero (e ∷ m) = (e ∷ m, zero)
sweep_refs alive (suc rounds) ((h, n) ∷ m) =
    let (kept, left) = sweep_refs alive rounds m in
    if alive n then ((h, n) ∷ kept, left) else (kept, left)

-- The entries before lower_bound(start), and those from there on.
unfoldable pub before_bound : Hash → Refs → Refs
unfolding Hash.less
before_bound start [] = []
before_bound start ((h, n) ∷ m) =
    let rest = before_bound start m in if Hash.less h start then (h, n) ∷ rest else []

unfoldable pub from_bound : Hash → Refs → Refs
unfolding Hash.less
from_bound start [] = []
from_bound start ((h, n) ∷ m) = if Hash.less h start then from_bound start m else (h, n) ∷ m

-- cleanup, from the random id `start` on, round the map.
unfoldable pub cleanup : (ℕ → Bool) → Hash → Refs → Refs
unfolding sweep_refs before_bound from_bound
cleanup alive start m =
    let (back, left) = sweep_refs alive (min (length m) cleanup_max_nodes) (from_bound start m) in
    (sweep_refs alive left (before_bound start m)).0 ++ back

abbrev pub write : Heap → ℕ → Node → Heap
write heap n node = λ k. if k == n then node else heap k

module _ (alive : ℕ → Bool) (id : Hash) (addr : ℕ) (now : TimePoint) (confirm is_client : Bool)
    (fresh tid : ℕ) (start : Hash) where
  -- getNode with an address, where a node is made at the address `fresh`, with the transaction id
  -- that is drawn; `start` is what `cleanup` draws.
  unfoldable pub make_node : Heap → NodeMap → Heap × NodeMap × ℕ
  unfolding set_ref cleanup Node.new
  make_node heap m =
      let refs = set_ref id fresh m.refs in
      let heap' = write heap fresh (Node.new id addr tid is_client) in
      if m.cleanup_counter == cleanup_freq
      then (
        heap',
        record { refs = cleanup (λ k. k == fresh || alive k) start refs; cleanup_counter = 0 },
        fresh,
      )
      else (heap', record { refs = refs; cleanup_counter = suc m.cleanup_counter }, fresh)

  unfoldable pub reach_node : Heap → NodeMap → Heap × NodeMap × ℕ
  unfolding find_ref is_old Node.update make_node
  reach_node heap m = elim (find_ref id m.refs) [
    | none ↦ make_node heap m
    | some n ↦ elim (alive n) [
      | false ↦ make_node heap m
      | true ↦ (
        if confirm || is_old (heap n) now then write heap n (Node.update (heap n) addr) else heap,
        m,
        n,
      )
    ]
  ]

-- NodeCache::getNode: a node for the null id is not kept.
unfoldable pub get_or_make :
    (ℕ → Bool)
    → Hash
    → ℕ
    → TimePoint
    → Bool
    → Bool
    → ℕ
    → ℕ
    → Hash
    → Heap
    → NodeMap
    → Heap × NodeMap × ℕ
unfolding Hash.nonzero Node.new reach_node
get_or_make alive id addr now confirm is_client fresh tid start heap m = elim (nonzero id) [
  | false ↦ (write heap fresh (Node.new id addr tid is_client), m, fresh)
  | true ↦ reach_node alive id addr now confirm is_client fresh tid start heap m
]

-- The loop of clearBadNodes.
unfoldable pub clear_refs : (ℕ → Bool) → Heap → Refs → Heap × Refs
unfolding Node.reset
clear_refs alive heap [] = (heap, [])
clear_refs alive heap ((h, n) ∷ m) = elim (alive n) [
  | true ↦
      let (heap', kept) = clear_refs alive (write heap n (Node.reset (heap n))) m in
      (heap', (h, n) ∷ kept)
  | false ↦ clear_refs alive heap m
]

unfoldable pub clear_bad_nodes : (ℕ → Bool) → Heap → NodeMap → Heap × NodeMap
unfolding clear_refs
clear_bad_nodes alive heap m =
    let (heap', kept) = clear_refs alive heap m.refs in
    (heap', record { refs = kept; cleanup_counter = 0 })

-- The loop of NodeMap::setExpired.
unfoldable pub expire_refs : (ℕ → Bool) → Heap → Requests → Refs → Heap × Requests
unfolding Node.set_expired
expire_refs alive heap rs [] = (heap, rs)
expire_refs alive heap rs ((h, n) ∷ m) = elim (alive n) [
  | true ↦
      let (node, rs') = Node.set_expired (heap n) rs in expire_refs alive (write heap n node) rs' m
  | false ↦ expire_refs alive heap rs m
]

unfoldable pub expire_nodes : (ℕ → Bool) → Heap → Requests → NodeMap → Heap × Requests × NodeMap
unfolding expire_refs
expire_nodes alive heap rs m =
    let (heap', rs') = expire_refs alive heap rs m.refs in
    (heap', rs', record { refs = []; cleanup_counter = 0 })
