-- ===== src/RoutingTable.antt =====
-- include/opendht/routing_table.h and src/routing_table.cpp: `RoutingTable`, the known nodes in buckets
-- by ranges of ids. A node is its address in a heap. An iterator that is not end() is a place: what
-- stands before it, the bucket, and what follows.
pub mod Ranges
pub mod Middle
pub mod Split
pub mod Held
pub mod Placed
pub mod Closest
pub mod Found
pub mod Joins
pub mod Joined
pub mod Kept
mod Tests
use opendht.Prelude.{
  ℕ, ◌*◌, ◌-◌, Bool, true, false, ◌&&◌, ◌||◌, not, List, [], ◌∷◌, ◌++◌, reverse, Option, none, some,
  Ordering, ltb, leb, if◌then◌else◌, length, take, map,
}
use opendht.Prelude.Int.{ℤ, negsuc, suc_max}
use opendht.Time.{TimePoint, time_min}
use opendht.Hash.{Hash, cmp, lowbit, set_bit, xor_cmp}
use opendht.Node.{Node, is_good}

pub record Bucket : Type 0 where
  pub af : ℕ
  pub first : Hash
  pub time : TimePoint
  pub nodes : List ℕ
  pub cached : Option ℕ

abbrev pub Heap : Type 0
Heap = ℕ → Node

pub record Place : Type 0 where
  pub before : List Bucket
  pub bucket : Bucket
  pub after : List Bucket

-- TARGET_NODES
abbrev pub target_nodes : ℕ
target_nodes = 8

abbrev pub is_lt : Ordering → Bool
is_lt Ordering.lt = true
is_lt _ = false

-- The constructor with an address family, a first id and a time.
unfoldable pub new : ℕ → Hash → TimePoint → Bucket
new af first time = record { af = af; first = first; time = time; nodes = []; cached = none }

-- The table that a place is in.
unfoldable pub table : Place → List Bucket
table p = p.before ++ p.bucket ∷ p.after

-- std::next(it)->first.lowbit(), or -1 at the end.
unfoldable pub next_lowbit : List Bucket → ℤ
next_lowbit [] = negsuc 0
next_lowbit (b ∷ rest) = lowbit b.first

unfoldable pub depth : Place → ℕ
unfolding next_lowbit
depth p = suc_max (lowbit p.bucket.first) (next_lowbit p.after)

-- None where the source throws `std::out_of_range`.
unfoldable pub middle : Place → Option Hash
unfolding depth
middle p =
    if leb (8 * length p.bucket.first) (depth p)
    then none
    else some (set_bit p.bucket.first (depth p) true)

-- The loop of `findBucket`, at bucket b, before the rest.
unfoldable pub find_from : Hash → Bucket → List Bucket → Place
find_from id b [] = record { before = []; bucket = b; after = [] }
find_from id b (next ∷ rest) =
    let later = find_from id next rest in
    if is_lt (cmp id next.first)
    then record { before = []; bucket = b; after = next ∷ rest }
    else record later { before = b ∷ later.before }

-- None is end().
unfoldable pub find_bucket : Hash → List Bucket → Option Place
unfolding find_from
find_bucket id [] = none
find_bucket id (b ∷ rest) = some (find_from id b rest)

-- The second half of `contains`.
unfoldable pub below_next : Hash → List Bucket → Bool
below_next id [] = true
below_next id (next ∷ rest) = is_lt (cmp id next.first)

unfoldable pub contains : Place → Hash → Bool
unfolding below_next
contains p id =
    (elim (cmp p.bucket.first id) [ Ordering.gt ↦ false | _ ↦ true ]) && below_next id p.after

unfoldable pub is_empty : List Bucket → Bool
is_empty [] = true
is_empty (b ∷ []) = elim b.nodes [ [] ↦ true | _ ∷ _ ↦ false ]
is_empty _ = false

-- A round of the loop of `split`: node n moves to the front of the bucket for its id.
unfoldable pub move_node : Heap → ℕ → List Bucket → List Bucket
unfolding find_bucket table
move_node heap n bs = elim (find_bucket (heap n).id bs) [
  | none ↦ bs
  | some p ↦ p.before ++ (record p.bucket { nodes = n ∷ p.bucket.nodes }) ∷ p.after
]

unfoldable pub move_nodes : Heap → List ℕ → List Bucket → List Bucket
unfolding move_node
move_nodes heap [] bs = bs
move_nodes heap (n ∷ ns) bs = move_nodes heap ns (move_node heap n bs)

-- The table with the bucket emptied, and a new one behind it that starts at `id`.
unfoldable pub insert_half : Place → Hash → List Bucket
unfolding new
insert_half p id =
    p.before ++ (record p.bucket { nodes = [] }) ∷ new p.bucket.af id p.bucket.time ∷ p.after

unfoldable pub split : Heap → Place → List Bucket × Bool
unfolding middle move_nodes insert_half table
split heap p = elim (middle p) [
  | none ↦ (table p, false)
  | some id ↦ (move_nodes heap p.bucket.nodes (insert_half p id), true)
]

-- `nodes.insert(here, n)`, before the first node that is farther from `id` than n.
unfoldable pub sorted_insert : Heap → Hash → ℕ → List ℕ → List ℕ
sorted_insert heap id n [] = n ∷ []
sorted_insert heap id n (m ∷ ms) =
    let rest = sorted_insert heap id n ms in
    if is_lt (xor_cmp id (heap n).id (heap m).id) then n ∷ m ∷ ms else m ∷ rest

-- sortedBucketInsert, for the nodes of a bucket.
unfoldable pub sorted_bucket_insert : Heap → Hash → TimePoint → List ℕ → List ℕ → List ℕ
unfolding sorted_insert
sorted_bucket_insert heap id now [] nodes = nodes
sorted_bucket_insert heap id now (n ∷ ns) nodes =
    sorted_bucket_insert heap id now ns
      (if is_good (heap n) now then sorted_insert heap id n nodes else nodes)

-- The loop of `findClosestNodes`: the buckets from itn on, and those from itp down.
unfoldable pub visit : Heap → Hash → TimePoint → ℕ → List Bucket → List Bucket → List ℕ → List ℕ
unfolding sorted_bucket_insert
visit heap id now count [] [] nodes = nodes
visit heap id now count (b ∷ itn) [] nodes =
    let nodes' = sorted_bucket_insert heap id now b.nodes nodes in
    let rest = visit heap id now count itn [] nodes' in
    if ltb (length nodes) count then rest else nodes
visit heap id now count [] (c ∷ itp) nodes =
    let nodes' = sorted_bucket_insert heap id now c.nodes nodes in
    let rest = visit heap id now count [] itp nodes' in
    if ltb (length nodes) count then rest else nodes
visit heap id now count (b ∷ itn) (c ∷ itp) nodes =
    let nodes' = sorted_bucket_insert heap id now b.nodes nodes in
    let rest = visit heap id now count itn itp (sorted_bucket_insert heap id now c.nodes nodes') in
    if ltb (length nodes) count then rest else nodes

unfoldable pub find_closest_nodes : Heap → Hash → TimePoint → ℕ → List Bucket → List ℕ
unfolding find_bucket visit
find_closest_nodes heap id now count bs = elim (find_bucket id bs) [
  | none ↦ []
  | some p ↦ take count (visit heap id now count (p.bucket ∷ p.after) (reverse p.before) [])
]
