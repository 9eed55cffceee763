-- ===== src/RoutingTable/Tests.antt =====
-- A table of two buckets for ids of two bytes, with four nodes.
use opendht.Prelude.{ℕ, List, ◌≡◌, min, map, ◌%◌, arith, refl, false, [], ◌∷◌, some, length, true}
use opendht.Time.{minutes}
use opendht.Hash.{Hash, cmp, xor_cmp, lowbit, set_bit}
use opendht.Node.{Node, is_good}
use opendht.Node
use opendht.RoutingTable.{
  Bucket, Heap, Place, new, table, find_bucket, contains, middle, split, find_closest_nodes,
}
use opendht.RoutingTable.Ranges.{Ascends, contains_unique}
use opendht.RoutingTable.Split.{split-Ascends}
use opendht.RoutingTable.Held.{held, occurrences}
use opendht.RoutingTable.Closest.{IsByDistance, find_closest_nodes-IsByDistance}
use opendht.RoutingTable.Joins.{
  Routing, on_new_node, join, join_at, join_bucket, join_full, has_node, replace_expired,
  is_dubious, dubious_ping, may_split, keeps_cached,
}
use opendht.RoutingTable.Joined.{IsTable, on_new_node-IsTable}
use opendht.RoutingTable.Kept.{held-on_new_node}
use opendht.RoutingTable.Found.{all_good, length-find_closest_nodes}

-- Node k has k for the first byte of its id. It is good.
abbrev heap : Heap
heap k = record (Node.new (k % 256 ∷ 1 ∷ []) k 1 false) {
  time = minutes 200;
  reply_time = minutes 200;
}

abbrev low : Bucket
low = record (new 2 (0 ∷ 0 ∷ []) 0) { nodes = 5 ∷ 70 ∷ 9 ∷ [] }

abbrev high : Bucket
high = record (new 2 (128 ∷ 0 ∷ []) 0) { nodes = 200 ∷ [] }

abbrev at_low : Place
at_low = record { before = []; bucket = low; after = high ∷ [] }

abbrev wanted : Hash
wanted = 71 ∷ 1 ∷ []

two_Ascend : Ascends 2 (table at_low)
unfolding table new cmp
two_Ascend = (
  record { size = refl; bytes = omega arith },
  (refl, tt),
  (record { size = refl; bytes = omega arith }, tt, tt),
)

-- The bucket is split at 64, and the nodes stand in their halves, in the reverse order.
splits : map (λ b. b.nodes) (split heap at_low).0 ≡ (9 ∷ 5 ∷ []) ∷ (70 ∷ []) ∷ (200 ∷ []) ∷ []
unfolding split new table middle Node.new lowbit cmp set_bit
splits = refl

finds : find_closest_nodes heap wanted (minutes 201) 2 (low ∷ high ∷ []) ≡ 70 ∷ 5 ∷ []
unfolding find_closest_nodes new Node.new is_good xor_cmp cmp
finds = refl

contains_unique_example : find_bucket wanted (table at_low) ≡ some at_low
unfolding contains cmp new
contains_unique_example = contains_unique 2 wanted at_low refl two_Ascend refl

split-Ascends_example : Ascends 2 (split heap at_low).0
split-Ascends_example = split-Ascends heap 2 at_low two_Ascend

find_closest_nodes-IsByDistance_example :
    IsByDistance heap wanted (find_closest_nodes heap wanted (minutes 201) 2 (low ∷ high ∷ []))
unfolding Node.new
find_closest_nodes-IsByDistance_example =
    find_closest_nodes-IsByDistance heap wanted (λ n. refl) (minutes 201) 2 (low ∷ high ∷ [])

length-find_closest_nodes_example :
    length (find_closest_nodes heap wanted (minutes 201) 2 (low ∷ high ∷ []))
    ≡ min 2 (all_good heap (minutes 201) (low ∷ high ∷ []))
length-find_closest_nodes_example =
    length-find_closest_nodes heap wanted (minutes 201) 2 (low ∷ high ∷ [])

-- A full bucket of good nodes, which has this node's id.
abbrev crowded : Routing
crowded = record {
  buckets =
      record (new 2 (0 ∷ 0 ∷ []) 0) { nodes = 1 ∷ 2 ∷ 3 ∷ 4 ∷ 70 ∷ 80 ∷ 90 ∷ 100 ∷ [] } ∷ high ∷ [];
  grow_time = 0;
  is_client = false;
}

crowded-IsTable : IsTable heap 2 (heap 5).id crowded.buckets
unfolding table new contains cmp Node.new
crowded-IsTable = record {
  ascending = two_Ascend;
  placed = ((refl, (refl, (refl, (refl, (refl, (refl, (refl, (refl, tt)))))))), ((refl, tt), tt));
  starts = refl;
}

-- A node to which a ping is sent is expired at once.
abbrev after_pings : List ℕ → Heap
after_pings pings k = record (heap k) { expired = has_node k pings }

on_new_node-IsTable_example :
    IsTable heap 2
      (heap 5).id
      (on_new_node heap after_pings
        (λ pings n. false)
        5
        1
        (minutes 201)
        (0 ∷ 9 ∷ [])
        3
        crowded
        []).0.buckets
unfolding Node.new
on_new_node-IsTable_example =
    on_new_node-IsTable heap 2 (λ k. refl) after_pings (λ pings n. false) 5 1 (minutes 201)
      (0 ∷ 9 ∷ []) 3 crowded [] crowded-IsTable

held-on_new_node_example :
    held 70
      (on_new_node heap after_pings
        (λ pings n. false)
        5
        1
        (minutes 201)
        (0 ∷ 9 ∷ [])
        3
        crowded
        []).0.buckets
    ≡ held 70 crowded.buckets
unfolding on_new_node join join_at join_bucket join_full has_node replace_expired is_dubious
    dubious_ping may_split keeps_cached find_bucket contains split new table middle Node.new lowbit
    cmp set_bit is_good
held-on_new_node_example =
    held-on_new_node 5 70 refl heap after_pings (λ pings n. false) 1 (minutes 201) (0 ∷ 9 ∷ []) 3
      crowded [] refl

-- The bucket is split once, and the node is added.
joins :
    (on_new_node heap after_pings (λ pings n. false) 5 1 (minutes 201) (0 ∷ 9 ∷ []) 3 crowded []).2
    ≡ some true
unfolding on_new_node join join_at join_bucket join_full has_node replace_expired is_dubious
    dubious_ping may_split keeps_cached find_bucket contains split new table middle Node.new lowbit
    cmp set_bit is_good
joins = refl

-- Eight nodes that are not good, in the only bucket: the first of them is pinged and expires, the bucket is
-- split as it is the only one, and the new node, which is in the same half, takes its place.
abbrev dubious : Routing
dubious = record {
  buckets = record (new 2 (0 ∷ 0 ∷ []) 0) { nodes = 1 ∷ 2 ∷ 3 ∷ 4 ∷ 6 ∷ 7 ∷ 8 ∷ 9 ∷ [] } ∷ [];
  grow_time = 0;
  is_client = false;
}

ping_expires :
    (on_new_node heap after_pings
        (λ pings n. has_node n pings)
        5
        1
        (minutes 400)
        (0 ∷ 9 ∷ [])
        3
        dubious
        []).1
      ≡ 1 ∷ []
    × (held 1
          (on_new_node heap after_pings
            (λ pings n. has_node n pings)
            5
            1
            (minutes 400)
            (0 ∷ 9 ∷ [])
            3
            dubious
            []).0.buckets
        ≡ 0)
unfolding on_new_node join join_at join_bucket join_full has_node replace_expired is_dubious
    dubious_ping may_split keeps_cached find_bucket contains split new table middle Node.new lowbit
    cmp set_bit is_good held occurrences
ping_expires = (refl, refl)
