-- ===== src/NodeCache/Tests.antt =====
-- A map of four nodes, of which one is no longer alive.
use opendht.Prelude.{
  ℕ, ◌≤◌, ◌≡◌, ◌%◌, refl, true, false, not, [], ◌∷◌, some, min, length, ◌==◌, All, Bool,
}
use opendht.Hash.{Hash, xor_cmp, less, equal}
use opendht.Node
use opendht.RoutingTable.{Heap}
use opendht.RoutingTable.Held.{occurrences}
use opendht.NodeCache.{
  NodeMap, is_offered, around, nearest, get_cached_nodes, get_node, reach_node, make_node, find_ref,
}
use opendht.NodeCache.Nearest.{count_offered, count_ref, get_cached_nodes_lem}
use opendht.NodeCache.Lookup.{get_node-reach_node}

-- Node k has k for the first byte of its id.
abbrev id_of : ℕ → Hash
id_of k = k % 256 ∷ 1 ∷ []

abbrev nodes : Heap
nodes k = Node.new (id_of k) k 1 false

abbrev all_but_nine : ℕ → Bool
all_but_nine k = not (k == 9)

-- The next node that is made cleans up the map.
abbrev four_nodes : NodeMap
four_nodes = record {
  refs = (id_of 5, 5) ∷ (id_of 9, 9) ∷ (id_of 70, 70) ∷ (id_of 90, 90) ∷ [];
  cleanup_counter = 4096;
}

nearest_two : get_cached_nodes all_but_nine nodes (id_of 71) 2 four_nodes ≡ 70 ∷ 90 ∷ []
unfolding get_cached_nodes around nearest is_offered less xor_cmp Node.new
nearest_two = refl

get_cached_nodes_lem_example :
    (length (get_cached_nodes all_but_nine nodes (id_of 71) 2 four_nodes)
      ≡ min 2 (count_offered all_but_nine nodes four_nodes.refs))
    × All
        (λ n. is_offered all_but_nine nodes n ≡ true)
        (get_cached_nodes all_but_nine nodes (id_of 71) 2 four_nodes)
    × (occurrences 70 (get_cached_nodes all_but_nine nodes (id_of 71) 2 four_nodes)
        ≤ count_ref 70 four_nodes.refs)
get_cached_nodes_lem_example = get_cached_nodes_lem all_but_nine nodes (id_of 71) 70 2 four_nodes

-- Node 9 is made anew at another address.
made : (reach_node all_but_nine (id_of 9) 9 0 false false 33 1 (id_of 80) nodes four_nodes).2 ≡ 33
unfolding reach_node make_node find_ref equal
made = refl

get_node-reach_node_example :
    get_node all_but_nine
      (id_of 9)
      (reach_node all_but_nine (id_of 9) 9 0 false false 33 1 (id_of 80) nodes four_nodes).1
    ≡ (
      (reach_node all_but_nine (id_of 9) 9 0 false false 33 1 (id_of 80) nodes four_nodes).1,
      some (reach_node all_but_nine (id_of 9) 9 0 false false 33 1 (id_of 80) nodes four_nodes).2,
    )
get_node-reach_node_example =
    get_node-reach_node all_but_nine (id_of 9) 9 0 false false 33 1 (id_of 80) nodes four_nodes
      all_but_nine (rw made refl)
