-- ===== src/NodeCache/Nearest.antt =====
-- `getCachedNodes`: which nodes it returns, and how many.
use opendht.Prelude.{
  ℕ, zero, suc, ◌+◌, ◌≤◌, ◌≡◌, refl, Bool, true, List, [], ◌∷◌, inl, inr, arith, min, length, ◌==◌,
  if◌then◌else◌, Bool-cases, All,
}
use opendht.Hash.{Hash, xor_cmp}
use opendht.Hash
use opendht.RoutingTable.{Heap, is_lt}
use opendht.RoutingTable.Held.{occurrences}
use opendht.NodeCache.{Refs, NodeMap, around, is_offered, nearest, get_cached_nodes}

-- The entries of the nodes that can be returned.
unfoldable pub count_offered : (ℕ → Bool) → Heap → Refs → ℕ
count_offered alive heap [] = 0
count_offered alive heap ((h, n) ∷ m) =
    (if is_offered alive heap n then 1 else 0) + count_offered alive heap m

-- The entries of one node.
unfoldable pub count_ref : ℕ → Refs → ℕ
count_ref k [] = 0
count_ref k ((h, n) ∷ m) = (if n == k then 1 else 0) + count_ref k m

around_counts :
    (alive : ℕ → Bool) (heap : Heap) (k : ℕ) (id : Hash) (before m : Refs)
    → (count_offered alive heap (around id before m).0
          + count_offered alive heap (around id before m).1
        ≡ count_offered alive heap before + count_offered alive heap m)
      × (count_ref k (around id before m).0 + count_ref k (around id before m).1
          ≡ count_ref k before + count_ref k m)
unfolding around count_offered count_ref
around_counts alive heap k id before [] = (refl, refl)
around_counts alive heap k id before ((h, n) ∷ m) = elim (Bool-cases (Hash.less h id)) [
  | inl below ↦
      let ih = around_counts alive heap k id ((h, n) ∷ before) m in
      rw below (omega (arith, ih.0), omega (arith, ih.1))
  | inr above ↦ rw above (refl, refl)
]

-- What holds of the nodes from any point of the loop on.
abbrev Nearest : (ℕ → Bool) → Heap → ℕ → ℕ → Refs → Refs → List ℕ → Type 0
Nearest alive heap k count prev next found =
    (length found ≡ min count (count_offered alive heap prev + count_offered alive heap next))
    × All (λ n. is_offered alive heap n ≡ true) found
    × (occurrences k found ≤ count_ref k prev + count_ref k next)

module _ (alive : ℕ → Bool) (heap : Heap) (id : Hash) (k : ℕ) where
  nearest_lem :
      (rounds count : ℕ) (prev next : Refs)
      → length prev + length next ≤ rounds
      → Nearest alive heap k count prev next (nearest alive heap id rounds count prev next)
  unfolding nearest count_offered count_ref occurrences
  nearest_lem zero count [] [] h = (omega arith, tt, omega arith)
  nearest_lem zero count (p ∷ prev) next h = absurd (omega (arith, h))
  nearest_lem zero count [] (n ∷ next) h = absurd (omega (arith, h))
  nearest_lem (suc rounds) zero prev next h = (omega arith, tt, omega arith)
  nearest_lem (suc rounds) (suc count) [] [] h = (omega arith, tt, omega arith)
  nearest_lem (suc rounds) (suc count) [] ((h, n) ∷ next) le =
      elim (Bool-cases (is_offered alive heap n)) [
        | inl good ↦
            let (len, all, occ) = nearest_lem rounds count [] next (omega (arith, le)) in
            rw (nearest, good) (omega (arith, len), (good, all), omega (arith, occ))
        | inr bad ↦
            let (len, all, occ) = nearest_lem rounds (suc count) [] next (omega (arith, le)) in
            rw (nearest, bad) (omega (arith, len), all, omega (arith, occ))
      ]
  nearest_lem (suc rounds) (suc count) ((g, p) ∷ prev) [] le =
      elim (Bool-cases (is_offered alive heap p)) [
        | inl good ↦
            let (len, all, occ) = nearest_lem rounds count prev [] (omega (arith, le)) in
            rw (nearest, good) (omega (arith, len), (good, all), omega (arith, occ))
        | inr bad ↦
            let (len, all, occ) = nearest_lem rounds (suc count) prev [] (omega (arith, le)) in
            rw (nearest, bad) (omega (arith, len), all, omega (arith, occ))
      ]
  nearest_lem (suc rounds) (suc count) ((g, p) ∷ prev) ((h, n) ∷ next) le =
      elim (Bool-cases (is_lt (xor_cmp id g h))) [
        | inl down ↦ elim (Bool-cases (is_offered alive heap p)) [
          | inl good ↦
              let (len, all, occ) =
                nearest_lem rounds count prev ((h, n) ∷ next) (omega (arith, le)) in
              rw (nearest, down) (rw good (omega (arith, len), (good, all), omega (arith, occ)))
          | inr bad ↦
              let (len, all, occ) =
                nearest_lem rounds (suc count) prev ((h, n) ∷ next) (omega (arith, le)) in
              rw (nearest, down) (rw bad (omega (arith, len), all, omega (arith, occ)))
        ]
        | inr up ↦ elim (Bool-cases (is_offered alive heap n)) [
          | inl good ↦
              let (len, all, occ) =
                nearest_lem rounds count ((g, p) ∷ prev) next (omega (arith, le)) in
              rw (nearest, up) (rw good (omega (arith, len), (good, all), omega (arith, occ)))
          | inr bad ↦
              let (len, all, occ) =
                nearest_lem rounds (suc count) ((g, p) ∷ prev) next (omega (arith, le)) in
              rw (nearest, up) (rw bad (omega (arith, len), all, omega (arith, occ)))
        ]
      ]

  -- `getCachedNodes` returns as many nodes as asked for, or all that can be returned if these are
  -- fewer; each is alive, not expired and no client, and is there at most as often as in the map.
  pub get_cached_nodes_lem :
      (count : ℕ) (m : NodeMap)
      → (length (get_cached_nodes alive heap id count m)
          ≡ min count (count_offered alive heap m.refs))
        × All (λ n. is_offered alive heap n ≡ true) (get_cached_nodes alive heap id count m)
        × (occurrences k (get_cached_nodes alive heap id count m) ≤ count_ref k m.refs)
  unfolding get_cached_nodes count_offered count_ref
  get_cached_nodes_lem count m =
      let prev : Refs = (around id [] m.refs).0 in
      let next : Refs = (around id [] m.refs).1 in
      let (offered, refs) = around_counts alive heap k id [] m.refs in
      let (len, all, occ) = nearest_lem (length prev + length next) count prev next (omega arith) in
      (omega (arith, len, offered), all, omega (arith, occ, refs))
