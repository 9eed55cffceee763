-- ===== src/NodeCache/Lookup.antt =====
-- A node that `getNode` returns is found under its id from then on, as long as it is alive.
use opendht.Prelude.{
  ℕ, zero, suc, ◌≡◌, ◌∙◌, refl, ap, sym, Bool, true, ◌||◌, [], ◌∷◌, ◌++◌, Option, none, some, inl,
  inr, arith, min, length, ◌==◌, Bool-cases, Option-cases,
}
use opendht.Time.{TimePoint}
use opendht.Hash.{Hash}
use opendht.Hash
use opendht.RoutingTable.{Heap}
use opendht.DhtStore.Counted.{equal_refl}
use opendht.NodeCache.{
  Refs, NodeMap, cleanup_max_nodes, cleanup_freq, find_ref, set_ref, get_node, sweep_refs,
  before_bound, from_bound, cleanup, make_node, reach_node,
}

bounds_meet : (start : Hash) (m : Refs) → before_bound start m ++ from_bound start m ≡ m
unfolding before_bound from_bound
bounds_meet start [] = refl
bounds_meet start ((h, n) ∷ m) = elim (Bool-cases (Hash.less h start)) [
  | inl below ↦ rw below (ap (λ t. (h, n) ∷ t) (bounds_meet start m))
  | inr above ↦ rw above refl
]

abbrev first_ref : Option ℕ → Option ℕ → Option ℕ
first_ref none o = o
first_ref (some n) o = some n

find_ref-append :
    (id : Hash) (a b : Refs) → find_ref id (a ++ b) ≡ first_ref (find_ref id a) (find_ref id b)
unfolding find_ref
find_ref-append id [] b = refl
find_ref-append id ((h, n) ∷ a) b = elim (Bool-cases (Hash.equal h id)) [
  | inl hit ↦ rw hit refl
  | inr miss ↦ rw miss (find_ref-append id a b)
]

find_ref-set_ref : (id : Hash) (n : ℕ) (m : Refs) → find_ref id (set_ref id n m) ≡ some n
unfolding find_ref set_ref
find_ref-set_ref id n [] = rw (equal_refl id) refl
find_ref-set_ref id n ((h, o) ∷ m) = ground (arith, equal_refl id, find_ref-set_ref id n m)

module _ (alive : ℕ → Bool) (id : Hash) where
  -- A sweep keeps what it says of an id, if that is alive or nothing.
  sweep_none :
      (rounds : ℕ) (m : Refs)
      → find_ref id m ≡ none
      → find_ref id (sweep_refs alive rounds m).0 ≡ none
  unfolding find_ref sweep_refs
  sweep_none rounds [] e = e
  sweep_none zero (x ∷ m) e = e
  sweep_none (suc rounds) ((h, n) ∷ m) e = ground (arith, e, sweep_none rounds m)

  sweep_some :
      (rounds k : ℕ) (m : Refs)
      → alive k ≡ true
      → find_ref id m ≡ some k
      → find_ref id (sweep_refs alive rounds m).0 ≡ some k
  unfolding find_ref sweep_refs
  sweep_some rounds k [] lives e = cc
  sweep_some zero k (x ∷ m) lives e = e
  sweep_some (suc rounds) k ((h, n) ∷ m) lives e = elim (Bool-cases (Hash.equal h id)) [
    | inl hit ↦
        let same : n ≡ k = ground arith in
        let kept : alive n ≡ true = ap alive same ∙ lives in rw kept (rw hit (ap some same))
    | inr miss ↦
        let there : find_ref id m ≡ some k = ground arith in
        ground (arith, sweep_some rounds k m lives there)
  ]

  cleanup_keeps :
      (start : Hash) (k : ℕ) (m : Refs)
      → alive k ≡ true
      → find_ref id m ≡ some k
      → find_ref id (cleanup alive start m) ≡ some k
  unfolding cleanup
  cleanup_keeps start k m lives e =
      let first : Refs = before_bound start m in
      let last : Refs = from_bound start m in
      let rounds : ℕ = min (length m) cleanup_max_nodes in
      let left : ℕ = (sweep_refs alive rounds last).1 in
      let whole : first_ref (find_ref id first) (find_ref id last) ≡ some k =
        sym (find_ref-append id first last) ∙ ap (find_ref id) (bounds_meet start m) ∙ e in
      find_ref-append id (sweep_refs alive left first).0 (sweep_refs alive rounds last).0
      ∙ elim (Option-cases (find_ref id first)) [
        | inl absent ↦
            let later : find_ref id last ≡ some k = ground (arith, whole, absent) in
            rw (sweep_none left first absent) (sweep_some rounds k last lives later)
        | inr (j, there) ↦
            let here : find_ref id first ≡ some k = ground (arith, whole, there) in
            rw (sweep_some left k first lives here) refl
      ]

get_node-some :
    (alive : ℕ → Bool) (id : Hash) (m : NodeMap) (n : ℕ)
    → find_ref id m.refs ≡ some n
    → alive n ≡ true
    → get_node alive id m ≡ (m, some n)
unfolding get_node
get_node-some alive id m n e lives = rw (get_node, e) (rw lives refl)

module _ (alive : ℕ → Bool) (id : Hash) (addr : ℕ) (now : TimePoint) (confirm is_client : Bool)
    (fresh tid : ℕ) (start : Hash) (heap : Heap) (m : NodeMap) where
  make_node-found :
      find_ref id (make_node alive id addr now confirm is_client fresh tid start heap m).1.refs
      ≡ some (make_node alive id addr now confirm is_client fresh tid start heap m).2
  unfolding make_node
  make_node-found = elim (Bool-cases (m.cleanup_counter == cleanup_freq)) [
    | inl due ↦
        rw (make_node, due)
          (cleanup_keeps (λ k. k == fresh || alive k) id start fresh (set_ref id fresh m.refs)
            (ground arith) (find_ref-set_ref id fresh m.refs))
    | inr early ↦ rw (make_node, early) (find_ref-set_ref id fresh m.refs)
  ]

  reach_node-found :
      find_ref id (reach_node alive id addr now confirm is_client fresh tid start heap m).1.refs
      ≡ some (reach_node alive id addr now confirm is_client fresh tid start heap m).2
  unfolding reach_node
  reach_node-found = elim (Option-cases (find_ref id m.refs)) [
    | inl absent ↦ rw (absent, reach_node) make_node-found
    | inr (n, e) ↦ elim (Bool-cases (alive n)) [
      | inl lives ↦ rw (reach_node, e) (rw lives e)
      | inr dead ↦ rw (reach_node, e) (rw dead make_node-found)
    ]
  ]

  -- The node that `getNode` with an address returns, known or made, is the one that `getNode` finds
  -- under the id while it is alive, and the map stays; also where the call has cleaned up the map.
  pub get_node-reach_node :
      (alive' : ℕ → Bool)
      → alive' (reach_node alive id addr now confirm is_client fresh tid start heap m).2 ≡ true
      → get_node alive' id (reach_node alive id addr now confirm is_client fresh tid start heap m).1
        ≡ (
          (reach_node alive id addr now confirm is_client fresh tid start heap m).1,
          some (reach_node alive id addr now confirm is_client fresh tid start heap m).2,
        )
  get_node-reach_node alive' lives = get_node-some alive' id _ _ reach_node-found lives
