-- ===== src/RoutingTable/Closest.antt =====
-- findClosestNodes: what it returns is good, in the order of closeness, and not more than is asked for.
use opendht.Prelude.{
  ℕ, zero, suc, ◌≡◌, ◌≢◌, refl, sym, true, List, [], ◌∷◌, reverse, none, some, inl, inr, arith,
  Ordering, ltb, Bool-cases, Ordering-cases, Option-cases, ap, subst, ◌∙◌, length, take, All,
  All-map,
}
use opendht.Time.{TimePoint}
use opendht.Hash.{Hash, xor_cmp}
use opendht.Hash.Order.{flip, xor_cmp-flip, xor_cmp_trans, xor_cmp_eq}
use opendht.Node.{is_good}
use opendht.RoutingTable.{
  Bucket, Heap, Place, find_bucket, is_lt, sorted_insert, sorted_bucket_insert, visit,
  find_closest_nodes,
}

module _ (heap : Heap) (id : Hash) where
  -- Node m is not farther from `id` than the node n.
  abbrev pub NotFarther : ℕ → ℕ → Type 0
  NotFarther m n = xor_cmp id (heap n).id (heap m).id ≢ Ordering.lt

  -- Each node is not farther than those behind it.
  abbrev pub IsByDistance : List ℕ → Type 0
  IsByDistance [] = Unit
  IsByDistance (n ∷ ns) = All (NotFarther n) ns × IsByDistance ns

  All-sorted_insert {ℓ} :
      (P : ℕ → Type ℓ) (n : ℕ) (ms : List ℕ) → P n → All P ms → All P (sorted_insert heap id n ms)
  unfolding sorted_insert
  All-sorted_insert P n [] p h = (p, tt)
  All-sorted_insert P n (m ∷ ms) p h =
      elim (Bool-cases (is_lt (xor_cmp id (heap n).id (heap m).id))) [
        | inl closer ↦ rw closer (p, h)
        | inr not_closer ↦ rw not_closer (h.0, All-sorted_insert P n ms p h.1)
      ]

module _ (heap : Heap) (id : Hash) (sizes : (n : ℕ) → length (heap n).id ≡ length id) where
  NotFarther-trans :
      (a b c : ℕ) → NotFarther heap id a b → NotFarther heap id b c → NotFarther heap id a c
  NotFarther-trans a b c h k = λ closer.
      elim (Ordering-cases (xor_cmp id (heap a).id (heap b).id)) [
        | inl lt_ab ↦ k (
            xor_cmp_trans id (heap c).id (heap a).id (heap b).id (sizes c) (sizes a) (sizes b)
              closer lt_ab)
        | inr (inl eq_ab) ↦
            let same = xor_cmp_eq id (heap a).id (heap b).id (sizes a) (sizes b) eq_ab in
            k (subst (λ x. xor_cmp id (heap c).id x ≡ Ordering.lt) same closer)
        | inr (inr gt_ab) ↦
            h (xor_cmp-flip id (heap a).id (heap b).id (sizes a) (sizes b) ∙ ap flip gt_ab)
      ]

  sorted_insert-IsByDistance :
      (n : ℕ) (ms : List ℕ)
      → IsByDistance heap id ms
      → IsByDistance heap id (sorted_insert heap id n ms)
  unfolding sorted_insert
  sorted_insert-IsByDistance n [] h = (tt, tt)
  sorted_insert-IsByDistance n (m ∷ ms) h =
      elim (Bool-cases (is_lt (xor_cmp id (heap n).id (heap m).id))) [
        | inl closer ↦
            let ahead : NotFarther heap id n m = λ e.
              ground
                (arith, closer, e, xor_cmp-flip id (heap n).id (heap m).id (sizes n) (sizes m)) in
            rw closer ((ahead, All-map ms (λ a. NotFarther-trans n m a ahead) h.0), h)
        | inr not_closer ↦
            let behind : NotFarther heap id m n = λ e. ground (arith, not_closer) in
            rw not_closer (
              All-sorted_insert heap id (NotFarther heap id m) n ms behind h.0,
              sorted_insert-IsByDistance n ms h.1,
            )
      ]

  sorted_bucket_insert-IsByDistance :
      (now : TimePoint) (ns ms : List ℕ)
      → IsByDistance heap id ms
      → IsByDistance heap id (sorted_bucket_insert heap id now ns ms)
  unfolding sorted_bucket_insert
  sorted_bucket_insert-IsByDistance now [] ms h = h
  sorted_bucket_insert-IsByDistance now (n ∷ ns) ms h = elim (Bool-cases (is_good (heap n) now)) [
    | inl good ↦ rw good (
        sorted_bucket_insert-IsByDistance now ns (sorted_insert heap id n ms)
          (sorted_insert-IsByDistance n ms h))
    | inr bad ↦ rw bad (sorted_bucket_insert-IsByDistance now ns ms h)
  ]

-- A property of lists that each bucket's insertion keeps is kept by the whole loop.
module _ {ℓ} (heap : Heap) (id : Hash) (now : TimePoint) (count : ℕ) (Q : List ℕ → Type ℓ)
    (step : (ns ms : List ℕ) → Q ms → Q (sorted_bucket_insert heap id now ns ms)) where
  visit_keeps :
      (itn itp : List Bucket) (ms : List ℕ) → Q ms → Q (visit heap id now count itn itp ms)
  unfolding visit
  visit_keeps [] [] ms q = q
  visit_keeps (b ∷ itn) [] ms q = elim (Bool-cases (ltb (length ms) count)) [
    | inl short ↦ rw short (visit_keeps itn [] _ (step b.nodes ms q))
    | inr full ↦ rw full q
  ]
  visit_keeps [] (c ∷ itp) ms q = elim (Bool-cases (ltb (length ms) count)) [
    | inl short ↦ rw short (visit_keeps [] itp _ (step c.nodes ms q))
    | inr full ↦ rw full q
  ]
  visit_keeps (b ∷ itn) (c ∷ itp) ms q = elim (Bool-cases (ltb (length ms) count)) [
    | inl short ↦ rw short (visit_keeps itn itp _ (step c.nodes _ (step b.nodes ms q)))
    | inr full ↦ rw full q
  ]

All-take {ℓ} : (P : ℕ → Type ℓ) (n : ℕ) (ms : List ℕ) → All P ms → All P (take n ms)
All-take P zero ms h = tt
All-take P (suc n) [] h = tt
All-take P (suc n) (m ∷ ms) h = (h.0, All-take P n ms h.1)

IsByDistance-take :
    (heap : Heap) (id : Hash) (n : ℕ) (ms : List ℕ)
    → IsByDistance heap id ms
    → IsByDistance heap id (take n ms)
IsByDistance-take heap id zero ms h = tt
IsByDistance-take heap id (suc n) [] h = tt
IsByDistance-take heap id (suc n) (m ∷ ms) h =
    (All-take (NotFarther heap id m) n ms h.0, IsByDistance-take heap id n ms h.1)

-- The nodes that the loop collects from a place on.
abbrev pub collected : Heap → Hash → TimePoint → ℕ → Place → List ℕ
collected heap id now count p = visit heap id now count (p.bucket ∷ p.after) (reverse p.before) []

pub find_closest_nodes-some :
    (heap : Heap) (id : Hash) (now : TimePoint) (count : ℕ) (bs : List Bucket) (p : Place)
    → find_bucket id bs ≡ some p
    → find_closest_nodes heap id now count bs ≡ take count (collected heap id now count p)
unfolding find_closest_nodes
find_closest_nodes-some heap id now count bs p found = rw (found, find_closest_nodes) refl

pub find_closest_nodes-none :
    (heap : Heap) (id : Hash) (now : TimePoint) (count : ℕ) (bs : List Bucket)
    → find_bucket id bs ≡ none
    → find_closest_nodes heap id now count bs ≡ []
unfolding find_closest_nodes
find_closest_nodes-none heap id now count bs gone = rw (gone, find_closest_nodes) refl

-- `findClosestNodes` returns nodes in the order of their distance to the id, where all ids have one
-- length.
pub find_closest_nodes-IsByDistance :
    (heap : Heap) (id : Hash)
    → ((n : ℕ) → length (heap n).id ≡ length id)
    → (now : TimePoint) (count : ℕ) (bs : List Bucket)
    → IsByDistance heap id (find_closest_nodes heap id now count bs)
find_closest_nodes-IsByDistance heap id sizes now count bs =
    elim (Option-cases (find_bucket id bs)) [
      | inl gone ↦
          subst (IsByDistance heap id) (sym (find_closest_nodes-none heap id now count bs gone)) tt
      | inr (p, found) ↦
          subst (IsByDistance heap id) (sym (find_closest_nodes-some heap id now count bs p found))
            (IsByDistance-take heap id count _ (
              visit_keeps heap id now count (IsByDistance heap id)
                (sorted_bucket_insert-IsByDistance heap id sizes now) _ _ [] tt))
    ]

All-sorted_bucket_insert :
    (heap : Heap) (id : Hash) (now : TimePoint) (ns ms : List ℕ)
    → All (λ n. is_good (heap n) now ≡ true) ms
    → All (λ n. is_good (heap n) now ≡ true) (sorted_bucket_insert heap id now ns ms)
unfolding sorted_bucket_insert
All-sorted_bucket_insert heap id now [] ms h = h
All-sorted_bucket_insert heap id now (n ∷ ns) ms h = elim (Bool-cases (is_good (heap n) now)) [
  | inl good ↦ rw good (
      All-sorted_bucket_insert heap id now ns (sorted_insert heap id n ms)
        (All-sorted_insert heap id (λ m. is_good (heap m) now ≡ true) n ms good h))
  | inr bad ↦ rw bad (All-sorted_bucket_insert heap id now ns ms h)
]

-- All nodes that `findClosestNodes` returns are good at the time of the call.
pub find_closest_nodes_good :
    (heap : Heap) (id : Hash) (now : TimePoint) (count : ℕ) (bs : List Bucket)
    → All (λ n. is_good (heap n) now ≡ true) (find_closest_nodes heap id now count bs)
find_closest_nodes_good heap id now count bs =
    let Good : ℕ → Type 0 = λ n. is_good (heap n) now ≡ true in
    elim (Option-cases (find_bucket id bs)) [
      | inl gone ↦ subst (All Good) (sym (find_closest_nodes-none heap id now count bs gone)) tt
      | inr (p, found) ↦
          subst (All Good) (sym (find_closest_nodes-some heap id now count bs p found)) (
            All-take Good count _ (
              visit_keeps heap id now count (All Good) (All-sorted_bucket_insert heap id now) _ _ []
                tt))
    ]
