-- ===== src/RoutingTable/Placed.antt =====
-- Every node stands in the bucket for its id, also after `split`.
use opendht.Prelude.{
  ℕ, ◌≡◌, ◌∙◌, sym, ap, refl, subst, true, false, List, [], ◌∷◌, ◌++◌, inl, inr, Ordering,
  Option-cases, length, All, All-map, All-around,
}
use opendht.Hash.{Hash, cmp}
use opendht.RoutingTable.{
  Bucket, Heap, Place, is_lt, new, table, find_from, find_bucket, contains, middle, move_node,
  move_nodes, insert_half, split,
}
use opendht.RoutingTable.Ranges.{
  Ascends, Ascends-around, table-find_bucket, contains-find_from, contains_not_below,
  not_below_trans,
}
use opendht.RoutingTable.Split.{split-some, split-none}

-- Each bucket contains the ids of its nodes.
abbrev pub Placed : Heap → List Bucket → Type 0
Placed heap [] = Unit
Placed heap (b ∷ rest) =
    All (λ k. contains (record { before = []; bucket = b; after = rest }) (heap k).id ≡ true)
      b.nodes
    × Placed heap rest

pub Placed-from :
    (heap : Heap) (before after : List Bucket) → Placed heap (before ++ after) → Placed heap after
Placed-from heap [] after h = h
Placed-from heap (x ∷ before) after h = Placed-from heap before after h.1

-- What stands from a bucket on is exchanged, and the range that begins there still begins there.
pub Placed-replace :
    (heap : Heap) (before : List Bucket) (b b' : Bucket) (after after' : List Bucket)
    → b'.first ≡ b.first
    → Placed heap (before ++ b ∷ after)
    → Placed heap (b' ∷ after')
    → Placed heap (before ++ b' ∷ after')
unfolding contains
Placed-replace heap [] b b' after after' e h k = k
Placed-replace heap (x ∷ []) b b' after after' e h k = (All-map x.nodes (λ n c. rw e c) h.0, k)
Placed-replace heap (x ∷ y ∷ before) b b' after after' e h k =
    (h.0, Placed-replace heap (y ∷ before) b b' after after' e h.1 k)

-- The first id of a table.
abbrev pub first_of : List Bucket → Hash
first_of [] = []
first_of (b ∷ rest) = b.first

pub first_of-replace :
    (before : List Bucket) (b b' : Bucket) (after after' : List Bucket)
    → b'.first ≡ b.first
    → first_of (before ++ b' ∷ after') ≡ first_of (before ++ b ∷ after)
first_of-replace [] b b' after after' e = e
first_of-replace (x ∷ before) b b' after after' e = refl

not_below_first :
    (n : ℕ) (id : Hash) (before : List Bucket) (b : Bucket) (after : List Bucket)
    → length id ≡ n
    → Ascends n (before ++ b ∷ after)
    → is_lt (cmp id b.first) ≡ false
    → is_lt (cmp id (first_of (before ++ b ∷ after))) ≡ false
not_below_first n id [] b after e h above = above
not_below_first n id (x ∷ before) b after e h above =
    let vb = Ascends-around n before b after h.2 in
    not_below_trans id x.first b.first (e ∙ sym h.0.size) (h.0.size ∙ sym vb.size)
      (All-around (λ c. cmp x.first c.first ≡ Ordering.lt) before b after h.1).1 above

module _ (heap : Heap) where
  move_node-Placed :
      (k : ℕ) (bs : List Bucket)
      → is_lt (cmp (heap k).id (first_of bs)) ≡ false
      → Placed heap bs
      → Placed heap (move_node heap k bs) × (first_of (move_node heap k bs) ≡ first_of bs)
  unfolding find_bucket table contains move_node
  move_node-Placed k [] above h = (tt, refl)
  move_node-Placed k (b ∷ rest) above h =
      let p : Place = find_from (heap k).id b rest in
      let b' : Bucket = record p.bucket { nodes = k ∷ p.bucket.nodes } in
      let same = table-find_bucket (heap k).id (b ∷ rest) p refl in
      let there = subst (Placed heap) (sym same) h in
      let here = Placed-from heap p.before (p.bucket ∷ p.after) there in
      (
        Placed-replace heap p.before p.bucket b' p.after p.after refl there
            ((contains-find_from (heap k).id b rest above, here.0), here.1),
        first_of-replace p.before p.bucket b' p.after p.after refl ∙ ap first_of same,
      )

  move_nodes-Placed :
      (ks : List ℕ) (bs : List Bucket)
      → All (λ k. is_lt (cmp (heap k).id (first_of bs)) ≡ false) ks
      → Placed heap bs
      → Placed heap (move_nodes heap ks bs)
  unfolding move_nodes
  move_nodes-Placed [] bs above h = h
  move_nodes-Placed (k ∷ ks) bs above h =
      let (placed, same) = move_node-Placed k bs above.0 h in
      move_nodes-Placed ks (move_node heap k bs)
        (All-map ks (λ j a. subst (λ f. is_lt (cmp (heap j).id f) ≡ false) (sym same) a) above.1)
        placed

  first_of-move_nodes :
      (ks : List ℕ) (bs : List Bucket) → first_of (move_nodes heap ks bs) ≡ first_of bs
  unfolding move_nodes move_node find_bucket
  first_of-move_nodes [] bs = refl
  first_of-move_nodes (k ∷ ks) [] = first_of-move_nodes ks []
  first_of-move_nodes (k ∷ ks) (b ∷ rest) =
      let p : Place = find_from (heap k).id b rest in
      let same = table-find_bucket (heap k).id (b ∷ rest) p refl in
      first_of-move_nodes ks (move_node heap k (b ∷ rest))
      ∙ first_of-replace p.before p.bucket (record p.bucket { nodes = k ∷ p.bucket.nodes }) p.after
          p.after refl
      ∙ ap first_of (unfold table in same)

  -- `split` leaves the table's first id.
  pub first_of-split : (p : Place) → first_of (split heap p).0 ≡ first_of (table p)
  unfolding table insert_half
  first_of-split p = elim (Option-cases (middle p)) [
    | inl deep ↦ ap (λ r. first_of r.0) (split-none heap p deep)
    | inr (m, e) ↦
        ap (λ r. first_of r.0) (split-some heap p m e)
        ∙ first_of-move_nodes p.bucket.nodes (insert_half p m)
        ∙ first_of-replace p.before p.bucket (record p.bucket { nodes = [] }) p.after _ refl
  ]

  -- If every bucket contains the ids of its nodes, this is so after `split` too, in a table whose first
  -- ids ascend.
  pub split-Placed :
      (n : ℕ) (p : Place)
      → ((k : ℕ) → length (heap k).id ≡ n)
      → Ascends n (table p)
      → Placed heap (table p)
      → Placed heap (split heap p).0
  unfolding table insert_half new contains
  split-Placed n p sizes asc h = elim (Option-cases (middle p)) [
    | inl deep ↦ subst (λ r. Placed heap r.0) (sym (split-none heap p deep)) h
    | inr (m, e) ↦
        let emptied : Bucket = record p.bucket { nodes = [] } in
        let half : Bucket = new p.bucket.af m p.bucket.time in
        let here = Placed-from heap p.before (p.bucket ∷ p.after) h in
        let same = first_of-replace p.before p.bucket emptied p.after (half ∷ p.after) refl in
        let above =
          All-map p.bucket.nodes
            (λ k c.
              subst (λ f. is_lt (cmp (heap k).id f) ≡ false) (sym same)
                (not_below_first n (heap k).id p.before p.bucket p.after (sizes k) asc
                  (contains_not_below p (heap k).id c)))
            here.0 in
        subst (λ r. Placed heap r.0) (sym (split-some heap p m e))
          (move_nodes-Placed p.bucket.nodes (insert_half p m) above (
            Placed-replace heap p.before p.bucket emptied p.after (half ∷ p.after) refl h
              (tt, (tt, here.1))))
  ]
