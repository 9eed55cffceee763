-- ===== src/RoutingTable/Split.antt =====
-- What `split` keeps: the order of the first ids, and the nodes.
use opendht.Prelude.{
  ℕ, ◌≡◌, ◌∙◌, sym, refl, subst, true, false, List, [], ◌∷◌, ◌++◌, none, some, inl, inr, Ordering,
  Option-cases, All, All-append, All-around,
}
use opendht.Hash.{Hash, IsHash, cmp}
use opendht.Hash.Order.{cmp_trans}
use opendht.RoutingTable.{
  Bucket, Heap, Place, table, find_bucket, middle, move_node, move_nodes, insert_half, split, new,
}
use opendht.RoutingTable.Ranges.{Ascends, Ascends-around, table-find_bucket}
use opendht.RoutingTable.Middle.{middle_above, middle_below}

All-replace {ℓ} :
    (P : Bucket → Type ℓ) (before : List Bucket) (b b' : Bucket) (after : List Bucket)
    → (P b → P b')
    → All P (before ++ b ∷ after)
    → All P (before ++ b' ∷ after)
All-replace P before b b' after f h =
    let parts = All-around P before b after h in
    All-append P before (b' ∷ after) parts.0 (f parts.1, parts.2)

pub Ascends-replace :
    (n : ℕ) (before : List Bucket) (b b' : Bucket) (after : List Bucket)
    → b'.first ≡ b.first
    → Ascends n (before ++ b ∷ after)
    → Ascends n (before ++ b' ∷ after)
Ascends-replace n [] b b' after e h = rw e h
Ascends-replace n (x ∷ before) b b' after e h = (
  h.0,
  All-replace (λ c. cmp x.first c.first ≡ Ordering.lt) before b b' after (λ k. rw e k) h.1,
  Ascends-replace n before b b' after e h.2,
)

Ascends-insert :
    (n : ℕ) (before : List Bucket) (b c : Bucket) (after : List Bucket)
    → Ascends n (before ++ b ∷ after)
    → IsHash n c.first
    → cmp b.first c.first ≡ Ordering.lt
    → All (λ d. cmp c.first d.first ≡ Ordering.lt) after
    → Ascends n (before ++ b ∷ c ∷ after)
Ascends-insert n [] b c after h v below above = (h.0, (below, h.1), (v, above, h.2))
Ascends-insert n (x ∷ before) b c after h v below above =
    let Below : Bucket → Type 0 = λ d. cmp x.first d.first ≡ Ordering.lt in
    let parts = All-around Below before b after h.1 in
    let vb = Ascends-around n before b after h.2 in
    let x_below_c =
      cmp_trans x.first b.first c.first (h.0.size ∙ sym vb.size) (vb.size ∙ sym v.size) parts.1
        below in
    (
      h.0,
      All-append Below before (b ∷ c ∷ after) parts.0 (parts.1, (x_below_c, parts.2)),
      Ascends-insert n before b c after h.2 v below above,
    )

Ascends-from : (n : ℕ) (before after : List Bucket) → Ascends n (before ++ after) → Ascends n after
Ascends-from n [] after h = h
Ascends-from n (x ∷ before) after h = Ascends-from n before after h.2

module _ (heap : Heap) where
  pub move_node-some :
      (k : ℕ) (bs : List Bucket) (p : Place)
      → find_bucket (heap k).id bs ≡ some p
      → move_node heap k bs ≡ p.before ++ (record p.bucket { nodes = k ∷ p.bucket.nodes }) ∷ p.after
  unfolding move_node
  move_node-some k bs p found = rw (found, move_node) refl

  pub move_node-none :
      (k : ℕ) (bs : List Bucket) → find_bucket (heap k).id bs ≡ none → move_node heap k bs ≡ bs
  unfolding move_node
  move_node-none k bs gone = rw (gone, move_node) refl

  move_node-Ascends : (n k : ℕ) (bs : List Bucket) → Ascends n bs → Ascends n (move_node heap k bs)
  unfolding table
  move_node-Ascends n k bs h = elim (Option-cases (find_bucket (heap k).id bs)) [
    | inl gone ↦ subst (Ascends n) (sym (move_node-none k bs gone)) h
    | inr (p, found) ↦
        let there = subst (Ascends n) (sym (table-find_bucket (heap k).id bs p found)) h in
        subst (Ascends n) (sym (move_node-some k bs p found)) (
          Ascends-replace n p.before p.bucket (record p.bucket { nodes = k ∷ p.bucket.nodes })
            p.after refl there)
  ]

  move_nodes-Ascends :
      (n : ℕ) (ks : List ℕ) (bs : List Bucket) → Ascends n bs → Ascends n (move_nodes heap ks bs)
  unfolding move_nodes
  move_nodes-Ascends n [] bs h = h
  move_nodes-Ascends n (k ∷ ks) bs h =
      move_nodes-Ascends n ks (move_node heap k bs) (move_node-Ascends n k bs h)

  pub split-some :
      (p : Place) (m : Hash)
      → middle p ≡ some m
      → split heap p ≡ (move_nodes heap p.bucket.nodes (insert_half p m), true)
  unfolding split
  split-some p m e = rw (e, split) refl

  pub split-none : (p : Place) → middle p ≡ none → split heap p ≡ (table p, false)
  unfolding split
  split-none p e = rw (e, split) refl

-- The middle of a bucket's range is below all buckets that follow.
middle-All :
    (n : ℕ) (p : Place) (m : Hash)
    → Ascends n (p.bucket ∷ p.after)
    → IsHash n m
    → middle p ≡ some m
    → All (λ d. cmp m d.first ≡ Ordering.lt) p.after
middle-All n p m h v e = go p.after refl h
  where
    go :
        (after : List Bucket)
        → p.after ≡ after
        → Ascends n (p.bucket ∷ after)
        → All (λ d. cmp m d.first ≡ Ordering.lt) after
    go [] f h = tt
    go (next ∷ rest) f h =
        let below = middle_below n p m next rest h.0 h.2.0 f h.1.0 e in (below, lift rest below h.2)
      where
        lift :
            (ds : List Bucket)
            → cmp m next.first ≡ Ordering.lt
            → Ascends n (next ∷ ds)
            → All (λ d. cmp m d.first ≡ Ordering.lt) ds
        lift [] below h = tt
        lift (d ∷ ds) below h = (
          cmp_trans m next.first d.first (v.size ∙ sym h.0.size) (h.0.size ∙ sym h.2.0.size) below
              h.1.0,
          lift ds below (h.0, h.1.1, h.2.2),
        )

-- `split` keeps the first ids of the buckets ascending, wherever the table is split.
pub split-Ascends :
    (heap : Heap) (n : ℕ) (p : Place) → Ascends n (table p) → Ascends n (split heap p).0
unfolding table insert_half new
split-Ascends heap n p h = elim (Option-cases (middle p)) [
  | inl deep ↦ subst (λ r. Ascends n r.0) (sym (split-none heap p deep)) h
  | inr (m, e) ↦
      let here = Ascends-from n p.before (p.bucket ∷ p.after) h in
      let (vm, above) = middle_above n p m here.0 e in
      subst (λ r. Ascends n r.0) (sym (split-some heap p m e))
        (move_nodes-Ascends heap n p.bucket.nodes (insert_half p m) (
          Ascends-replace n p.before p.bucket (record p.bucket { nodes = [] }) _ refl
            (Ascends-insert n p.before p.bucket (new p.bucket.af m p.bucket.time) p.after h vm above
              (middle-All n p m here vm e))))
]
