-- ===== src/RoutingTable/Held.antt =====
-- The nodes that the buckets hold, and what `split` does to them.
use opendht.Prelude.{
  ℕ, ◌+◌, ◌≡◌, ◌≢◌, ◌∙◌, ap, refl, List, [], ◌∷◌, ◌++◌, inl, inr, arith, Option-cases,
  if◌then◌else◌, ◌==◌,
}
use opendht.RoutingTable.{
  Bucket, Heap, Place, new, table, find_from, find_bucket, middle, move_node, move_nodes,
  insert_half, split,
}
use opendht.RoutingTable.Ranges.{table-find_bucket}
use opendht.RoutingTable.Split.{move_node-some, split-some, split-none}

-- How often node k is in a list, and in the buckets of a table.
unfoldable pub occurrences : ℕ → List ℕ → ℕ
occurrences k [] = 0
occurrences k (n ∷ ns) = (if n == k then 1 else 0) + occurrences k ns

unfoldable pub held : ℕ → List Bucket → ℕ
unfolding occurrences
held k [] = 0
held k (b ∷ bs) = occurrences k b.nodes + held k bs

append_cons : (before : List Bucket) (b : Bucket) (after : List Bucket) → before ++ b ∷ after ≢ []
append_cons [] b after e = cc
append_cons (x ∷ before) b after e = cc

pub held-append :
    (k : ℕ) (front back : List Bucket) → held k (front ++ back) ≡ held k front + held k back
unfolding held
held-append k [] back = omega arith
held-append k (b ∷ front) back = omega (arith, held-append k front back)

module _ (heap : Heap) (k : ℕ) where
  held-move_node :
      (n : ℕ) (bs : List Bucket)
      → bs ≢ []
      → held k (move_node heap n bs) ≡ held k bs + (if n == k then 1 else 0)
  unfolding held occurrences table find_bucket
  held-move_node n [] h = absurd (h refl)
  held-move_node n (b ∷ rest) h =
      let p : Place = find_from (heap n).id b rest in
      let bucket' : Bucket = record p.bucket { nodes = n ∷ p.bucket.nodes } in
      let there = ap (held k) (table-find_bucket (heap n).id (b ∷ rest) p refl) in
      rw (move_node-some heap n (b ∷ rest) p refl) (
        omega (
          arith,
          held-append k p.before (p.bucket ∷ p.after),
          held-append k p.before (bucket' ∷ p.after),
          there,
        ))

  move_node-nonempty : (n : ℕ) (bs : List Bucket) → bs ≢ [] → move_node heap n bs ≢ []
  unfolding move_node find_bucket
  move_node-nonempty n [] h e = h refl
  move_node-nonempty n (b ∷ rest) h e = append_cons _ _ _ e

  held-move_nodes :
      (ns : List ℕ) (bs : List Bucket)
      → bs ≢ []
      → held k (move_nodes heap ns bs) ≡ held k bs + occurrences k ns
  unfolding move_nodes occurrences
  held-move_nodes [] bs h = omega arith
  held-move_nodes (n ∷ ns) bs h = omega (
    arith,
    held-move_nodes ns (move_node heap n bs) (move_node-nonempty n bs h),
    held-move_node n bs h,
  )

  -- `split` neither loses nor doubles a node: the table holds each as often as before.
  pub held-split : (p : Place) → held k (split heap p).0 ≡ held k (table p)
  unfolding held occurrences table insert_half new
  held-split p = elim (Option-cases (middle p)) [
    | inl deep ↦ ap (λ r. held k r.0) (split-none heap p deep)
    | inr (m, e) ↦
        let emptied : Bucket = record p.bucket { nodes = [] } in
        let half : Bucket = new p.bucket.af m p.bucket.time in
        ap (λ r. held k r.0) (split-some heap p m e)
        ∙ held-move_nodes p.bucket.nodes (insert_half p m) (append_cons _ _ _)
        ∙ omega (
          arith,
          held-append k p.before (p.bucket ∷ p.after),
          held-append k p.before (emptied ∷ half ∷ p.after),
        )
  ]
