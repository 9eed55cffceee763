-- ===== src/RoutingTable/Kept.antt =====
-- Which nodes `onNewNode` leaves in the table.
use opendht.Prelude.{
  ℕ, zero, suc, ◌≡◌, ◌∙◌, ap, refl, subst, Bool, true, false, List, [], ◌∷◌, none, some, inl, inr,
  arith, leb, ◌==◌, if◌then◌else◌, Bool-cases, Option-cases, length,
}
use opendht.Time.{TimePoint}
use opendht.Hash.{Hash}
use opendht.RoutingTable.{Bucket, Heap, Place, target_nodes, table, find_bucket, contains}
use opendht.RoutingTable.Ranges.{table-find_bucket}
use opendht.RoutingTable.Held.{occurrences, held, held-append, held-split}
use opendht.RoutingTable.Joins.{
  Routing, Join, returns, retries, has_node, replace_expired, may_split, keeps_cached, join_full,
  join_bucket, join_at, join, on_new_node, confirmed,
}
use opendht.RoutingTable.Joined.{Join-cases}

module _ (node k : ℕ) (other : (node == k) ≡ false) where
  occurrences-replace_expired :
      (heap : Heap) (ns ns' : List ℕ)
      → (heap k).expired ≡ false
      → replace_expired heap node ns ≡ some ns'
      → occurrences k ns' ≡ occurrences k ns
  unfolding replace_expired occurrences
  occurrences-replace_expired heap [] ns' alive e = cc
  occurrences-replace_expired heap (m ∷ ns) ns' alive e = elim (Bool-cases (heap m).expired) [
    | inl gone ↦
        let same : node ∷ ns ≡ ns' = ground arith in
        elim (Bool-cases (m == k)) [
          | inl hit ↦
              let at : m ≡ k = ground arith in
              absurd (ground (arith, alive, subst (λ x. (heap x).expired ≡ true) at gone))
          | inr miss ↦
              subst (λ l. occurrences k l ≡ occurrences k (m ∷ ns)) same (rw (other, miss) refl)
        ]
    | inr stays ↦ elim (Option-cases (replace_expired heap node ns)) [
      | inl none_gone ↦ absurd (ground arith)
      | inr (rest, found) ↦
          let same : m ∷ rest ≡ ns' = ground arith in
          subst (λ l. occurrences k l ≡ occurrences k (m ∷ ns)) same
            (omega (arith, occurrences-replace_expired heap ns rest alive found))
    ]
  ]

  held-bucket :
      (p : Place) (b' : Bucket)
      → occurrences k b'.nodes ≡ occurrences k p.bucket.nodes
      → held k (table (record p { bucket = b' })) ≡ held k (table p)
  unfolding table held
  held-bucket p b' same = omega (
    arith,
    same,
    held-append k p.before (p.bucket ∷ p.after),
    held-append k p.before (b' ∷ p.after),
  )

  -- The buckets hold k as often as they did before, where k is not expired once the pings are sent.
  abbrev Keeps : (List ℕ → Heap) → List Bucket → Join → Type 0
  Keeps later bs (returns r pings answer) =
      (later pings k).expired ≡ false → held k r.buckets ≡ held k bs
  Keeps later bs (retries r pings) = held k r.buckets ≡ held k bs

  Keeps-same :
      (later : List ℕ → Heap) (bs bs' : List Bucket) (j : Join)
      → held k bs ≡ held k bs'
      → Keeps later bs j
      → Keeps later bs' j
  Keeps-same later bs bs' (returns r pings answer) same h = λ alive. h alive ∙ same
  Keeps-same later bs bs' (retries r pings) same h = h ∙ same

  module _ (heap : Heap) (later : List ℕ → Heap) (pending : List ℕ → ℕ → Bool) (confirm : ℕ)
      (now : TimePoint) (my_id : Hash) where
    held-join_full :
        (r : Routing) (p : Place) (mine : Bool) (pings : List ℕ)
        → Keeps later (table p) (join_full heap later pending node confirm now my_id r p mine pings)
    unfolding join_full
    held-join_full r p mine pings =
        elim (Bool-cases (may_split heap later pending node confirm now my_id r p mine pings)) [
          | inl goes ↦
              let b' : Bucket = record p.bucket { cached = none } in
              rw (join_full, goes)
                (held-split heap k (record p { bucket = b' }) ∙ held-bucket p b' refl)
          | inr stays ↦
              elim (Bool-cases (keeps_cached heap later pending node confirm now my_id p.bucket)) [
                | inl kept ↦ rw (join_full, stays) (rw kept λ alive. refl)
                | inr taken ↦
                    rw (join_full, stays)
                      (rw taken
                        λ alive. (held-bucket p (record p.bucket { cached = some node }) refl))
              ]
        ]

    held-join_bucket :
        (r : Routing) (p : Place) (mine : Bool) (pings : List ℕ)
        → Keeps later
            (table p)
            (join_bucket heap later pending node confirm now my_id r p mine pings)
    unfolding join_bucket occurrences
    held-join_bucket r p mine pings = elim (Bool-cases (leb target_nodes (length p.bucket.nodes))) [
      | inr room ↦
          rw (join_bucket, room)
            λ alive.
              (held-bucket p (record p.bucket { nodes = node ∷ p.bucket.nodes })
                (ground (arith, other)))
      | inl full ↦ elim (Option-cases (replace_expired (later pings) node p.bucket.nodes)) [
        | inl living ↦ rw (join_bucket, full) (rw living (held-join_full r p mine pings))
        | inr (ns, e) ↦
            rw (join_bucket, full)
              (rw e λ alive.
                (held-bucket p (record p.bucket { nodes = ns })
                  (occurrences-replace_expired (later pings) p.bucket.nodes ns alive e)))
      ]
    ]

    held-join_at :
        (r : Routing) (p : Place) (pings : List ℕ)
        → Keeps later (table p) (join_at heap later pending node confirm now my_id r p pings)
    unfolding join_at
    held-join_at r p pings =
        let b' : Bucket = confirmed heap later pending node confirm now my_id p.bucket in
        let p' : Place = record p { bucket = b' } in
        elim (Bool-cases (has_node node p.bucket.nodes)) [
          | inl there ↦ rw (join_at, there) λ alive. (held-bucket p b' refl)
          | inr absent ↦
              let mine : Bool = contains p' my_id in
              let r' : Routing = record r { grow_time = if mine then now else r.grow_time } in
              rw (join_at, absent)
                (Keeps-same later _ _ _ (held-bucket p b' refl) (held-join_bucket r' p' mine pings))
        ]

    held-join :
        (r : Routing) (pings : List ℕ)
        → Keeps later r.buckets (join heap later pending node confirm now my_id r pings)
    unfolding join
    held-join r pings = elim (Option-cases (find_bucket (heap node).id r.buckets)) [
      | inl nowhere ↦ rw (join, nowhere) λ alive. refl
      | inr (p, e) ↦
          rw (join, e)
            (Keeps-same later _ _ _ (ap (held k) (table-find_bucket (heap node).id r.buckets p e))
              (held-join_at r p pings))
    ]

    -- A node that is not expired once the pings of this call have been sent, and is another than the new
    -- one, is in the buckets as often after `onNewNode` as before: it is neither dropped for the new one
    -- nor lost when buckets are split, in any of the function's calls of itself. A ping may set nodes
    -- expired; one that is expired then may be replaced.
    pub held-on_new_node :
        (calls : ℕ) (r : Routing) (pings : List ℕ)
        → (later (on_new_node heap later pending node confirm now my_id calls r pings).1 k).expired
          ≡ false
        → held k (on_new_node heap later pending node confirm now my_id calls r pings).0.buckets
          ≡ held k r.buckets
    unfolding on_new_node
    held-on_new_node zero r pings = λ alive. refl
    held-on_new_node (suc calls) r pings =
        let h = held-join r pings in
        elim (Join-cases (join heap later pending node confirm now my_id r pings)) [
          | inl (r', pings', answer, e) ↦ rw (on_new_node, e) (subst (Keeps later r.buckets) e h)
          | inr (r', pings', e) ↦
              rw (on_new_node, e)
                λ alive. held-on_new_node calls r' pings' alive ∙ subst (Keeps later r.buckets) e h
        ]
