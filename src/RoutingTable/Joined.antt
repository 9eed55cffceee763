-- ===== src/RoutingTable/Joined.antt =====
-- What `onNewNode` keeps: the ranges of the buckets, every node in the bucket for its id, and the nodes
-- that the table holds.
use opendht.Prelude.{
  ℕ, zero, suc, ◌≡◌, sym, refl, subst, Bool, true, false, List, [], ◌∷◌, none, some, inl, inr,
  arith, leb, if◌then◌else◌, Bool-cases, Option-cases, length, All, ◌⊎◌,
}
use opendht.Time.{TimePoint}
use opendht.Hash.{Hash, cmp}
use opendht.RoutingTable.{
  Bucket, Heap, Place, is_lt, target_nodes, table, find_bucket, contains, split,
}
use opendht.RoutingTable.Ranges.{Ascends, table-find_bucket, contains-find_from}
use opendht.RoutingTable.Split.{Ascends-replace, split-Ascends}
use opendht.RoutingTable.Placed.{
  Placed, Placed-from, Placed-replace, first_of, first_of-replace, split-Placed, first_of-split,
}
use opendht.RoutingTable.Joins.{
  Routing, Join, returns, retries, has_node, replace_expired, may_split, keeps_cached, join_full,
  join_bucket, join_at, join, on_new_node, confirmed,
}

-- A table for ids of n bytes, of which `id` is not below the first bucket.
pub record IsTable (heap : Heap) (n : ℕ) (id : Hash) (bs : List Bucket) : Type 0 where
  pub ascending : Ascends n bs
  pub placed : Placed heap bs
  pub starts : is_lt (cmp id (first_of bs)) ≡ false

-- The nodes of a list belong to the bucket at a place.
abbrev Belong : Heap → Place → List ℕ → Type 0
Belong heap p ns =
    All
      (λ k.
        contains (record { before = []; bucket = p.bucket; after = p.after }) (heap k).id ≡ true)
      ns

-- What the table is where a call of the function leaves it.
abbrev pub buckets_of : Join → List Bucket
buckets_of (returns r pings answer) = r.buckets
buckets_of (retries r pings) = r.buckets

pub Join-cases :
    (j : Join)
    → ((r : Routing) × (pings : List ℕ) × (answer : Bool) × (j ≡ returns r pings answer))
      ⊎ ((r : Routing) × (pings : List ℕ) × (j ≡ retries r pings))
Join-cases (returns r pings answer) = inl (r, pings, answer, refl)
Join-cases (retries r pings) = inr (r, pings, refl)

module _ (heap : Heap) (n : ℕ) (sizes : (k : ℕ) → length (heap k).id ≡ n) where
  bucket-IsTable :
      (id : Hash) (p : Place) (b' : Bucket)
      → b'.first ≡ p.bucket.first
      → Belong heap p b'.nodes
      → IsTable heap n id (table p)
      → IsTable heap n id (table (record p { bucket = b' }))
  unfolding table contains
  bucket-IsTable id p b' same there h =
      let here = Placed-from heap p.before (p.bucket ∷ p.after) h.placed in
      record {
        ascending = Ascends-replace n p.before p.bucket b' p.after same h.ascending;
        placed =
            Placed-replace heap p.before p.bucket b' p.after p.after same h.placed
              (rw same there, here.1);
        starts = rw (first_of-replace p.before p.bucket b' p.after p.after same) h.starts;
      }

  members : (id : Hash) (p : Place) → IsTable heap n id (table p) → Belong heap p p.bucket.nodes
  unfolding table
  members id p h = (Placed-from heap p.before (p.bucket ∷ p.after) h.placed).0

  split-IsTable :
      (id : Hash) (p : Place) → IsTable heap n id (table p) → IsTable heap n id (split heap p).0
  split-IsTable id p h = record {
    ascending = split-Ascends heap n p h.ascending;
    placed = split-Placed heap n p sizes h.ascending h.placed;
    starts = rw (first_of-split heap p) h.starts;
  }

  replace_expired-Belong :
      (seen : Heap) (p : Place) (node : ℕ) (ns ns' : List ℕ)
      → contains (record { before = []; bucket = p.bucket; after = p.after }) (heap node).id ≡ true
      → replace_expired seen node ns ≡ some ns'
      → Belong heap p ns
      → Belong heap p ns'
  unfolding replace_expired
  replace_expired-Belong seen p node [] ns' c e h = cc
  replace_expired-Belong seen p node (m ∷ ns) ns' c e h = elim (Bool-cases (seen m).expired) [
    | inl gone ↦ let same : node ∷ ns ≡ ns' = ground arith in subst (Belong heap p) same (c, h.1)
    | inr alive ↦ elim (Option-cases (replace_expired seen node ns)) [
      | inl none_gone ↦ absurd (ground arith)
      | inr (rest, found) ↦
          let same : m ∷ rest ≡ ns' = ground arith in
          subst (Belong heap p) same (h.0, replace_expired-Belong seen p node ns rest c found h.1)
    ]
  ]

  module _ (later : List ℕ → Heap) (pending : List ℕ → ℕ → Bool) (node confirm : ℕ)
      (now : TimePoint) (my_id : Hash) where
    join_full-IsTable :
        (r : Routing) (p : Place) (mine : Bool) (pings : List ℕ)
        → IsTable heap n (heap node).id (table p)
        → IsTable heap n
            (heap node).id
            (buckets_of (join_full heap later pending node confirm now my_id r p mine pings))
    unfolding join_full
    join_full-IsTable r p mine pings h =
        elim (Bool-cases (may_split heap later pending node confirm now my_id r p mine pings)) [
          | inl goes ↦
              let b' : Bucket = record p.bucket { cached = none } in
              rw (join_full, goes)
                (split-IsTable (heap node).id (record p { bucket = b' })
                  (bucket-IsTable (heap node).id p b' refl (members (heap node).id p h) h))
          | inr stays ↦
              elim (Bool-cases (keeps_cached heap later pending node confirm now my_id p.bucket)) [
                | inl kept ↦ rw (join_full, stays) (rw kept h)
                | inr taken ↦
                    rw (join_full, stays)
                      (rw taken (
                        bucket-IsTable (heap node).id p (record p.bucket { cached = some node })
                          refl (members (heap node).id p h) h))
              ]
        ]

    join_bucket-IsTable :
        (r : Routing) (p : Place) (mine : Bool) (pings : List ℕ)
        → contains (record { before = []; bucket = p.bucket; after = p.after }) (heap node).id
          ≡ true
        → IsTable heap n (heap node).id (table p)
        → IsTable heap n
            (heap node).id
            (buckets_of (join_bucket heap later pending node confirm now my_id r p mine pings))
    unfolding join_bucket
    join_bucket-IsTable r p mine pings c h =
        elim (Bool-cases (leb target_nodes (length p.bucket.nodes))) [
          | inr room ↦
              rw (join_bucket, room)
                (bucket-IsTable (heap node).id p (record p.bucket { nodes = node ∷ p.bucket.nodes })
                  refl (c, members (heap node).id p h) h)
          | inl full ↦ elim (Option-cases (replace_expired (later pings) node p.bucket.nodes)) [
            | inl alive ↦ rw (join_bucket, full) (rw alive (join_full-IsTable r p mine pings h))
            | inr (ns, e) ↦
                rw (join_bucket, full)
                  (rw e (
                    bucket-IsTable (heap node).id p (record p.bucket { nodes = ns }) refl
                      (replace_expired-Belong (later pings) p node p.bucket.nodes ns c e
                        (members (heap node).id p h))
                      h))
          ]
        ]

    join_at-IsTable :
        (r : Routing) (p : Place) (pings : List ℕ)
        → contains (record { before = []; bucket = p.bucket; after = p.after }) (heap node).id
          ≡ true
        → IsTable heap n (heap node).id (table p)
        → IsTable heap n
            (heap node).id
            (buckets_of (join_at heap later pending node confirm now my_id r p pings))
    unfolding join_at contains
    join_at-IsTable r p pings c h =
        let b' : Bucket = confirmed heap later pending node confirm now my_id p.bucket in
        let p' : Place = record p { bucket = b' } in
        let h' = bucket-IsTable (heap node).id p b' refl (members (heap node).id p h) h in
        elim (Bool-cases (has_node node p.bucket.nodes)) [
          | inl there ↦ rw (join_at, there) h'
          | inr absent ↦
              let mine : Bool = contains p' my_id in
              let r' : Routing = record r { grow_time = if mine then now else r.grow_time } in
              rw (join_at, absent) (join_bucket-IsTable r' p' mine pings c h')
        ]

    join-IsTable :
        (r : Routing) (pings : List ℕ)
        → IsTable heap n (heap node).id r.buckets
        → IsTable heap n
            (heap node).id
            (buckets_of (join heap later pending node confirm now my_id r pings))
    unfolding join find_bucket contains
    join-IsTable r pings h = elim (Option-cases (find_bucket (heap node).id r.buckets)) [
      | inl nowhere ↦ rw (join, nowhere) h
      | inr (p, e) ↦
          let same : table p ≡ r.buckets = table-find_bucket (heap node).id r.buckets p e in
          rw (join, e)
            (join_at-IsTable r p pings (found_contains r.buckets p e h.starts)
              (subst (IsTable heap n (heap node).id) (sym same) h))
    ]
      where
        found_contains :
            (bs : List Bucket) (p : Place)
            → find_bucket (heap node).id bs ≡ some p
            → is_lt (cmp (heap node).id (first_of bs)) ≡ false
            → contains (record { before = []; bucket = p.bucket; after = p.after }) (heap node).id
              ≡ true
        found_contains [] p e above = absurd (ground (arith, e))
        found_contains (b ∷ rest) p e above =
            ground (arith, contains-find_from (heap node).id b rest above, e)

    -- `onNewNode` keeps the first ids of the buckets ascending and every node, the new one included, in
    -- the bucket that contains its id, whether it adds the node, puts it in the place of an expired one,
    -- or splits buckets first; also where it has not returned after `calls` calls of itself.
    pub on_new_node-IsTable :
        (calls : ℕ) (r : Routing) (pings : List ℕ)
        → IsTable heap n (heap node).id r.buckets
        → IsTable heap n
            (heap node).id
            (on_new_node heap later pending node confirm now my_id calls r pings).0.buckets
    unfolding on_new_node
    on_new_node-IsTable zero r pings h = h
    on_new_node-IsTable (suc calls) r pings h =
        let h' = join-IsTable r pings h in
        elim (Join-cases (join heap later pending node confirm now my_id r pings)) [
          | inl (r', pings', answer, e) ↦
              rw (on_new_node, e) (subst (λ j. IsTable heap n (heap node).id (buckets_of j)) e h')
          | inr (r', pings', e) ↦
              rw (on_new_node, e)
                (on_new_node-IsTable calls r' pings'
                  (subst (λ j. IsTable heap n (heap node).id (buckets_of j)) e h'))
        ]
