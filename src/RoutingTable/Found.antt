-- ===== src/RoutingTable/Found.antt =====
-- findClosestNodes: how many nodes it finds.
use mathlib.Core.List.{reverse-cons}
use opendht.Prelude.{
  ℕ, suc, ◌+◌, ◌≡◌, ◌∙◌, ap, refl, min, List, [], ◌∷◌, ◌++◌, reverse, none, inl, inr, arith, ltb,
  Bool-cases, Option-cases, if◌then◌else◌, length, length-take,
}
use opendht.Time.{TimePoint}
use opendht.Hash.{Hash}
use opendht.Node.{is_good}
use opendht.RoutingTable.{
  Bucket, Heap, Place, table, find_bucket, sorted_insert, sorted_bucket_insert, visit,
  find_closest_nodes,
}
use opendht.RoutingTable.Ranges.{table-find_bucket}
use opendht.RoutingTable.Closest.{collected, find_closest_nodes-some, find_closest_nodes-none}

-- The good nodes of a bucket, and of the buckets of a list.
unfoldable pub count_good : Heap → TimePoint → List ℕ → ℕ
count_good heap now [] = 0
count_good heap now (n ∷ ns) = (if is_good (heap n) now then 1 else 0) + count_good heap now ns

unfoldable pub all_good : Heap → TimePoint → List Bucket → ℕ
unfolding count_good
all_good heap now [] = 0
all_good heap now (b ∷ bs) = count_good heap now b.nodes + all_good heap now bs

module _ (heap : Heap) (id : Hash) (now : TimePoint) where
  length-sorted_insert :
      (n : ℕ) (ms : List ℕ) → length (sorted_insert heap id n ms) ≡ suc (length ms)
  unfolding sorted_insert
  length-sorted_insert n [] = refl
  length-sorted_insert n (m ∷ ms) = ground (arith, length-sorted_insert n ms)

  length-sorted_bucket_insert :
      (ns ms : List ℕ)
      → length (sorted_bucket_insert heap id now ns ms) ≡ length ms + count_good heap now ns
  unfolding sorted_bucket_insert count_good
  length-sorted_bucket_insert [] ms = omega arith
  length-sorted_bucket_insert (n ∷ ns) ms = elim (Bool-cases (is_good (heap n) now)) [
    | inl good ↦ rw good (
        omega (
          arith,
          length-sorted_bucket_insert ns (sorted_insert heap id n ms),
          length-sorted_insert n ms,
        ))
    | inr bad ↦ rw bad (omega (arith, length-sorted_bucket_insert ns ms))
  ]

  all_good-append :
      (front back : List Bucket)
      → all_good heap now (front ++ back) ≡ all_good heap now front + all_good heap now back
  unfolding all_good
  all_good-append [] back = omega arith
  all_good-append (b ∷ front) back = omega (arith, all_good-append front back)

  all_good-reverse : (bs : List Bucket) → all_good heap now (reverse bs) ≡ all_good heap now bs
  unfolding all_good
  all_good-reverse [] = refl
  all_good-reverse (b ∷ bs) =
      rw (reverse-cons b bs)
        (omega (arith, all_good-append (reverse bs) (b ∷ []), all_good-reverse bs))

  -- As long as nodes are missing the loop goes on, so it finds enough or it finds all.
  length-visit :
      (count : ℕ) (itn itp : List Bucket) (ms : List ℕ)
      → min count (length (visit heap id now count itn itp ms))
        ≡ min count (length ms + (all_good heap now itn + all_good heap now itp))
  unfolding visit all_good
  length-visit count [] [] ms = omega arith
  length-visit count (b ∷ itn) [] ms =
      let step = length-sorted_bucket_insert b.nodes ms in
      let ih = length-visit count itn [] (sorted_bucket_insert heap id now b.nodes ms) in
      elim (Bool-cases (ltb (length ms) count)) [
        | inl short ↦ rw short (omega (arith, step, ih))
        | inr full ↦ rw full (ground (arith, full))
      ]
  length-visit count [] (c ∷ itp) ms =
      let step = length-sorted_bucket_insert c.nodes ms in
      let ih = length-visit count [] itp (sorted_bucket_insert heap id now c.nodes ms) in
      elim (Bool-cases (ltb (length ms) count)) [
        | inl short ↦ rw short (omega (arith, step, ih))
        | inr full ↦ rw full (ground (arith, full))
      ]
  length-visit count (b ∷ itn) (c ∷ itp) ms =
      let ms' : List ℕ = sorted_bucket_insert heap id now b.nodes ms in
      let step = length-sorted_bucket_insert b.nodes ms in
      let step' = length-sorted_bucket_insert c.nodes ms' in
      let ih = length-visit count itn itp (sorted_bucket_insert heap id now c.nodes ms') in
      elim (Bool-cases (ltb (length ms) count)) [
        | inl short ↦ rw short (omega (arith, step, step', ih))
        | inr full ↦ rw full (ground (arith, full))
      ]

  all_good-table :
      (p : Place)
      → all_good heap now (table p)
        ≡ all_good heap now (p.bucket ∷ p.after) + all_good heap now (reverse p.before)
  unfolding table
  all_good-table p =
      omega (arith, all_good-append p.before (p.bucket ∷ p.after), all_good-reverse p.before)

  length-collected :
      (count : ℕ) (p : Place)
      → min count (length (collected heap id now count p)) ≡ min count (all_good heap now (table p))
  length-collected count p =
      omega (arith, length-visit count (p.bucket ∷ p.after) (reverse p.before) [], all_good-table p)

  find_bucket-none : (bs : List Bucket) → find_bucket id bs ≡ none → bs ≡ []
  unfolding find_bucket
  find_bucket-none [] e = refl
  find_bucket-none (b ∷ bs) e = absurd cc

  -- `findClosestNodes` returns as many nodes as are asked for, or as many as the table has good nodes
  -- if those are fewer, from whatever bucket it starts.
  pub length-find_closest_nodes :
      (count : ℕ) (bs : List Bucket)
      → length (find_closest_nodes heap id now count bs) ≡ min count (all_good heap now bs)
  unfolding all_good
  length-find_closest_nodes count bs = elim (Option-cases (find_bucket id bs)) [
    | inl gone ↦
        rw (find_closest_nodes-none heap id now count bs gone, find_bucket-none bs gone)
          (omega arith)
    | inr (p, found) ↦ rw (find_closest_nodes-some heap id now count bs p found) (
        length-take count (collected heap id now count p)
        ∙ length-collected count p
        ∙ ap (λ t. min count (all_good heap now t)) (table-find_bucket id bs p found))
  ]
