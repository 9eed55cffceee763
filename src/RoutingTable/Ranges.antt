-- ===== src/RoutingTable/Ranges.antt =====
-- The ranges of the buckets: findBucket and contains.
use opendht.Prelude.{
  ℕ, ◌≡◌, ◌∙◌, sym, ap, refl, true, false, List, [], ◌∷◌, ◌++◌, some, inl, inr, arith, Ordering,
  Bool-cases, Ordering-cases, length, All, All-around,
}
use opendht.Hash.{Hash, IsHash, cmp}
use opendht.Hash.Order.{cmp-flip, cmp_trans}
use opendht.RoutingTable.{Bucket, Place, is_lt, table, find_from, find_bucket, below_next, contains}

table-find_from :
    (id : Hash) (b : Bucket) (rest : List Bucket) → table (find_from id b rest) ≡ b ∷ rest
unfolding find_from table
table-find_from id b [] = refl
table-find_from id b (next ∷ rest) = elim (Bool-cases (is_lt (cmp id next.first))) [
  | inl below ↦ rw below refl
  | inr above ↦ rw above (ap (λ t. b ∷ t) (table-find_from id next rest))
]

-- The place that `findBucket` returns is in the table.
pub table-find_bucket :
    (id : Hash) (bs : List Bucket) (p : Place) → find_bucket id bs ≡ some p → table p ≡ bs
unfolding find_bucket
table-find_bucket id [] p e = absurd cc
table-find_bucket id (b ∷ rest) p e = ground (arith, table-find_from id b rest)

pub contains-find_from :
    (id : Hash) (b : Bucket) (rest : List Bucket)
    → (is_lt (cmp id b.first) ≡ false)
    → contains (find_from id b rest) id ≡ true
unfolding find_from contains
contains-find_from id b [] h = ground (arith, cmp-flip b.first id, h)
contains-find_from id b (next ∷ rest) h = elim (Bool-cases (is_lt (cmp id next.first))) [
  | inl below ↦ rw below (ground (arith, cmp-flip b.first id, h, below))
  | inr above ↦ rw above (contains-find_from id next rest above)
]

-- First ids of n bytes that ascend.
abbrev pub Ascends : ℕ → List Bucket → Type 0
Ascends n [] = Unit
Ascends n (b ∷ rest) =
    IsHash n b.first × All (λ c. cmp b.first c.first ≡ Ordering.lt) rest × Ascends n rest

pub Ascends-around :
    (n : ℕ) (before : List Bucket) (b : Bucket) (after : List Bucket)
    → Ascends n (before ++ b ∷ after)
    → IsHash n b.first
Ascends-around n [] b after h = h.0
Ascends-around n (x ∷ before) b after h = Ascends-around n before b after h.2

-- An id that is not below a bucket is not below one with a smaller first id.
pub not_below_trans :
    (id a b : Hash)
    → length id ≡ length a
    → length a ≡ length b
    → cmp a b ≡ Ordering.lt
    → is_lt (cmp id b) ≡ false
    → is_lt (cmp id a) ≡ false
not_below_trans id a b e f h k = elim (Ordering-cases (cmp id a)) [
  | inl below ↦ absurd (ground (arith, cmp_trans id a b e f below h, k))
  | inr (inl same) ↦ ground (arith, same)
  | inr (inr above) ↦ ground (arith, above)
]

pub contains_not_below :
    (p : Place) (id : Hash) → contains p id ≡ true → is_lt (cmp id p.bucket.first) ≡ false
unfolding contains
contains_not_below p id h = ground (arith, h, cmp-flip p.bucket.first id)

find_from_here :
    (id : Hash) (b : Bucket) (after : List Bucket)
    → below_next id after ≡ true
    → find_from id b after ≡ record { before = []; bucket = b; after = after }
unfolding find_from below_next
find_from_here id b [] k = refl
find_from_here id b (next ∷ rest) k = rw k refl

find_from_later :
    (id : Hash) (b next : Bucket) (rest : List Bucket) (p : Place)
    → is_lt (cmp id next.first) ≡ false
    → find_from id next rest ≡ p
    → find_from id b (next ∷ rest) ≡ record p { before = b ∷ p.before }
unfolding find_from
find_from_later id b next rest p h e = rw (h, e) refl

find_from_unique :
    (n : ℕ) (id : Hash) (x b : Bucket) (before after : List Bucket)
    → length id ≡ n
    → Ascends n (x ∷ before ++ b ∷ after)
    → below_next id after ≡ true
    → is_lt (cmp id b.first) ≡ false
    → find_from id x (before ++ b ∷ after)
      ≡ record { before = x ∷ before; bucket = b; after = after }
find_from_unique n id x b [] after e h k above =
    find_from_later id x b after (record { before = []; bucket = b; after = after }) above
      (find_from_here id b after k)
find_from_unique n id x b (y ∷ before) after e h k above =
    let behind = All-around (λ c. cmp y.first c.first ≡ Ordering.lt) before b after h.2.1 in
    let sizes = Ascends-around n before b after h.2.2 in
    find_from_later id x y (before ++ b ∷ after)
      (record { before = y ∷ before; bucket = b; after = after })
      (not_below_trans id y.first b.first (e ∙ sym h.2.0.size) (h.2.0.size ∙ sym sizes.size)
        behind.1 above)
      (find_from_unique n id y b before after e h.2 k above)

find_bucket_unique :
    (n : ℕ) (id : Hash) (b : Bucket) (before after : List Bucket)
    → length id ≡ n
    → Ascends n (before ++ b ∷ after)
    → below_next id after ≡ true
    → is_lt (cmp id b.first) ≡ false
    → find_bucket id (before ++ b ∷ after)
      ≡ some (record { before = before; bucket = b; after = after })
unfolding find_bucket
find_bucket_unique n id b [] after e h k above = ap some (find_from_here id b after k)
find_bucket_unique n id b (x ∷ before) after e h k above =
    ap some (find_from_unique n id x b before after e h k above)

contains_below : (p : Place) (id : Hash) → contains p id ≡ true → below_next id p.after ≡ true
unfolding contains
contains_below p id h = ground (arith, h)

-- The ranges of the buckets part the ids: in a table whose first ids ascend, a bucket contains an id
-- only if it is the bucket that `findBucket` returns for the id.
pub contains_unique :
    (n : ℕ) (id : Hash) (p : Place)
    → length id ≡ n
    → Ascends n (table p)
    → contains p id ≡ true
    → find_bucket id (table p) ≡ some p
unfolding table
contains_unique n id p e h k =
    find_bucket_unique n id p.bucket p.before p.after e h (contains_below p id k)
      (contains_not_below p id k)

-- In a table whose first bucket is not above the id, `findBucket` returns a place of the table, and
-- the bucket there contains the id.
pub contains-find_bucket :
    (id : Hash) (b : Bucket) (rest : List Bucket)
    → is_lt (cmp id b.first) ≡ false
    → (p : Place) × (find_bucket id (b ∷ rest) ≡ some p)
      × (table p ≡ b ∷ rest)
      × (contains p id ≡ true)
unfolding find_bucket
contains-find_bucket id b rest h =
    (find_from id b rest, refl, table-find_from id b rest, contains-find_from id b rest h)
