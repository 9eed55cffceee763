-- ===== src/Storage/Expiry.antt =====
-- `expire`: which values and listeners it takes out, and that it keeps the invariant and the buckets'
-- balance.
use mathlib.Core.List.{Perm, perm_middle}
use mathlib.Core.List.Perm
use opendht.Prelude.{
  ℕ, ◌+◌, ◌%◌, ◌≤◌, ◌<◌, ◌≡◌, ◌≢◌, refl, sym, ap, ◌∙◌, List, [], ◌∷◌, ◌++◌, arith, ltb, length, All,
  inl, inr, Bool-cases, ltb→lt, ltb-false→le,
}
use opendht.Prelude.Words.{word, add_diff-mod}
use opendht.Time.{TimePoint}
use opendht.Hash.{Hash}
use opendht.Storage.{ValueStorage, Storage, Shared}
use opendht.Storage.Removal.{sum_size, expire, alive, dead, stored_values}
use opendht.Storage.Invariant.{ids, Distinct, charge, IsLinked, IsStorage, All-ids}
use opendht.Storage.Frees.{release_all_balance, release_all-IsLinked}

All-dead {κ} :
    (P : ValueStorage → Type κ) (now : TimePoint) (xs : List ValueStorage)
    → All P xs
    → All P (dead now xs)
unfolding dead
All-dead P now [] h = tt
All-dead P now (x ∷ xs) h = elim (Bool-cases (ltb now x.expiration)) [
  | inl e ↦ rw e (All-dead P now xs h.1)
  | inr e ↦ rw e (h.0, All-dead P now xs h.1)
]

All-alive {κ} :
    (P : ValueStorage → Type κ) (now : TimePoint) (xs : List ValueStorage)
    → All P xs
    → All P (alive now xs)
unfolding alive
All-alive P now [] h = tt
All-alive P now (x ∷ xs) h = elim (Bool-cases (ltb now x.expiration)) [
  | inl e ↦ rw e (h.0, All-alive P now xs h.1)
  | inr e ↦ rw e (All-alive P now xs h.1)
]

-- The values that stay are those that expire after `now`.
alive_late :
    (now : TimePoint) (xs : List ValueStorage) → All (λ w. now < w.expiration) (alive now xs)
unfolding alive
alive_late now [] = tt
alive_late now (x ∷ xs) = elim (Bool-cases (ltb now x.expiration)) [
  | inl e ↦ rw e (ltb→lt _ _ e, alive_late now xs)
  | inr e ↦ rw e (alive_late now xs)
]

dead_due : (now : TimePoint) (xs : List ValueStorage) → All (λ w. w.expiration ≤ now) (dead now xs)
unfolding dead
dead_due now [] = tt
dead_due now (x ∷ xs) = elim (Bool-cases (ltb now x.expiration)) [
  | inl e ↦ rw e (dead_due now xs)
  | inr e ↦ rw e (ltb-false→le _ _ e, dead_due now xs)
]

dead-alive-perm : (now : TimePoint) (xs : List ValueStorage) → Perm xs (dead now xs ++ alive now xs)
unfolding alive dead
dead-alive-perm now [] = Perm.nil
dead-alive-perm now (x ∷ xs) = elim (Bool-cases (ltb now x.expiration)) [
  | inl e ↦ rw e (
      Perm.trans (Perm.cons x (dead-alive-perm now xs))
        (Perm.symm (perm_middle (dead now xs) (alive now xs))))
  | inr e ↦ rw e (Perm.cons x (dead-alive-perm now xs))
]

pub dead_sums :
    (now : TimePoint) (r : ℕ) (xs : List ValueStorage)
    → (sum_size xs ≡ sum_size (alive now xs) + sum_size (dead now xs))
      × (charge r xs ≡ charge r (alive now xs) + charge r (dead now xs))
      × (length xs ≡ length (alive now xs) + length (dead now xs))
unfolding alive dead sum_size charge
dead_sums now r [] = (omega arith, omega arith, omega arith)
dead_sums now r (x ∷ xs) =
    let ih = dead_sums now r xs in
    elim (Bool-cases (ltb now x.expiration)) [
      | inl e ↦ rw e (omega arith, omega arith, omega arith)
      | inr e ↦ rw e (omega arith, omega arith, omega arith)
    ]

All-of_ids :
    (b : List ValueStorage) (i : ℕ) → All (λ w. i ≢ w.stored.id) b → All (λ j. i ≢ j) (ids b)
unfolding ids
All-of_ids [] i h = tt
All-of_ids (w ∷ ws) i h = (h.0, All-of_ids ws i h.1)

parts-Distinct :
    (now : TimePoint) (xs : List ValueStorage)
    → Distinct (ids xs)
    → Distinct (ids (alive now xs))
      × Distinct (ids (dead now xs))
      × All (λ d. All (λ w. d.stored.id ≢ w.stored.id) (alive now xs)) (dead now xs)
unfolding alive dead ids
parts-Distinct now [] d = (tt, tt, tt)
parts-Distinct now (x ∷ xs) d =
    let ih = parts-Distinct now xs d.1 in
    let others = All-ids xs x.stored.id d.0 in
    let late = All-alive (λ w. x.stored.id ≢ w.stored.id) now xs others in
    let due = All-dead (λ w. x.stored.id ≢ w.stored.id) now xs others in
    elim (Bool-cases (ltb now x.expiration)) [
      | inl e ↦ rw e (
        (All-of_ids (alive now xs) x.stored.id late, ih.0),
        ih.1,
        add_front (dead now xs) due ih.2,
      )
      | inr e ↦ rw e (ih.0, (All-of_ids (dead now xs) x.stored.id due, ih.1), (late, ih.2))
    ]
  where
    add_front :
        (ds : List ValueStorage)
        → All (λ w. x.stored.id ≢ w.stored.id) ds
        → All (λ d. All (λ w. d.stored.id ≢ w.stored.id) (alive now xs)) ds
        → All
            (λ d. (d.stored.id ≢ x.stored.id) × All (λ w. d.stored.id ≢ w.stored.id) (alive now xs))
            ds
    add_front [] p q = tt
    add_front (d ∷ ds) p q = ((λ e. p.0 (sym e), q.0), add_front ds p.1 q.1)

module _ (key : Hash) (now : TimePoint) (st : Storage) (sh : Shared) (v : IsStorage key st sh) where
  -- `expire` keeps the invariant of the storage.
  pub expire-IsStorage : IsStorage key (expire key now st sh).0 (expire key now st sh).1
  unfolding expire
  expire-IsStorage =
      let sums = dead_sums now 0 st.values in
      let parts = parts-Distinct now st.values v.distinct in
      record {
        sized =
            add_diff-mod st.total_size 0 (sum_size (dead now st.values))
              (sum_size (alive now st.values)) (omega (arith, v.sized))
            ∙ omega arith;
        distinct = parts.0;
        linked =
            release_all-IsLinked key (dead now st.values) (alive now st.values) sh parts.2
              (All-alive (IsLinked key sh) now st.values v.linked);
        bounded = omega (arith, v.bounded);
      }

  -- `expire` takes from each bucket's size what the expired values counted there.
  pub expire_balance :
      (r s : ℕ)
      → (sh.bucket r).total_size ≡ (s + charge r st.values) % word
      → ((expire key now st sh).1.bucket r).total_size
        ≡ (s + charge r (expire key now st sh).0.values) % word
  unfolding expire
  expire_balance r s h =
      let sums = dead_sums now r st.values in
      let parts = parts-Distinct now st.values v.distinct in
      release_all_balance key (dead now st.values) sh r (s + charge r (alive now st.values)) parts.1
        (All-dead (IsLinked key sh) now st.values v.linked)
        (h ∙ ap (λ (n : ℕ). n % word) (omega arith))

-- `expire` splits the values: those that stay expire after `now`, the others no later, and together
-- they are the values that there were.
pub expire_splits :
    (key : Hash) (now : TimePoint) (st : Storage) (sh : Shared)
    → (gone : List ValueStorage) × Perm st.values (gone ++ (expire key now st sh).0.values)
      × All (λ w. now < w.expiration) (expire key now st sh).0.values
      × All (λ w. w.expiration ≤ now) gone
      × ((expire key now st sh).3 ≡ stored_values gone)
unfolding expire
expire_splits key now st sh = (
  dead now st.values,
  dead-alive-perm now st.values,
  alive_late now st.values,
  dead_due now st.values,
  refl,
)
