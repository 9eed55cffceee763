-- ===== src/Storage/Frees.antt =====
-- Taking values out of a `Storage`: `remove` and `clear` keep the invariant and the
-- buckets' balance, and what a sequence of removals does.
use opendht.Prelude.{
  ℕ, ◌+◌, ◌%◌, ◌≡◌, ◌≢◌, ap, ◌∙◌, subst, false, List, [], ◌∷◌, ◌++◌, none, some, arith, length, All,
  All-append, inl, inr, Option-cases, length-append, locate, locate-some, locate-none, All-around,
  ◌⊎◌,
}
use opendht.Prelude.Words.{word, sub_size, sub_size-mod}
use opendht.Hash.{Hash}
use opendht.Value.{Value}
use opendht.Value
use opendht.Storage.{ValueStorage, Storage, Shared}
use opendht.Storage.Removal.{release, release_all, sum_size, remove, clear, has_id}
use opendht.Storage.Invariant.{
  ids, Distinct, charge, IsLinked, IsStorage, charge-append, sum_size-append, All-ids,
  Distinct-around, Distinct-drop, release_balance, release-IsLinked,
}

-- What `remove` finds: the value's place, or no such value.
pub remove_cases :
    (key : Hash) (vid : ℕ) (st : Storage) (sh : Shared)
    → ((remove key vid st sh ≡ (st, sh, none)) × All (λ vs. has_id vid vs ≡ false) st.values)
      ⊎ ((a : List ValueStorage) × (vs : ValueStorage) × (b : List ValueStorage) × (st.values
            ≡ a ++ vs ∷ b)
          × (vs.stored.id ≡ vid)
          × (remove key vid st sh ≡ (
            record st {
              values = a ++ b;
              total_size = sub_size st.total_size (Value.size vs.stored);
            },
            release key vs sh,
            some vs.stored,
          )))
unfolding remove
remove_cases key vid st sh = elim (Option-cases (locate (has_id vid) st.values)) [
  | inl e ↦ inl (rw (e, remove), locate-none (has_id vid) st.values e)
  | inr ((a, vs, b), e) ↦
      let found = locate-some (has_id vid) st.values a vs b e in
      inr (a, vs, b, found.0, unfold has_id in ground (arith, found.1), rw (e, remove))
]

keep-IsLinked :
    (key : Hash) (vs : ValueStorage) (sh : Shared) (ws : List ValueStorage)
    → All (λ w. vs.stored.id ≢ w.stored.id) ws
    → All (IsLinked key sh) ws
    → All (IsLinked key (release key vs sh)) ws
keep-IsLinked key vs sh [] ne l = tt
keep-IsLinked key vs sh (w ∷ ws) ne l =
    (release-IsLinked key vs w sh ne.0 l.0, keep-IsLinked key vs sh ws ne.1 l.1)

module _ (key : Hash) (st : Storage) (sh : Shared) (v : IsStorage key st sh) where
  removed-IsStorage :
      (a : List ValueStorage) (vs : ValueStorage) (b : List ValueStorage)
      → st.values ≡ a ++ vs ∷ b
      → IsStorage key
          (record st {
            values = a ++ b;
            total_size = sub_size st.total_size (Value.size vs.stored);
          })
          (release key vs sh)
  unfolding sum_size
  removed-IsStorage a vs b e =
      let linked = All-around (IsLinked key sh) a vs b (subst (All (IsLinked key sh)) e v.linked) in
      let distinct = subst (λ l. Distinct (ids l)) e v.distinct in
      let apart = Distinct-around a b vs distinct in
      let sized : st.total_size ≡ sum_size (a ++ vs ∷ b) % word =
        v.sized ∙ ap (λ l. sum_size l % word) e in
      record {
        sized =
            sub_size-mod st.total_size (Value.size vs.stored) (sum_size (a ++ b))
              (omega (arith, sized, sum_size-append a (vs ∷ b), sum_size-append a b));
        distinct = Distinct-drop a b vs distinct;
        linked =
            All-append (IsLinked key (release key vs sh)) a b
              (keep-IsLinked key vs sh a apart.0 linked.0)
              (keep-IsLinked key vs sh b apart.1 linked.2);
        bounded =
            omega (arith, v.bounded, ap length e, length-append a (vs ∷ b), length-append a b);
      }

  -- `remove` keeps the invariant of the storage.
  pub remove-IsStorage : (vid : ℕ) → IsStorage key (remove key vid st sh).0 (remove key vid st sh).1
  remove-IsStorage vid = elim (remove_cases key vid st sh) [
    | inl (e, _) ↦ rw e v
    | inr (a, vs, b, e, _, r) ↦ rw r (removed-IsStorage a vs b e)
  ]

  -- `remove` takes from each bucket's size what the value counted there: if the size was that of the
  -- storage's values and s more, it still is.
  pub remove_balance :
      (vid r s : ℕ)
      → (sh.bucket r).total_size ≡ (s + charge r st.values) % word
      → ((remove key vid st sh).1.bucket r).total_size
        ≡ (s + charge r (remove key vid st sh).0.values) % word
  unfolding charge
  remove_balance vid r s h = elim (remove_cases key vid st sh) [
    | inl (e, _) ↦ rw e h
    | inr (a, vs, b, e, _, done) ↦ rw done (
        release_balance key vs sh r (s + charge r (a ++ b))
          (All-around (IsLinked key sh) a vs b (subst (All (IsLinked key sh)) e v.linked)).1
          (h
            ∙ ap (λ (n : ℕ). n % word)
                (omega (arith, ap (charge r) e, charge-append r a (vs ∷ b), charge-append r a b))))
  ]

pub release_all_balance :
    (key : Hash) (gone : List ValueStorage) (sh : Shared) (r s : ℕ)
    → Distinct (ids gone)
    → All (IsLinked key sh) gone
    → (sh.bucket r).total_size ≡ (s + charge r gone) % word
    → ((release_all key gone sh).bucket r).total_size ≡ s % word
unfolding release_all charge ids
release_all_balance key [] sh r s d l h = h ∙ omega arith
release_all_balance key (vs ∷ rest) sh r s d l h =
    release_all_balance key rest (release key vs sh) r s d.1
      (keep-IsLinked key vs sh rest (All-ids rest vs.stored.id d.0) l.1)
      (release_balance key vs sh r (s + charge r rest) l.0
        (h ∙ ap (λ (n : ℕ). n % word) (omega arith)))

pub release_all-IsLinked :
    (key : Hash) (gone ws : List ValueStorage) (sh : Shared)
    → All (λ d. All (λ w. d.stored.id ≢ w.stored.id) ws) gone
    → All (IsLinked key sh) ws
    → All (IsLinked key (release_all key gone sh)) ws
unfolding release_all
release_all-IsLinked key [] ws sh ne l = l
release_all-IsLinked key (vs ∷ rest) ws sh ne l =
    release_all-IsLinked key rest ws (release key vs sh) ne.1 (keep-IsLinked key vs sh ws ne.0 l)

-- `clear` takes every value out, and all that they counted in each bucket.
pub clear_balance :
    (key : Hash) (st : Storage) (sh : Shared) (r s : ℕ)
    → IsStorage key st sh
    → (sh.bucket r).total_size ≡ (s + charge r st.values) % word
    → ((clear key st sh).1.bucket r).total_size ≡ s % word
unfolding clear
clear_balance key st sh r s v h = release_all_balance key st.values sh r s v.distinct v.linked h
