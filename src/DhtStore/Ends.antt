-- ===== src/DhtStore/Ends.antt =====
-- When the second loop of `expireStore` ends, and in which state.
use opendht.Prelude.{
  ℕ, zero, suc, ◌<◌, ◌≡◌, refl, ap, true, false, List, [], ◌∷◌, arith, inl, inr, Bool-cases, none,
  Option-cases, List-cases, ◌⊎◌,
}
use opendht.Hash.{Hash}
use opendht.Storage.{Storage}
use opendht.Storage.Bucket.{Entry, get_oldest}
use opendht.Storage.Removal.{remove}
use opendht.Storage.Lookup.{remove-get_by_id}
use opendht.DhtStore.{
  Notice, DhtStore, find_store, put_store, storage_removed, largest, over, evicted, stuck,
  get_local_by_id, is_over_limit, evict_oldest, evict_round, evict,
}
use opendht.DhtStore.Counted.{total_by, amount, total_by_split}
use opendht.DhtStore.Effects.{remove_less}
use opendht.DhtStore.Counts.{Round-cases}

evict_oldest_less :
    (ip : ℕ) (s s' : DhtStore) (told : List Notice)
    → evict_oldest ip s ≡ evicted s' told
    → total_by amount s.stores ≡ suc (total_by amount s'.stores)
unfolding evict_oldest storage_removed
evict_oldest_less ip s s' told e =
    let key : Hash = (get_oldest (s.shared.bucket (suc ip)) 20).0 in
    let vid : ℕ = (get_oldest (s.shared.bucket (suc ip)) 20).1 in
    elim (Option-cases (find_store key s.stores)) [
      | inl absent ↦ absurd (ground (arith, e, absent))
      | inr (st, there) ↦ elim (Option-cases (remove key vid st s.shared).2) [
        | inl gone ↦ absurd (ground (arith, e, there, gone))
        | inr (v, found) ↦
            let st' : Storage = (remove key vid st s.shared).0 in
            let (rest, whole, put, _) = total_by_split amount key s.stores st there in
            let left : put_store key st' s.stores ≡ s'.stores = ground (arith, e, there, found) in
            omega (
              arith,
              whole,
              put st',
              ap (total_by amount) left,
              remove_less key vid st s.shared v found,
            )
      ]
    ]

evict_round_less :
    (s s' : DhtStore) (told : List Notice)
    → evict_round s ≡ evicted s' told
    → total_by amount s.stores ≡ suc (total_by amount s'.stores)
unfolding evict_round
evict_round_less s s' told e = elim (Bool-cases (is_over_limit s)) [
  | inr below ↦ absurd (ground (arith, e, below))
  | inl above ↦ elim (List-cases s.quotas) [
    | inl nobody ↦ absurd (ground (arith, e, above, nobody))
    | inr (q, qs, there) ↦
        let ip : ℕ = largest s.shared.bucket q qs in
        elim (List-cases (s.shared.bucket (suc ip)).stored_values) [
          | inl idle ↦ absurd (ground (arith, e, above, there, idle))
          | inr (x, xs, full) ↦
              evict_oldest_less ip s s' told (ground (arith, e, above, there, full))
        ]
  ]
]

-- No address is left to take from: none has a quota, or the one with the most bytes has no value.
pub data Exhausted (s : DhtStore) : Type 0 where
  no_quota : s.quotas ≡ [] → Exhausted s
  no_value :
      (q : ℕ) (qs : List ℕ)
      → s.quotas ≡ q ∷ qs
      → (s.shared.bucket (suc (largest s.shared.bucket q qs))).stored_values ≡ []
      → Exhausted s

over_means : (s : DhtStore) → evict_round s ≡ over → (is_over_limit s ≡ false) ⊎ Exhausted s
unfolding evict_round evict_oldest
over_means s e = elim (Bool-cases (is_over_limit s)) [
  | inr below ↦ inl below
  | inl above ↦ elim (List-cases s.quotas) [
    | inl nobody ↦ inr (no_quota nobody)
    | inr (q, qs, there) ↦
        let ip : ℕ = largest s.shared.bucket q qs in
        elim (List-cases (s.shared.bucket (suc ip)).stored_values) [
          | inl idle ↦ inr (no_value q qs there idle)
          | inr (x, xs, full) ↦
              let goes : evict_oldest ip s ≡ over = ground (arith, e, above, there, full) in
              absurd (never_over ip s goes)
        ]
  ]
]
  where
    never_over : (ip : ℕ) (s : DhtStore) → evict_oldest ip s ≡ over → ⊥
    never_over ip s e =
        let key : Hash = (get_oldest (s.shared.bucket (suc ip)) 20).0 in
        let vid : ℕ = (get_oldest (s.shared.bucket (suc ip)) 20).1 in
        elim (Option-cases (find_store key s.stores)) [
          | inl absent ↦ ground (arith, e, absent)
          | inr (st, there) ↦ elim (Option-cases (remove key vid st s.shared).2) [
            | inl gone ↦ ground (arith, e, there, gone)
            | inr (v, found) ↦ ground (arith, e, there, found)
          ]
        ]

-- The address with the most bytes lists as its oldest a value that no storage has under that key and id,
-- and the round is one of an inner loop that does not end.
pub data IsMissing (s : DhtStore) : Type 0 where
  no_such_value :
      (q : ℕ) (qs : List ℕ) (e : Entry) (es : List Entry)
      → is_over_limit s ≡ true
      → s.quotas ≡ q ∷ qs
      → (s.shared.bucket (suc (largest s.shared.bucket q qs))).stored_values ≡ e ∷ es
      → get_local_by_id
          (get_oldest (s.shared.bucket (suc (largest s.shared.bucket q qs))) 20).0
          (get_oldest (s.shared.bucket (suc (largest s.shared.bucket q qs))) 20).1
          s.stores
        ≡ none
      → evict_round s ≡ stuck
      → IsMissing s

evict_oldest_stuck :
    (ip : ℕ) (s : DhtStore)
    → evict_oldest ip s ≡ stuck
    → get_local_by_id
        (get_oldest (s.shared.bucket (suc ip)) 20).0
        (get_oldest (s.shared.bucket (suc ip)) 20).1
        s.stores
      ≡ none
unfolding evict_oldest get_local_by_id
evict_oldest_stuck ip s e =
    let key : Hash = (get_oldest (s.shared.bucket (suc ip)) 20).0 in
    let vid : ℕ = (get_oldest (s.shared.bucket (suc ip)) 20).1 in
    elim (Option-cases (find_store key s.stores)) [
      | inl absent ↦ rw (get_local_by_id, absent) refl
      | inr (st, there) ↦ elim (Option-cases (remove key vid st s.shared).2) [
        | inl gone ↦ rw (get_local_by_id, there) (remove-get_by_id key vid st s.shared gone)
        | inr (v, found) ↦ absurd (ground (arith, e, there, found))
      ]
    ]

stuck_means : (s : DhtStore) → evict_round s ≡ stuck → IsMissing s
unfolding evict_round
stuck_means s e = elim (Bool-cases (is_over_limit s)) [
  | inr below ↦ absurd (ground (arith, e, below))
  | inl above ↦ elim (List-cases s.quotas) [
    | inl nobody ↦ absurd (ground (arith, e, above, nobody))
    | inr (q, qs, there) ↦
        let ip : ℕ = largest s.shared.bucket q qs in
        elim (List-cases (s.shared.bucket (suc ip)).stored_values) [
          | inl idle ↦ absurd (ground (arith, e, above, there, idle))
          | inr (x, xs, full) ↦
              no_such_value q qs x xs above there full
                (evict_oldest_stuck ip s (ground (arith, e, above, there, full))) e
        ]
  ]
]

-- The loop that takes values from the address with the most bytes needs no more rounds than there are
-- values in the storages, and one. Then it has ended, with the remote values within the limit or with
-- no value left to take; or it is over the limit, and the bucket of that address lists as its oldest a
-- value that is not found in the storages under its key and id, so that the inner loop goes round for ever.
pub evict_ends :
    (rounds : ℕ) (s : DhtStore)
    → total_by amount s.stores < rounds
    → ((evict rounds s).2 ≡ true)
        × ((is_over_limit (evict rounds s).0 ≡ false) ⊎ Exhausted (evict rounds s).0)
      ⊎ IsMissing (evict rounds s).0
unfolding evict
evict_ends zero s enough = absurd (omega (arith, enough))
evict_ends (suc rounds) s enough = elim (Round-cases (evict_round s)) [
  | inl ended ↦ rw (evict, ended) (inl (refl, over_means s ended))
  | inr (inl loops) ↦ rw (evict, loops) (inr (stuck_means s loops))
  | inr (inr (s', told, e)) ↦
      rw (evict, e) (evict_ends rounds s' (omega (arith, enough, evict_round_less s s' told e)))
]
