-- ===== src/DhtStore/Counts.antt =====
-- The totals that a node keeps are those of the values in its storages, after all its operations.
use opendht.Prelude.{
  ℕ, zero, suc, ◌%◌, ◌≡◌, ◌∙◌, refl, ap, sym, subst, true, List, [], ◌∷◌, some, arith, length, inl,
  inr, Bool-cases, Option-cases, List-cases, ◌⊎◌,
}
use opendht.Prelude.Words.{word, sub_size}
use opendht.Time.{TimePoint}
use opendht.Hash.{Hash}
use opendht.Value.{Value, TypeStore}
use opendht.Value
use opendht.Storage.{Storage, Shared}
use opendht.Storage.Bucket.{get_oldest}
use opendht.Storage.Removal.{remove, expire, sum_size}
use opendht.DhtStore.{
  Notice, Stores, DhtStore, find_store, put_store, storage_removed, expire_at, expire_storage,
  is_unused, discard_unused, expire_each, largest, Round, over, evicted, stuck, is_over_limit,
  evict_oldest, evict_round, evict, expire_store,
}
use opendht.DhtStore.Puts.{take_back}
use opendht.DhtStore.Counted.{total_by, bytes, amount, total_by_split}
use opendht.DhtStore.Measured.{
  IsMeasured, EachMeasured, find_store-IsMeasured, put_store-EachMeasured, erase_store-EachMeasured,
  remove-IsMeasured, expire-IsMeasured,
}
use opendht.DhtStore.Effects.{
  expire_sums, expire_idle, remove_sums, remove_idle, follow, follow_same,
}

-- The totals of the bytes and of the values are those of all storages, as a size_t, and the size of each
-- storage is that of its values.
pub record IsCounted (s : DhtStore) : Type 0 where
  pub sized : s.total_size ≡ total_by bytes s.stores % word
  pub counted : s.total_values ≡ total_by amount s.stores % word
  pub each : EachMeasured s.stores

-- Nothing but the storages and the totals matters.
pub restate :
    (s t : DhtStore)
    → t.stores ≡ s.stores
    → t.total_size ≡ s.total_size
    → t.total_values ≡ s.total_values
    → IsCounted s
    → IsCounted t
restate s t e f g h = record {
  sized = f ∙ h.sized ∙ ap (λ m. total_by bytes m % word) (sym e);
  counted = g ∙ h.counted ∙ ap (λ m. total_by amount m % word) (sym e);
  each = subst EachMeasured (sym e) h.each;
}

-- A storage that is written with the same sums.
pub rewritten :
    (key : Hash) (s : DhtStore) (st st' : Storage) (sh : Shared)
    → find_store key s.stores ≡ some st
    → bytes st' ≡ bytes st
    → amount st' ≡ amount st
    → (IsMeasured st → IsMeasured st')
    → IsCounted s
    → IsCounted (record s { stores = put_store key st' s.stores; shared = sh })
rewritten key s st st' sh e b a kept h = record {
  sized = h.sized ∙ ap (λ (n : ℕ). n % word) (sym (follow_same bytes key s.stores st st' e b));
  counted = h.counted ∙ ap (λ (n : ℕ). n % word) (sym (follow_same amount key s.stores st st' e a));
  each =
      put_store-EachMeasured key st' s.stores
        (kept (find_store-IsMeasured key s.stores st e h.each)) h.each;
}

expire_at-IsCounted :
    (now : TimePoint) (key : Hash) (st : Storage) (s : DhtStore)
    → find_store key s.stores ≡ some st
    → IsCounted s
    → IsCounted (expire_at now key st s).0
unfolding expire_at storage_removed
expire_at-IsCounted now key st s e h =
    let st' : Storage = (expire key now st s.shared).0 in
    elim (List-cases (expire key now st s.shared).3) [
      | inl idle ↦
          let (b, a) = expire_idle key now st s.shared idle in
          rw (idle, expire_at)
            (rewritten key s st st' (expire key now st s.shared).1 e b a
              (expire-IsMeasured key now st s.shared) h)
      | inr (v, vs, gone) ↦
          let (b, a) = expire_sums key now st s.shared in
          rw (gone, expire_at)
            (record {
              sized = follow bytes key s.stores st st' s.total_size _ e b h.sized;
              counted =
                  subst
                    (λ l.
                      sub_size s.total_values (length l)
                      ≡ total_by amount (put_store key st' s.stores) % word)
                    gone (follow amount key s.stores st st' s.total_values _ e a h.counted);
              each =
                  put_store-EachMeasured key st' s.stores
                    (expire-IsMeasured key now st s.shared
                      (find_store-IsMeasured key s.stores st e h.each))
                    h.each;
            })
    ]

pub expire_storage-IsCounted :
    (now : TimePoint) (key : Hash) (s : DhtStore)
    → IsCounted s
    → IsCounted (expire_storage now key s).0
unfolding expire_storage
expire_storage-IsCounted now key s h = elim (Option-cases (find_store key s.stores)) [
  | inl absent ↦ rw (absent, expire_storage) h
  | inr (st, e) ↦ rw (e, expire_storage) (expire_at-IsCounted now key st s e h)
]

unused_sums : (st : Storage) → is_unused st ≡ true → (bytes st ≡ 0) × (amount st ≡ 0)
unfolding is_unused
unused_sums st e = elim (List-cases st.values) [
  | inl idle ↦ (ap sum_size idle ∙ unfold sum_size in refl, ap length idle)
  | inr (v, vs, some_values) ↦ absurd (ground (arith, e, some_values))
]

discard_unused-IsCounted :
    (key : Hash) (s : DhtStore) → IsCounted s → IsCounted (discard_unused key s)
unfolding discard_unused
discard_unused-IsCounted key s h = elim (Option-cases (find_store key s.stores)) [
  | inl absent ↦ rw (absent, discard_unused) h
  | inr (st, e) ↦ elim (Bool-cases (is_unused st)) [
    | inl unused ↦
        let (b, a) = unused_sums st unused in
        let (rest, whole, _, less) = total_by_split bytes key s.stores st e in
        let (rest', whole', _, less') = total_by_split amount key s.stores st e in
        rw (e, discard_unused)
          (rw unused (record {
            sized = h.sized ∙ ap (λ (n : ℕ). n % word) (omega (arith, whole, less, b));
            counted = h.counted ∙ ap (λ (n : ℕ). n % word) (omega (arith, whole', less', a));
            each = erase_store-EachMeasured key s.stores h.each;
          }))
    | inr used ↦ rw (e, discard_unused) (rw used h)
  ]
]

expire_each-IsCounted :
    (now : TimePoint) (m : Stores) (s : DhtStore) → IsCounted s → IsCounted (expire_each now m s).0
unfolding expire_each
expire_each-IsCounted now [] s h = h
expire_each-IsCounted now ((key, _) ∷ m) s h =
    expire_each-IsCounted now m (discard_unused key (expire_storage now key s).0) (
      discard_unused-IsCounted key (expire_storage now key s).0
        (expire_storage-IsCounted now key s h))

-- What is left when `remove` has taken a value out.
removed-IsCounted :
    (key : Hash) (vid : ℕ) (st : Storage) (s : DhtStore) (v : Value)
    → find_store key s.stores ≡ some st
    → (remove key vid st s.shared).2 ≡ some v
    → IsCounted s
    → IsCounted
        (storage_removed key (remove key vid st s.shared).0 (v ∷ []) (Value.size v) (record s {
          stores = put_store key (remove key vid st s.shared).0 s.stores;
          shared = (remove key vid st s.shared).1;
        })).0
unfolding storage_removed
removed-IsCounted key vid st s v e found h =
    let (b, a) = remove_sums key vid st s.shared v found in
    record {
      sized =
          follow bytes key s.stores st (remove key vid st s.shared).0 s.total_size _ e b h.sized;
      counted =
          follow amount key s.stores st (remove key vid st s.shared).0 s.total_values _ e a
            h.counted;
      each =
          put_store-EachMeasured key (remove key vid st s.shared).0 s.stores
            (remove-IsMeasured key vid st s.shared (find_store-IsMeasured key s.stores st e h.each))
            h.each;
    }

-- What a round leaves, if it goes on.
abbrev Leaves : (DhtStore → Type 0) → Round → Type 0
Leaves P over = Unit
Leaves P stuck = Unit
Leaves P (evicted s told) = P s

evict_oldest-IsCounted :
    (ip : ℕ) (s : DhtStore) → IsCounted s → Leaves IsCounted (evict_oldest ip s)
unfolding evict_oldest
evict_oldest-IsCounted ip s h =
    let key : Hash = (get_oldest (s.shared.bucket (suc ip)) 20).0 in
    let vid : ℕ = (get_oldest (s.shared.bucket (suc ip)) 20).1 in
    elim (Option-cases (find_store key s.stores)) [
      | inl absent ↦ rw (absent, evict_oldest) tt
      | inr (st, e) ↦ elim (Option-cases (remove key vid st s.shared).2) [
        | inl gone ↦ rw (evict_oldest, e) (rw gone tt)
        | inr (v, found) ↦
            rw (evict_oldest, e) (rw found (removed-IsCounted key vid st s v e found h))
      ]
    ]

evict_round-IsCounted : (s : DhtStore) → IsCounted s → Leaves IsCounted (evict_round s)
unfolding evict_round
evict_round-IsCounted s h = elim (Bool-cases (is_over_limit s)) [
  | inr below ↦ rw (evict_round, below) tt
  | inl above ↦ elim (List-cases s.quotas) [
    | inl nobody ↦ rw (evict_round, above) (rw nobody tt)
    | inr (q, qs, e) ↦
        let ip : ℕ = largest s.shared.bucket q qs in
        elim (List-cases (s.shared.bucket (suc ip)).stored_values) [
          | inl idle ↦ rw (evict_round, above) (rw e (rw idle tt))
          | inr (x, xs, there) ↦
              rw (evict_round, above) (rw e (rw there (evict_oldest-IsCounted ip s h)))
        ]
  ]
]

pub Round-cases :
    (r : Round)
    → (r ≡ over) ⊎ ((r ≡ stuck) ⊎ ((s : DhtStore) × (told : List Notice) × (r ≡ evicted s told)))
Round-cases over = inl refl
Round-cases stuck = inr (inl refl)
Round-cases (evicted s told) = inr (inr (s, told, refl))

evict-IsCounted : (rounds : ℕ) (s : DhtStore) → IsCounted s → IsCounted (evict rounds s).0
unfolding evict
evict-IsCounted zero s h = h
evict-IsCounted (suc rounds) s h = elim (Round-cases (evict_round s)) [
  | inl ended ↦ rw (evict, ended) h
  | inr (inl loops) ↦ rw (evict, loops) h
  | inr (inr (s', told, e)) ↦
      let left : IsCounted s' = subst (Leaves IsCounted) e (evict_round-IsCounted s h) in
      rw (evict, e) (evict-IsCounted rounds s' left)
]

pub expire_store-IsCounted :
    (rounds : ℕ) (now : TimePoint) (s : DhtStore)
    → IsCounted s
    → IsCounted (expire_store rounds now s).0
unfolding expire_store
expire_store-IsCounted rounds now s h =
    let s1 : DhtStore = (expire_each now s.stores s).0 in
    let h2 = evict-IsCounted rounds s1 (expire_each-IsCounted now s.stores s h) in
    elim (Bool-cases (evict rounds s1).2) [
      | inl ended ↦ rw (expire_store, ended) (restate (evict rounds s1).0 _ refl refl refl h2)
      | inr runs ↦ rw (expire_store, runs) h2
    ]

pub take_back-IsCounted :
    (key : Hash) (vid : ℕ) (s : DhtStore) → IsCounted s → IsCounted (take_back key vid s).0
unfolding take_back
take_back-IsCounted key vid s h = elim (Option-cases (find_store key s.stores)) [
  | inl absent ↦ rw (absent, take_back) h
  | inr (st, e) ↦ elim (Option-cases (remove key vid st s.shared).2) [
    | inl gone ↦
        let same = remove_idle key vid st s.shared gone in
        rw (take_back, e)
          (rw gone (
            rewritten key s st (remove key vid st s.shared).0 (remove key vid st s.shared).1 e
              (ap bytes same) (ap amount same) (remove-IsMeasured key vid st s.shared) h))
    | inr (v, found) ↦ rw (take_back, e) (rw found (removed-IsCounted key vid st s v e found h))
  ]
]
