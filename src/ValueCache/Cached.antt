-- ===== src/ValueCache/Cached.antt =====
-- Which ids the operations of the cache take in and drop.
use opendht.Prelude.{
  ℕ, suc, ◌+◌, ◌<◌, ◌≤◌, ◌≡◌, refl, sym, subst, min, Bool, true, false, not, ◌&&◌, ◌||◌, List, [],
  ◌∷◌, none, some, inl, inr, arith, ltb, leb, ◌==◌, Bool-cases, Option-cases,
}
use opendht.Prelude.Map.{Map, find-erase, find-emplace, find-update}
use opendht.Prelude.Map
use opendht.Time.{TimePoint}
use opendht.Value.{Value, TypeStore, type_expiration}
use opendht.ValueCache.{CacheValueStorage, touch, add_loop, sweep}

abbrev pub has_id : ℕ → List Value → Bool
has_id k [] = false
has_id k (v ∷ vs) = v.id == k || has_id k vs

unfoldable pub cached : Map CacheValueStorage → ℕ → Bool
unfolding Map.find
cached m k = elim (Map.find k m) [ none ↦ false | some _ ↦ true ]

-- Keys ascend, from lo on, and each is the id of its value.
abbrev pub Keyed : ℕ → Map CacheValueStorage → Type 0
Keyed lo [] = Unit
Keyed lo ((k, c) ∷ m) = (lo ≤ k) × (c.stored.id ≡ k) × Keyed (suc k) m

pub Keyed-mono : (a b : ℕ) (m : Map CacheValueStorage) → b ≤ a → Keyed a m → Keyed b m
Keyed-mono a b [] h p = tt
Keyed-mono a b ((k, c) ∷ m) h p = (omega (arith, p.0), p.1, p.2)

pub cached_below : (lo k : ℕ) (m : Map CacheValueStorage) → Keyed lo m → k < lo → cached m k ≡ false
unfolding cached
cached_below lo k [] h p = refl
cached_below lo k ((j, c) ∷ m) h p = ground (arith, cached_below (suc j) k m, h)

pub cached-add_loop :
    (types : TypeStore) (now : TimePoint) (vs : List Value) (m : Map CacheValueStorage) (k : ℕ)
    → cached (add_loop types now vs m).0 k ≡ (cached m k || has_id k (add_loop types now vs m).1)
unfolding cached add_loop
cached-add_loop types now [] m k = ground arith
cached-add_loop types now (v ∷ vs) m k = elim (Option-cases (Map.find v.id m)) [
  | inl absent ↦
      let entry : CacheValueStorage = record {
        stored = v;
        created = now;
        expiration = now + type_expiration types v.type;
      } in
      ground (
        arith,
        absent,
        find-emplace v.id k entry m,
        cached-add_loop types now vs (Map.emplace v.id entry m) k,
      )
  | inr (c, there) ↦ ground (
    arith,
    there,
    find-update v.id k (touch types now) m,
    cached-add_loop types now vs (Map.update v.id (touch types now) m) k,
  )
]

pub stored_id :
    (lo k : ℕ) (m : Map CacheValueStorage) (c : CacheValueStorage)
    → Keyed lo m
    → Map.find k m ≡ some c
    → c.stored.id ≡ k
unfolding Map.find
stored_id lo k [] c h e = absurd cc
stored_id lo k ((j, d) ∷ m) c h e = ground (arith, stored_id (suc j) k m c h.2, h.1)

pub sweep-Keyed :
    (now : TimePoint) (m : Map CacheValueStorage) (next : TimePoint) (lo : ℕ)
    → Keyed lo m
    → Keyed lo (sweep now m next).0
unfolding sweep
sweep-Keyed now [] next lo h = tt
sweep-Keyed now ((k, c) ∷ m) next lo h = elim (Bool-cases (leb c.expiration now)) [
  | inl over ↦
      rw over (Keyed-mono (suc k) lo _ (omega (arith, h.0)) (sweep-Keyed now m next (suc k) h.2))
  | inr good ↦ rw good (h.0, h.1, sweep-Keyed now m (min next c.expiration) (suc k) h.2)
]

gone_below :
    (now : TimePoint) (m : Map CacheValueStorage) (next : TimePoint) (lo k : ℕ)
    → Keyed lo m
    → k < lo
    → has_id k (sweep now m next).1 ≡ false
unfolding sweep
gone_below now [] next lo k h p = refl
gone_below now ((j, c) ∷ m) next lo k h p = elim (Bool-cases (leb c.expiration now)) [
  | inl over ↦ rw over (ground (arith, gone_below now m next (suc j) k h.2, h.0, h.1, p))
  | inr good ↦
      rw good (gone_below now m (min next c.expiration) (suc j) k h.2 (omega (arith, h.0, p)))
]

pub cached-sweep :
    (now : TimePoint) (m : Map CacheValueStorage) (next : TimePoint) (lo k : ℕ)
    → Keyed lo m
    → cached (sweep now m next).0 k ≡ (cached m k && not (has_id k (sweep now m next).1))
unfolding cached sweep
cached-sweep now [] next lo k h = refl
cached-sweep now ((j, c) ∷ m) next lo k h = elim (Bool-cases (leb c.expiration now)) [
  | inl over ↦
      let below =
        cached_below (suc j) k (sweep now m next).0 (sweep-Keyed now m next (suc j) h.2) in
      rw over (ground (arith, cached-sweep now m next (suc j) k h.2, below, h.1))
  | inr good ↦
      let next' : TimePoint = min next c.expiration in
      let none_gone = gone_below now m next' (suc j) k h.2 in
      rw good (ground (arith, cached-sweep now m next' (suc j) k h.2, none_gone))
]

-- An entry is erased.
pub cached-erase :
    (lo j k : ℕ) (m : Map CacheValueStorage) (c : CacheValueStorage)
    → Keyed lo m
    → Map.find j m ≡ some c
    → cached (Map.erase j m) k ≡ (cached m k && not (has_id k (c.stored ∷ [])))
unfolding cached
cached-erase lo j k m c h e = ground (arith, find-erase j k m, stored_id lo j m c h e)

pub erase-Keyed : (lo k : ℕ) (m : Map CacheValueStorage) → Keyed lo m → Keyed lo (Map.erase k m)
unfolding Map.erase
erase-Keyed lo k [] h = tt
erase-Keyed lo k ((j, c) ∷ m) h =
    let rest = erase-Keyed (suc j) k m h.2 in
    elim (Bool-cases (j == k)) [
      | inl same ↦ rw same (Keyed-mono (suc j) lo _ (omega (arith, h.0)) rest)
      | inr other ↦ rw other (h.0, h.1, rest)
    ]

pub insert-Keyed :
    (lo : ℕ) (c : CacheValueStorage) (m : Map CacheValueStorage)
    → lo ≤ c.stored.id
    → Map.find c.stored.id m ≡ none
    → Keyed lo m
    → Keyed lo (Map.insert c.stored.id c m)
unfolding Map.find Map.insert
insert-Keyed lo c [] p e h = (p, refl, tt)
insert-Keyed lo c ((j, d) ∷ m) p e h = elim (Bool-cases (ltb c.stored.id j)) [
  | inl before ↦ rw before (p, refl, (ground (arith, before), h.1, h.2))
  | inr after ↦
      rw after
        (h.0, h.1, insert-Keyed (suc j) c m (ground (arith, after, e)) (ground (arith, e)) h.2)
]

pub update-Keyed :
    (types : TypeStore) (now : TimePoint) (lo k : ℕ) (m : Map CacheValueStorage)
    → Keyed lo m
    → Keyed lo (Map.update k (touch types now) m)
unfolding Map.update touch
update-Keyed types now lo k [] h = tt
update-Keyed types now lo k ((j, c) ∷ m) h = elim (Bool-cases (j == k)) [
  | inl same ↦ rw same h
  | inr other ↦ rw other (h.0, h.1, update-Keyed types now (suc j) k m h.2)
]

abbrev pub entry_of : TypeStore → TimePoint → Value → CacheValueStorage
entry_of types now v = record {
  stored = v;
  created = now;
  expiration = now + type_expiration types v.type;
}

pub add_loop-none :
    (types : TypeStore) (now : TimePoint) (v : Value) (vs : List Value) (m : Map CacheValueStorage)
    → Map.find v.id m ≡ none
    → (add_loop types now (v ∷ vs) m).0
      ≡ (add_loop types now vs (Map.insert v.id (entry_of types now v) m)).0
unfolding add_loop Map.emplace
add_loop-none types now v vs m e = ground (arith, e)

pub add_loop-some :
    (types : TypeStore) (now : TimePoint) (v : Value) (vs : List Value) (m : Map CacheValueStorage)
    (c : CacheValueStorage)
    → Map.find v.id m ≡ some c
    → (add_loop types now (v ∷ vs) m).0
      ≡ (add_loop types now vs (Map.update v.id (touch types now) m)).0
unfolding add_loop
add_loop-some types now v vs m c e = ground (arith, e)

pub add_loop-Keyed :
    (types : TypeStore) (now : TimePoint) (vs : List Value) (m : Map CacheValueStorage)
    → Keyed 0 m
    → Keyed 0 (add_loop types now vs m).0
unfolding add_loop
add_loop-Keyed types now [] m h = h
add_loop-Keyed types now (v ∷ vs) m h = elim (Option-cases (Map.find v.id m)) [
  | inl absent ↦ subst (Keyed 0) (sym (add_loop-none types now v vs m absent)) (
      add_loop-Keyed types now vs (Map.insert v.id (entry_of types now v) m)
        (insert-Keyed 0 (entry_of types now v) m (omega arith) absent h))
  | inr (c, there) ↦ subst (Keyed 0) (sym (add_loop-some types now v vs m c there)) (
      add_loop-Keyed types now vs (Map.update v.id (touch types now) m)
        (update-Keyed types now 0 v.id m h))
]

pub cached-update :
    (types : TypeStore) (now : TimePoint) (j k : ℕ) (m : Map CacheValueStorage)
    → cached (Map.update j (touch types now) m) k ≡ cached m k
unfolding cached
cached-update types now j k m = ground (arith, find-update j k (touch types now) m)
