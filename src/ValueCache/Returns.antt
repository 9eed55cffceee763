-- ===== src/ValueCache/Returns.antt =====
-- How many values stand in the cache, and that onValues returns.
use opendht.Prelude.{
  ℕ, suc, ◌+◌, ◌<◌, ◌≤◌, ◌≡◌, sym, subst, List, [], ◌∷◌, ◌++◌, some, inl, inr, arith, ltb, ◌==◌,
  Bool-cases, Option-cases, length,
}
use opendht.Prelude.Map.{Map, length-erase-le}
use opendht.Prelude.Map
use opendht.Time.{TimePoint, time_max}
use opendht.Value.{Value, TypeStore}
use opendht.ValueCache.Cached.{entry_of, add_loop-none, add_loop-some}
use opendht.ValueCache.View.{expire_value-none, expire_value-some}
use opendht.ValueCache.{
  CacheValueStorage, ValueCache, Event, max_values, values_expired, call_if, sweep, touch, add_loop,
  add_values, refresh_value, refresh_all, expire_value, expire_all, on_values, expire_values,
}
use opendht.ValueCache.Bound.{Dated, Dated-erase, Dated-sweep, shrink_enough}

-- What bounds the rounds: a cache of at most n values with dates.
abbrev Sized : ℕ → Map CacheValueStorage → Type 0
Sized n m = Dated m × (length m ≤ n)

insert-Sized :
    (n k : ℕ) (c : CacheValueStorage) (m : Map CacheValueStorage)
    → c.created < time_max
    → Sized n m
    → Sized (suc n) (Map.insert k c m)
unfolding Map.insert
insert-Sized n k c [] p h = ((p, tt), omega arith)
insert-Sized n k c ((j, d) ∷ m) p h = elim (Bool-cases (ltb k j)) [
  | inl before ↦ rw before ((p, h.0), omega (arith, h.1))
  | inr behind ↦
      let rest = insert-Sized (length m) k c m p (h.0.1, omega arith) in
      rw behind ((h.0.0, rest.0), omega (arith, rest.1, h.1))
]

update-Sized :
    (types : TypeStore) (now : TimePoint) (n k : ℕ) (m : Map CacheValueStorage)
    → now < time_max
    → Sized n m
    → Sized n (Map.update k (touch types now) m)
unfolding Map.update touch
update-Sized types now n k [] p h = h
update-Sized types now n k ((j, d) ∷ m) p h = elim (Bool-cases (j == k)) [
  | inl same ↦ rw same ((p, h.0.1), omega (arith, h.1))
  | inr other ↦
      let rest = update-Sized types now (length m) k m p (h.0.1, omega arith) in
      rw other ((h.0.0, rest.0), omega (arith, rest.1, h.1))
]

add_loop-Sized :
    (types : TypeStore) (now : TimePoint) (vs : List Value) (n : ℕ) (m : Map CacheValueStorage)
    → now < time_max
    → Sized n m
    → Sized (n + length vs) (add_loop types now vs m).0
unfolding add_loop
add_loop-Sized types now [] n m p h = (h.0, omega (arith, h.1))
add_loop-Sized types now (v ∷ vs) n m p h = elim (Option-cases (Map.find v.id m)) [
  | inl absent ↦
      let entry : CacheValueStorage = entry_of types now v in
      let ih =
        add_loop-Sized types now vs (suc n) (Map.insert v.id entry m) p
          (insert-Sized n v.id entry m p h) in
      subst (Sized (n + suc (length vs))) (sym (add_loop-none types now v vs m absent))
        (ih.0, omega (arith, ih.1))
  | inr (c, there) ↦
      let ih =
        add_loop-Sized types now vs n (Map.update v.id (touch types now) m) p
          (update-Sized types now n v.id m p h) in
      subst (Sized (n + suc (length vs))) (sym (add_loop-some types now v vs m c there))
        (ih.0, omega (arith, ih.1))
]

refresh_all-Sized :
    (vids : List ℕ) (types : TypeStore) (now : TimePoint) (n : ℕ) (c : ValueCache)
    → now < time_max
    → Sized n c.values
    → Sized n (refresh_all vids types now c).values
unfolding refresh_all refresh_value
refresh_all-Sized [] types now n c p h = h
refresh_all-Sized (vid ∷ vids) types now n c p h =
    refresh_all-Sized vids types now n (refresh_value vid types now c) p
      (update-Sized types now n vid c.values p h)

expire_value-Sized :
    (vid n : ℕ) (c : ValueCache) → Sized n c.values → Sized n (expire_value vid c).0.values
expire_value-Sized vid n c h = elim (Option-cases (Map.find vid c.values)) [
  | inl absent ↦ subst (λ r. Sized n r.0.values) (sym (expire_value-none vid c absent)) h
  | inr (v, there) ↦
      subst (λ r. Sized n r.0.values) (sym (expire_value-some vid c v there))
        (Dated-erase vid c.values h.0, omega (arith, h.1, length-erase-le vid c.values))
]

expire_all-Sized :
    (vids : List ℕ) (n : ℕ) (c : ValueCache)
    → Sized n c.values
    → Sized n (expire_all vids c).0.values
unfolding expire_all
expire_all-Sized [] n c h = h
expire_all-Sized (vid ∷ vids) n c h =
    expire_all-Sized vids n (expire_value vid c).0 (expire_value-Sized vid n c h)

-- `onValues` returns, with as many rounds as there are values in the cache and new values together, and
-- leaves 4096 values at most, if the time of the call and those of the values in the cache are before
-- `time_point::max()`.
pub on_values-returns :
    (new_values : List Value) (refreshed expired : List ℕ) (types : TypeStore) (now : TimePoint)
    (c : ValueCache)
    → now < time_max
    → Dated c.values
    → (after : ValueCache) × (calls : List Event) × (next : TimePoint) × (on_values
          (length c.values + length new_values)
          new_values
          refreshed
          expired
          types
          now
          c
        ≡ some (after, calls, next))
      × (length after.values ≤ max_values)
unfolding on_values expire_values add_values
on_values-returns new_values refreshed expired types now c p h =
    let fuel : ℕ = length c.values + length new_values in
    let c1 : ValueCache = (add_values new_values types now c).0 in
    let c2 : ValueCache = refresh_all refreshed types now c1 in
    let c3 : ValueCache = (expire_all expired c2).0 in
    let s1 = add_loop-Sized types now new_values (length c.values) c.values p (h, omega arith) in
    let s3 =
      expire_all-Sized expired fuel c2 (refresh_all-Sized refreshed types now fuel c1 p s1) in
    let (dated, shorter) = Dated-sweep now c3.values time_max s3.0 in
    let (m, more, e, small) =
      shrink_enough fuel (sweep now c3.values time_max).0 dated (omega (arith, shorter, s3.1)) in
    (
      record c3 { values = m },
      (add_values new_values types now c).1
          ++ ((expire_all expired c2).1
              ++ call_if c3.callback values_expired ((sweep now c3.values time_max).1 ++ more)),
      (sweep now c3.values time_max).2,
      ground (arith, e),
      small,
    )
