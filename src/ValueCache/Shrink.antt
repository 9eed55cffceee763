-- ===== src/ValueCache/Shrink.antt =====
-- The loop of expireValues that drops the oldest values: the ids that it takes out.
use opendht.Prelude.{
  ℕ, zero, suc, ◌≡◌, subst, not, ◌&&◌, List, none, some, inl, inr, arith, leb, Bool-cases,
  Option-cases, length,
}
use opendht.Prelude.Map.{Map}
use opendht.Prelude.Map
use opendht.Time.{time_max}
use opendht.Value.{Value}
use opendht.ValueCache.{CacheValueStorage, max_values, oldest, shrink}
use opendht.ValueCache.Cached.{has_id, cached, Keyed, cached-erase, erase-Keyed}

pub shrink-cached :
    (fuel k : ℕ) (m m' : Map CacheValueStorage) (gone : List Value)
    → Keyed 0 m
    → shrink fuel m ≡ some (m', gone)
    → cached m' k ≡ (cached m k && not (has_id k gone))
unfolding shrink
shrink-cached zero k m m' gone h e = ground (arith, e)
shrink-cached (suc fuel) k m m' gone h e = elim (Bool-cases (leb (length m) max_values)) [
  | inl fits ↦ ground (arith, fits, e)
  | inr over ↦ elim (Option-cases (oldest m time_max none)) [
    | inl nothing ↦ shrink-cached fuel k m m' gone h (ground (arith, over, nothing, e))
    | inr (j, found) ↦ elim (Option-cases (Map.find j m)) [
      | inl missing ↦ shrink-cached fuel k m m' gone h (ground (arith, over, found, missing, e))
      | inr (c, there) ↦ elim (Option-cases (shrink fuel (Map.erase j m))) [
        | inl out ↦ absurd (ground (arith, over, found, there, out, e))
        | inr (r, rest) ↦
            let ih = shrink-cached fuel k (Map.erase j m) r.0 r.1 (erase-Keyed 0 j m h) rest in
            ground (arith, over, found, there, rest, e, ih, cached-erase 0 j k m c h there)
      ]
    ]
  ]
]

pub shrink-Keyed :
    (fuel : ℕ) (m m' : Map CacheValueStorage) (gone : List Value)
    → Keyed 0 m
    → shrink fuel m ≡ some (m', gone)
    → Keyed 0 m'
unfolding shrink
shrink-Keyed zero m m' gone h e = let same : m ≡ m' = ground (arith, e) in subst (Keyed 0) same h
shrink-Keyed (suc fuel) m m' gone h e = elim (Bool-cases (leb (length m) max_values)) [
  | inl fits ↦ let same : m ≡ m' = ground (arith, fits, e) in subst (Keyed 0) same h
  | inr over ↦ elim (Option-cases (oldest m time_max none)) [
    | inl nothing ↦ shrink-Keyed fuel m m' gone h (ground (arith, over, nothing, e))
    | inr (j, found) ↦ elim (Option-cases (Map.find j m)) [
      | inl missing ↦ shrink-Keyed fuel m m' gone h (ground (arith, over, found, missing, e))
      | inr (c, there) ↦ elim (Option-cases (shrink fuel (Map.erase j m))) [
        | inl out ↦ absurd (ground (arith, over, found, there, out, e))
        | inr (r, rest) ↦
            let same : r.0 ≡ m' = ground (arith, over, found, there, rest, e) in
            subst (Keyed 0) same
              (shrink-Keyed fuel (Map.erase j m) r.0 r.1 (erase-Keyed 0 j m h) rest)
      ]
    ]
  ]
]
