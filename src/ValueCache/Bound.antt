-- ===== src/ValueCache/Bound.antt =====
-- The loops of expireValues, and how many values they leave.
use opendht.Prelude.{
  ℕ, zero, suc, ◌+◌, ◌<◌, ◌≤◌, ◌≡◌, min, refl, false, List, [], ◌∷◌, Option, none, some, inl, inr,
  arith, ltb, leb, ◌==◌, Bool-cases, Option-cases, leb→le, length, All,
}
use opendht.Prelude.Map.{Map, length-erase-le}
use opendht.Prelude.Map
use opendht.Time.{TimePoint, time_max}
use opendht.Value.{Value}
use opendht.ValueCache.{CacheValueStorage, max_values, sweep, oldest, shrink}

-- Every value was created before time_point::max().
abbrev pub Dated : Map CacheValueStorage → Type 0
Dated m = All (λ e. e.1.created < time_max) m

oldest-none :
    (m : Map CacheValueStorage) (t : TimePoint) (found : Option ℕ)
    → oldest m t found ≡ none
    → (found ≡ none) × All (λ e. t ≤ e.1.created) m
unfolding oldest
oldest-none [] t found e = (e, tt)
oldest-none ((k, c) ∷ m) t found e = elim (Bool-cases (ltb c.created t)) [
  | inl older ↦ absurd (ground (arith, oldest-none m c.created (some k)))
  | inr younger ↦
      let ih = oldest-none m t found (ground (arith, e, younger)) in
      (ih.0, (ground (arith, younger), ih.1))
]

oldest-some :
    (m : Map CacheValueStorage) (t : TimePoint) (found : Option ℕ) (k : ℕ)
    → oldest m t found ≡ some k
    → Map.find k m ≡ none
    → found ≡ some k
unfolding oldest Map.find
oldest-some [] t found k e h = e
oldest-some ((j, c) ∷ m) t found k e h =
    ground (arith, oldest-some m c.created (some j) k, oldest-some m t found k)

length-erase-lt :
    (k : ℕ) (m : Map CacheValueStorage) (c : CacheValueStorage)
    → Map.find k m ≡ some c
    → length (Map.erase k m) < length m
unfolding Map.find Map.erase
length-erase-lt k [] c e = absurd cc
length-erase-lt k ((j, d) ∷ m) c e = ground (arith, length-erase-lt k m c, length-erase-le k m)

pub Dated-erase : (k : ℕ) (m : Map CacheValueStorage) → Dated m → Dated (Map.erase k m)
unfolding Map.erase
Dated-erase k [] h = tt
Dated-erase k ((j, d) ∷ m) h = elim (Bool-cases (j == k)) [
  | inl same ↦ rw same (Dated-erase k m h.1)
  | inr other ↦ rw other (h.0, Dated-erase k m h.1)
]

pub Dated-sweep :
    (now : TimePoint) (m : Map CacheValueStorage) (next : TimePoint)
    → Dated m
    → Dated (sweep now m next).0 × (length (sweep now m next).0 ≤ length m)
unfolding sweep
Dated-sweep now [] next h = (tt, omega arith)
Dated-sweep now ((k, c) ∷ m) next h = elim (Bool-cases (leb c.expiration now)) [
  | inl over ↦ let ih = Dated-sweep now m next h.1 in rw over (ih.0, omega (arith, ih.1))
  | inr good ↦
      let ih = Dated-sweep now m (min next c.expiration) h.1 in
      rw good ((h.0, ih.0), omega (arith, ih.1))
]

pub shrink_enough :
    (fuel : ℕ) (m : Map CacheValueStorage)
    → Dated m
    → length m ≤ fuel + max_values
    → (m' : Map CacheValueStorage) × (gone : List Value) × (shrink fuel m ≡ some (m', gone))
      × (length m' ≤ max_values)
unfolding shrink
shrink_enough zero m h room = (m, [], ground (arith, room), omega (arith, room))
shrink_enough (suc fuel) m h room = elim (Bool-cases (leb (length m) max_values)) [
  | inl fits ↦ (m, [], rw fits refl, leb→le (length m) max_values fits)
  | inr over ↦ elim (Option-cases (oldest m time_max none)) [
    | inl gone ↦ absurd (late m h over (oldest-none m time_max none gone).1)
    | inr (k, found) ↦ elim (Option-cases (Map.find k m)) [
      | inl missing ↦ absurd (ground (arith, oldest-some m time_max none k found missing))
      | inr (c, there) ↦
          let smaller = length-erase-lt k m c there in
          let (m', rest, e, small) =
            shrink_enough fuel (Map.erase k m) (Dated-erase k m h) (omega (arith, smaller, room)) in
          (m', c.stored ∷ rest, rw (over, found, there, e) refl, small)
    ]
  ]
]
  where
    late :
        (m : Map CacheValueStorage)
        → Dated m
        → leb (length m) max_values ≡ false
        → All (λ e. time_max ≤ e.1.created) m
        → ⊥
    late [] h over l = ground arith
    late (e ∷ m) h over l = omega (arith, h.0, l.0)
