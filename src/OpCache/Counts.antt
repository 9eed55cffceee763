-- ===== src/OpCache/Counts.antt =====
-- The reference counts: how often a value was announced, less how often it has expired.
use opendht.Prelude.{
  ℕ, suc, ◌+◌, ◌-◌, ◌%◌, ◌≤◌, ◌<◌, ◌≡◌, sym, refl, subst, Bool, true, false, List, [], ◌∷◌, Option,
  none, some, arith, ltb, ◌==◌, if◌then◌else◌, inl, inr, Bool-cases, All, ◌⊎◌,
}
use opendht.Prelude.Map.{Map, find-emplace, find-update, find-erase}
use opendht.Prelude.Map
use opendht.Time.{TimePoint}
use opendht.Value.{Value}
use opendht.Value
use opendht.OpCache.{
  OpCacheValueStorage, OpValueCache, unsigned_mod, merge, drop_ref, on_values_added, on_ids_expired,
  on_values_expired, on_value, ids_of,
}
use opendht.OpCache.Entries.{
  announce_one, expire_one, announce_many, expire_many, find-added_loop, find-expired_loop,
}

-- How many of the values have an id.
abbrev pub count_id : ℕ → List Value → ℕ
count_id k [] = 0
count_id k (v ∷ vs) = if v.id == k then suc (count_id k vs) else count_id k vs

-- A call of onValue: when, of which values, and whether they are expired.
abbrev pub Calls : Type 0
Calls = List (TimePoint × List Value × Bool)

-- The cache after the calls.
unfoldable pub receive : (List Value → Bool → Bool) → Calls → OpValueCache → OpValueCache
unfolding on_value
receive callback [] c = c
receive callback ((t, vals, expired) ∷ cs) c =
    receive callback cs (on_value callback vals expired t c).0

-- The count of an id: announcements add to it, expirations take from it while it is not 0.
unfoldable pub tally : ℕ → Calls → ℕ → ℕ
tally k [] n = n
tally k ((t, vals, expired) ∷ cs) n =
    tally k cs (if expired then n - count_id k vals else n + count_id k vals)

abbrev pub announced : ℕ → Calls → ℕ
announced k [] = 0
announced k ((t, vals, expired) ∷ cs) = (if expired then 0 else count_id k vals) + announced k cs

-- The calls come in the order of their times, from t on; and the time of the last one.
abbrev pub Rises : TimePoint → Calls → Type 0
Rises t [] = Unit
Rises t ((u, vals, expired) ∷ cs) = (t ≤ u) × Rises u cs

abbrev pub last_time : TimePoint → Calls → TimePoint
last_time t [] = t
last_time t ((u, vals, expired) ∷ cs) = last_time u cs

module _ (k : ℕ) (Same : Value → Type 0)
    (alike : (v w : Value) → Same v → Same w → Value.equal v w ≡ true) where
  -- The entry of the id, by its count: there is none if that is 0; else it has one of the values, with this
  -- count, and was not updated after t.
  abbrev pub Tallied : ℕ → TimePoint → Option OpCacheValueStorage → Type 0
  Tallied n t o =
      ((n ≡ 0) × (o ≡ none))
      ⊎ ((c : OpCacheValueStorage) × (o ≡ some c)
          × Same c.stored
          × (c.ref_count ≡ n)
          × (0 < n)
          × (c.updated ≤ t))

  -- All values that are announced under the id are the same.
  abbrev pub Agree : List Value → Type 0
  Agree vs = All (λ v. v.id == k ≡ true → Same v) vs

  abbrev pub AllAgree : Calls → Type 0
  AllAgree [] = Unit
  AllAgree ((t, vals, true) ∷ cs) = AllAgree cs
  AllAgree ((t, vals, false) ∷ cs) = Agree vals × AllAgree cs

  Tallied-later :
      (n : ℕ) (t u : TimePoint) (o : Option OpCacheValueStorage)
      → t ≤ u
      → Tallied n t o
      → Tallied n u o
  Tallied-later n t u o le (inl h) = inl h
  Tallied-later n t u o le (inr (c, e, s, r, pos, at)) =
      inr (c, e, s, r, pos, omega (arith, at, le))

  announce_one-Tallied :
      (n : ℕ) (t : TimePoint) (v : Value) (o : Option OpCacheValueStorage)
      → Same v
      → n + 1 < unsigned_mod
      → Tallied n t o
      → Tallied (n + 1) t (announce_one t v o)
  unfolding merge
  announce_one-Tallied n t v o s p (inl (zero_count, e)) =
      rw e (inr (_, refl, s, omega (arith, zero_count), omega arith, omega arith))
  announce_one-Tallied n t v o s p (inr (c, e, s', r, pos, at)) =
      let same : Value.equal c.stored v ≡ true = alike c.stored v s' s in
      rw e (
        inr (
          record c { ref_count = (c.ref_count + 1) % unsigned_mod; updated = t },
          rw (same, merge) refl,
          s',
          omega (arith, r, p),
          omega arith,
          omega arith,
        ))

  expire_one-Tallied :
      (n : ℕ) (t : TimePoint) (o : Option OpCacheValueStorage)
      → n < unsigned_mod
      → Tallied n t o
      → Tallied (n - 1) t (expire_one t o)
  expire_one-Tallied n t o p (inl (zero_count, e)) = rw e (inl (omega (arith, zero_count), refl))
  expire_one-Tallied n t o p (inr (c, e, s, r, pos, at)) =
      let due : ltb t c.updated ≡ false = ground (arith, at) in
      let left : (drop_ref t c).ref_count ≡ n - 1 = omega (arith, r, p, pos) in
      elim (Bool-cases ((drop_ref t c).ref_count == 0)) [
        | inl last ↦ inl (ground (arith, left, last), rw e (rw due (rw last refl)))
        | inr more ↦ inr (
          drop_ref t c,
          rw e (rw due (rw more refl)),
          s,
          left,
          ground (arith, left, more),
          omega arith,
        )
      ]

  announce_many-Tallied :
      (n : ℕ) (t : TimePoint) (vs : List Value) (o : Option OpCacheValueStorage)
      → Agree vs
      → n + count_id k vs < unsigned_mod
      → Tallied n t o
      → Tallied (n + count_id k vs) t (announce_many k t vs o)
  unfolding announce_many
  announce_many-Tallied n t [] o agree p h = subst (λ i. Tallied i t o) (omega arith) h
  announce_many-Tallied n t (v ∷ vs) o agree p h = elim (Bool-cases (v.id == k)) [
    | inl hit ↦
        let fits : (n + 1) + count_id k vs < unsigned_mod = ground (arith, p, hit) in
        let more : (n + 1) + count_id k vs ≡ n + suc (count_id k vs) = omega arith in
        rw hit (
          subst (λ i. Tallied i t (announce_many k t vs (announce_one t v o))) more
            (announce_many-Tallied (n + 1) t vs (announce_one t v o) agree.1 fits
              (announce_one-Tallied n t v o (agree.0 hit) (omega (arith, fits)) h)))
    | inr miss ↦ rw miss (announce_many-Tallied n t vs o agree.1 (ground (arith, p, miss)) h)
  ]

  expire_many-Tallied :
      (n : ℕ) (t : TimePoint) (vs : List Value) (o : Option OpCacheValueStorage)
      → n < unsigned_mod
      → Tallied n t o
      → Tallied (n - count_id k vs) t (expire_many k t (ids_of vs) o)
  unfolding expire_many
  expire_many-Tallied n t [] o p h = subst (λ i. Tallied i t o) (omega arith) h
  expire_many-Tallied n t (v ∷ vs) o p h = elim (Bool-cases (v.id == k)) [
    | inl hit ↦
        let fewer : (n - 1) - count_id k vs ≡ n - suc (count_id k vs) = omega arith in
        rw (expire_many, hit)
          (subst (λ i. Tallied i t (expire_many k t (ids_of vs) (expire_one t o))) fewer
            (expire_many-Tallied (n - 1) t vs (expire_one t o) (omega (arith, p))
              (expire_one-Tallied n t o p h)))
    | inr miss ↦ rw (expire_many, miss) (expire_many-Tallied n t vs o p h)
  ]

  -- If the values that are announced under an id are all equal, the calls of `onValue` come in the order of
  -- their times, and the count of the id stays below 2 ^ 32 whatever expires, then the cache keeps the count:
  -- after any sequence of calls, an announcement adding to the count and an expiration taking from it
  -- while it is not 0, the cache has no entry for the id if the count is 0, and else has one, with such a
  -- value and with this count.
  pub receive-Tallied :
      (callback : List Value → Bool → Bool) (cs : Calls) (c : OpValueCache) (n : ℕ) (t : TimePoint)
      → AllAgree cs
      → Rises t cs
      → n + announced k cs < unsigned_mod
      → Tallied n t (Map.find k c.values)
      → Tallied (tally k cs n) (last_time t cs) (Map.find k (receive callback cs c).values)
  unfolding receive tally on_value on_values_added on_values_expired on_ids_expired
  receive-Tallied callback [] c n t agree rises p h = h
  receive-Tallied callback ((u, vals, true) ∷ cs) c n t agree rises p h =
      receive-Tallied callback cs (on_value callback vals true u c).0 (n - count_id k vals) u agree
        rises.1 (omega (arith, p))
        (subst (Tallied (n - count_id k vals) u)
          (sym (find-expired_loop k u (ids_of vals) c.values))
          (expire_many-Tallied n u vals (Map.find k c.values) (omega (arith, p))
            (Tallied-later n t u (Map.find k c.values) rises.0 h)))
  receive-Tallied callback ((u, vals, false) ∷ cs) c n t agree rises p h =
      receive-Tallied callback cs (on_value callback vals false u c).0 (n + count_id k vals) u
        agree.1 rises.1 (omega (arith, p))
        (subst (Tallied (n + count_id k vals) u) (sym (find-added_loop k u vals c.values)) (
          announce_many-Tallied n u vals (Map.find k c.values) agree.0 (omega (arith, p))
            (Tallied-later n t u (Map.find k c.values) rises.0 h)))
