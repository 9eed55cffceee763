-- ===== src/ValueCache/View.antt =====
-- A listener that adds and drops what the events tell it knows of exactly the values in the cache.
use opendht.Prelude.{
  ℕ, ◌≡◌, refl, sym, ap, subst, ◌∙◌, Bool, true, not, ◌&&◌, ◌||◌, List, [], ◌∷◌, ◌++◌, none, some,
  inl, inr, arith, Option-cases,
}
use opendht.Prelude.Map.{Map}
use opendht.Prelude.Map
use opendht.Time.{TimePoint, time_max}
use opendht.Value.{Value, TypeStore}
use opendht.ValueCache.{
  CacheValueStorage, ValueCache, Event, values_added, values_expired, status_changed, call_if,
  touch, add_values, expire_value, refresh_value, expire_all, refresh_all, add_loop, sweep, shrink,
  expire_values, on_values,
}
use opendht.ValueCache.Cached.{
  has_id, cached, cached-update, Keyed, cached-sweep, cached-erase, cached-add_loop, erase-Keyed,
  sweep-Keyed, add_loop-Keyed, update-Keyed,
}
use opendht.ValueCache.Shrink.{shrink-cached, shrink-Keyed}

-- What a listener knows after an event, and after a list of them.
unfoldable pub sees : Event → (ℕ → Bool) → ℕ → Bool
sees (values_added vs) view k = view k || has_id k vs
sees (values_expired vs) view k = view k && not (has_id k vs)
sees (status_changed s) view k = view k

unfoldable pub sees_all : List Event → (ℕ → Bool) → ℕ → Bool
unfolding sees
sees_all [] view = view
sees_all (e ∷ es) view = sees_all es (sees e view)

sees_all-append :
    (es fs : List Event) (view : ℕ → Bool)
    → sees_all (es ++ fs) view ≡ sees_all fs (sees_all es view)
unfolding sees_all
sees_all-append [] fs view = refl
sees_all-append (e ∷ es) fs view = sees_all-append es fs (sees e view)

-- A listener knows of exactly the values in the cache.
abbrev pub Knows : (ℕ → Bool) → ValueCache → Type 0
Knows view c = (k : ℕ) → view k ≡ cached c.values k

-- After an operation the cache still calls its callback, its keys are the ids, and who knew of the
-- values before and hears the calls knows of the values then.
abbrev Tells : List Event → ValueCache → ValueCache → Type 0
Tells calls c c' =
    (c'.callback ≡ true)
    × Keyed 0 c'.values
    × ((view : ℕ → Bool) → Knows view c → Knows (sees_all calls view) c')

Tells-trans :
    (a b : List Event) (c c' c'' : ValueCache)
    → Tells a c c'
    → Tells b c' c''
    → Tells (a ++ b) c c''
Tells-trans a b c c' c'' s t = (
  t.0,
  t.1,
  λ view h.
      subst (λ w. Knows w c'') (sym (sees_all-append a b view))
        (t.2 (sees_all a view) (s.2 view h)),
)

add_values-Tells :
    (vs : List Value) (types : TypeStore) (now : TimePoint) (c : ValueCache)
    → c.callback ≡ true
    → Keyed 0 c.values
    → Tells (add_values vs types now c).1 c (add_values vs types now c).0
unfolding add_values sees_all sees
add_values-Tells vs types now c on h = (
  on,
  add_loop-Keyed types now vs c.values h,
  λ view knows k.
      told (add_loop types now vs c.values).1 view k
      ∙ ap (λ b. b || has_id k (add_loop types now vs c.values).1) (knows k)
      ∙ sym (cached-add_loop types now vs c.values k),
)
  where
    told :
        (ns : List Value) (view : ℕ → Bool) (k : ℕ)
        → sees_all (call_if c.callback values_added ns) view k ≡ (view k || has_id k ns)
    told [] view k = ground arith
    told (n ∷ ns) view k = rw on refl

dropped :
    (callback : Bool) (gone : List Value) (view : ℕ → Bool) (k : ℕ)
    → callback ≡ true
    → sees_all (call_if callback values_expired gone) view k ≡ (view k && not (has_id k gone))
unfolding sees_all sees
dropped callback [] view k on = ground arith
dropped callback (n ∷ ns) view k on = rw on refl

pub expire_value-none :
    (vid : ℕ) (c : ValueCache) → Map.find vid c.values ≡ none → expire_value vid c ≡ (c, [])
unfolding expire_value
expire_value-none vid c e = rw (e, expire_value) refl

pub expire_value-some :
    (vid : ℕ) (c : ValueCache) (v : CacheValueStorage)
    → Map.find vid c.values ≡ some v
    → expire_value vid c ≡ (
      record c { values = Map.erase vid c.values },
      call_if c.callback values_expired (v.stored ∷ []),
    )
unfolding expire_value
expire_value-some vid c v e = rw (e, expire_value) refl

expire_value-Tells :
    (vid : ℕ) (c : ValueCache)
    → c.callback ≡ true
    → Keyed 0 c.values
    → Tells (expire_value vid c).1 c (expire_value vid c).0
unfolding sees_all
expire_value-Tells vid c on h = elim (Option-cases (Map.find vid c.values)) [
  | inl absent ↦
      subst (λ r. Tells r.1 c r.0) (sym (expire_value-none vid c absent))
        (on, h, λ view knows. knows)
  | inr (v, there) ↦
      subst (λ r. Tells r.1 c r.0) (sym (expire_value-some vid c v there))
        (
          on,
          erase-Keyed 0 vid c.values h,
          λ view knows k.
              dropped c.callback (v.stored ∷ []) view k on
              ∙ ap (λ b. b && not (has_id k (v.stored ∷ []))) (knows k)
              ∙ sym (cached-erase 0 vid k c.values v h there),
        )
]

expire_all-Tells :
    (vids : List ℕ) (c : ValueCache)
    → c.callback ≡ true
    → Keyed 0 c.values
    → Tells (expire_all vids c).1 c (expire_all vids c).0
unfolding expire_all sees_all
expire_all-Tells [] c on h = (on, h, λ view knows. knows)
expire_all-Tells (vid ∷ vids) c on h =
    let first = expire_value-Tells vid c on h in
    Tells-trans (expire_value vid c).1 (expire_all vids (expire_value vid c).0).1 c
      (expire_value vid c).0 (expire_all vids (expire_value vid c).0).0 first
      (expire_all-Tells vids (expire_value vid c).0 first.0 first.1)

refresh_all-Tells :
    (vids : List ℕ) (types : TypeStore) (now : TimePoint) (c : ValueCache)
    → c.callback ≡ true
    → Keyed 0 c.values
    → Tells [] c (refresh_all vids types now c)
unfolding refresh_all refresh_value sees_all
refresh_all-Tells [] types now c on h = (on, h, λ view knows. knows)
refresh_all-Tells (vid ∷ vids) types now c on h =
    let c' : ValueCache = refresh_value vid types now c in
    let kept = refresh_all-Tells vids types now c' on (update-Keyed types now 0 vid c.values h) in
    (kept.0, kept.1, λ view knows. kept.2 view (λ k. knows k ∙ sym (refreshed k)))
  where
    refreshed : (k : ℕ) → cached (Map.update vid (touch types now) c.values) k ≡ cached c.values k
    refreshed k = cached-update types now vid k c.values

has_id-append : (k : ℕ) (vs ws : List Value) → has_id k (vs ++ ws) ≡ (has_id k vs || has_id k ws)
has_id-append k [] ws = refl
has_id-append k (v ∷ vs) ws = ground (arith, has_id-append k vs ws)

-- If `expireValues` returns with some fuel: the cache holds what the loops leave, and the calls tell of
-- what they take out.
expire_values-Tells :
    (fuel : ℕ) (now next : TimePoint) (c : ValueCache) (m : Map CacheValueStorage)
    (more : List Value)
    → c.callback ≡ true
    → Keyed 0 c.values
    → shrink fuel (sweep now c.values next).0 ≡ some (m, more)
    → Tells
        (call_if c.callback values_expired ((sweep now c.values next).1 ++ more))
        c
        (record c { values = m })
expire_values-Tells fuel now next c m more on h e =
    let swept = sweep-Keyed now c.values next 0 h in
    let gone : List Value = (sweep now c.values next).1 in
    (
      on,
      shrink-Keyed fuel (sweep now c.values next).0 m more swept e,
      λ view knows k.
          dropped c.callback (gone ++ more) view k on
          ∙ ground (
            arith,
            knows k,
            has_id-append k gone more,
            cached-sweep now c.values next 0 k h,
            shrink-cached fuel k (sweep now c.values next).0 m more swept e,
          ),
    )

-- If the callback is set, the keys of the cache are the ids of its values, and `onValues` returns with
-- its fuel, then a listener that knew of exactly the values in the cache, adds those that the calls add
-- and drops those that they expire, knows of exactly the values in the cache after it, and the keys are
-- the ids again.
pub on_values-Knows :
    (fuel : ℕ) (new_values : List Value) (refreshed expired : List ℕ) (types : TypeStore)
    (now : TimePoint) (c after : ValueCache) (calls : List Event) (next : TimePoint)
    (view : ℕ → Bool)
    → c.callback ≡ true
    → Keyed 0 c.values
    → Knows view c
    → on_values fuel new_values refreshed expired types now c ≡ some (after, calls, next)
    → Knows (sees_all calls view) after × Keyed 0 after.values
unfolding on_values expire_values sees_all
on_values-Knows fuel new_values refreshed expired types now c after calls next view on h knows e =
    let c1 : ValueCache = (add_values new_values types now c).0 in
    let c2 : ValueCache = refresh_all refreshed types now c1 in
    let c3 : ValueCache = (expire_all expired c2).0 in
    let s1 = add_values-Tells new_values types now c on h in
    let s2 = refresh_all-Tells refreshed types now c1 s1.0 s1.1 in
    let s3 = expire_all-Tells expired c2 s2.0 s2.1 in
    elim (Option-cases (shrink fuel (sweep now c3.values time_max).0)) [
      | inl out ↦ absurd (ground (arith, out, e))
      | inr (r, shrunk) ↦
          let s4 = expire_values-Tells fuel now time_max c3 r.0 r.1 s3.0 s3.1 shrunk in
          let c4 : ValueCache = record c3 { values = r.0 } in
          let late : List Event =
            call_if c3.callback values_expired ((sweep now c3.values time_max).1 ++ r.1) in
          let dropping : List Event = (expire_all expired c2).1 in
          let adding : List Event = (add_values new_values types now c).1 in
          let same : after ≡ c4 = ground (arith, shrunk, e) in
          let heard : calls ≡ adding ++ (dropping ++ late) = ground (arith, shrunk, e) in
          let later =
            Tells-trans [] (dropping ++ late) c1 c2 c4 s2
              (Tells-trans dropping late c2 c3 c4 s3 s4) in
          let all = Tells-trans adding (dropping ++ late) c c1 c4 s1 later in
          rw (same, heard) (all.2 view knows, all.1)
    ]
