-- ===== src/OpCache/Known.antt =====
-- The callback of an OpValueCache hears of every value that comes into the cache, changes there or leaves
-- it.
use opendht.Prelude.{
  ℕ, ◌≡◌, ◌∙◌, sym, ap, refl, subst, Bool, true, false, List, [], ◌∷◌, Option, none, some, inl, inr,
  arith, ltb, ◌==◌, if◌then◌else◌, Bool-cases, Option-cases, ==_iff,
}
use opendht.Prelude.Map.{Map, find-emplace, find-update, find-erase}
use opendht.Prelude.Map
use opendht.Time.{TimePoint}
use opendht.Value.{Value}
use opendht.ValueCache.{Event, values_added, values_expired, status_changed}
use opendht.ValueCache.Cached.{has_id}
use opendht.OpCache.{
  OpCacheValueStorage, OpValueCache, is_edit, merge, added_loop, drop_ref, expired_loop, call,
  on_values_added, on_ids_expired, on_values_expired, on_value, ids_of,
}

-- The value that stands under an id.
unfoldable pub stored_at : Map OpCacheValueStorage → ℕ → Option Value
unfolding Map.find
stored_at m k = elim (Map.find k m) [ none ↦ none | some c ↦ some c.stored ]

-- Each entry stands under the id of its value.
abbrev pub IsKeyed : Map OpCacheValueStorage → Type 0
IsKeyed m = (k : ℕ) (c : OpCacheValueStorage) → Map.find k m ≡ some c → c.stored.id ≡ k

emplace-IsKeyed :
    (c : OpCacheValueStorage) (m : Map OpCacheValueStorage)
    → Map.find c.stored.id m ≡ none
    → IsKeyed m
    → IsKeyed (Map.emplace c.stored.id c m)
emplace-IsKeyed c m absent h k d e =
    ground (arith, find-emplace c.stored.id k c m, e, absent, h k d)

update-IsKeyed :
    (j : ℕ) (f : OpCacheValueStorage → OpCacheValueStorage) (m : Map OpCacheValueStorage)
    (c : OpCacheValueStorage)
    → Map.find j m ≡ some c
    → (f c).stored.id ≡ j
    → IsKeyed m
    → IsKeyed (Map.update j f m)
update-IsKeyed j f m c there same h k d e = elim (Bool-cases (j == k)) [
  | inl here ↦
      let same_key : j ≡ k = (==_iff j k).0 here in
      let there' : Map.find k m ≡ some c = subst (λ i. Map.find i m ≡ some c) same_key there in
      let entry : f c ≡ d = ground (arith, find-update j k f m, e, here, there') in
      ap (λ (x : OpCacheValueStorage). x.stored.id) (sym entry) ∙ same ∙ same_key
  | inr other ↦ h k d (ground (arith, find-update j k f m, e, other))
]

erase-IsKeyed : (j : ℕ) (m : Map OpCacheValueStorage) → IsKeyed m → IsKeyed (Map.erase j m)
erase-IsKeyed j m h k d e = h k d (ground (arith, find-erase j k m, e))

stored_at-emplace :
    (i k : ℕ) (c : OpCacheValueStorage) (m : Map OpCacheValueStorage)
    → Map.find i m ≡ none
    → stored_at (Map.emplace i c m) k ≡ (if i == k then some c.stored else stored_at m k)
unfolding stored_at
stored_at-emplace i k c m e = ground (arith, e, find-emplace i k c m)

find_same :
    (i k : ℕ) (m : Map OpCacheValueStorage) (c : OpCacheValueStorage)
    → Map.find i m ≡ some c
    → i == k ≡ true
    → Map.find k m ≡ some c
find_same i k m c e h = subst (λ j. Map.find j m ≡ some c) ((==_iff i k).0 h) e

-- An entry that is changed, and one of which the value stays.
stored_at-update :
    (i k : ℕ) (f : OpCacheValueStorage → OpCacheValueStorage) (m : Map OpCacheValueStorage)
    (c : OpCacheValueStorage)
    → Map.find i m ≡ some c
    → stored_at (Map.update i f m) k ≡ (if i == k then some (f c).stored else stored_at m k)
unfolding stored_at
stored_at-update i k f m c e = elim (Bool-cases (i == k)) [
  | inl hit ↦ ground (arith, find_same i k m c e hit, find-update i k f m, hit)
  | inr miss ↦ ground (arith, find-update i k f m, miss)
]

stored_at-kept :
    (i k : ℕ) (f : OpCacheValueStorage → OpCacheValueStorage) (m : Map OpCacheValueStorage)
    (c : OpCacheValueStorage)
    → Map.find i m ≡ some c
    → (f c).stored ≡ c.stored
    → stored_at (Map.update i f m) k ≡ stored_at m k
unfolding stored_at
stored_at-kept i k f m c e same = elim (Bool-cases (i == k)) [
  | inl hit ↦ ground (arith, find_same i k m c e hit, find-update i k f m, hit, same)
  | inr miss ↦ ground (arith, find-update i k f m, miss)
]

stored_at-erase :
    (i k : ℕ) (m : Map OpCacheValueStorage)
    → stored_at (Map.erase i m) k ≡ (if i == k then none else stored_at m k)
unfolding stored_at
stored_at-erase i k m = ground (arith, find-erase i k m)

merge-edit :
    (t : TimePoint) (v : Value) (c : OpCacheValueStorage)
    → (merge t v c).stored ≡ (if is_edit v c then v else c.stored)
unfolding merge is_edit
merge-edit t v c = ground arith

merge_id :
    (t : TimePoint) (v : Value) (c : OpCacheValueStorage)
    → c.stored.id ≡ v.id
    → (merge t v c).stored.id ≡ v.id
unfolding merge
merge_id t v c h = ground (arith, h)

-- What a listener knows of each id after it is told of values, after an event, and after all of them: a
-- value that it is told of takes the place of the one with its id.
unfoldable pub told : List Value → (ℕ → Option Value) → ℕ → Option Value
told [] view = view
told (v ∷ vs) view = told vs (λ k. if v.id == k then some v else view k)

unfoldable pub hears : Event → (ℕ → Option Value) → ℕ → Option Value
unfolding told
hears (values_added vs) view = told vs view
hears (values_expired vs) view = λ k. if has_id k vs then none else view k
hears (status_changed s) view = view

unfoldable pub hears_all : List Event → (ℕ → Option Value) → ℕ → Option Value
unfolding hears
hears_all [] view = view
hears_all (e ∷ es) view = hears_all es (hears e view)

-- A listener knows the values in the cache, and no others.
abbrev pub Knows : (ℕ → Option Value) → Map OpCacheValueStorage → Type 0
Knows view m = (k : ℕ) → view k ≡ stored_at m k

-- The loop of onValuesAdded: the keys stay ids, and who is told of the new values knows them.
Adds : TimePoint → List Value → Map OpCacheValueStorage → (ℕ → Option Value) → Type 0
Adds t vs m view =
    IsKeyed (added_loop t vs m).0 × Knows (told (added_loop t vs m).1 view) (added_loop t vs m).0

added_loop-Adds :
    (t : TimePoint) (vs : List Value) (m : Map OpCacheValueStorage) (view : ℕ → Option Value)
    → IsKeyed m
    → Knows view m
    → Adds t vs m view
unfolding Adds added_loop told
added_loop-Adds t [] m view h knows = (h, knows)
added_loop-Adds t (v ∷ vs) m view h knows = elim (Option-cases (Map.find v.id m)) [
  | inl absent ↦
      let fresh : OpCacheValueStorage = record { stored = v; ref_count = 1; updated = t } in
      rw (absent, added_loop)
        (added_loop-Adds t vs (Map.emplace v.id fresh m) (λ k. if v.id == k then some v else view k)
          (emplace-IsKeyed fresh m absent h)
          (λ k. ground (arith, knows k, stored_at-emplace v.id k fresh m absent)))
  | inr (c, there) ↦
      let keyed = update-IsKeyed v.id (merge t v) m c there (merge_id t v c (h v.id c there)) h in
      elim (Bool-cases (is_edit v c)) [
        | inl edit ↦
            rw (there, added_loop, edit)
              (added_loop-Adds t vs (Map.update v.id (merge t v) m)
                (λ k. if v.id == k then some v else view k) keyed
                (λ k. ground (
                  arith,
                  knows k,
                  edit,
                  merge-edit t v c,
                  stored_at-update v.id k (merge t v) m c there,
                )))
        | inr same ↦
            rw (there, added_loop, same)
              (added_loop-Adds t vs (Map.update v.id (merge t v) m) view keyed (λ k.
                knows k
                ∙ sym (
                    stored_at-kept v.id k (merge t v) m c there
                      (ground (arith, same, merge-edit t v c)))))
      ]
]

-- The loop of onValuesExpired: the keys stay ids, and the cache has lost what is expired.
Drops : TimePoint → List ℕ → Map OpCacheValueStorage → Type 0
Drops t vids m =
    IsKeyed (expired_loop t vids m).0
    × ((k : ℕ)
        → (if has_id k (expired_loop t vids m).1 then none else stored_at m k)
          ≡ stored_at (expired_loop t vids m).0 k)

expired_loop-Drops :
    (t : TimePoint) (vids : List ℕ) (m : Map OpCacheValueStorage) → IsKeyed m → Drops t vids m
unfolding Drops expired_loop
expired_loop-Drops t [] m h = (h, λ k. refl)
expired_loop-Drops t (vid ∷ vids) m h = elim (Option-cases (Map.find vid m)) [
  | inl absent ↦ rw (absent, expired_loop) (expired_loop-Drops t vids m h)
  | inr (c, there) ↦ elim (Bool-cases (ltb t c.updated)) [
    | inl later ↦ rw (there, later, expired_loop) (expired_loop-Drops t vids m h)
    | inr due ↦ elim (Bool-cases ((drop_ref t c).ref_count == 0)) [
      | inl last ↦
          let (keyed, ih) = expired_loop-Drops t vids (Map.erase vid m) (erase-IsKeyed vid m h) in
          rw (there, due, last, expired_loop)
            (keyed, λ k. ground (arith, ih k, stored_at-erase vid k m, h vid c there))
      | inr more ↦
          let (keyed, ih) =
            expired_loop-Drops t vids (Map.update vid (drop_ref t) m)
              (update-IsKeyed vid (drop_ref t) m c there (h vid c there) h) in
          rw (there, due, more, expired_loop)
            (keyed, λ k. ground (arith, ih k, stored_at-kept vid k (drop_ref t) m c there refl))
    ]
  ]
]

hears_all-call :
    (news : List Value) (view : ℕ → Option Value) (k : ℕ)
    → hears_all (call values_added news) view k ≡ told news view k
unfolding hears_all hears told
hears_all-call [] view k = refl
hears_all-call (v ∷ vs) view k = refl

hears_all-dropped :
    (gone : List Value) (view : ℕ → Option Value) (k : ℕ)
    → hears_all (call values_expired gone) view k ≡ (if has_id k gone then none else view k)
unfolding hears_all hears
hears_all-dropped [] view k = refl
hears_all-dropped (v ∷ vs) view k = refl

-- If each entry of the cache stands under the id of its value, this is so after `onValue` too, whether
-- values are announced or expire. A listener that knew under each id the value in the cache, if there
-- is one, and hears the calls of the callback, knows under each id the value that is in the cache then;
-- so it hears of each value that is new, that takes the place of an older one, or that leaves.
pub on_value-Knows :
    (callback : List Value → Bool → Bool) (vals : List Value) (expired : Bool) (t : TimePoint)
    (c : OpValueCache) (view : ℕ → Option Value)
    → IsKeyed c.values
    → Knows view c.values
    → IsKeyed (on_value callback vals expired t c).0.values
      × Knows
          (hears_all (on_value callback vals expired t c).1 view)
          (on_value callback vals expired t c).0.values
unfolding on_value on_values_added on_values_expired on_ids_expired Adds Drops
on_value-Knows callback vals true t c view h knows =
    let gone : List Value = (expired_loop t (ids_of vals) c.values).1 in
    let (keyed, drops) = expired_loop-Drops t (ids_of vals) c.values h in
    (
      keyed,
      λ k.
          hears_all-dropped gone view k
          ∙ ap (λ (o : Option Value). if has_id k gone then none else o) (knows k)
          ∙ drops k,
    )
on_value-Knows callback vals false t c view h knows =
    let (keyed, adds) = added_loop-Adds t vals c.values view h knows in
    (keyed, λ k. hears_all-call (added_loop t vals c.values).1 view k ∙ adds k)
