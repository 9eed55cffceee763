-- ===== src/OpCache/Entries.antt =====
-- What the loops of `OpValueCache` do to the entry of one id.
use opendht.Prelude.{
  ℕ, ◌≡◌, ◌∙◌, sym, ap, refl, true, List, [], ◌∷◌, Option, none, some, arith, ltb, ◌==◌, ==_iff,
  if◌then◌else◌, inl, inr, Bool-cases, Option-cases,
}
use opendht.Prelude.Map.{Map, find-emplace, find-update, find-erase}
use opendht.Prelude.Map
use opendht.Time.{TimePoint}
use opendht.Value.{Value}
use opendht.OpCache.{OpCacheValueStorage, merge, added_loop, drop_ref, expired_loop}

-- What an announcement and an expiration make of the entry of their id.
abbrev pub announce_one :
    TimePoint → Value → Option OpCacheValueStorage → Option OpCacheValueStorage
announce_one t v none = some (record { stored = v; ref_count = 1; updated = t })
announce_one t v (some c) = some (merge t v c)

abbrev pub expire_one : TimePoint → Option OpCacheValueStorage → Option OpCacheValueStorage
expire_one t none = none
expire_one t (some c) =
    if ltb t c.updated
    then some c
    else if (drop_ref t c).ref_count == 0
    then none
    else some (drop_ref t c)

unfoldable pub announce_many :
    ℕ → TimePoint → List Value → Option OpCacheValueStorage → Option OpCacheValueStorage
announce_many k t [] o = o
announce_many k t (v ∷ vs) o = announce_many k t vs (if v.id == k then announce_one t v o else o)

unfoldable pub expire_many :
    ℕ → TimePoint → List ℕ → Option OpCacheValueStorage → Option OpCacheValueStorage
expire_many k t [] o = o
expire_many k t (vid ∷ vids) o = expire_many k t vids (if vid == k then expire_one t o else o)

find_same : (i k : ℕ) (m : Map OpCacheValueStorage) → i == k ≡ true → Map.find k m ≡ Map.find i m
find_same i k m h = ap (λ j. Map.find j m) (sym ((==_iff i k).0 h))

-- The loops change the entry of an id by the values with that id, and by nothing else.
pub find-added_loop :
    (k : ℕ) (t : TimePoint) (vs : List Value) (m : Map OpCacheValueStorage)
    → Map.find k (added_loop t vs m).0 ≡ announce_many k t vs (Map.find k m)
unfolding added_loop announce_many
find-added_loop k t [] m = refl
find-added_loop k t (v ∷ vs) m = elim (Option-cases (Map.find v.id m)) [
  | inl absent ↦
      let fresh : OpCacheValueStorage = record { stored = v; ref_count = 1; updated = t } in
      rw (absent, added_loop)
        (find-added_loop k t vs (Map.emplace v.id fresh m)
          ∙ ap (announce_many k t vs) (elim (Bool-cases (v.id == k)) [
            | inl hit ↦ ground (arith, find-emplace v.id k fresh m, absent, hit, find_same v.id k m)
            | inr miss ↦ ground (arith, find-emplace v.id k fresh m, miss)
          ]))
  | inr (c, there) ↦
      rw (there, added_loop)
        (find-added_loop k t vs (Map.update v.id (merge t v) m)
          ∙ ap (announce_many k t vs) (elim (Bool-cases (v.id == k)) [
            | inl hit ↦
                ground (arith, find-update v.id k (merge t v) m, there, hit, find_same v.id k m)
            | inr miss ↦ ground (arith, find-update v.id k (merge t v) m, miss)
          ]))
]

pub find-expired_loop :
    (k : ℕ) (t : TimePoint) (vids : List ℕ) (m : Map OpCacheValueStorage)
    → Map.find k (expired_loop t vids m).0 ≡ expire_many k t vids (Map.find k m)
unfolding expired_loop expire_many
find-expired_loop k t [] m = refl
find-expired_loop k t (i ∷ is) m = elim (Option-cases (Map.find i m)) [
  | inl absent ↦
      rw (absent, expired_loop)
        (find-expired_loop k t is m
          ∙ ap (expire_many k t is) (ground (arith, absent, find_same i k m)))
  | inr (c, there) ↦ elim (Bool-cases (ltb t c.updated)) [
    | inl later ↦
        rw (there, later, expired_loop)
          (find-expired_loop k t is m
            ∙ ap (expire_many k t is) (ground (arith, there, later, find_same i k m)))
    | inr due ↦ elim (Bool-cases ((drop_ref t c).ref_count == 0)) [
      | inl last ↦
          rw (there, due, last, expired_loop)
            (find-expired_loop k t is (Map.erase i m)
              ∙ ap (expire_many k t is)
                  (ground (arith, find-erase i k m, there, due, last, find_same i k m)))
      | inr more ↦
          rw (there, due, more, expired_loop)
            (find-expired_loop k t is (Map.update i (drop_ref t) m)
              ∙ ap (expire_many k t is) (
                  ground
                    (arith, find-update i k (drop_ref t) m, there, due, more, find_same i k m)))
    ]
  ]
]
