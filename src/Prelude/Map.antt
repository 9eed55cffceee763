-- ===== src/Prelude/Map.antt =====
-- std::map with numbers for keys: an association list in the order of the keys. `emplace` keeps an
-- entry that is there, `assign` is `m[k] = v`, `update` writes through an iterator.
use opendht.Prelude.Tests.{◌==◌, ltb, if◌then◌else◌}
use opendht.Prelude.Lists.{length}
use Prim.Native.Nat.{ℕ, suc, ◌≤◌}
use mathlib.Core.Path.{◌≡◌, refl}
use mathlib.Core.List.{List, [], ◌∷◌}
use mathlib.Core.Option.{Option, none, some}
use native.Mathlib.Omega.{arith}

abbrev pub Map {ℓ} : Type ℓ → Type ℓ
Map V = List (ℕ × V)

module _ {ℓ} {V : Type ℓ} where
  unfoldable pub find : ℕ → Map V → Option V
  find k [] = none
  find k ((j, v) ∷ m) = if j == k then some v else find k m

  unfoldable pub insert : ℕ → V → Map V → Map V
  insert k v [] = (k, v) ∷ []
  insert k v ((j, w) ∷ m) = if ltb k j then (k, v) ∷ (j, w) ∷ m else (j, w) ∷ insert k v m

  unfoldable pub erase : ℕ → Map V → Map V
  erase k [] = []
  erase k ((j, v) ∷ m) = let rest = erase k m in if j == k then rest else (j, v) ∷ rest

  unfoldable pub emplace : ℕ → V → Map V → Map V
  unfolding find insert
  emplace k v m = elim (find k m) [ none ↦ insert k v m | some _ ↦ m ]

  unfoldable pub assign : ℕ → V → Map V → Map V
  unfolding insert erase
  assign k v m = insert k v (erase k m)

  unfoldable pub update : ℕ → (V → V) → Map V → Map V
  update k f [] = []
  update k f ((j, v) ∷ m) = if j == k then (j, f v) ∷ m else (j, v) ∷ update k f m

  abbrev pub or_else : Option V → V → V
  or_else none v = v
  or_else (some w) v = w

  abbrev pub map_some {κ} : {W : Type κ} → (V → W) → Option V → Option W
  map_some f none = none
  map_some f (some v) = some (f v)

  pub find-insert :
      (k j : ℕ) (v : V) (m : Map V)
      → find k m ≡ none
      → find j (insert k v m) ≡ (if k == j then some v else find j m)
  unfolding find insert
  find-insert k j v [] h = refl
  find-insert k j v ((i, w) ∷ m) h = ground (arith, find-insert k j v m)

  pub find-erase : (k j : ℕ) (m : Map V) → find j (erase k m) ≡ (if k == j then none else find j m)
  unfolding find erase
  find-erase k j [] = ground arith
  find-erase k j ((i, w) ∷ m) = ground (arith, find-erase k j m)

  pub find-emplace :
      (k j : ℕ) (v : V) (m : Map V)
      → find j (emplace k v m) ≡ (if k == j then some (or_else (find k m) v) else find j m)
  unfolding emplace
  find-emplace k j v m = ground (arith, find-insert k j v m)

  pub find-assign :
      (k j : ℕ) (v : V) (m : Map V) → find j (assign k v m) ≡ (if k == j then some v else find j m)
  unfolding assign
  find-assign k j v m =
      ground (arith, find-insert k j v (erase k m), find-erase k k m, find-erase k j m)

  pub find-update :
      (k j : ℕ) (f : V → V) (m : Map V)
      → find j (update k f m) ≡ (if k == j then map_some f (find j m) else find j m)
  unfolding find update
  find-update k j f [] = ground arith
  find-update k j f ((i, w) ∷ m) = ground (arith, find-update k j f m)

  pub ruleset map_laws = (find-erase, find-emplace, find-assign, find-update)

  -- Keys ascend, from `lo` on.
  abbrev pub From : ℕ → Map V → Type 0
  From lo [] = Unit
  From lo ((k, v) ∷ m) = (lo ≤ k) × From (suc k) m

  abbrev pub IsMap : Map V → Type 0
  IsMap m = From 0 m

  pub From-mono : (a b : ℕ) (m : Map V) → b ≤ a → From a m → From b m
  From-mono a b [] h p = tt
  From-mono a b ((k, v) ∷ m) h p = (omega arith, p.1)

  pub From-insert :
      (lo k : ℕ) (v : V) (m : Map V) → lo ≤ k → find k m ≡ none → From lo m → From lo (insert k v m)
  unfolding insert find
  From-insert lo k v [] h e p = (h, tt)
  From-insert lo k v ((j, w) ∷ m) h e p = ground (arith, From-insert (suc j) k v m)

  pub From-erase : (lo k : ℕ) (m : Map V) → From lo m → From lo (erase k m)
  unfolding erase
  From-erase lo k [] p = tt
  From-erase lo k ((j, w) ∷ m) p =
      ground (arith, From-erase (suc j) k m p.1, From-mono (suc j) lo (erase k m))

  pub length-erase-le : (k : ℕ) (m : Map V) → length (erase k m) ≤ length m
  unfolding erase
  length-erase-le k [] = omega arith
  length-erase-le k ((j, w) ∷ m) = ground (arith, length-erase-le k m)
