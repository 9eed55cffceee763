-- ===== src/ValueCache/Tests.antt =====
-- A cache with one value, and a second one that comes.
use opendht.Prelude.{ℕ, ◌≤◌, ◌≡◌, refl, true, false, List, [], ◌∷◌, none, some, ◌==◌, arith, length}
use opendht.Time.{TimePoint, seconds}
use opendht.Value.{Value}
use opendht.ValueCache.{
  ValueCache, Event, values_added, values_expired, unsynced, max_values, on_values,
}
use opendht.ValueCache.Cached.{Keyed, cached}
use opendht.ValueCache.View.{sees_all, Knows, on_values-Knows}
use opendht.ValueCache.Returns.{on_values-returns}

abbrev value : ℕ → Value
value k = record {
  ref = k;
  id = k;
  owner = none;
  type = 0;
  body = k ∷ [];
  user_type = [];
  seq = 0;
  signature = [];
  cypher = [];
  push_type = [];
}

abbrev one_value : ValueCache
one_value = record {
  values = (7, record { stored = value 7; created = seconds 1; expiration = seconds 9 }) ∷ [];
  callback = true;
  sync_callback = false;
  status = unsynced;
}

-- At ten seconds value 9 comes and value 7 is over.
abbrev with_nine : ValueCache
with_nine = record {
  values = (9, record { stored = value 9; created = seconds 10; expiration = seconds 610 }) ∷ [];
  callback = true;
  sync_callback = false;
  status = unsynced;
}

abbrev nine_calls : List Event
nine_calls = values_added (value 9 ∷ []) ∷ values_expired (value 7 ∷ []) ∷ []

nine_comes :
    on_values 2 (value 9 ∷ []) [] [] [] (seconds 10) one_value
    ≡ some (with_nine, nine_calls, seconds 610)
unfolding on_values
nine_comes = refl

on_values-Knows_example :
    Knows (sees_all nine_calls (λ k. k == 7)) with_nine × Keyed 0 with_nine.values
unfolding cached
on_values-Knows_example =
    on_values-Knows 2 (value 9 ∷ []) [] [] [] (seconds 10) one_value with_nine nine_calls
      (seconds 610) (λ k. k == 7) refl (omega arith, refl, tt) (λ k. ground arith) nine_comes

on_values-returns_example :
    (after : ValueCache) × (calls : List Event) × (next : TimePoint) × (on_values 2
        (value 9 ∷ [])
        (7 ∷ [])
        []
        []
        (seconds 10)
        one_value
      ≡ some (after, calls, next))
    × (length after.values ≤ max_values)
on_values-returns_example =
    on_values-returns (value 9 ∷ []) (7 ∷ []) [] [] (seconds 10) one_value (omega arith)
      (omega arith, tt)
