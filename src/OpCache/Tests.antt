-- ===== src/OpCache/Tests.antt =====
-- Values that two nodes announce.
use opendht.Prelude.{
  ℕ, ◌≡◌, ◌==◌, refl, true, false, [], ◌∷◌, Option, none, some, arith, inl, if◌then◌else◌,
}
use opendht.Prelude.Map
use opendht.Value.{Value, content_equals, equal_bytes, equal_owner}
use opendht.Value
use opendht.OpCache.{
  OpValueCache, merge, added_loop, expired_loop, on_values_added, on_ids_expired, on_values_expired,
  on_value,
}
use opendht.OpCache.Known.{IsKeyed, Knows, stored_at, hears_all, on_value-Knows}
use opendht.OpCache.Counts.{Calls, receive, tally, last_time, Tallied, receive-Tallied}

abbrev value : ℕ → Value
value k = record {
  ref = k;
  id = k;
  owner = none;
  type = 0;
  body = k ∷ [];
  user_type = [];
  seq = 0;
  signature = [];
  cypher = [];
  push_type = [];
}

abbrev one_value : OpValueCache
one_value = record {
  nodes = 1;
  synced_nodes = 0;
  values = (7, record { stored = value 7; ref_count = 1; updated = 0 }) ∷ [];
}

one_value-IsKeyed : IsKeyed one_value.values
unfolding Map.find
one_value-IsKeyed k c e = ground (arith, e)

-- What a listener knows that has heard of the value 7.
abbrev knows_seven : ℕ → Option Value
knows_seven k = if 7 == k then some (value 7) else none

on_value-Knows_example :
    IsKeyed (on_value (λ vs e. true) (value 7 ∷ value 9 ∷ []) true 5 one_value).0.values
    × Knows
        (hears_all
          (on_value (λ vs e. true) (value 7 ∷ value 9 ∷ []) true 5 one_value).1
          knows_seven)
        (on_value (λ vs e. true) (value 7 ∷ value 9 ∷ []) true 5 one_value).0.values
unfolding stored_at
on_value-Knows_example =
    on_value-Knows (λ vs e. true) (value 7 ∷ value 9 ∷ []) true 5 one_value knows_seven
      one_value-IsKeyed (λ k. ground arith)

-- Copies of the value 9.
abbrev NineCopy : Value → Type 0
NineCopy v = (r : ℕ) × (v ≡ record (value 9) { ref = r })

NineCopy-alike : (v w : Value) → NineCopy v → NineCopy w → Value.equal v w ≡ true
unfolding Value.equal content_equals equal_bytes equal_owner
NineCopy-alike v w (r, e) (q, f) = rw (e, f) refl

-- Two nodes announce the value 9, and that of one expires.
abbrev two_nodes : Calls
two_nodes =
    (3, value 9 ∷ [], false)
    ∷ (4, record (value 9) { ref = 2 } ∷ value 8 ∷ [], false)
    ∷ (6, value 9 ∷ [], true)
    ∷ []

receive-Tallied_example :
    Tallied 9 NineCopy NineCopy-alike
      (tally 9 two_nodes 0)
      (last_time 0 two_nodes)
      (Map.find 9 (receive (λ vs e. true) two_nodes one_value).values)
unfolding Map.find
receive-Tallied_example =
    receive-Tallied 9 NineCopy NineCopy-alike (λ vs e. true) two_nodes one_value 0 0
      (((λ h. (9, refl)), tt), (((λ h. (2, refl)), ((λ h. absurd (ground (arith, h))), tt)), tt))
      (omega arith, (omega arith, (omega arith, tt))) (omega arith) (inl (refl, refl))

tally_of_two_nodes : tally 9 two_nodes 0 ≡ 1
unfolding tally
tally_of_two_nodes = refl

-- One node announces the value 9, another one an edit of it, and the first one's expires: the entry
-- goes, although the second node's has not expired.
abbrev edited_nine : Value
edited_nine = record (value 9) { body = 10 ∷ []; seq = 1 }

abbrev edit_between : Calls
edit_between =
    (3, value 9 ∷ [], false) ∷ (4, edited_nine ∷ [], false) ∷ (6, value 9 ∷ [], true) ∷ []

edit_uncounted : Map.find 9 (receive (λ vs e. true) edit_between one_value).values ≡ none
unfolding receive on_value on_values_added on_values_expired on_ids_expired added_loop expired_loop
    merge Map.find Map.emplace Map.insert Map.update Map.erase Value.equal content_equals
    equal_bytes equal_owner
edit_uncounted = refl
