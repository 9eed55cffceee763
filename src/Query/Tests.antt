-- ===== src/Query/Tests.antt =====
-- Queries of a value with an owner.
use opendht.Prelude.{ℕ, ◌≡◌, refl, true, false, [], ◌∷◌, some}
use opendht.Hash.{Hash}
use opendht.Value.{Value}
use opendht.Filter.{passes}
use opendht.Query.{id, seq_num, owner_pk, FieldValue, Query, get_filter, satisfied}
use opendht.Query.Satisfied.{satisfied-passes}

abbrev key_hash : ℕ → Hash
key_hash k = k ∷ 1 ∷ []

abbrev owned : Value
owned = record {
  ref = 1;
  id = 7;
  owner = some 5;
  type = 0;
  body = [];
  user_type = [];
  seq = 3;
  signature = [];
  cypher = [];
  push_type = [];
}

abbrev by_owner : FieldValue
by_owner = record { field = owner_pk; int_value = 0; hash_value = 5 ∷ 1 ∷ []; blob_value = [] }

abbrev by_seq : FieldValue
by_seq = record { field = seq_num; int_value = 3; hash_value = 0 ∷ 0 ∷ []; blob_value = [] }

abbrev narrow : Query
narrow = record { selection = id ∷ []; restriction = by_owner ∷ by_seq ∷ []; any = false }

abbrev wide : Query
wide = record { selection = seq_num ∷ id ∷ []; restriction = by_seq ∷ []; any = false }

narrow-satisfied : satisfied narrow wide ≡ true
unfolding satisfied
narrow-satisfied = refl

wide-satisfied : satisfied wide narrow ≡ false
unfolding satisfied
wide-satisfied = refl

satisfied-passes_example : passes (get_filter key_hash wide.restriction) owned ≡ true
unfolding satisfied get_filter passes
satisfied-passes_example =
    satisfied-passes key_hash 2 narrow wide owned (refl, (refl, tt)) (refl, tt) refl refl refl
