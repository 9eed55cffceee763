-- ===== src/Query.antt =====
-- include/opendht/value.h and src/value.cpp: the queries of values. `key_id` is
-- crypto::PublicKey::getId, the hash of a key.
pub mod Satisfied
pub mod Index
mod Tests
use opendht.Prelude.{
  ℕ, ◌%◌, Bool, true, false, not, ◌&&◌, ◌||◌, List, [], ◌∷◌, ◌++◌, map, Option, none, some, leb,
  ◌==◌, if◌then◌else◌, length,
}
use opendht.Hash.{Hash}
use opendht.Hash
use opendht.Value.{Value, equal_bytes}
use opendht.Filter.{Filter, chain_all}

-- Value::Field; `no_field` is None, and `count` is COUNT.
pub data Field : Type 0 where
  no_field id value_type owner_pk seq_num user_type count : Field

abbrev pub field_code : Field → ℕ
field_code no_field = 0
field_code id = 1
field_code value_type = 2
field_code owner_pk = 3
field_code seq_num = 4
field_code user_type = 5
field_code count = 6

abbrev pub same_field : Field → Field → Bool
same_field f g = field_code f == field_code g

pub record FieldValue : Type 0 where
  pub field : Field
  pub int_value : ℕ
  pub hash_value : Hash
  pub blob_value : List ℕ

unfoldable pub equal_at : Field → FieldValue → FieldValue → Bool
unfolding Hash.equal equal_bytes
equal_at id a b = a.int_value == b.int_value
equal_at value_type a b = a.int_value == b.int_value
equal_at seq_num a b = a.int_value == b.int_value
equal_at owner_pk a b = Hash.equal a.hash_value b.hash_value
equal_at user_type a b = equal_bytes a.blob_value b.blob_value
equal_at no_field a b = true
equal_at count a b = false

-- FieldValue::operator==
unfoldable pub same_value : FieldValue → FieldValue → Bool
unfolding equal_at
same_value a b = if same_field a.field b.field then equal_at a.field a b else false

-- OwnerFilter
unfoldable pub owned_by : (ℕ → Hash) → Hash → Value → Bool
unfolding Hash.equal
owned_by key_id h v = elim v.owner [ none ↦ false | some key ↦ Hash.equal (key_id key) h ]

-- TypeFilter and SeqNumFilter take 16 bits.
unfoldable pub filter_at : (ℕ → Hash) → Field → FieldValue → Filter
unfolding owned_by equal_bytes
filter_at key_id id fv = some (λ v. v.id == fv.int_value)
filter_at key_id value_type fv = some (λ v. v.type == fv.int_value % 65536)
filter_at key_id owner_pk fv = some (owned_by key_id fv.hash_value)
filter_at key_id seq_num fv = some (λ v. v.seq == fv.int_value % 65536)
filter_at key_id user_type fv = some (λ v. equal_bytes v.user_type fv.blob_value)
filter_at key_id no_field fv = none
filter_at key_id count fv = none

-- FieldValue::getLocalFilter
unfoldable pub local_filter : (ℕ → Hash) → FieldValue → Filter
unfolding filter_at
local_filter key_id fv = filter_at key_id fv.field fv

-- std::find_if(...) != end()
unfoldable pub contains {ℓ} : {A : Type ℓ} → (A → A → Bool) → A → List A → Bool
contains same a [] = false
contains same a (b ∷ bs) = same a b || contains same a bs

-- The function `subset`.
unfoldable pub subset {ℓ} : {A : Type ℓ} → (A → A → Bool) → List A → List A → Bool
unfolding contains
subset same [] bs = true
subset same (a ∷ as_) bs = contains same a bs && subset same as_ bs

abbrev pub Select : Type 0
Select = List Field

abbrev pub Where : Type 0
Where = List FieldValue

pub record Query : Type 0 where
  pub selection : Select
  pub restriction : Where
  pub any : Bool

-- Select::field
unfoldable pub select_field : Field → Select → Select
unfolding contains
select_field f s = if contains same_field f s then s else s ++ f ∷ []

-- Where::id and the others.
unfoldable pub restrict : FieldValue → Where → Where
unfolding contains same_value
restrict fv w = if contains same_value fv w then w else w ++ fv ∷ []

-- The loop of Where::getFilter.
unfoldable pub local_filters : (ℕ → Hash) → Where → List Filter
unfolding local_filter
local_filters key_id [] = []
local_filters key_id (f ∷ fs) = elim (local_filter key_id f) [
  | none ↦ local_filters key_id fs
  | some p ↦ some p ∷ local_filters key_id fs
]

unfoldable pub get_filter : (ℕ → Hash) → Where → Filter
unfolding local_filter local_filters chain_all
get_filter key_id [] = none
get_filter key_id (f ∷ []) = local_filter key_id f
get_filter key_id (f ∷ g ∷ fs) = chain_all (local_filters key_id (f ∷ g ∷ fs))

-- Select::isSatisfiedBy
unfoldable pub select_satisfied : Select → Select → Bool
unfolding subset
select_satisfied [] [] = true
select_satisfied [] (g ∷ os) = false
select_satisfied (f ∷ s) os = subset same_field (f ∷ s) os

-- Where::isSatisfiedBy
unfoldable pub where_satisfied : Where → Where → Bool
unfolding subset same_value
where_satisfied w ow = subset same_value ow w

-- Query::isSatisfiedBy
unfoldable pub satisfied : Query → Query → Bool
unfolding select_satisfied where_satisfied
satisfied q p =
    q.any
    || (where_satisfied q.restriction p.restriction && select_satisfied q.selection p.selection)

-- All fields, in the order of their codes.
abbrev pub every_field : List Field
every_field = no_field ∷ id ∷ value_type ∷ owner_pk ∷ seq_num ∷ user_type ∷ count ∷ []

-- The elements of the list that are in the selection, so in order and once.
unfoldable pub keep_selected : Select → List Field → List Field
unfolding contains
keep_selected s [] = []
keep_selected s (f ∷ fs) =
    let rest = keep_selected s fs in if contains same_field f s then f ∷ rest else rest

-- Select::getSelection, a std::set.
unfoldable pub get_selection : Select → List Field
unfolding keep_selected
get_selection s = keep_selected s every_field

abbrev int_field : Field → ℕ → FieldValue
int_field f n = record { field = f; int_value = n; hash_value = Hash.zero_hash 20; blob_value = [] }

-- The field's entry in the index of a value; InfoHash() where there is no owner.
unfoldable pub index_value : (ℕ → Hash) → Value → Field → FieldValue
index_value key_id v id = int_field id v.id
index_value key_id v value_type = int_field value_type v.type
index_value key_id v seq_num = int_field seq_num v.seq
index_value key_id v owner_pk = record (int_field owner_pk 0) {
  hash_value = elim v.owner [ none ↦ Hash.zero_hash 20 | some key ↦ key_id key ];
}
index_value key_id v user_type = record (int_field user_type 0) { blob_value = v.user_type }
index_value key_id v no_field = int_field no_field 0
index_value key_id v count = int_field no_field 0

-- The fields of an index: those that are selected, or all if none is.
unfoldable pub index_fields : Select → List Field
unfolding get_selection
index_fields [] = id ∷ value_type ∷ owner_pk ∷ seq_num ∷ user_type ∷ []
index_fields (f ∷ s) = get_selection (f ∷ s)

-- The constructor of FieldValueIndex.
unfoldable pub index_of : (ℕ → Hash) → Value → Select → List (Field × FieldValue)
unfolding index_fields index_value
index_of key_id v s = map (λ f. (f, index_value key_id v f)) (index_fields s)

-- The test of `containedIn` for each entry.
unfoldable pub has_fields : List (Field × FieldValue) → List (Field × FieldValue) → Bool
unfolding contains
has_fields [] other = true
has_fields ((f, fv) ∷ index) other =
    contains same_field f (map (λ e. e.0) other) && has_fields index other

-- FieldValueIndex::containedIn
unfoldable pub contained_in : List (Field × FieldValue) → List (Field × FieldValue) → Bool
unfolding has_fields
contained_in index other = leb (length index) (length other) && has_fields index other
