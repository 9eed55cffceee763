-- ===== src/Value.antt =====
-- include/opendht/value.h and src/value.cpp: the data of a `Value`. A `Sp<Value>` is a `Value` of the
-- model, whose `ref` is the address of the shared object; the object itself does not change.
use opendht.Prelude.{
  ℕ, ◌+◌, Bool, true, false, ◌&&◌, List, [], ◌∷◌, Option, none, some, ◌==◌, length,
}
use opendht.Time.{Duration, minutes}
use opendht.Prelude.Map.{Map, find, assign}

-- The identity of the signer's key stands for `owner`.
pub record Value : Type 0 where
  pub ref : ℕ
  pub id : ℕ
  pub owner : Option ℕ
  pub type : ℕ
  pub body : List ℕ
  pub user_type : List ℕ
  pub seq : ℕ
  pub signature : List ℕ
  pub cypher : List ℕ
  pub push_type : List ℕ

-- Value::size
unfoldable pub size : Value → ℕ
size v =
    length v.cypher + length v.body + length v.signature + length v.user_type + length v.push_type

-- Two `Sp<Value>` are equal if they point to one object.
unfoldable pub same : Value → Value → Bool
same v w = v.ref == w.ref

unfoldable pub equal_bytes : List ℕ → List ℕ → Bool
equal_bytes [] [] = true
equal_bytes (x ∷ xs) (y ∷ ys) = x == y && equal_bytes xs ys
equal_bytes _ _ = false

unfoldable pub equal_owner : Option ℕ → Option ℕ → Bool
equal_owner none none = true
equal_owner (some a) (some b) = a == b
equal_owner _ _ = false

unfoldable pub is_encrypted : Value → Bool
is_encrypted v = elim v.cypher [ [] ↦ false | _ ∷ _ ↦ true ]

unfoldable pub content_equals : Value → Value → Bool
unfolding is_encrypted equal_bytes equal_owner
content_equals v o = elim (is_encrypted v) [
  | true ↦ equal_bytes v.cypher o.cypher
  | false ↦
      equal_owner v.owner o.owner
      && (v.type == o.type
          && (equal_bytes v.body o.body
              && (equal_bytes v.user_type o.user_type && equal_bytes v.signature o.signature)))
]

-- Value::operator==
unfoldable pub equal : Value → Value → Bool
unfolding content_equals
equal v o = v.id == o.id && content_equals v o

-- TypeStore: the expiration of each registered type, by its id.
abbrev pub TypeStore : Type 0
TypeStore = Map Duration

-- DEFAULT_VALUE_EXPIRATION, that of `ValueType::USER_DATA`.
abbrev pub default_expiration : Duration
default_expiration = minutes 10

-- getType(id).expiration
unfoldable pub type_expiration : TypeStore → ℕ → Duration
unfolding find
type_expiration types id = elim (find id types) [ none ↦ default_expiration | some e ↦ e ]

-- registerType
unfoldable pub register_type : TypeStore → ℕ → Duration → TypeStore
unfolding assign
register_type types id e = assign id e types
