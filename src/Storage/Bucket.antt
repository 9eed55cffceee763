-- ===== src/Storage/Bucket.antt =====
-- src/storage.h: `StorageBucket`. Its multimap is the list of its entries in the order of their
-- expirations, later insertions behind earlier ones of the same time.
use opendht.Prelude.{
  ℕ, Bool, true, false, ◌&&◌, List, [], ◌∷◌, Option, none, some, ltb, ◌==◌, if◌then◌else◌, length,
}
use opendht.Prelude.Words.{add_size, sub_size}
use opendht.Time.{TimePoint}
use opendht.Value.{Value}
use opendht.Value
use opendht.Hash
use opendht.Hash.{Hash}

-- `std::pair<InfoHash, Value::Id>` under its expiration.
pub record Entry : Type 0 where
  pub expiration : TimePoint
  pub key : Hash
  pub id : ℕ

pub record StorageBucket : Type 0 where
  pub stored_values : List Entry
  pub total_size : ℕ

abbrev pub empty : StorageBucket
empty = record { stored_values = []; total_size = 0 }

-- multimap::emplace
unfoldable pub emplace : Entry → List Entry → List Entry
emplace e [] = e ∷ []
emplace e (f ∷ es) = if ltb e.expiration f.expiration then e ∷ f ∷ es else f ∷ emplace e es

-- The entry that the loops over `equal_range(expiration)` look for.
unfoldable pub is_entry : Hash → ℕ → TimePoint → Entry → Bool
unfolding Hash.equal
is_entry key id expiration e = e.expiration == expiration && (Hash.equal e.key key && e.id == id)

-- The loop: `none` if no entry fits, else the entries without the first that does.
unfoldable pub take_entry : Hash → ℕ → TimePoint → List Entry → Option (List Entry)
unfolding is_entry
take_entry key id expiration [] = none
take_entry key id expiration (e ∷ es) = elim (is_entry key id expiration e) [
  | true ↦ some es
  | false ↦ elim (take_entry key id expiration es) [ none ↦ none | some rest ↦ some (e ∷ rest) ]
]

unfoldable pub insert : StorageBucket → Hash → Value → TimePoint → StorageBucket
unfolding emplace add_size Value.size
insert b key v expiration = record {
  stored_values =
      emplace (record { expiration = expiration; key = key; id = v.id }) b.stored_values;
  total_size = add_size b.total_size (Value.size v);
}

unfoldable pub erase : StorageBucket → Hash → Value → TimePoint → StorageBucket
unfolding take_entry sub_size Value.size
erase b key v expiration = elim (take_entry key v.id expiration b.stored_values) [
  | none ↦ b
  | some rest ↦ record { stored_values = rest; total_size = sub_size b.total_size (Value.size v) }
]

unfoldable pub refresh : StorageBucket → Hash → Value → TimePoint → TimePoint → StorageBucket
unfolding take_entry emplace insert
refresh b key v old_expiration expiration =
    elim (take_entry key v.id old_expiration b.stored_values) [
      | none ↦ insert b key v expiration
      | some rest ↦ record b {
        stored_values = emplace (record { expiration = expiration; key = key; id = v.id }) rest;
      }
    ]

-- getOldest; a default pair if there is none.
unfoldable pub get_oldest : StorageBucket → ℕ → Hash × ℕ
get_oldest b n = elim b.stored_values [ [] ↦ (Hash.zero_hash n, 0) | e ∷ _ ↦ (e.key, e.id) ]

-- valueCount
unfoldable pub value_count : StorageBucket → ℕ
value_count b = length b.stored_values
