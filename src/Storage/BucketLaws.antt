-- ===== src/Storage/BucketLaws.antt =====
-- What the operations of `StorageBucket` do to its entries and to its size.
use opendht.Prelude.{
  ℕ, ◌≡◌, ◌≢◌, refl, Bool, true, false, ◌||◌, List, [], ◌∷◌, some, arith, inl, inr, Bool-cases,
  Option-cases,
}
use opendht.Time.{TimePoint}
use opendht.Hash.{Hash}
use opendht.Hash.Order.{equal_iff}
use opendht.Value.{Value}
use opendht.Value
use opendht.Prelude.Words.{add_size, sub_size}
use opendht.Storage.Bucket.{StorageBucket, Entry, emplace, is_entry, take_entry, insert, erase}

unfoldable pub has_entry : Hash → ℕ → TimePoint → List Entry → Bool
unfolding is_entry
has_entry key id expiration [] = false
has_entry key id expiration (e ∷ es) =
    is_entry key id expiration e || has_entry key id expiration es

pub has_entry-emplace :
    (key : Hash) (id : ℕ) (t : TimePoint) (e : Entry) (es : List Entry)
    → has_entry key id t (emplace e es) ≡ (is_entry key id t e || has_entry key id t es)
unfolding has_entry emplace
has_entry-emplace key id t e [] = refl
has_entry-emplace key id t e (f ∷ es) = ground (arith, has_entry-emplace key id t e es)

-- An entry that is there is found.
pub take_entry_found :
    (key : Hash) (id : ℕ) (t : TimePoint) (es : List Entry)
    → has_entry key id t es ≡ true
    → (rest : List Entry) × (take_entry key id t es ≡ some rest)
unfolding has_entry take_entry
take_entry_found key id t [] h = absurd (ground arith)
take_entry_found key id t (e ∷ es) h = elim (Bool-cases (is_entry key id t e)) [
  | inl hit ↦ (es, ground arith)
  | inr miss ↦
      let (rest, found) = take_entry_found key id t es (ground arith) in (e ∷ rest, ground arith)
]

-- Taking one entry out leaves every entry of another id, or under another hash.
pub has_entry-take_entry :
    (key : Hash) (id : ℕ) (t : TimePoint) (key' : Hash) (id' : ℕ) (t' : TimePoint)
    (es rest : List Entry)
    → ((e : Entry) → is_entry key id t e ≡ true → is_entry key' id' t' e ≡ false)
    → take_entry key id t es ≡ some rest
    → has_entry key' id' t' rest ≡ has_entry key' id' t' es
unfolding has_entry take_entry
has_entry-take_entry key id t key' id' t' [] rest apart h = cc
has_entry-take_entry key id t key' id' t' (e ∷ es) rest apart h =
    elim (Bool-cases (is_entry key id t e)) [
      | inl hit ↦ ground (arith, apart e)
      | inr miss ↦ elim (Option-cases (take_entry key id t es)) [
        | inl gone ↦ ground arith
        | inr (left, found) ↦
            ground (arith, has_entry-take_entry key id t key' id' t' es left apart found)
      ]
    ]

-- An entry has one id.
pub is_entry_id :
    (key key' : Hash) (id id' : ℕ) (t t' : TimePoint)
    → id ≢ id'
    → (e : Entry) → is_entry key id t e ≡ true
    → is_entry key' id' t' e ≡ false
unfolding is_entry
is_entry_id key key' id id' t t' h e p = ground arith

pub is_entry_self :
    (key : Hash) (id : ℕ) (t : TimePoint)
    → is_entry key id t (record { expiration = t; key = key; id = id }) ≡ true
unfolding is_entry
is_entry_self key id t = ground (arith, (equal_iff key key refl).1 refl)

-- Where the entry is there, erasing takes the size off.
pub erase_size :
    (b : StorageBucket) (key : Hash) (v : Value) (t : TimePoint)
    → has_entry key v.id t b.stored_values ≡ true
    → (erase b key v t).total_size ≡ sub_size b.total_size (Value.size v)
unfolding erase
erase_size b key v t h =
    let (rest, found) = take_entry_found key v.id t b.stored_values h in rw (found, erase)

pub erase_entries :
    (b : StorageBucket) (key : Hash) (v : Value) (t : TimePoint) (key' : Hash) (id' : ℕ)
    (t' : TimePoint)
    → ((e : Entry) → is_entry key v.id t e ≡ true → is_entry key' id' t' e ≡ false)
    → has_entry key' id' t' (erase b key v t).stored_values ≡ has_entry key' id' t' b.stored_values
unfolding erase
erase_entries b key v t key' id' t' apart =
    elim (Option-cases (take_entry key v.id t b.stored_values)) [
      | inl gone ↦ rw (gone, erase)
      | inr (rest, found) ↦
          rw (found, erase)
            (has_entry-take_entry key v.id t key' id' t' b.stored_values rest apart found)
    ]

-- Inserting adds the size and the entry, and keeps the others.
pub insert_size :
    (b : StorageBucket) (key : Hash) (v : Value) (t : TimePoint)
    → (insert b key v t).total_size ≡ add_size b.total_size (Value.size v)
unfolding insert
insert_size b key v t = refl

pub insert_has :
    (b : StorageBucket) (key : Hash) (v : Value) (t : TimePoint)
    → has_entry key v.id t (insert b key v t).stored_values ≡ true
unfolding insert
insert_has b key v t = rw has_entry-emplace (ground (arith, is_entry_self key v.id t))

pub insert_keeps :
    (b : StorageBucket) (key : Hash) (v : Value) (t : TimePoint) (key' : Hash) (id' : ℕ)
    (t' : TimePoint)
    → has_entry key' id' t' b.stored_values ≡ true
    → has_entry key' id' t' (insert b key v t).stored_values ≡ true
unfolding insert
insert_keeps b key v t key' id' t' h = rw has_entry-emplace (ground arith)
