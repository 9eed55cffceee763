-- ===== src/Query/Satisfied.antt =====
-- What `isSatisfiedBy` promises: the answers to one query are among those of the other.
use opendht.Prelude.{
  ℕ, zero, suc, ◌≡◌, ◌∙◌, sym, ap, refl, Bool, true, false, ◌&&◌, List, [], ◌∷◌, ◌++◌, none, some,
  inl, inr, arith, length, All, Bool-cases, ==_iff,
}
use opendht.Hash.{Hash}
use opendht.Hash.Order.{equal_iff}
use opendht.Value.{Value, equal_bytes}
use opendht.Filter.{Filter, passes, all_pass, chain_all}
use opendht.Query.{
  Field, no_field, id, value_type, owner_pk, seq_num, user_type, count, field_code, same_field,
  FieldValue, equal_at, same_value, owned_by, filter_at, local_filter, contains, subset, Where,
  Query, restrict, local_filters, get_filter, where_satisfied, satisfied,
}

pub equal_bytes_eq : (xs ys : List ℕ) → equal_bytes xs ys ≡ true → xs ≡ ys
unfolding equal_bytes
equal_bytes_eq [] [] e = refl
equal_bytes_eq [] (y ∷ ys) e = absurd cc
equal_bytes_eq (x ∷ xs) [] e = absurd cc
equal_bytes_eq (x ∷ xs) (y ∷ ys) e = ground (arith, equal_bytes_eq xs ys)

field_at : ℕ → Field
field_at zero = no_field
field_at (suc zero) = id
field_at (suc (suc zero)) = value_type
field_at (suc (suc (suc zero))) = owner_pk
field_at (suc (suc (suc (suc zero)))) = seq_num
field_at (suc (suc (suc (suc (suc zero))))) = user_type
field_at n = count

field_at-field_code : (f : Field) → field_at (field_code f) ≡ f
unfolding field_at
field_at-field_code no_field = refl
field_at-field_code id = refl
field_at-field_code value_type = refl
field_at-field_code owner_pk = refl
field_at-field_code seq_num = refl
field_at-field_code user_type = refl
field_at-field_code count = refl

pub same_field_eq : (f g : Field) → same_field f g ≡ true → f ≡ g
same_field_eq f g e =
    sym (field_at-field_code f) ∙ ap field_at ((==_iff _ _).0 e) ∙ field_at-field_code g

-- Equal restrictions let the same values pass.
filter_at_same :
    (key_id : ℕ → Hash) (f : Field) (a b : FieldValue) (v : Value)
    → length a.hash_value ≡ length b.hash_value
    → equal_at f a b ≡ true
    → passes (filter_at key_id f a) v ≡ passes (filter_at key_id f b) v
unfolding filter_at equal_at passes
filter_at_same key_id id a b v h e = ground (arith, e)
filter_at_same key_id value_type a b v h e = ground (arith, e)
filter_at_same key_id seq_num a b v h e = ground (arith, e)
filter_at_same key_id owner_pk a b v h e =
    ap (λ x. owned_by key_id x v) ((equal_iff a.hash_value b.hash_value h).0 e)
filter_at_same key_id user_type a b v h e =
    ap (λ x. equal_bytes v.user_type x) (equal_bytes_eq a.blob_value b.blob_value e)
filter_at_same key_id no_field a b v h e = refl
filter_at_same key_id count a b v h e = refl

local_filter_same :
    (key_id : ℕ → Hash) (a b : FieldValue) (v : Value)
    → length a.hash_value ≡ length b.hash_value
    → same_value a b ≡ true
    → passes (local_filter key_id a) v ≡ passes (local_filter key_id b) v
unfolding same_value local_filter
local_filter_same key_id a b v h e = elim (Bool-cases (same_field a.field b.field)) [
  | inl same ↦
      filter_at_same key_id a.field a b v h (ground (arith, e, same))
      ∙ ap (λ f. passes (filter_at key_id f b) v) (same_field_eq a.field b.field same)
  | inr other ↦ absurd (ground (arith, e, other))
]

-- A value passes the filter of every restriction.
unfoldable pub meets : (ℕ → Hash) → Where → Value → Bool
unfolding passes local_filter
meets key_id [] v = true
meets key_id (f ∷ w) v = passes (local_filter key_id f) v && meets key_id w v

all_pass_step :
    (o : Filter) (rest : List Filter) (v : Value)
    → all_pass (elim o [ none ↦ rest | some p ↦ some p ∷ rest ]) v ≡ (passes o v && all_pass rest v)
unfolding all_pass passes
all_pass_step none rest v = refl
all_pass_step (some p) rest v = refl

all_pass-local_filters :
    (key_id : ℕ → Hash) (w : Where) (v : Value)
    → all_pass (local_filters key_id w) v ≡ meets key_id w v
unfolding local_filters meets all_pass
all_pass-local_filters key_id [] v = refl
all_pass-local_filters key_id (f ∷ w) v =
    all_pass_step (local_filter key_id f) (local_filters key_id w) v
    ∙ ap (λ b. passes (local_filter key_id f) v && b) (all_pass-local_filters key_id w v)

passes-chain_all : (set : List Filter) (v : Value) → passes (chain_all set) v ≡ all_pass set v
unfolding passes chain_all all_pass
passes-chain_all [] v = refl
passes-chain_all (f ∷ set) v = refl

-- The filter of a restriction is passed by the values that meet each part of it.
pub passes-get_filter :
    (key_id : ℕ → Hash) (w : Where) (v : Value) → passes (get_filter key_id w) v ≡ meets key_id w v
unfolding get_filter meets
passes-get_filter key_id [] v = refl
passes-get_filter key_id (f ∷ []) v = ground arith
passes-get_filter key_id (f ∷ g ∷ w) v =
    passes-chain_all (local_filters key_id (f ∷ g ∷ w)) v
    ∙ all_pass-local_filters key_id (f ∷ g ∷ w) v

-- The hashes in a restriction have n bytes.
abbrev pub Sized : ℕ → Where → Type 0
Sized n w = All (λ f. length f.hash_value ≡ n) w

contains-meets :
    (key_id : ℕ → Hash) (n : ℕ) (f : FieldValue) (w : Where) (v : Value)
    → length f.hash_value ≡ n
    → Sized n w
    → contains same_value f w ≡ true
    → meets key_id w v ≡ true
    → passes (local_filter key_id f) v ≡ true
unfolding contains meets
contains-meets key_id n f [] v h hs e m = absurd cc
contains-meets key_id n f (g ∷ w) v h hs e m = elim (Bool-cases (same_value f g)) [
  | inl same ↦ ground (arith, local_filter_same key_id f g v (omega (arith, h, hs.0)) same, m)
  | inr other ↦ contains-meets key_id n f w v h hs.1 (ground (arith, e, other)) (ground (arith, m))
]

subset-meets :
    (key_id : ℕ → Hash) (n : ℕ) (ow w : Where) (v : Value)
    → Sized n ow
    → Sized n w
    → subset same_value ow w ≡ true
    → meets key_id w v ≡ true
    → meets key_id ow v ≡ true
unfolding subset meets
subset-meets key_id n [] w v ho hw e m = refl
subset-meets key_id n (f ∷ ow) w v ho hw e m = ground (
  arith,
  contains-meets key_id n f w v ho.0 hw (ground (arith, e)) m,
  subset-meets key_id n ow w v ho.1 hw (ground (arith, e)) m,
)

-- If a query that not any query satisfies is satisfied by another, then a value that passes the filter of
-- the query passes that of the other, so that the other's answers hold all of its own. All hashes in the
-- restrictions have one length.
pub satisfied-passes :
    (key_id : ℕ → Hash) (n : ℕ) (q p : Query) (v : Value)
    → Sized n q.restriction
    → Sized n p.restriction
    → q.any ≡ false
    → satisfied q p ≡ true
    → passes (get_filter key_id q.restriction) v ≡ true
    → passes (get_filter key_id p.restriction) v ≡ true
unfolding satisfied where_satisfied
satisfied-passes key_id n q p v hq hp own e m =
    passes-get_filter key_id p.restriction v
    ∙ subset-meets key_id n p.restriction q.restriction v hp hq (ground (arith, own, e))
        (sym (passes-get_filter key_id q.restriction v) ∙ m)

meets-append :
    (key_id : ℕ → Hash) (w : Where) (f : FieldValue) (v : Value)
    → meets key_id (w ++ f ∷ []) v ≡ (meets key_id w v && passes (local_filter key_id f) v)
unfolding meets
meets-append key_id [] f v = ground arith
meets-append key_id (g ∷ w) f v = ground (arith, meets-append key_id w f v)

-- A restriction that is added lets those values pass that passed before and meet it, also where it is
-- there already.
pub passes-restrict :
    (key_id : ℕ → Hash) (n : ℕ) (f : FieldValue) (w : Where) (v : Value)
    → length f.hash_value ≡ n
    → Sized n w
    → passes (get_filter key_id (restrict f w)) v
      ≡ (passes (get_filter key_id w) v && passes (local_filter key_id f) v)
unfolding restrict
passes-restrict key_id n f w v h hs = elim (Bool-cases (contains same_value f w)) [
  | inl there ↦
      rw (there, passes-get_filter key_id w v)
        (elim (Bool-cases (meets key_id w v)) [
          | inl met ↦ ground (arith, met, contains-meets key_id n f w v h hs there met)
          | inr missed ↦ ground (arith, missed)
        ])
  | inr new ↦
      rw (new, passes-get_filter key_id (w ++ f ∷ []) v, passes-get_filter key_id w v)
        (meets-append key_id w f v)
]
