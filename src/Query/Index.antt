-- ===== src/Query/Index.antt =====
-- The fields that an answer holds: `containedIn`, and the selections of queries.
use opendht.Prelude.{
  ℕ, suc, ◌≤◌, ◌≡◌, sym, ap, refl, subst, true, List, [], ◌∷◌, map, inl, inr, arith, length,
  Bool-cases,
}
use opendht.Hash.{Hash}
use opendht.Value.{Value}
use opendht.Query.{
  Field, no_field, id, value_type, owner_pk, seq_num, user_type, count, same_field, FieldValue,
  contains, subset, Select, select_satisfied, keep_selected, get_selection, every_field,
  index_fields, index_of, index_value, has_fields, contained_in,
}
use opendht.Query.Satisfied.{same_field_eq}

contains_trans :
    (f : Field) (s t : Select)
    → contains same_field f s ≡ true
    → subset same_field s t ≡ true
    → contains same_field f t ≡ true
unfolding contains subset
contains_trans f [] t e h = absurd cc
contains_trans f (g ∷ s) t e h = elim (Bool-cases (same_field f g)) [
  | inl same ↦
      subst (λ x. contains same_field x t ≡ true) (sym (same_field_eq f g same)) (ground (arith, h))
  | inr other ↦ contains_trans f s t (ground (arith, e, other)) (ground (arith, h))
]

length-keep_selected-le :
    (s t : Select) (fs : List Field)
    → subset same_field s t ≡ true
    → length (keep_selected s fs) ≤ length (keep_selected t fs)
unfolding keep_selected
length-keep_selected-le s t [] h = omega arith
length-keep_selected-le s t (f ∷ fs) h =
    ground (arith, contains_trans f s t, length-keep_selected-le s t fs h)

contains-keep_selected :
    (f : Field) (t : Select) (fs : List Field)
    → contains same_field f t ≡ true
    → contains same_field f fs ≡ true
    → contains same_field f (keep_selected t fs) ≡ true
unfolding contains keep_selected
contains-keep_selected f t [] h e = absurd cc
contains-keep_selected f t (g ∷ fs) h e = elim (Bool-cases (same_field f g)) [
  | inl same ↦
      let there = subst (λ x. contains same_field x t ≡ true) (same_field_eq f g same) h in
      ground (arith, there, same)
  | inr other ↦ ground (arith, contains-keep_selected f t fs h, other, e)
]

contains-every_field : (f : Field) → contains same_field f every_field ≡ true
unfolding contains
contains-every_field no_field = refl
contains-every_field id = refl
contains-every_field value_type = refl
contains-every_field owner_pk = refl
contains-every_field seq_num = refl
contains-every_field user_type = refl
contains-every_field count = refl

abbrev entries : (Field → FieldValue) → List Field → List (Field × FieldValue)
entries entry fs = map (λ f. (f, entry f)) fs

fields_of :
    (entry : Field → FieldValue) (fs : List Field)
    → map (λ (e : Field × FieldValue). e.0) (entries entry fs) ≡ fs
fields_of entry [] = refl
fields_of entry (f ∷ fs) = ap (λ t. f ∷ t) (fields_of entry fs)

length-entries :
    (entry : Field → FieldValue) (fs : List Field) → length (entries entry fs) ≡ length fs
length-entries entry [] = refl
length-entries entry (f ∷ fs) = ap suc (length-entries entry fs)

has_fields-keep_selected :
    (entry : Field → FieldValue) (s t : Select) (fs : List Field)
    (other : List (Field × FieldValue))
    → subset same_field s t ≡ true
    → map (λ (e : Field × FieldValue). e.0) other ≡ get_selection t
    → has_fields (entries entry (keep_selected s fs)) other ≡ true
unfolding has_fields keep_selected get_selection
has_fields-keep_selected entry s t [] other h e = refl
has_fields-keep_selected entry s t (f ∷ fs) other h e =
    elim (Bool-cases (contains same_field f s)) [
      | inl chosen ↦
          let there =
            contains-keep_selected f t every_field (contains_trans f s t chosen h)
              (contains-every_field f) in
          let found = subst (λ l. contains same_field f l ≡ true) (sym e) there in
          rw chosen (ground (arith, found, has_fields-keep_selected entry s t fs other h e))
      | inr dropped ↦ rw dropped (has_fields-keep_selected entry s t fs other h e)
    ]

-- If the selection of a query is satisfied by that of another, then the fields that an answer to the
-- query holds of a value are among those that an answer to the other holds.
pub satisfied-contained_in :
    (key_id : ℕ → Hash) (v : Value) (s t : Select)
    → select_satisfied s t ≡ true
    → contained_in (index_of key_id v s) (index_of key_id v t) ≡ true
unfolding contained_in index_of select_satisfied index_fields get_selection has_fields
satisfied-contained_in key_id v [] [] h = refl
satisfied-contained_in key_id v [] (g ∷ t) h = absurd cc
satisfied-contained_in key_id v (f ∷ s) [] h = absurd (ground (arith, h))
satisfied-contained_in key_id v (f ∷ s) (g ∷ t) h =
    let entry : Field → FieldValue = index_value key_id v in
    let shorter = length-keep_selected-le (f ∷ s) (g ∷ t) every_field h in
    let within =
      has_fields-keep_selected entry (f ∷ s) (g ∷ t) every_field
        (entries entry (get_selection (g ∷ t))) h (fields_of entry (get_selection (g ∷ t))) in
    let l = length-entries entry (keep_selected (f ∷ s) every_field) in
    let l' = length-entries entry (keep_selected (g ∷ t) every_field) in
    ground (arith, within, shorter, l, l')
