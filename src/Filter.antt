-- ===== src/Filter.antt =====
-- include/opendht/value.h: `Value::Filter`, a predicate of values, or an empty function, which all values
-- pass.
pub mod Laws
use opendht.Prelude.{
  Bool, true, false, not, ◌&&◌, ◌||◌, List, [], ◌∷◌, Option, none, some, if◌then◌else◌,
}
use opendht.Value.{Value}

abbrev pub Filter : Type 0
Filter = Option (Value → Bool)

-- What a value must meet where a filter is set.
unfoldable pub passes : Filter → Value → Bool
passes none v = true
passes (some f) v = f v

unfoldable pub chain : Filter → Filter → Filter
chain none f2 = f2
chain (some f1) none = some f1
chain (some f1) (some f2) = some (λ v. f1 v && f2 v)

-- The loop of the filter that `chainAll` returns.
unfoldable pub all_pass : List Filter → Value → Bool
unfolding passes
all_pass [] v = true
all_pass (f ∷ set) v = passes f v && all_pass set v

unfoldable pub chain_all : List Filter → Filter
unfolding all_pass
chain_all [] = none
chain_all (f ∷ set) = some (all_pass (f ∷ set))

unfoldable pub chain_or : Filter → Filter → Filter
chain_or none f2 = none
chain_or (some f1) none = none
chain_or (some f1) (some f2) = some (λ v. f1 v || f2 v)

unfoldable pub not_filter : Filter → Filter
not_filter none = some (λ v. false)
not_filter (some f) = some (λ v. not (f v))

-- Filter::filter
unfoldable pub filter_values : Filter → List Value → List Value
unfolding passes
filter_values f [] = []
filter_values f (v ∷ vs) = let rest = filter_values f vs in if passes f v then v ∷ rest else rest
