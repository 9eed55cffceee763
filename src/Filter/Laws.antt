-- ===== src/Filter/Laws.antt =====
-- What passes the filters that are built from others.
use opendht.Prelude.{◌≡◌, refl, not, ◌&&◌, ◌||◌, List, [], ◌∷◌, none, some, arith}
use opendht.Value.{Value}
use opendht.Filter.{Filter, passes, chain, all_pass, chain_all, chain_or, not_filter}

-- On every value, `chain` is the conjunction of two filters, `chainAll` that of a list, `chainOr` the
-- disjunction and `notFilter` the negation, also where filters are empty.
pub passes-connectives :
    (f g : Filter) (set : List Filter) (v : Value)
    → (passes (chain f g) v ≡ (passes f v && passes g v))
      × (passes (chain_all set) v ≡ all_pass set v)
      × (passes (chain_or f g) v ≡ (passes f v || passes g v))
      × (passes (not_filter f) v ≡ not (passes f v))
unfolding passes chain chain_all chain_or not_filter
passes-connectives f g set v = (both f g, every set, either f g, negated f)
  where
    both : (f g : Filter) → passes (chain f g) v ≡ (passes f v && passes g v)
    both none g = refl
    both (some f) none = ground arith
    both (some f) (some g) = refl

    every : (set : List Filter) → passes (chain_all set) v ≡ all_pass set v
    every [] = refl
    every (f ∷ set) = refl

    either : (f g : Filter) → passes (chain_or f g) v ≡ (passes f v || passes g v)
    either none g = refl
    either (some f) none = ground arith
    either (some f) (some g) = refl

    negated : (f : Filter) → passes (not_filter f) v ≡ not (passes f v)
    negated none = refl
    negated (some f) = refl
