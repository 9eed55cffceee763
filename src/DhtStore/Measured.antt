-- ===== src/DhtStore/Measured.antt =====
-- The size that each storage keeps of its own, which `maintainStorage` takes from the totals.
use opendht.Prelude.{
  ℕ, ◌+◌, ◌%◌, ◌≡◌, ◌∙◌, ap, subst, List, [], ◌∷◌, ◌++◌, Option, some, arith, All, inl, inr,
  Bool-cases,
}
use opendht.Prelude.Words.{word, sub_size-mod, add_size-mod, add_diff, add_diff-mod}
use opendht.Time.{TimePoint}
use opendht.Hash.{Hash}
use opendht.Hash
use opendht.Value.{Value, TypeStore}
use opendht.Value
use opendht.Storage.{ValueStorage, Storage, Shared, store}
use opendht.Storage.Removal.{remove, expire, alive, dead, sum_size}
use opendht.Storage.Invariant.{sum_size-append}
use opendht.Storage.Frees.{remove_cases}
use opendht.Storage.Expiry.{dead_sums}
use opendht.Storage.StoreCases.{kept, replaced, appended, fresh, edited, store-Stored}
use opendht.DhtStore.{Stores, find_store, put_store, add_store, erase_store}
use opendht.DhtStore.Counted.{bytes}

abbrev pub IsMeasured : Storage → Type 0
IsMeasured st = st.total_size ≡ bytes st % word

abbrev pub EachMeasured : Stores → Type 0
EachMeasured m = All (λ (e : Hash × Storage). IsMeasured e.1) m

pub find_store-IsMeasured :
    (key : Hash) (m : Stores) (st : Storage)
    → find_store key m ≡ some st
    → EachMeasured m
    → IsMeasured st
unfolding find_store
find_store-IsMeasured key [] st e h = cc
find_store-IsMeasured key ((k, o) ∷ m) st e h = elim (Bool-cases (Hash.equal k key)) [
  | inl hit ↦ let same : o ≡ st = ground arith in subst IsMeasured same h.0
  | inr miss ↦ find_store-IsMeasured key m st (ground arith) h.1
]

pub put_store-EachMeasured :
    (key : Hash) (st' : Storage) (m : Stores)
    → IsMeasured st'
    → EachMeasured m
    → EachMeasured (put_store key st' m)
unfolding put_store
put_store-EachMeasured key st' [] new h = tt
put_store-EachMeasured key st' ((k, o) ∷ m) new h = elim (Bool-cases (Hash.equal k key)) [
  | inl hit ↦ rw hit (new, h.1)
  | inr miss ↦ rw miss (h.0, put_store-EachMeasured key st' m new h.1)
]

pub add_store-EachMeasured :
    (key : Hash) (st : Storage) (m : Stores)
    → IsMeasured st
    → EachMeasured m
    → EachMeasured (add_store key st m)
unfolding add_store
add_store-EachMeasured key st [] new h = (new, tt)
add_store-EachMeasured key st ((k, o) ∷ m) new h = elim (Bool-cases (Hash.less key k)) [
  | inl before ↦ rw before (new, h)
  | inr behind ↦ rw behind (h.0, add_store-EachMeasured key st m new h.1)
]

pub erase_store-EachMeasured :
    (key : Hash) (m : Stores) → EachMeasured m → EachMeasured (erase_store key m)
unfolding erase_store
erase_store-EachMeasured key [] h = tt
erase_store-EachMeasured key ((k, o) ∷ m) h = elim (Bool-cases (Hash.equal k key)) [
  | inl hit ↦ rw hit h.1
  | inr miss ↦ rw miss (h.0, erase_store-EachMeasured key m h.1)
]

-- The sizes when one value is changed, or is put in the place of another.
sum_size-around :
    (a : List ValueStorage) (it it' : ValueStorage) (b xs : List ValueStorage)
    → xs ≡ a ++ it ∷ b
    → (sum_size xs ≡ (sum_size a + sum_size b) + Value.size it.stored)
      × (sum_size (a ++ it' ∷ b) ≡ (sum_size a + sum_size b) + Value.size it'.stored)
unfolding sum_size
sum_size-around a it it' b xs at = (
  omega (arith, ap sum_size at, sum_size-append a (it ∷ b)),
  omega (arith, sum_size-append a (it' ∷ b)),
)

pub store-IsMeasured :
    (key : Hash) (v : Value) (created expiration : TimePoint) (sb : Option ℕ) (st : Storage)
    (sh : Shared)
    → IsMeasured st
    → IsMeasured (store key v created expiration sb st sh).storage
store-IsMeasured key v created expiration sb st sh h =
    elim (store-Stored key v created expiration sb st sh) [
      | kept _ _ (inl same) ↦ rw same h
      | kept _ _ (inr (a, it, b, at, done)) ↦
          let (old, new) = sum_size-around a it (record it { created = created }) b st.values at in
          rw done (h ∙ ap (λ (n : ℕ). n % word) (omega (arith, old, new)))
      | replaced a it b at _ _ done _ ↦
          let (old, new) =
            sum_size-around a it (edited key v created expiration sb it) b st.values at in
          rw done (
            add_diff-mod st.total_size (Value.size v) (Value.size it.stored)
              (sum_size a + sum_size b) (h ∙ ap (λ (n : ℕ). n % word) old)
            ∙ ap (λ (n : ℕ). n % word) (omega (arith, new)))
      | appended _ _ _ done _ ↦ rw done (
          unfold add_diff in
          (add_size-mod st.total_size (Value.size v) (bytes st) h
            ∙ ap (λ (n : ℕ). n % word)
                (unfold sum_size in
                  omega
                    (arith, sum_size-append st.values (fresh key v created expiration sb ∷ [])))))
    ]

pub remove-IsMeasured :
    (key : Hash) (vid : ℕ) (st : Storage) (sh : Shared)
    → IsMeasured st
    → IsMeasured (remove key vid st sh).0
remove-IsMeasured key vid st sh h = elim (remove_cases key vid st sh) [
  | inl (same, _) ↦ rw same h
  | inr (a, vs, b, at, _, done) ↦ rw done (
      sub_size-mod st.total_size (Value.size vs.stored) (sum_size (a ++ b)) (
        h
        ∙ ap (λ (n : ℕ). n % word)
            (omega (arith, (sum_size-around a vs vs b st.values at).0, sum_size-append a b))))
]

pub expire-IsMeasured :
    (key : Hash) (now : TimePoint) (st : Storage) (sh : Shared)
    → IsMeasured st
    → IsMeasured (expire key now st sh).0
unfolding expire
expire-IsMeasured key now st sh h =
    add_diff-mod st.total_size 0 (sum_size (dead now st.values)) (sum_size (alive now st.values))
      (h ∙ ap (λ (n : ℕ). n % word) (dead_sums now 0 st.values).0)
    ∙ ap (λ (n : ℕ). n % word) (omega arith)
