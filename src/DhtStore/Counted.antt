-- ===== src/DhtStore/Counted.antt =====
-- The sums over all storages.
use opendht.Prelude.{
  ℕ, zero, suc, ◌+◌, ◌≡◌, refl, true, List, [], ◌∷◌, Option, none, some, arith, length, inl, inr,
  Bool-cases,
}
use opendht.Hash.{Hash}
use opendht.Hash
use opendht.Storage.{ValueStorage, Storage}
use opendht.Storage.Removal.{sum_size}
use opendht.DhtStore.{Stores, find_store, put_store, add_store, erase_store}
use opendht.DhtStore.Puts.{set_job}

-- The sum of a measure over all storages.
unfoldable pub total_by : (Storage → ℕ) → Stores → ℕ
total_by f [] = 0
total_by f ((h, st) ∷ m) = f st + total_by f m

abbrev pub bytes : Storage → ℕ
bytes st = sum_size st.values

abbrev pub amount : Storage → ℕ
amount st = length st.values

-- The sum without the storage of a key, and the sums when it is written or erased.
pub total_by_split :
    (f : Storage → ℕ) (key : Hash) (m : Stores) (st : Storage)
    → find_store key m ≡ some st
    → (rest : ℕ) × (total_by f m ≡ rest + f st)
      × ((st' : Storage) → total_by f (put_store key st' m) ≡ rest + f st')
      × (total_by f (erase_store key m) ≡ rest)
unfolding find_store put_store erase_store total_by
total_by_split f key [] st e = cc
total_by_split f key ((h, o) ∷ m) st e = elim (Bool-cases (Hash.equal h key)) [
  | inl hit ↦
      let here : o ≡ st = ground arith in
      rw hit (total_by f m, rw here (omega arith), (λ st'. omega arith), refl)
  | inr miss ↦
      let there : find_store key m ≡ some st = ground arith in
      let (rest, whole, put, erased) = total_by_split f key m st there in
      rw miss
        (f o + rest, omega (arith, whole), (λ st'. omega (arith, put st')), omega (arith, erased))
]

pub total_by-add_store :
    (f : Storage → ℕ) (key : Hash) (st : Storage) (m : Stores)
    → total_by f (add_store key st m) ≡ f st + total_by f m
unfolding add_store total_by
total_by-add_store f key st [] = refl
total_by-add_store f key st ((h, o) ∷ m) = ground (arith, total_by-add_store f key st m)

pub equal_refl : (h : Hash) → Hash.equal h h ≡ true
unfolding Hash.equal
equal_refl [] = refl
equal_refl (x ∷ h) = ground (arith, equal_refl h)

pub find_store-add_store :
    (key : Hash) (st : Storage) (m : Stores)
    → find_store key m ≡ none
    → find_store key (add_store key st m) ≡ some st
unfolding find_store add_store
find_store-add_store key st [] e = rw (equal_refl key) refl
find_store-add_store key st ((h, o) ∷ m) e =
    ground (arith, equal_refl key, find_store-add_store key st m)

pub set_job_sums :
    (n : ℕ) (j : Option ℕ) (vs : List ValueStorage)
    → (sum_size (set_job n j vs) ≡ sum_size vs) × (length (set_job n j vs) ≡ length vs)
unfolding set_job sum_size
set_job_sums n j [] = (refl, refl)
set_job_sums zero j (v ∷ vs) = (refl, refl)
set_job_sums (suc n) j (v ∷ vs) =
    let ih = set_job_sums n j vs in (omega (arith, ih.0), omega (arith, ih.1))
