-- ===== src/DhtStore.antt =====
-- src/dht.cpp, "Storage": the storages of a node by key, with the quota of each address and the
-- totals. The local quota bucket stands at address 0 of the heap, and that of the address `ip`, a
-- number for each class of SockAddr::ipCmp, at `suc ip`. `key_id` is PublicKey::getId.
pub mod Puts
pub mod Counted
pub mod Measured
pub mod Effects
pub mod Counts
pub mod Totals
pub mod Maintain
pub mod Maintained
pub mod Calls
pub mod Refused
pub mod Ends
mod Tests
use opendht.Prelude.{
  ℕ, zero, suc, Bool, true, false, not, ◌&&◌, ◌||◌, List, [], ◌∷◌, ◌++◌, Option, none, some, ltb,
  leb, ◌==◌, if◌then◌else◌, length, min, ◌+◌, ◌%◌,
}
use opendht.Prelude.Int.{ℤ, pos, negsuc}
use opendht.Prelude.Words.{word, add_size, sub_size, add_diff}
use opendht.Prelude.Map.{Map}
use opendht.Prelude.Map
use opendht.Time.{TimePoint, time_min, time_max}
use opendht.Hash.{Hash}
use opendht.Hash
use opendht.Value.{Value, TypeStore, type_expiration}
use opendht.Value
use opendht.Filter.{passes}
use opendht.Query.{Query, get_filter}
use opendht.Storage.{ValueStorage, Listener, LocalListener, Storage, Shared, get, get_by_id}
use opendht.Storage.Bucket.{StorageBucket, get_oldest}
use opendht.Storage.Bucket
use opendht.Storage.Removal.{remove, expire}

-- What others are told: the call of a local listener's callback, the messages to a remote listener
-- (node and socket), and the job that maintains a storage.
pub data Notice : Type 0 where
  local_values : ℕ → List Value → Bool → Notice
  tell_values : ℕ → ℕ → Hash → List Value → Notice
  tell_expired : ℕ → ℕ → Hash → List ℕ → Notice
  maintain_at : Hash → TimePoint → Notice

abbrev pub Stores : Type 0
Stores = List (Hash × Storage)

-- The members of `Dht` that storage is made of; `quotas` are the addresses in `store_quota`.
pub record DhtStore : Type 0 where
  pub stores : Stores
  pub shared : Shared
  pub quotas : List ℕ
  pub total_values : ℕ
  pub total_size : ℕ
  pub max_keys : ℕ
  pub max_size : ℕ
  pub max_local : ℕ
  pub maintain_storage : Bool

-- std::map<InfoHash, Storage>: find, a write through an iterator, emplace of a key that is not there,
-- and erase.
unfoldable pub find_store : Hash → Stores → Option Storage
unfolding Hash.equal
find_store key [] = none
find_store key ((h, st) ∷ m) = if Hash.equal h key then some st else find_store key m

-- getLocalById
unfoldable pub get_local_by_id : Hash → ℕ → Stores → Option Value
unfolding find_store get_by_id
get_local_by_id key vid m = elim (find_store key m) [
  | none ↦ none
  | some st ↦ get_by_id vid st.values
]

-- getLocal
unfoldable pub get_local : Hash → Option (Value → Bool) → Stores → List Value
unfolding find_store get
get_local key f m = elim (find_store key m) [ none ↦ [] | some st ↦ get f st.values ]

unfoldable pub put_store : Hash → Storage → Stores → Stores
unfolding Hash.equal
put_store key st' [] = []
put_store key st' ((h, st) ∷ m) =
    if Hash.equal h key then (h, st') ∷ m else (h, st) ∷ put_store key st' m

unfoldable pub add_store : Hash → Storage → Stores → Stores
unfolding Hash.less
add_store key st' [] = (key, st') ∷ []
add_store key st' ((h, st) ∷ m) =
    if Hash.less key h then (key, st') ∷ (h, st) ∷ m else (h, st) ∷ add_store key st' m

unfoldable pub erase_store : Hash → Stores → Stores
unfolding Hash.equal
erase_store key [] = []
erase_store key ((h, st) ∷ m) = if Hash.equal h key then m else (h, st) ∷ erase_store key m

-- Storage(now)
abbrev pub new_storage : TimePoint → Storage
new_storage now = record {
  maintenance_time = now;
  listeners = [];
  local_listeners = [];
  listener_token = 1;
  values = [];
  total_size = 0;
}

-- The first loop of `storageChanged`.
unfoldable pub local_notices : Value → Map LocalListener → List Notice
unfolding passes
local_notices v [] = []
local_notices v ((token, l) ∷ ls) =
    let rest = local_notices v ls in
    if passes l.filter v then local_values token (v ∷ []) false ∷ rest else rest

-- The listeners of one node, and of all nodes, in the second loop.
unfoldable pub node_notices : (ℕ → Hash) → Hash → Value → ℕ → Map Listener → List Notice
unfolding passes get_filter
node_notices key_id key v node [] = []
node_notices key_id key v node ((socket, l) ∷ ls) =
    let rest = node_notices key_id key v node ls in
    if passes (get_filter key_id l.query.restriction) v
    then tell_values node socket key (v ∷ []) ∷ rest
    else rest

unfoldable pub remote_notices : (ℕ → Hash) → Hash → Value → Map (Map Listener) → List Notice
unfolding node_notices
remote_notices key_id key v [] = []
remote_notices key_id key v ((node, ls) ∷ nodes) =
    node_notices key_id key v node ls ++ remote_notices key_id key v nodes

unfoldable pub storage_changed : (ℕ → Hash) → Hash → Storage → Value → Bool → List Notice
unfolding local_notices remote_notices
storage_changed key_id key st v new_value =
    (if new_value then local_notices v st.local_listeners else [])
    ++ remote_notices key_id key v st.listeners

abbrev pub value_ids : List Value → List ℕ
value_ids [] = []
value_ids (v ∷ vs) = v.id ∷ value_ids vs

-- The loops of `storageRemoved`.
unfoldable pub expired_node : Hash → List ℕ → ℕ → Map Listener → List Notice
expired_node key vids node [] = []
expired_node key vids node ((socket, l) ∷ ls) =
    tell_expired node socket key vids ∷ expired_node key vids node ls

unfoldable pub expired_remote : Hash → List ℕ → Map (Map Listener) → List Notice
unfolding expired_node
expired_remote key vids [] = []
expired_remote key vids ((node, ls) ∷ nodes) =
    expired_node key vids node ls ++ expired_remote key vids nodes

unfoldable pub expired_local : List Value → Map LocalListener → List Notice
expired_local vs [] = []
expired_local vs ((token, l) ∷ ls) = local_values token vs true ∷ expired_local vs ls

unfoldable pub storage_removed : Hash → Storage → List Value → ℕ → DhtStore → DhtStore × List Notice
unfolding sub_size expired_remote expired_local
storage_removed key st vs size s = (
  record s {
    total_size = sub_size s.total_size size;
    total_values = sub_size s.total_values (length vs);
  },
  expired_remote key (value_ids vs) st.listeners ++ expired_local vs st.local_listeners,
)

-- `-diff`, as a size_t.
abbrev pub negated : ℤ → ℕ
negated (pos n) = sub_size 0 n
negated (negsuc n) = suc n % word

-- expireStore(i), for the storage `st` of the key.
unfoldable pub expire_at : TimePoint → Hash → Storage → DhtStore → DhtStore × List Notice
unfolding expire put_store storage_removed
expire_at now key st s =
    let (st', sh, diff, gone) = expire key now st s.shared in
    let s' : DhtStore = record s { stores = put_store key st' s.stores; shared = sh } in
    elim gone [ [] ↦ (s', []) | v ∷ vs ↦ storage_removed key st' (v ∷ vs) (negated diff) s' ]

unfoldable pub expire_storage : TimePoint → Hash → DhtStore → DhtStore × List Notice
unfolding find_store expire_at
expire_storage now key s = elim (find_store key s.stores) [
  | none ↦ (s, [])
  | some st ↦ expire_at now key st s
]

-- Whether the first loop of `expireStore` discards a storage.
unfoldable pub is_unused : Storage → Bool
is_unused st = elim st.values [
  | v ∷ vs ↦ false
  | [] ↦ elim st.listeners [
    | l ∷ ls ↦ false
    | [] ↦ elim st.local_listeners [ [] ↦ true | l ∷ ls ↦ false ]
  ]
]

unfoldable pub discard_unused : Hash → DhtStore → DhtStore
unfolding find_store is_unused erase_store
discard_unused key s = elim (find_store key s.stores) [
  | none ↦ s
  | some st ↦ if is_unused st then record s { stores = erase_store key s.stores } else s
]

-- The first loop, for the keys that it goes over.
unfoldable pub expire_each : TimePoint → Stores → DhtStore → DhtStore × List Notice
unfolding expire_storage discard_unused
expire_each now [] s = (s, [])
expire_each now ((key, _) ∷ m) s =
    let (s1, told) = expire_storage now key s in
    let (s2, more) = expire_each now m (discard_unused key s1) in (s2, told ++ more)

-- The address whose bucket is the largest, the first of those.
unfoldable pub largest : (ℕ → StorageBucket) → ℕ → List ℕ → ℕ
largest bucket ip [] = ip
largest bucket ip (i ∷ is) =
    largest bucket (if ltb (bucket (suc ip)).total_size (bucket (suc i)).total_size then i else ip)
      is

-- Whether the loops go on after a round of `expireStore`'s second loop.
pub data Round : Type 0 where
  over : Round
  evicted : DhtStore → List Notice → Round
  stuck : Round

-- `total_store_size - local_store_quota->size() > max_store_size`
unfoldable pub is_over_limit : DhtStore → Bool
unfolding sub_size
is_over_limit s = ltb s.max_size (sub_size s.total_size (s.shared.bucket 0).total_size)

-- The body of the inner loop, for the address `ip`: `stuck` where it goes round for ever.
unfoldable pub evict_oldest : ℕ → DhtStore → Round
unfolding get_oldest find_store remove put_store storage_removed Value.size
evict_oldest ip s =
    let (key, vid) = get_oldest (s.shared.bucket (suc ip)) 20 in
    elim (find_store key s.stores) [
      | none ↦ stuck
      | some st ↦
          let (st', sh, found) = remove key vid st s.shared in
          let s' : DhtStore = record s { stores = put_store key st' s.stores; shared = sh } in
          elim found [
            | none ↦ stuck
            | some v ↦
                let (s2, told) = storage_removed key st' (v ∷ []) (Value.size v) s' in
                evicted s2 told
          ]
    ]

-- A round of the second loop.
unfoldable pub evict_round : DhtStore → Round
unfolding is_over_limit largest evict_oldest
evict_round s = elim (is_over_limit s) [
  | false ↦ over
  | true ↦ elim s.quotas [
    | [] ↦ over
    | q ∷ qs ↦
        let ip = largest s.shared.bucket q qs in
        elim (s.shared.bucket (suc ip)).stored_values [ [] ↦ over | e ∷ es ↦ evict_oldest ip s ]
  ]
]

-- The second loop, for some rounds; and whether it has ended.
unfoldable pub evict : ℕ → DhtStore → DhtStore × List Notice × Bool
unfolding evict_round
evict zero s = (s, [], false)
evict (suc rounds) s = elim (evict_round s) [
  | over ↦ (s, [], true)
  | stuck ↦ (s, [], false)
  | evicted s' told ↦ let (s2, more, ended) = evict rounds s' in (s2, told ++ more, ended)
]

-- The third loop.
unfoldable pub used_quotas : (ℕ → StorageBucket) → List ℕ → List ℕ
used_quotas bucket [] = []
used_quotas bucket (i ∷ is) =
    let rest = used_quotas bucket is in
    elim (bucket (suc i)).stored_values [ [] ↦ rest | e ∷ es ↦ i ∷ rest ]

-- expireStore(), with at most so many rounds of the second loop; and whether it has ended.
unfoldable pub expire_store : ℕ → TimePoint → DhtStore → DhtStore × List Notice × Bool
unfolding expire_each evict used_quotas
expire_store rounds now s =
    let (s1, told) = expire_each now s.stores s in
    let (s2, more, ended) = evict rounds s1 in
    (
      if ended then record s2 { quotas = used_quotas s2.shared.bucket s2.quotas } else s2,
      told ++ more,
      ended,
    )
