-- ===== src/Node.antt =====
-- include/opendht/node.h and src/node.cpp: `Node`, what is known of a peer. Nodes and requests are
-- shared objects, so a node holds its requests by address, and the requests stand in a heap. Addresses
-- of peers and the sockets' callbacks are identities.
pub mod Tids
pub mod Life
mod Tests
use opendht.Prelude.{
  ℕ, suc, ◌+◌, ◌-◌, ◌%◌, Bool, true, false, not, ◌&&◌, List, [], ◌∷◌, ◌++◌, Option, none, some, ltb,
  leb, ◌==◌, if◌then◌else◌,
}
use opendht.Time.{TimePoint, Duration, time_min, minutes}
use opendht.Hash.{Hash}
use opendht.Prelude.Map.{Map}
use opendht.Prelude.Map
use opendht.Request.{Request, Event, is_pending}
use opendht.Request

pub record Node : Type 0 where
  pub id : Hash
  pub addr : ℕ
  pub is_client : Bool
  pub time : TimePoint
  pub reply_time : TimePoint
  pub auth_errors : ℕ
  pub expired : Bool
  pub transaction_id : ℕ
  pub requests : Map ℕ
  pub sockets : Map ℕ

-- The requests by address, and the calls that they have made.
pub record Requests : Type 0 where
  pub at : ℕ → Request
  pub calls : List Event

abbrev pub node_good_time : Duration
node_good_time = minutes 120

abbrev pub node_expire_time : Duration
node_expire_time = minutes 10

abbrev pub max_auth_errors : ℕ
max_auth_errors = 3

-- 2 ^ 32: `Tid` is uint32_t, and `auth_errors` an unsigned.
abbrev pub tid_mod : ℕ
tid_mod = 4294967296

-- The constructor; `tid` is the number that the generator draws, from 1 on.
unfoldable pub new : Hash → ℕ → ℕ → Bool → Node
new id addr tid client = record {
  id = id;
  addr = addr;
  is_client = client;
  time = time_min;
  reply_time = time_min;
  auth_errors = 0;
  expired = false;
  transaction_id = tid;
  requests = [];
  sockets = [];
}

unfoldable pub is_incoming : Node → Bool
is_incoming n = ltb n.reply_time n.time

unfoldable pub is_good : Node → TimePoint → Bool
is_good n now =
    not n.expired
    && (leb (now - node_good_time) n.reply_time && leb (now - node_expire_time) n.time)

unfoldable pub is_old : Node → TimePoint → Bool
is_old n now = ltb (n.time + node_expire_time) now

unfoldable pub is_removable : Node → TimePoint → Bool
unfolding is_old
is_removable n now = n.expired && is_old n now

unfoldable pub any_pending : Map ℕ → Requests → Bool
any_pending [] rs = false
any_pending ((tid, r) ∷ rest) rs = elim (is_pending (rs.at r).state) [
  | true ↦ true
  | false ↦ any_pending rest rs
]

unfoldable pub is_pending_message : Node → Requests → Bool
unfolding any_pending
is_pending_message n rs = any_pending n.requests rs

unfoldable pub count_pending : Map ℕ → Requests → ℕ
count_pending [] rs = 0
count_pending ((tid, r) ∷ rest) rs =
    (if is_pending (rs.at r).state then 1 else 0) + count_pending rest rs

-- getPendingMessageCount
unfoldable pub pending_message_count : Node → Requests → ℕ
unfolding count_pending
pending_message_count n rs = count_pending n.requests rs

unfoldable pub update : Node → ℕ → Node
update n addr = record n { addr = addr }

-- A call on the request at address r.
unfoldable pub on_request : ℕ → (Request → Request × List Event) → Requests → Requests
on_request r f rs = record {
  at = λ k. if k == r then (f (rs.at k)).0 else rs.at k;
  calls = rs.calls ++ (f (rs.at r)).1;
}

-- `requested(req)`, for the request at address r: one that is there under its tid, and is another,
-- expires.
unfoldable pub requested : Node → ℕ → Requests → Node × Requests
unfolding on_request Request.set_expired Map.find Map.emplace Map.assign
requested n r rs =
    let tid = (rs.at r).tid in
    elim (Map.find tid n.requests) [
      | none ↦ (record n { requests = Map.emplace tid r n.requests }, rs)
      | some other ↦ if other == r then (n, rs) else (
        record n { requests = Map.assign tid r n.requests },
        on_request other Request.set_expired rs,
      )
    ]

unfoldable pub received : Node → TimePoint → Option ℕ → Requests → Node
unfolding Map.erase
received n now none rs = record n { time = now; expired = false }
received n now (some r) rs = record n {
  time = now;
  expired = false;
  reply_time = now;
  requests = Map.erase (rs.at r).tid n.requests;
}

unfoldable pub get_request : Node → ℕ → Option ℕ
unfolding Map.find
get_request n tid = Map.find tid n.requests

unfoldable pub cancel_request : Node → Option ℕ → Requests → Node × Requests
unfolding on_request Request.cancel Map.erase
cancel_request n none rs = (n, rs)
cancel_request n (some r) rs = (
  record n { requests = Map.erase (rs.at r).tid n.requests },
  on_request r (λ q. (Request.cancel q, [])) rs,
)

-- The loop of `setExpired` over the requests.
unfoldable pub expire_all : Map ℕ → Requests → Requests
unfolding on_request Request.set_expired
expire_all [] rs = rs
expire_all ((tid, r) ∷ rest) rs = expire_all rest (on_request r Request.set_expired rs)

unfoldable pub set_expired : Node → Requests → Node × Requests
unfolding expire_all
set_expired n rs =
    (record n { expired = true; requests = []; sockets = [] }, expire_all n.requests rs)

unfoldable pub auth_error : Node → Requests → Node × Requests
unfolding set_expired
auth_error n rs =
    let n' = (record n { auth_errors = (n.auth_errors + 1) % tid_mod }) in
    if ltb max_auth_errors n'.auth_errors then set_expired n' rs else (n', rs)

unfoldable pub auth_success : Node → Node
auth_success n = record n { auth_errors = 0 }

unfoldable pub reset : Node → Node
reset n = record n { expired = false; reply_time = time_min }

-- `++transaction_id`, again if that is 0.
unfoldable pub next_tid : ℕ → ℕ
next_tid t = let t' = (t + 1) % tid_mod in if t' == 0 then (t' + 1) % tid_mod else t'

unfoldable pub get_new_tid : Node → Node × ℕ
unfolding next_tid
get_new_tid n = let tid = next_tid n.transaction_id in (record n { transaction_id = tid }, tid)

-- openSocket, with `if (++transaction_id == 0) transaction_id = 1`.
unfoldable pub open_socket : Node → ℕ → Node × ℕ
unfolding Map.assign
open_socket n cb =
    let t = (n.transaction_id + 1) % tid_mod in
    let tid = if t == 0 then 1 else t in
    (record n { transaction_id = tid; sockets = Map.assign tid cb n.sockets }, tid)

unfoldable pub get_socket : Node → ℕ → Option ℕ
unfolding Map.find
get_socket n id = Map.find id n.sockets

unfoldable pub close_socket : Node → ℕ → Node
unfolding Map.erase
close_socket n id = if id == 0 then n else record n { sockets = Map.erase id n.sockets }
