-- ===== src/Node/Tids.antt =====
-- Transaction ids of a node, and the sockets that are opened under them.
use opendht.Prelude.{ℕ, ◌+◌, ◌%◌, ◌<◌, ◌≡◌, false, none, some, arith, ◌==◌, if◌then◌else◌}
use opendht.Prelude.Map
use opendht.Node.{Node, tid_mod, next_tid, get_new_tid, open_socket, get_socket, close_socket}

-- A new transaction id is not 0 and fits 32 bits, and it is the id that the node keeps; the id before
-- it is another one.
pub get_new_tid_range :
    (n : Node)
    → n.transaction_id < tid_mod
    → (0 < (get_new_tid n).1)
      × ((get_new_tid n).1 < tid_mod)
      × ((get_new_tid n).0.transaction_id ≡ (get_new_tid n).1)
      × (((get_new_tid n).1 == n.transaction_id) ≡ false)
unfolding get_new_tid next_tid
get_new_tid_range n h = ground arith

-- The id that `openSocket` returns is not 0 and fits 32 bits. Then `getSocket` finds the callback
-- under it, and under other ids what it found before; once the socket is closed, it finds nothing
-- under the id.
pub open_socket_lookup :
    (n : Node) (cb id : ℕ)
    → n.transaction_id < tid_mod
    → (0 < (open_socket n cb).1)
      × ((open_socket n cb).1 < tid_mod)
      × (get_socket (open_socket n cb).0 id
          ≡ (if (open_socket n cb).1 == id then some cb else get_socket n id))
      × (get_socket (close_socket (open_socket n cb).0 (open_socket n cb).1) id
          ≡ (if (open_socket n cb).1 == id then none else get_socket n id))
unfolding open_socket get_socket close_socket
open_socket_lookup n cb id h =
    let t : ℕ = (n.transaction_id + 1) % tid_mod in
    let tid : ℕ = if t == 0 then 1 else t in
    let after = Map.find-assign tid id cb n.sockets in
    let closed = Map.find-erase tid id (Map.assign tid cb n.sockets) in
    ground (arith, after, closed)
