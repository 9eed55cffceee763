-- ===== src/Node/Tests.antt =====
-- A node with one request that waits for an answer.
use opendht.Prelude.{◌≡◌, true, false, [], ◌∷◌, none, some, ◌==◌, not, ◌&&◌, if◌then◌else◌}
use opendht.Hash.{zero_hash}
use opendht.Request.{Request, is_pending}
use opendht.Request
use opendht.Node.{
  Node, Requests, tid_mod, node_expire_time, is_good, count_pending, pending_message_count,
  requested, received, get_request, set_expired, auth_success, get_new_tid, open_socket, get_socket,
  close_socket,
}
use opendht.Node
use opendht.Node.Life.{is_displaced, set_expired_ends, requested_lookup}

-- The request at every address k has the tid 7.
abbrev heap : Requests
heap = record { at = λ k. Request.new 0 7 (k ∷ []) true none true; calls = [] }

abbrev fresh : Node
fresh = Node.new (zero_hash 20) 5 4294967295 false

abbrev asked : Node
asked = (requested fresh 2 heap).0

set_expired_ends_example :
    (count_pending asked.requests (set_expired asked heap).1 ≡ 0)
    × (pending_message_count (set_expired asked heap).0 (set_expired asked heap).1 ≡ 0)
    × (is_good (set_expired asked heap).0 5 ≡ false)
set_expired_ends_example = set_expired_ends asked heap 5

requested_lookup_example :
    (get_request (requested asked 3 heap).0 7
      ≡ (if (heap.at 3).tid == 7 then some 3 else get_request asked 7))
    × (is_pending ((requested asked 3 heap).1.at 2).state
        ≡ (is_pending (heap.at 2).state && not (is_displaced asked 3 heap 2)))
requested_lookup_example = requested_lookup asked 3 7 2 heap
