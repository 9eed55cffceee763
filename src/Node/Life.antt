-- ===== src/Node/Life.antt =====
-- When a node is good, when it expires, and what becomes of its requests.
use opendht.Prelude.{
  ℕ, ◌+◌, ◌≡◌, refl, Bool, false, not, ◌&&◌, [], ◌∷◌, none, some, arith, leb, ◌==◌, ==_iff,
  if◌then◌else◌, inl, inr, Bool-cases, Option-cases, subst,
}
use opendht.Time.{TimePoint}
use opendht.Prelude.Map.{Map}
use opendht.Prelude.Map
use opendht.Request.{Request, is_pending}
use opendht.Request
use opendht.Node.{
  Node, Requests, node_expire_time, is_good, count_pending, pending_message_count, on_request,
  requested, received, get_request, expire_all, set_expired,
}

-- The request at address k stays over.
stays_over :
    (m : Map ℕ) (rs : Requests) (k : ℕ)
    → is_pending (rs.at k).state ≡ false
    → is_pending ((expire_all m rs).at k).state ≡ false
unfolding expire_all on_request Request.set_expired Request.clear
stays_over [] rs k h = h
stays_over ((tid, r) ∷ rest) rs k h =
    stays_over rest (on_request r Request.set_expired rs) k (ground arith)

over_after : (m : Map ℕ) (rs : Requests) → count_pending m (expire_all m rs) ≡ 0
unfolding expire_all count_pending on_request Request.set_expired Request.clear
over_after [] rs = refl
over_after ((tid, r) ∷ rest) rs =
    let rs' : Requests = on_request r Request.set_expired rs in
    let first = stays_over rest rs' r (ground arith) in ground (arith, first, over_after rest rs')

-- When a node expires, none of the requests that it had is pending any more, it has none, and it is
-- good at no time.
pub set_expired_ends :
    (n : Node) (rs : Requests) (now : TimePoint)
    → (count_pending n.requests (set_expired n rs).1 ≡ 0)
      × (pending_message_count (set_expired n rs).0 (set_expired n rs).1 ≡ 0)
      × (is_good (set_expired n rs).0 now ≡ false)
unfolding set_expired pending_message_count count_pending is_good
set_expired_ends n rs now = (over_after n.requests rs, refl, refl)

-- A node that has answered a request at `now` is good up to `node_expire_time` later, and no longer.
pub received_good :
    (n : Node) (now t : TimePoint) (r : ℕ) (rs : Requests)
    → is_good (received n now (some r) rs) t ≡ leb t (now + node_expire_time)
unfolding is_good received
received_good n now t r rs = ground arith

-- Whether the request at address k is another one that stands under the tid of the request at r.
abbrev pub is_displaced : Node → ℕ → Requests → ℕ → Bool
is_displaced n r rs k = elim (get_request n (rs.at r).tid) [
  | none ↦ false
  | some other ↦ k == other && not (other == r)
]

found-at :
    (i k other : ℕ) (m : Map ℕ)
    → Map.find i m ≡ some other
    → Map.find k m ≡ (if i == k then some other else Map.find k m)
found-at i k other m e = elim (Bool-cases (i == k)) [
  | inl hit ↦ rw hit (subst (λ j. Map.find j m ≡ some other) ((==_iff i k).0 hit) e)
  | inr miss ↦ rw miss refl
]

-- After `requested` the node finds the request under its tid, and under other tids what it found
-- before. Another request that stood under that tid is over, and every other request is pending if and
-- only if it was.
pub requested_lookup :
    (n : Node) (r tid k : ℕ) (rs : Requests)
    → (get_request (requested n r rs).0 tid
        ≡ (if (rs.at r).tid == tid then some r else get_request n tid))
      × (is_pending ((requested n r rs).1.at k).state
          ≡ (is_pending (rs.at k).state && not (is_displaced n r rs k)))
unfolding requested get_request on_request Request.set_expired Request.clear
requested_lookup n r tid k rs = elim (Option-cases (Map.find (rs.at r).tid n.requests)) [
  | inl new ↦ ground (arith, new, Map.find-emplace (rs.at r).tid tid r n.requests)
  | inr (other, there) ↦ elim (Bool-cases (other == r)) [
    | inl same ↦ ground (arith, there, same, found-at (rs.at r).tid tid other n.requests there)
    | inr others ↦ ground (arith, there, others, Map.find-assign (rs.at r).tid tid r n.requests)
  ]
]
