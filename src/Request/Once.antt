-- ===== src/Request/Once.antt =====
-- A request ends once: it leaves `pending` at most once, and at most one call reports its end.
use mathlib.Core.List.{append-nil}
use opendht.Prelude.{◌≤◌, ◌≡◌, refl, false, List, [], ◌∷◌, ◌++◌, arith, length}
use opendht.Request.{Request, Event, set_expired, set_done, set_error, cancel, is_pending}

-- The operations that may end a request.
pub data Ending : Type 0 where
  expires completes fails cancels : Ending

unfoldable pub end : Ending → Request → Request × List Event
unfolding set_expired set_done set_error cancel
end expires r = set_expired r
end completes r = set_done r
end fails r = let (r', _, calls) = set_error r in (r', calls)
end cancels r = (cancel r, [])

-- A sequence of them: the request, and all calls.
unfoldable pub end_all : List Ending → Request → Request × List Event
unfolding end
end_all [] r = (r, [])
end_all (e ∷ es) r =
    let (r', calls) = end e r in let (r'', later) = end_all es r' in (r'', calls ++ later)

-- A request that is over stays as it is, and calls nothing.
over_stays : (e : Ending) (r : Request) → is_pending r.state ≡ false → end e r ≡ (r, [])
unfolding end
over_stays expires r h = rw h
over_stays completes r h = rw h
over_stays fails r h = rw h
over_stays cancels r h = rw h

ends : (e : Ending) (r : Request) → is_pending (end e r).0.state ≡ false
unfolding end
ends expires r = ground arith
ends completes r = ground arith
ends fails r = ground arith
ends cancels r = ground arith

calls-le-one : (e : Ending) (r : Request) → length (end e r).1 ≤ 1
unfolding end
calls-le-one expires r = ground arith
calls-le-one completes r = ground arith
calls-le-one fails r = ground arith
calls-le-one cancels r = ground arith

end_all_over :
    (es : List Ending) (r : Request) → is_pending r.state ≡ false → end_all es r ≡ (r, [])
unfolding end_all
end_all_over [] r h = refl
end_all_over (e ∷ es) r h = ground (arith, over_stays e r h, end_all_over es r h)

-- After any operation that may end a request, it is over, and whatever others follow leave it as the
-- first one left it.
pub end_all_first :
    (e : Ending) (es : List Ending) (r : Request)
    → ((end_all (e ∷ es) r).0 ≡ (end e r).0)
      × (is_pending (end_all (e ∷ es) r).0.state ≡ false)
      × ((end_all (e ∷ es) r).1 ≡ (end e r).1)
unfolding end_all
end_all_first e es r =
    rw (end_all_over es (end e r).0 (ends e r)) (refl, ends e r, append-nil (end e r).1)

-- Of `on_done`, `on_error` and `on_expired(true)` at most one is called, and once, in any sequence of
-- operations that end a request.
pub end_all-le-one : (es : List Ending) (r : Request) → length (end_all es r).1 ≤ 1
unfolding end_all
end_all-le-one [] r = omega arith
end_all-le-one (e ∷ es) r =
    rw (end_all_over es (end e r).0 (ends e r), append-nil (end e r).1) (calls-le-one e r)
