-- ===== src/Request/Tests.antt =====
-- A request with all its callbacks.
use opendht.Prelude.{◌≤◌, ◌≡◌, refl, true, false, [], ◌∷◌, some, length}
use opendht.Request.{Request, new, is_pending, done_called}
use opendht.Request.Once.{
  completes, expires, fails, cancels, end, end_all, end_all_first, end_all-le-one,
}

abbrev asked : Request
asked = new 3 7 (1 ∷ []) true (some true) true

completes_once : (end_all (completes ∷ expires ∷ []) asked).1 ≡ done_called ∷ []
unfolding end_all new
completes_once = refl

end_all_first_example :
    ((end_all (expires ∷ completes ∷ cancels ∷ []) asked).0 ≡ (end expires asked).0)
    × (is_pending (end_all (expires ∷ completes ∷ cancels ∷ []) asked).0.state ≡ false)
    × ((end_all (expires ∷ completes ∷ cancels ∷ []) asked).1 ≡ (end expires asked).1)
end_all_first_example = end_all_first expires (completes ∷ cancels ∷ []) asked

end_all-le-one_example : length (end_all (fails ∷ completes ∷ []) asked).1 ≤ 1
end_all-le-one_example = end_all-le-one (fails ∷ completes ∷ []) asked
