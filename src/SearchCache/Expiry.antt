-- ===== src/SearchCache/Expiry.antt =====
-- Which entries `expire` takes out, when the next is due, and what a cancellation does to that.
use opendht.Prelude.{
  ℕ, ◌+◌, ◌≤◌, ◌≡◌, ◌≢◌, ◌∙◌, sym, ap, refl, min, true, false, [], ◌∷◌, ◌++◌, none, inl, inr, arith,
  ltb, if◌then◌else◌, Bool-cases,
}
use opendht.Prelude.Map.{Map}
use opendht.Prelude.Map
use opendht.Time.{TimePoint, time_max}
use opendht.Storage.{LocalListener}
use opendht.OpCache.{OpCache, expiration_time, is_done, is_expired, get_expiration, remove_listener}
use opendht.SearchCache.{Op, SearchCache, expire_loop, expire, search_tokens, cancel_loop}

-- The entries that are not expired, and those that are.
unfoldable pub unexpired : TimePoint → Map Op → Map Op
unfolding is_expired
unexpired now [] = []
unexpired now ((r, op) ∷ ops) =
    let rest = unexpired now ops in if is_expired op.cache now then rest else (r, op) ∷ rest

unfoldable pub expired : TimePoint → Map Op → Map Op
unfolding is_expired
expired now [] = []
expired now ((r, op) ∷ ops) =
    let rest = expired now ops in if is_expired op.cache now then (r, op) ∷ rest else rest

-- The least expiration of the entries, from `next` down.
unfoldable pub earliest : Map Op → TimePoint → TimePoint
unfolding get_expiration
earliest [] next = next
earliest ((r, op) ∷ ops) next = earliest ops (min next (get_expiration op.cache))

due :
    (op : OpCache) (now : TimePoint)
    → now ≤ time_max
    → ltb (get_expiration op) now ≡ is_expired op now
unfolding is_expired get_expiration
due op now h = ground (arith, h)

expire_loop_lem :
    (now : TimePoint) (ops : Map Op) (next : TimePoint)
    → now ≤ time_max
    → expire_loop now ops next
      ≡ (unexpired now ops, earliest (unexpired now ops) next, search_tokens (expired now ops))
unfolding expire_loop unexpired expired earliest search_tokens
expire_loop_lem now [] next h = refl
expire_loop_lem now ((r, op) ∷ ops) next h = elim (Bool-cases (is_expired op.cache now)) [
  | inl over ↦
      let e : ltb (get_expiration op.cache) now ≡ true = due op.cache now h ∙ over in
      rw (e, over, expire_loop) (ground (arith, expire_loop_lem now ops next h))
  | inr on ↦
      let e : ltb (get_expiration op.cache) now ≡ false = due op.cache now h ∙ on in
      rw (e, on, expire_loop)
        (ground (arith, expire_loop_lem now ops (min next (get_expiration op.cache)) h))
]

-- If `now` is a time of the clock, `expire` keeps, in their order, the entries that have a listener or whose
-- `last_removed`, which the constructor and every call of removeListener set, is at most a minute before
-- `now`; it cancels the searches of the others and no more, and it returns the least expiration of those
-- it keeps, which is also the cache's next expiration.
pub expire_lem :
    (now : TimePoint) (sc : SearchCache)
    → now ≤ time_max
    → expire now sc ≡ (
      record sc {
        ops = unexpired now sc.ops;
        next_expiration = earliest (unexpired now sc.ops) time_max;
      },
      earliest (unexpired now sc.ops) time_max,
      search_tokens (expired now sc.ops),
    )
unfolding expire
expire_lem now sc h = rw (expire_loop_lem now sc.ops time_max h, expire) refl

no_listeners : (op : OpCache) → is_done op ≡ true → op.listeners ≡ []
unfolding is_done
no_listeners op h = go op.listeners h
  where
    go : (ls : Map LocalListener) → elim ls [ [] ↦ true | _ ∷ _ ↦ false ] ≡ true → ls ≡ []
    go [] h = refl
    go (l ∷ ls) h = absurd cc

-- Where the entry at the front has not the token, the loop goes on behind it.
cancel_past :
    (token r : ℕ) (now : TimePoint) (op : Op) (ops : Map Op)
    → (remove_listener token now op.cache).1 ≡ false
    → cancel_loop token now ((r, op) ∷ ops) ≡ (
      (r, record op { cache = (remove_listener token now op.cache).0 })
          ∷ (cancel_loop token now ops).0,
      (cancel_loop token now ops).1,
    )
unfolding cancel_loop
cancel_past token r now op ops e = rw e refl

cancel_hits :
    (token r : ℕ) (now : TimePoint) (op : Op) (ops : Map Op)
    → (remove_listener token now op.cache).1 ≡ true
    → (cancel_loop token now ((r, op) ∷ ops)).1 ≢ none
unfolding cancel_loop
cancel_hits token r now op ops e h = ground (arith, e, h)

not_had :
    (token : ℕ) (now : TimePoint) (op : OpCache)
    → is_done op ≡ true
    → (remove_listener token now op).1 ≡ false
unfolding remove_listener Map.find
not_had token now op h = rw (no_listeners op h) refl

removal_time :
    (token : ℕ) (now : TimePoint) (op : OpCache)
    → is_done op ≡ true
    → get_expiration (remove_listener token now op).0 ≡ now + expiration_time
unfolding get_expiration remove_listener Map.erase is_done
removal_time token now op h = rw (no_listeners op h) refl

-- Cancelling a token touches an entry with no listener too, if the entries before it do not have the
-- token: the entry, which may have been due, expires a minute after the cancellation.
pub cancel_loop-postpones :
    (token r : ℕ) (now : TimePoint) (op : Op) (before after : Map Op)
    → is_done op.cache ≡ true
    → (cancel_loop token now before).1 ≡ none
    → (op' : Op) × (later : Map Op) × ((cancel_loop token now (before ++ (r, op) ∷ after)).0
        ≡ (cancel_loop token now before).0 ++ (r, op') ∷ later)
      × (get_expiration op'.cache ≡ now + expiration_time)
unfolding cancel_loop
cancel_loop-postpones token r now op [] after done e = (
  record op { cache = (remove_listener token now op.cache).0 },
  (cancel_loop token now after).0,
  ap (λ x. x.0) (cancel_past token r now op after (not_had token now op.cache done)),
  removal_time token now op.cache done,
)
cancel_loop-postpones token r now op ((j, o) ∷ before) after done e =
    elim (Bool-cases (remove_listener token now o.cache).1) [
      | inl had ↦ absurd (cancel_hits token j now o before had e)
      | inr lacked ↦
          let past = cancel_past token j now o before lacked in
          let (op', later, ih, time) =
            cancel_loop-postpones token r now op before after done (sym (ap (λ x. x.1) past) ∙ e) in
          (
            op',
            later,
            ap (λ x. x.0) (cancel_past token j now o (before ++ (r, op) ∷ after) lacked)
                ∙ ap (λ t. (j, record o { cache = (remove_listener token now o.cache).0 }) ∷ t) ih
                ∙ ap (λ x. x.0 ++ (r, op') ∷ later) (sym past),
            time,
          )
    ]
