-- ===== src/SearchCache/Tokens.antt =====
-- The tokens of listeners: `listen` gives a new one, and `cancelListen` takes that listener out alone.
use opendht.Prelude.{
  ℕ, suc, ◌+◌, ◌-◌, ◌%◌, ◌≤◌, ◌<◌, ◌≡◌, ◌≢◌, ◌∙◌, sym, ap, refl, subst, Bool, true, false, not,
  ◌&&◌, ◌||◌, [], ◌∷◌, none, some, inl, inr, arith, ltb, ◌==◌, if◌then◌else◌, Bool-cases,
  Option-cases, ==_iff,
}
use opendht.Prelude.Map.{Map, find-emplace, find-update, find-erase}
use opendht.Prelude.Map
use opendht.Time.{TimePoint}
use opendht.Query.{Query}
use opendht.Storage.{LocalListener}
use opendht.OpCache.{OpCache, size_mod, add_listener, remove_listener, get_expiration}
use opendht.OpCache
use opendht.SearchCache.{
  Op, SearchCache, satisfying, get_op, token_after, join, listen, cancel_loop, cancel_listen,
}

has : ℕ → Map LocalListener → Bool
unfolding Map.find
has k ls = elim (Map.find k ls) [ none ↦ false | some _ ↦ true ]

-- How many entries have a listener with the token k.
unfoldable pub count_token : ℕ → Map Op → ℕ
unfolding has
count_token k [] = 0
count_token k ((r, op) ∷ ops) = (if has k op.cache.listeners then 1 else 0) + count_token k ops

has-emplace :
    (j k : ℕ) (l : LocalListener) (ls : Map LocalListener)
    → has k (Map.emplace j l ls) ≡ (j == k || has k ls)
unfolding has
has-emplace j k l ls = ground (arith, find-emplace j k l ls)

has-erase : (j k : ℕ) (ls : Map LocalListener) → has k (Map.erase j ls) ≡ (not (j == k) && has k ls)
unfolding has
has-erase j k ls = ground (arith, find-erase j k ls)

count_token-insert :
    (k r : ℕ) (op : Op) (ops : Map Op)
    → count_token k (Map.insert r op ops)
      ≡ (if has k op.cache.listeners then 1 else 0) + count_token k ops
unfolding count_token Map.insert
count_token-insert k r op [] = refl
count_token-insert k r op ((j, o) ∷ ops) = ground (arith, count_token-insert k r op ops)

count_token-update :
    (k at : ℕ) (f : Op → Op) (op : Op) (ops : Map Op)
    → Map.find at ops ≡ some op
    → count_token k (Map.update at f ops) + (if has k op.cache.listeners then 1 else 0)
      ≡ count_token k ops + (if has k (f op).cache.listeners then 1 else 0)
unfolding count_token Map.update Map.find
count_token-update k at f op [] e = absurd cc
count_token-update k at f op ((j, o) ∷ ops) e = elim (Bool-cases (j == at)) [
  | inl here ↦ let same : o ≡ op = ground (arith, e, here) in rw here (rw same (omega arith))
  | inr other ↦
      rw other (omega (arith, count_token-update k at f op ops (ground (arith, e, other))))
]

has-count_token :
    (k at : ℕ) (op : Op) (ops : Map Op)
    → Map.find at ops ≡ some op
    → count_token k ops ≡ 0
    → has k op.cache.listeners ≡ false
unfolding count_token Map.find
has-count_token k at op [] e z = absurd cc
has-count_token k at op ((j, o) ∷ ops) e z = elim (Bool-cases (j == at)) [
  | inl here ↦
      let same : o ≡ op = ground (arith, e, here) in
      subst (λ x. has k x.cache.listeners ≡ false) same (ground (arith, z))
  | inr other ↦ has-count_token k at op ops (ground (arith, e, other)) (ground (arith, z))
]

same_has : (j k : ℕ) (ls : Map LocalListener) → has j ls ≡ true → j == k ≡ true → has k ls ≡ true
same_has j k ls h e = subst (λ i. has i ls ≡ true) ((==_iff j k).0 e) h

lacks_has : (j k : ℕ) (ls : Map LocalListener) → has j ls ≡ false → j == k ≡ true → has k ls ≡ false
lacks_has j k ls h e = subst (λ i. has i ls ≡ false) ((==_iff j k).0 e) h

-- The loop of cancelListen takes the token out of one entry, if any has it.
cancel_loop-counts :
    (token k : ℕ) (now : TimePoint) (ops : Map Op)
    → (count_token k (cancel_loop token now ops).0
        ≡ (if token == k then count_token k ops - 1 else count_token k ops))
      × ((elim (cancel_loop token now ops).1 [ none ↦ false | some _ ↦ true ])
          ≡ ltb 0 (count_token token ops))
unfolding cancel_loop count_token remove_listener
cancel_loop-counts token k now [] = (ground arith, refl)
cancel_loop-counts token k now ((r, op) ∷ ops) =
    let ih = cancel_loop-counts token k now ops in
    let erased = has-erase token k op.cache.listeners in
    elim (Bool-cases (has token op.cache.listeners)) [
      | inl had ↦
          let same = same_has token k op.cache.listeners had in
          rw had (ground (arith, erased, same), ground (arith, had))
      | inr lacked ↦
          let same = lacks_has token k op.cache.listeners lacked in
          rw lacked (ground (arith, erased, same, ih.0), ground (arith, lacked, ih.1))
    ]

add_listener-has :
    (token k : ℕ) (l : LocalListener) (op : OpCache)
    → has k (add_listener token l op).0.listeners
      ≡ (((add_listener token l op).1 && token == k) || has k op.listeners)
unfolding add_listener
add_listener-has token k l op = ground (arith, has-emplace token k l op.listeners)

join-some :
    (at : ℕ) (l : LocalListener) (sc : SearchCache) (op : Op)
    → Map.find at sc.ops ≡ some op
    → join at l sc ≡ (
      record sc {
        ops =
            Map.update at
              (λ o. record o { cache = (add_listener sc.next_token l op.cache).0 })
              sc.ops;
        next_token = token_after sc.next_token;
      },
      if (add_listener sc.next_token l op.cache).1 then sc.next_token else 0,
    )
unfolding join
join-some at l sc op e = rw (e, join) refl

-- What `listen` did: the token is 0, or one that no listener had, which one listener has now.
abbrev Joins : SearchCache → SearchCache × ℕ → Type 0
Joins sc (sc', token) =
    ((k : ℕ)
      → count_token k sc'.ops
        ≡ count_token k sc.ops + (if token == 0 then 0 else if token == k then 1 else 0))
    × (sc'.next_token ≡ suc sc.next_token)
    × (token ≢ 0 → token ≡ sc.next_token)

-- No listener has a token from the next one on, which is not 0.
pub record IsFresh (sc : SearchCache) : Type 0 where
  pub unused : (k : ℕ) → sc.next_token ≤ k → count_token k sc.ops ≡ 0
  pub positive : 0 < sc.next_token

join-Joins :
    (at : ℕ) (l : LocalListener) (sc : SearchCache) (op : Op)
    → Map.find at sc.ops ≡ some op
    → IsFresh sc
    → suc sc.next_token < size_mod
    → Joins sc (join at l sc)
unfolding token_after
join-Joins at l sc op e fresh room =
    let n : ℕ = sc.next_token in
    let f : Op → Op = λ o. record o { cache = (add_listener n l op.cache).0 } in
    let wraps : (n + 1) % size_mod ≡ suc n = omega (arith, room) in
    let new = has-count_token n at op sc.ops e (fresh.unused n (omega arith)) in
    subst (Joins sc) (sym (join-some at l sc op e)) (
      λ k. elim (Bool-cases (add_listener n l op.cache).1) [
        | inl ok ↦ rw ok (
            ground (
              arith,
              count_token-update k at f op sc.ops e,
              add_listener-has n k l op.cache,
              ok,
              lacks_has n k op.cache.listeners new,
              fresh.positive,
            ))
        | inr declined ↦ rw declined (
            ground (
              arith,
              count_token-update k at f op sc.ops e,
              add_listener-has n k l op.cache,
              declined,
            ))
      ],
      ground (arith, wraps),
      elim (Bool-cases (add_listener n l op.cache).1) [
        | inl ok ↦ rw ok (λ h. refl)
        | inr declined ↦ rw declined (λ h. absurd (h refl))
      ],
    )

satisfying_found :
    (q : Query) (ops : Map Op) (at : ℕ)
    → satisfying q ops ≡ some at
    → (op : Op) × (Map.find at ops ≡ some op)
unfolding satisfying Map.find
satisfying_found q [] at e = absurd cc
satisfying_found q ((j, o) ∷ ops) at e = elim (Bool-cases (j == at)) [
  | inl here ↦ (o, rw here refl)
  | inr other ↦
      let (op, found) = satisfying_found q ops at (ground (arith, e, other)) in (op, rw other found)
]

get_op_found :
    (r : ℕ) (q : Query) (ops : Map Op) (at : ℕ)
    → get_op r q ops ≡ some at
    → (op : Op) × (Map.find at ops ≡ some op)
unfolding get_op
get_op_found r q ops at e = elim (Option-cases (Map.find r ops)) [
  | inl absent ↦ satisfying_found q ops at (ground (arith, e, absent))
  | inr (op, there) ↦
      let same : r ≡ at = ground (arith, e, there) in
      (op, subst (λ i. Map.find i ops ≡ some op) same there)
]

get_op_missing : (r : ℕ) (q : Query) (ops : Map Op) → get_op r q ops ≡ none → Map.find r ops ≡ none
unfolding get_op
get_op_missing r q ops e = ground (arith, e)

listen-some :
    (r : ℕ) (q : Query) (l : LocalListener) (search : ℕ) (now : TimePoint) (sc : SearchCache)
    (at : ℕ)
    → get_op r q sc.ops ≡ some at
    → listen r q l search now sc ≡ join at l sc
unfolding listen
listen-some r q l search now sc at e = rw (e, listen) refl

abbrev new_op : Query → ℕ → TimePoint → Op
new_op q search now = record {
  query = q;
  cache = record (OpCache.new now) { search_token = search };
}

listen-none :
    (r : ℕ) (q : Query) (l : LocalListener) (search : ℕ) (now : TimePoint) (sc : SearchCache)
    → get_op r q sc.ops ≡ none
    → listen r q l search now sc
      ≡ join r l (record sc { ops = Map.emplace r (new_op q search now) sc.ops })
unfolding listen
listen-none r q l search now sc e = rw (e, listen) refl

count_token-emplace :
    (k r : ℕ) (q : Query) (search : ℕ) (now : TimePoint) (ops : Map Op)
    → count_token k (Map.emplace r (new_op q search now) ops) ≡ count_token k ops
unfolding Map.emplace OpCache.new has Map.find
count_token-emplace k r q search now ops =
    ground (arith, count_token-insert k r (new_op q search now) ops)

listen-Joins :
    (r : ℕ) (q : Query) (l : LocalListener) (search : ℕ) (now : TimePoint) (sc : SearchCache)
    → IsFresh sc
    → suc sc.next_token < size_mod
    → Joins sc (listen r q l search now sc)
listen-Joins r q l search now sc fresh room = elim (Option-cases (get_op r q sc.ops)) [
  | inl gone ↦
      let op : Op = new_op q search now in
      let sc' : SearchCache = record sc { ops = Map.emplace r op sc.ops } in
      let same = λ (k : ℕ). count_token-emplace k r q search now sc.ops in
      let there : Map.find r sc'.ops ≡ some op =
        ground (arith, find-emplace r r op sc.ops, get_op_missing r q sc.ops gone) in
      let fresh' : IsFresh sc' = record {
        unused = λ k p. same k ∙ fresh.unused k p;
        positive = fresh.positive;
      } in
      let joined = join-Joins r l sc' op there fresh' room in
      subst (Joins sc) (sym (listen-none r q l search now sc gone)) (
        λ k.
            joined.0 k
            ∙ ap
                (λ (c : ℕ).
                  c + (if (join r l sc').1 == 0 then 0 else if (join r l sc').1 == k then 1 else 0))
                (same k),
        joined.1,
        joined.2,
      )
  | inr (at, e) ↦
      let (op, there) = get_op_found r q sc.ops at e in
      subst (Joins sc) (sym (listen-some r q l search now sc at e))
        (join-Joins at l sc op there fresh room)
]

cancel_listen-counts :
    (token k : ℕ) (now : TimePoint) (sc : SearchCache)
    → (count_token k (cancel_listen token now sc).0.ops
        ≡ (if token == k then count_token k sc.ops - 1 else count_token k sc.ops))
      × ((cancel_listen token now sc).1 ≡ ltb 0 (count_token token sc.ops))
unfolding cancel_listen
cancel_listen-counts token k now sc =
    let counts = cancel_loop-counts token k now sc.ops in
    elim (Option-cases (cancel_loop token now sc.ops).1) [
      | inl none_had ↦ rw (none_had, cancel_listen) (counts.0, ground (arith, counts.1, none_had))
      | inr (e, had) ↦ rw (had, cancel_listen) (counts.0, ground (arith, counts.1, had))
    ]

-- Where no listener has a token from the next one on: `listen` keeps this, and returns 0 or a token that
-- no listener had. Such a token is cancelled once: then the listeners are those from before, by their
-- tokens, and a second cancellation finds none. The token before the wrap-around of size_t is left out.
pub listen-cancel_listen :
    (r : ℕ) (q : Query) (l : LocalListener) (search k : ℕ) (now later : TimePoint)
    (sc : SearchCache)
    → IsFresh sc
    → suc sc.next_token < size_mod
    → (listen r q l search now sc).1 ≢ 0
    → IsFresh (listen r q l search now sc).0
      × (count_token (listen r q l search now sc).1 sc.ops ≡ 0)
      × ((cancel_listen (listen r q l search now sc).1 later (listen r q l search now sc).0).1
          ≡ true)
      × (count_token k
            (cancel_listen
              (listen r q l search now sc).1
              later
              (listen r q l search now sc).0).0.ops
          ≡ count_token k sc.ops)
      × ((cancel_listen
            (listen r q l search now sc).1
            later
            (cancel_listen (listen r q l search now sc).1 later (listen r q l search now sc).0).0).1
          ≡ false)
listen-cancel_listen r q l search k now later sc fresh room ok =
    let sc' : SearchCache = (listen r q l search now sc).0 in
    let token : ℕ = (listen r q l search now sc).1 in
    let sc'' : SearchCache = (cancel_listen token later sc').0 in
    let joined = listen-Joins r q l search now sc fresh room in
    let is_new : token ≡ sc.next_token = joined.2 ok in
    let none_had : count_token token sc.ops ≡ 0 = fresh.unused token (omega (arith, is_new)) in
    let first = cancel_listen-counts token token later sc' in
    let again = cancel_listen-counts token token later sc'' in
    let others = cancel_listen-counts token k later sc' in
    (
      record {
        unused = λ i p. ground (arith, joined.0 i, fresh.unused i, joined.1, is_new, p);
        positive = omega (arith, joined.1);
      },
      none_had,
      ground (arith, first.1, joined.0 token, none_had, ok),
      ground
          (arith, others.0, joined.0 k, ok, none_had, ap (λ (i : ℕ). count_token i sc.ops) is_new),
      ground (arith, again.1, first.0, joined.0 token, none_had, ok),
    )
