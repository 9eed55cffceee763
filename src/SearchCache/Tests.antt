-- ===== src/SearchCache/Tests.antt =====
-- One search with a listener, and one that has lost its listener.
use opendht.Prelude.{◌+◌, ◌≡◌, refl, true, false, [], ◌∷◌, ◌++◌, none, arith}
use opendht.Prelude.Map.{Map}
use opendht.Time.{seconds, time_max}
use opendht.Query.{Query, id}
use opendht.Storage.{LocalListener}
use opendht.OpCache
use opendht.OpCache.{OpCache, expiration_time, get_expiration}
use opendht.SearchCache.{Op, SearchCache, listen, cancel_listen, cancel_loop, expire, search_tokens}
use opendht.SearchCache.Tokens.{IsFresh, count_token, listen-cancel_listen}
use opendht.SearchCache.Expiry.{unexpired, expired, earliest, expire_lem, cancel_loop-postpones}

abbrev all_values : Query
all_values = record { selection = []; restriction = []; any = false }

abbrev only_ids : Query
only_ids = record { selection = id ∷ []; restriction = []; any = false }

abbrev listener : LocalListener
listener = record { query = 4; filter = none; get_cb = λ vs e. true }

abbrev idle : Op
idle = record { query = only_ids; cache = record (OpCache.new (seconds 5)) { search_token = 11 } }

abbrev busy : Op
busy = record {
  query = all_values;
  cache = record (OpCache.new (seconds 5)) { search_token = 12; listeners = (1, listener) ∷ [] };
}

abbrev two_searches : SearchCache
two_searches = record {
  ops = (3, idle) ∷ (4, busy) ∷ [];
  next_token = 2;
  next_expiration = seconds 65;
}

two_searches-IsFresh : IsFresh two_searches
unfolding count_token OpCache.new
two_searches-IsFresh = record { unused = λ k p. ground arith; positive = omega arith }

token_is_two : (listen 9 all_values listener 13 (seconds 6) two_searches).1 ≡ 2
unfolding listen OpCache.new
token_is_two = refl

listen-cancel_listen_example :
    IsFresh (listen 9 all_values listener 13 (seconds 6) two_searches).0
    × (count_token (listen 9 all_values listener 13 (seconds 6) two_searches).1 two_searches.ops
        ≡ 0)
    × ((cancel_listen
          (listen 9 all_values listener 13 (seconds 6) two_searches).1
          (seconds 8)
          (listen 9 all_values listener 13 (seconds 6) two_searches).0).1
        ≡ true)
    × (count_token 1
          (cancel_listen
            (listen 9 all_values listener 13 (seconds 6) two_searches).1
            (seconds 8)
            (listen 9 all_values listener 13 (seconds 6) two_searches).0).0.ops
        ≡ count_token 1 two_searches.ops)
    × ((cancel_listen
          (listen 9 all_values listener 13 (seconds 6) two_searches).1
          (seconds 8)
          (cancel_listen
            (listen 9 all_values listener 13 (seconds 6) two_searches).1
            (seconds 8)
            (listen 9 all_values listener 13 (seconds 6) two_searches).0).0).1
        ≡ false)
listen-cancel_listen_example =
    listen-cancel_listen 9 all_values listener 13 1 (seconds 6) (seconds 8) two_searches
      two_searches-IsFresh (omega arith) (λ e. absurd (omega (arith, token_is_two, e)))

expire_lem_example : expire (seconds 70) two_searches ≡ (
  record two_searches {
    ops = unexpired (seconds 70) two_searches.ops;
    next_expiration = earliest (unexpired (seconds 70) two_searches.ops) time_max;
  },
  earliest (unexpired (seconds 70) two_searches.ops) time_max,
  search_tokens (expired (seconds 70) two_searches.ops),
)
expire_lem_example = expire_lem (seconds 70) two_searches (omega arith)

cancel_loop-postpones_example :
    (op' : Op) × (later : Map Op) × ((cancel_loop 1 (seconds 64) (two_searches.ops)).0
      ≡ (cancel_loop 1 (seconds 64) []).0 ++ (3, op') ∷ later)
    × (get_expiration op'.cache ≡ seconds 64 + expiration_time)
unfolding OpCache.new cancel_loop OpCache.is_done
cancel_loop-postpones_example =
    cancel_loop-postpones 1 3 (seconds 64) idle [] ((4, busy) ∷ []) refl refl
