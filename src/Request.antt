-- ===== src/Request.antt =====
-- src/request.h: `net::Request`, a request sent to a node. A callback is whether it is set, and
-- `on_error` what it answers; the calls that are made are events.
pub mod Once
mod Tests
use opendht.Prelude.{
  ℕ, ◌+◌, ◌/◌, Bool, true, false, ◌&&◌, List, [], ◌∷◌, ◌++◌, Option, none, some, ltb, leb,
  if◌then◌else◌,
}
use opendht.Time.{TimePoint, Duration, time_min, seconds}

pub data State : Type 0 where
  pending cancelled expired completed : State

pub record Request : Type 0 where
  pub tid : ℕ
  pub type : ℕ
  pub state : State
  pub reply_time : TimePoint
  pub attempt_count : ℕ
  pub attempt_duration : Duration
  pub start : TimePoint
  pub last_try : TimePoint
  pub on_done : Bool
  pub on_error : Option Bool
  pub on_expired : Bool
  pub message : List ℕ
  pub parts : List (List ℕ)

-- `on_done`, `on_error`, `on_expired(over)`; `bad_call` is the exception of an empty `on_done`.
pub data Event : Type 0 where
  done_called error_called bad_call : Event
  expired_called : Bool → Event

-- Node::MAX_RESPONSE_TIME / 2
abbrev pub first_attempt_duration : Duration
first_attempt_duration = seconds 1 / 2

abbrev pub max_attempt_count : ℕ
max_attempt_count = 3

-- The constructor with all callbacks but `on_error`, or with `on_error` too.
unfoldable pub new : ℕ → ℕ → List ℕ → Bool → Option Bool → Bool → Request
new type tid message on_done on_error on_expired = record {
  tid = tid;
  type = type;
  state = pending;
  reply_time = time_min;
  attempt_count = 0;
  attempt_duration = first_attempt_duration;
  start = time_min;
  last_try = time_min;
  on_done = on_done;
  on_error = on_error;
  on_expired = on_expired;
  message = message;
  parts = [];
}

abbrev pub is_pending : State → Bool
is_pending pending = true
is_pending _ = false

-- isExpired: the last attempt is over.
unfoldable pub is_expired : Request → TimePoint → Bool
is_expired r now =
    is_pending r.state
    && (ltb (r.last_try + r.attempt_duration) now && leb max_attempt_count r.attempt_count)

unfoldable pub clear : Request → Request
clear r = record r {
  on_done = false;
  on_error = none;
  on_expired = false;
  message = [];
  parts = [];
}

abbrev in_state : State → Request → Request
in_state s r = record r { state = s }

unfoldable pub set_expired : Request → Request × List Event
unfolding clear
set_expired r =
    if is_pending r.state
    then (clear (in_state expired r), if r.on_expired then expired_called true ∷ [] else [])
    else (r, [])

unfoldable pub set_done : Request → Request × List Event
unfolding clear
set_done r =
    if is_pending r.state
    then if r.on_done
      then (clear (in_state completed r), done_called ∷ [])
      else (in_state completed r, bad_call ∷ [])
    else (r, [])

-- The request, whether the error was handled, and the calls.
unfoldable pub set_error : Request → Request × Bool × List Event
unfolding clear
set_error r =
    if is_pending r.state
    then (
      clear (in_state expired r),
      (elim r.on_error [ none ↦ false | some handled ↦ handled ]),
      (elim r.on_error [ none ↦ [] | some _ ↦ error_called ∷ [] ]),
    )
    else (r, true, [])

unfoldable pub cancel : Request → Request
unfolding clear
cancel r = if is_pending r.state then clear (in_state cancelled r) else r
