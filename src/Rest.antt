-- ===== src/Rest.antt =====
-- Saving and polling without a socket (static/app.js: schedulePutFallback, putReplace, the round of
-- startRestPoll, load). A request waits in `requests` with what its callbacks have captured, until it
-- is answered. The TTL field is an argument. An effect `put_timer` of the session is a call of
-- schedulePutFallback.
pub mod Saves
pub mod Owed
pub mod Accepted
use goclipboard.Common.{
  ℕ, ◌+◌, ◌*◌, ◌^◌, Bool, true, false, not, ◌&&◌, ◌||◌, Option, none, some, List, [], ◌∷◌, ◌++◌,
  ltb, leb, ◌==◌, if◌then◌else◌,
}
use goclipboard.Text.{Text, ◌===◌}
use goclipboard.Doc.{build_from_string}
use goclipboard.Session.{
  Session, Message, Effect, send_ops, send_sync, load, put_timer, send_auth, try_unlock, lock_error,
  send_cursor, Deferred, rest_load_message, room_password, message_generation,
  composition_is_active, bump_clock_from_doc, is_some,
}
use goclipboard.Session.Merge.{merge_server_state, apply_loaded_snapshot, or_empty}
use goclipboard.Tab.{has_some}
use goclipboard.Tab.Connection.{min}

-- The body of a PUT, in which an empty password is an absent one.
pub record Put : Type 0 where
  pub content : Text
  pub ttl_seconds : ℕ
  pub password : Text
  pub base_version : Option ℕ

pub record Saver : Type 0 where
  pub session : Session
  pub put_in_flight : Bool
  pub put_failures : ℕ
  -- The delay of the timer, where it is set.
  pub put_fallback_timer : Option ℕ
  pub requests : List Put
  -- The question for the password is open.
  pub asking : Bool

-- The answer of the server; a request that fails is `lost`.
pub data Answer : Type 0 where
  answered : ℕ → Message → Answer
  lost : Answer

unfoldable pub fallback_delay : ℕ → ℕ
fallback_delay failures = min 3200 (200 * 2 ^ min failures 4)

pub schedule_put_fallback : Saver → Saver
schedule_put_fallback s = record s { put_fallback_timer = some (fallback_delay s.put_failures) }

abbrev pub is_put_timer : Effect → Bool
is_put_timer put_timer = true
is_put_timer (send_ops seq ops ttl pw) = false
is_put_timer send_sync = false
is_put_timer load = false
is_put_timer (send_auth pw) = false
is_put_timer (try_unlock pw) = false
is_put_timer lock_error = false
is_put_timer (send_cursor pos end after color) = false

pub wants_put : List Effect → Bool
wants_put [] = false
wants_put (e ∷ es) = is_put_timer e || wants_put es

-- What a function of the session does here: its new calls of schedulePutFallback set the timer.
pub on_session : (Session → Session) → Saver → Saver
on_session f s =
    let t = f (record s.session { effects = [] }) in
    let s' = record s { session = record t { effects = s.session.effects ++ t.effects } } in
    if wants_put t.effects then schedule_put_fallback s' else s'

known_base : ℕ → Option ℕ
known_base version = if ltb 0 version then some version else none

pub put_replace : Text → ℕ → Saver → Saver
unfolding known_base
put_replace text ttl s = if s.put_in_flight then schedule_put_fallback s else record s {
  put_in_flight = true;
  requests =
      s.requests
      ++ record {
        content = text;
        ttl_seconds = ttl;
        password = room_password s.session;
        base_version = known_base s.session.known_version;
      }
        ∷ [];
}

-- The timer of schedulePutFallback; the TTL is 0 where the field holds none.
pub put_fires : ℕ → Saver → Saver
put_fires ttl s =
    let s' = record s { put_fallback_timer = none } in
    if ttl == 0 then s' else put_replace s.session.content ttl s'

pub put_fails : Saver → Saver
put_fails s = schedule_put_fallback (record s { put_failures = s.put_failures + 1 })

-- The server holds the text of the request.
pub saved : Text → Message → Session → Session
saved text msg s = bump_clock_from_doc (record s {
  known_version = msg.version;
  known_generation = message_generation msg.generation;
  known_exists = true;
  pending_ops = [];
  sent_batches = [];
  doc = or_empty (build_from_string s.client_id text);
  local_clock = 0;
  last_synced_text = text;
})

pub put_saved : Text → Message → Saver → Saver
put_saved text msg s =
    let s' = record s { put_failures = 0; session = saved text msg s.session } in
    if s.session.content === text then s' else schedule_put_fallback s'

-- `response.ok`
abbrev pub is_ok : ℕ → Bool
is_ok status = leb 200 status && leb status 299

-- An answer to the request; putInFlight is already reset.
pub put_result : Put → ℕ → Message → Saver → Saver
put_result put status msg s =
    if status == 403
    then record s { asking = true }
    else if status == 409
    then on_session (merge_server_state msg) (record s { put_failures = 0 })
    else if status == 429
    then put_fails s
    else if is_ok status
    then put_saved put.content msg s
    else put_fails s

put_settled : Put → Answer → Saver → Saver
put_settled put (answered status msg) s = put_result put status msg s
put_settled put lost s = put_fails s

answer_first : List Put → Answer → Saver → Saver
answer_first [] a s = s
answer_first (put ∷ puts) a s =
    put_settled put a (record s { put_in_flight = false; requests = puts })

-- The request that is first in line is answered.
pub put_answered : Answer → Saver → Saver
unfolding answer_first put_settled
put_answered a s = answer_first s.requests a s

-- The answer to the question for the password; the empty text is a cancelled one.
pub password_given : Text → Saver → Saver
password_given p s =
    let s' = record s { asking = false } in
    if p === []
    then record s' { put_failures = s.put_failures + 1 }
    else schedule_put_fallback
        (record s' { session = record s.session { edit_password = p }; put_failures = 0 })

same_truth : Bool → Bool → Bool
same_truth true b = b
same_truth false b = not b

-- What a poll of the server brings; a poll starts under the same condition.
pub poll_answered : Message → Saver → Saver
unfolding same_truth
poll_answered msg s =
    let news =
      not (message_generation msg.generation == s.session.known_generation)
      || (not (same_truth msg.exists s.session.known_exists)
          || msg.exists && not (msg.version == s.session.known_version)) in
    if s.session.connected || s.put_in_flight
    then s
    else if news
    then on_session (merge_server_state msg) s
    else s

-- What happens: the timer fires, a request or the question for the password is answered, a poll
-- brings a state, or the session does something.
pub data RestEvent : Type 0 where
  fired : ℕ → RestEvent
  replied : Answer → RestEvent
  gave : Text → RestEvent
  polled : Message → RestEvent
  acted : (Session → Session) → RestEvent

pub rest_step : RestEvent → Saver → Saver
rest_step (fired ttl) s = if has_some s.put_fallback_timer then put_fires ttl s else s
rest_step (replied a) s = put_answered a s
rest_step (gave p) s = if s.asking then password_given p s else s
rest_step (polled msg) s = poll_answered msg s
rest_step (acted f) s = on_session f s

pub rest_run : List RestEvent → Saver → Saver
rest_run [] s = s
rest_run (e ∷ es) s = rest_run es (rest_step e s)

-- The answer to `load`.
unfoldable pub load_answered : Bool → Bool → Message → Session → Session
load_answered socket_live force msg s =
    if composition_is_active s
    then record s { deferred = s.deferred ++ rest_load_message msg force ∷ [] }
    else apply_loaded_snapshot socket_live msg force s
