-- ===== src/Rest/Saves.antt =====
-- At most one save is under way (static/app.js: putInFlight).
use goclipboard.Common.{
  ℕ, ◌≡◌, refl, sym, Bool, true, false, ◌||◌, none, List, [], ◌∷◌, Bool-cases, inl, inr,
  if◌then◌else◌, ◌==◌,
}
use mathlib.Core.Path.{subst}
use goclipboard.Text.{Text, ◌===◌}
use goclipboard.Session.{Session, Message}
use goclipboard.Session.Merge.{merge_server_state}
use goclipboard.Tab.{has_some}
use goclipboard.Rest.{
  Put, Saver, Answer, answered, lost, schedule_put_fallback, wants_put, on_session, put_replace,
  put_fires, put_fails, put_saved, is_ok, put_result, put_settled, answer_first, put_answered,
  password_given, poll_answered, RestEvent, fired, replied, gave, polled, acted, rest_step,
  rest_run,
}

-- The requests that wait for an answer, and the flag.
abbrev flight : Saver → Bool × List Put
flight s = (s.put_in_flight, s.requests)

-- One request waits while the flag is set, and none else.
abbrev pub IsSingle : Bool × List Put → Type 0
IsSingle (true, puts) = (p : Put) × (puts ≡ p ∷ [])
IsSingle (false, puts) = puts ≡ []

if-flight :
    (b : Bool) (s t : Saver) {l : Bool × List Put}
    → flight s ≡ l
    → flight t ≡ l
    → flight (if b then s else t) ≡ l
if-flight true s t h k = h
if-flight false s t h k = k

on_session-flight : (f : Session → Session) (s : Saver) → flight (on_session f s) ≡ flight s
unfolding on_session schedule_put_fallback
on_session-flight f s =
    if-flight (wants_put (f (record s.session { effects = [] })).effects) _ _ refl refl

put_saved-flight :
    (text : Text) (msg : Message) (s : Saver) → flight (put_saved text msg s) ≡ flight s
unfolding put_saved schedule_put_fallback
put_saved-flight text msg s = if-flight (s.session.content === text) _ _ refl refl

put_result-flight :
    (put : Put) (status : ℕ) (msg : Message) (s : Saver)
    → flight (put_result put status msg s) ≡ flight s
unfolding put_result put_fails schedule_put_fallback
put_result-flight put status msg s = if-flight (status == 403) _ _ refl (
    if-flight (status == 409) _ _ (on_session-flight (merge_server_state msg) _) (
      if-flight (status == 429) _ _ refl
        (if-flight (is_ok status) _ _ (put_saved-flight put.content msg s) refl)))

put_settled-flight : (put : Put) (a : Answer) (s : Saver) → flight (put_settled put a s) ≡ flight s
unfolding put_settled put_fails schedule_put_fallback
put_settled-flight put (answered status msg) s = put_result-flight put status msg s
put_settled-flight put lost s = refl

poll_answered-flight : (msg : Message) (s : Saver) → flight (poll_answered msg s) ≡ flight s
unfolding poll_answered
poll_answered-flight msg s =
    if-flight (s.session.connected || s.put_in_flight) s _ refl
      (if-flight _ _ s (on_session-flight (merge_server_state msg) s) refl)

password_given-flight : (p : Text) (s : Saver) → flight (password_given p s) ≡ flight s
unfolding password_given schedule_put_fallback
password_given-flight p s = if-flight (p === []) _ _ refl refl

same-IsSingle : {l m : Bool × List Put} → l ≡ m → IsSingle m → IsSingle l
same-IsSingle e h = subst IsSingle (sym e) h

if-IsSingle :
    (b : Bool) (s t : Saver)
    → IsSingle (flight s)
    → IsSingle (flight t)
    → IsSingle (flight (if b then s else t))
if-IsSingle true s t h k = h
if-IsSingle false s t h k = k

put_replace-IsSingle :
    (text : Text) (ttl : ℕ) (s : Saver)
    → IsSingle (flight s)
    → IsSingle (flight (put_replace text ttl s))
unfolding put_replace schedule_put_fallback
put_replace-IsSingle text ttl s h = elim (Bool-cases s.put_in_flight) [
  | inl busy ↦ rw busy (rw busy at h)
  | inr idle ↦ let none_left : s.requests ≡ [] = rw idle at h in rw (idle, none_left) (_, refl)
]

put_fires-IsSingle :
    (ttl : ℕ) (s : Saver) → IsSingle (flight s) → IsSingle (flight (put_fires ttl s))
unfolding put_fires
put_fires-IsSingle ttl s h =
    let s' = record s { put_fallback_timer = none } in
    if-IsSingle (ttl == 0) s' _ h (put_replace-IsSingle s.session.content ttl s' h)

-- What is behind the first of the requests that wait.
rest_of_single : (b : Bool) (put : Put) (puts : List Put) → IsSingle (b, put ∷ puts) → puts ≡ []
rest_of_single true put puts h = cc h.1
rest_of_single false put puts h = cc h

answer_first-IsSingle :
    (puts : List Put) (a : Answer) (s : Saver)
    → puts ≡ s.requests
    → IsSingle (flight s)
    → IsSingle (flight (answer_first puts a s))
unfolding answer_first
answer_first-IsSingle [] a s e h = h
answer_first-IsSingle (put ∷ puts) a s e h =
    same-IsSingle (put_settled-flight put a (record s { put_in_flight = false; requests = puts })) (
      rest_of_single s.put_in_flight put puts
        (subst (λ l. IsSingle (s.put_in_flight, l)) (sym e) h))

rest_step-IsSingle :
    (e : RestEvent) (s : Saver) → IsSingle (flight s) → IsSingle (flight (rest_step e s))
unfolding rest_step put_answered
rest_step-IsSingle (fired ttl) s h =
    if-IsSingle (has_some s.put_fallback_timer) _ s (put_fires-IsSingle ttl s h) h
rest_step-IsSingle (replied a) s h = answer_first-IsSingle s.requests a s refl h
rest_step-IsSingle (gave p) s h =
    if-IsSingle s.asking _ s (same-IsSingle (password_given-flight p s) h) h
rest_step-IsSingle (polled msg) s h = same-IsSingle (poll_answered-flight msg s) h
rest_step-IsSingle (acted f) s h = same-IsSingle (on_session-flight f s) h

-- Whatever happens to a saver with one request under way, or with none: the flag is set exactly while
-- a request waits for its answer, and at most one waits.
pub rest_run-IsSingle :
    (es : List RestEvent) (s : Saver)
    → IsSingle (s.put_in_flight, s.requests)
    → IsSingle ((rest_run es s).put_in_flight, (rest_run es s).requests)
unfolding rest_run
rest_run-IsSingle [] s h = h
rest_run-IsSingle (e ∷ es) s h = rest_run-IsSingle es (rest_step e s) (rest_step-IsSingle e s h)
