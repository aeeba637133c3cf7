-- ===== src/Tab/Sockets.antt =====
-- A tab that goes from socket to socket (static/app.js: `socket !== ws` in the events of connectWS).
use goclipboard.Common.{
  ℕ, ◌≡◌, refl, sym, Bool, true, false, not, Option, List, [], ◌∷◌, Bool-cases, inl, inr, arith,
  if◌then◌else◌, ltb,
}
use mathlib.Core.Path.{subst}
use goclipboard.Tab.{Tab, has_some}
use goclipboard.Tab.Connection.{
  set_connected, schedule_reconnect, close_socket, open_socket, is_current, connect_ws, on_open,
  on_close, heartbeat_fires, socket_looks_dead, force_reconnect, prune_fires, leave,
}
use goclipboard.Tab.Frames.{
  Frame, state_frame, ops_frame, ack_frame, cursor_frame, files_frame, unreadable, session_frame,
  peers_frame, on_message,
}
use goclipboard.Tab.Events.{
  Event, opened, received, closed, reconnect_due, heartbeat_due, prune_due, typed,
  composition_started, composition_ended, commit_due, flush_due, undone, redone, left, step_if,
  tab_step, tab_run,
}

-- The socket and the number of the next one.
abbrev sockets : Tab → Option ℕ × ℕ
sockets t = (t.socket, t.next_socket)

-- The socket `k` was made and is not the one of the tab.
abbrev pub Replaced : ℕ → Option ℕ × ℕ → Type 0
Replaced k p = (is_current k p.0 ≡ false) × (ltb k p.1 ≡ true)

-- An event of the socket `k`.
pub data EventOf (k : ℕ) : Event → Type 0 where
  of_open : {now : ℕ} → EventOf k (opened now k)
  of_frame : {now : ℕ} {f : Frame} → EventOf k (received now k f)
  of_close : {jitter : ℕ} → EventOf k (closed jitter k)

if-sockets :
    (b : Bool) (t u : Tab) {p : Option ℕ × ℕ}
    → sockets t ≡ p
    → sockets u ≡ p
    → sockets (if b then t else u) ≡ p
if-sockets true t u h k = h
if-sockets false t u h k = k

module _ (t : Tab) where
  on_open-sockets : (now k : ℕ) → sockets (on_open now k t) ≡ sockets t
  unfolding on_open set_connected
  on_open-sockets now k = if-sockets (is_current k t.socket) _ t refl refl

  peers_frame-sockets : (f : Frame) → sockets (peers_frame f t) ≡ sockets t
  unfolding peers_frame
  peers_frame-sockets (state_frame msg) = refl
  peers_frame-sockets (ops_frame msg) = refl
  peers_frame-sockets (ack_frame msg) = refl
  peers_frame-sockets (cursor_frame msgs) = refl
  peers_frame-sockets files_frame = refl
  peers_frame-sockets unreadable = refl

heartbeat_fires-sockets :
    (now : ℕ) (hidden : Bool) (start stop : ℕ) (backward : Bool) (t : Tab)
    → sockets (heartbeat_fires now hidden start stop backward t) ≡ sockets t
unfolding heartbeat_fires force_reconnect close_socket
heartbeat_fires-sockets now hidden start stop backward t =
    if-sockets (not t.session.connected) t _ refl
      (if-sockets (socket_looks_dead now t) _ _ refl (if-sockets hidden t _ refl refl))

on_message-sockets : (now k : ℕ) (f : Frame) (t : Tab) → sockets (on_message now k f t) ≡ sockets t
unfolding on_message
on_message-sockets now k f t =
    let u = record t { session = session_frame now f t.session; last_msg_at = now } in
    if-sockets (is_current k t.socket) (peers_frame f u) t (peers_frame-sockets u f) refl

-- The timer makes a new socket, where it makes one.
connect_ws-Replaced :
    (throws : Bool) (jitter k : ℕ) (t : Tab)
    → ltb k t.next_socket ≡ true
    → Replaced k (sockets (connect_ws throws jitter t))
unfolding connect_ws open_socket schedule_reconnect close_socket set_connected
connect_ws-Replaced true jitter k t h = (refl, h)
connect_ws-Replaced false jitter k t h = ground arith

on_close-Replaced :
    (jitter j k : ℕ) (t : Tab) → Replaced k (sockets t) → Replaced k (sockets (on_close jitter j t))
unfolding on_close schedule_reconnect set_connected
on_close-Replaced jitter j k t r = elim (Bool-cases (is_current j t.socket)) [
  | inr other ↦ rw other r
  | inl current ↦ elim (Bool-cases t.session.intentional_close) [
    | inl gone ↦ rw (current, gone) (refl, r.1)
    | inr stays ↦ rw (current, stays) (refl, r.1)
  ]
]

same_sockets : (k : ℕ) {p q : Option ℕ × ℕ} → p ≡ q → Replaced k q → Replaced k p
same_sockets k e r = subst (Replaced k) (sym e) r

tab_step-Replaced :
    (e : Event) (k : ℕ) (t : Tab) → Replaced k (sockets t) → Replaced k (sockets (tab_step e t))
unfolding tab_step step_if prune_fires leave close_socket
tab_step-Replaced (opened now j) k t r = same_sockets k (on_open-sockets t now j) r
tab_step-Replaced (received now j f) k t r = same_sockets k (on_message-sockets now j f t) r
tab_step-Replaced (closed jitter j) k t r = on_close-Replaced jitter j k t r
tab_step-Replaced (reconnect_due throws jitter) k t r =
    elim (Bool-cases (has_some t.reconnect_timer)) [
      | inl due ↦ rw due (connect_ws-Replaced throws jitter k t r.1)
      | inr idle ↦ rw idle r
    ]
tab_step-Replaced (heartbeat_due now hidden start stop backward) k t r =
    same_sockets k
      (if-sockets t.heartbeat _ t (heartbeat_fires-sockets now hidden start stop backward t) refl) r
tab_step-Replaced (prune_due now) k t r =
    same_sockets k (if-sockets t.heartbeat (prune_fires now t) t refl refl) r
tab_step-Replaced (typed now text) k t r = r
tab_step-Replaced composition_started k t r = r
tab_step-Replaced composition_ended k t r = r
tab_step-Replaced (commit_due now) k t r = r
tab_step-Replaced (flush_due now sends ttl) k t r = r
tab_step-Replaced (undone now) k t r = r
tab_step-Replaced (redone now) k t r = r
tab_step-Replaced left k t r = r

tab_run-Replaced :
    (es : List Event) (k : ℕ) (t : Tab)
    → Replaced k (sockets t)
    → Replaced k (sockets (tab_run es t))
unfolding tab_run
tab_run-Replaced [] k t r = r
tab_run-Replaced (e ∷ es) k t r = tab_run-Replaced es k (tab_step e t) (tab_step-Replaced e k t r)

not_current :
    {e : Event} {k : ℕ} → EventOf k e → (t : Tab) → is_current k t.socket ≡ false → tab_step e t ≡ t
unfolding tab_step on_open on_message on_close
not_current of_open t h = rw h refl
not_current of_frame t h = rw h refl
not_current of_close t h = rw h refl

-- A socket that was replaced is never heard again: whatever happens in between, its opening, its frames
-- and its closing leave the tab as it is.
pub stale_is_silent :
    (k : ℕ) (es : List Event) (e : Event) (t : Tab)
    → Replaced k (t.socket, t.next_socket)
    → EventOf k e
    → tab_step e (tab_run es t) ≡ tab_run es t
stale_is_silent k es e t r o = not_current o (tab_run es t) (tab_run-Replaced es k t r).0
