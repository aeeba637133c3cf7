-- ===== src/Tab/Alive/Steps.antt =====
-- Every event leaves a tab alive (static/app.js: the socket's events, the timers and the page's
-- events of one tab).
use goclipboard.Common.{
  ℕ, ◌≡◌, refl, sym, Bool, true, false, not, none, List, [], ◌∷◌, Bool-cases, inl, inr, arith,
  if◌then◌else◌,
}
use mathlib.Core.Path.{subst}
use goclipboard.Text.{Text}
use goclipboard.Session.{Session}
use goclipboard.Session.Local.{on_input}
use goclipboard.Session.Peers.{send_cursor_position}
use goclipboard.Tab.{Tab, has_some}
use goclipboard.Tab.Connection.{
  is_current, connect_ws, open_socket, close_socket, schedule_reconnect, set_connected,
  heartbeat_fires, socket_looks_dead, force_reconnect, prune_fires,
}
use goclipboard.Tab.Frames.{
  Frame, state_frame, ops_frame, ack_frame, cursor_frame, files_frame, unreadable, held_back,
  session_frame, peers_frame, on_message,
}
use goclipboard.Tab.Events.{
  Event, opened, received, closed, reconnect_due, heartbeat_due, prune_due, typed,
  composition_started, composition_ended, commit_due, flush_due, undone, redone, left, step_if,
  tab_step, tab_run,
}
use goclipboard.Tab.Keeps.{link, if-link, handle_state-link}
use goclipboard.Tab.Keeps.Messages.{handle_remote_ops-link, handle_ack-link}
use goclipboard.Tab.Keeps.Edits.{
  on_input-link, on_composition_start-link, on_composition_end-link, flush_fires-link,
  end_composition-link, undo-link, redo-link,
}
use goclipboard.Tab.Alive.{
  Alive, view, view_of, on_open-Alive, on_close-Alive, close_socket-Alive, connect_ws-Alive,
  leave-Alive,
}

pub session_frame-link : (now : ℕ) (f : Frame) (s : Session) → link (session_frame now f s) ≡ link s
unfolding session_frame held_back
session_frame-link now (state_frame msg) s = if-link _ s _ _ refl (handle_state-link now msg s)
session_frame-link now (ops_frame msg) s = if-link _ s _ _ refl (handle_remote_ops-link now msg s)
session_frame-link now (ack_frame msg) s = handle_ack-link msg s
session_frame-link now (cursor_frame msgs) s = refl
session_frame-link now files_frame s = refl
session_frame-link now unreadable s = refl

pub peers_frame-view : (f : Frame) (t : Tab) → view (peers_frame f t) ≡ view t
unfolding peers_frame
peers_frame-view (state_frame msg) t = refl
peers_frame-view (ops_frame msg) t = refl
peers_frame-view (ack_frame msg) t = refl
peers_frame-view (cursor_frame msgs) t = refl
peers_frame-view files_frame t = refl
peers_frame-view unreadable t = refl

pub send_cursor_position-link :
    (start stop : ℕ) (backward : Bool) (s : Session)
    → link (send_cursor_position start stop backward s) ≡ link s
unfolding send_cursor_position
send_cursor_position-link start stop backward s = ground arith

pub typed_link :
    (now : ℕ) (text : Text) (s : Session)
    → link (if s.read_only then s else on_input now (record s { content = text })) ≡ link s
typed_link now text s =
    if-link s.read_only s s _ refl (on_input-link now (record s { content = text }))

-- What only touches the session keeps a tab alive.
same_link :
    (t : Tab) {l : Bool × Bool × Bool × ℕ}
    → l ≡ link t.session
    → Alive (view t)
    → Alive (view_of t l)
same_link t e a = subst (λ l. Alive (view_of t l)) (sym e) a

if-Alive :
    (b : Bool) (t u : Tab) → Alive (view t) → Alive (view u) → Alive (view (if b then t else u))
if-Alive true t u a b = a
if-Alive false t u a b = b

module _ (t : Tab) (a : Alive (view t)) where
  on_message-Alive : (now k : ℕ) (f : Frame) → Alive (view (on_message now k f t))
  unfolding on_message
  on_message-Alive now k f =
      let u = record t { session = session_frame now f t.session; last_msg_at = now } in
      if-Alive (is_current k t.socket) (peers_frame f u) t
        (subst Alive (sym (peers_frame-view f u))
          (same_link t (session_frame-link now f t.session) a))
        a

  heartbeat_fires-Alive :
      (now : ℕ) (hidden : Bool) (start stop : ℕ) (backward : Bool)
      → Alive (view (heartbeat_fires now hidden start stop backward t))
  unfolding heartbeat_fires force_reconnect
  heartbeat_fires-Alive now hidden start stop backward = if-Alive (not t.session.connected) t _ a (
      if-Alive (socket_looks_dead now t) _ _ (close_socket-Alive t a) (
        if-Alive hidden t _ a
          (same_link t (send_cursor_position-link start stop backward t.session) a)))

  reconnect_due-Alive :
      (throws : Bool) (jitter : ℕ) → Alive (view (tab_step (reconnect_due throws jitter) t))
  unfolding tab_step step_if
  reconnect_due-Alive throws jitter = elim (Bool-cases (has_some t.reconnect_timer)) [
    | inl due ↦ rw due (connect_ws-Alive t throws jitter due a)
    | inr idle ↦ rw idle a
  ]

  pub tab_step-Alive : (e : Event) → Alive (view (tab_step e t))
  unfolding tab_step step_if prune_fires
  tab_step-Alive (opened now k) = on_open-Alive t now k a
  tab_step-Alive (received now k f) = on_message-Alive now k f
  tab_step-Alive (closed jitter k) = on_close-Alive t jitter k a
  tab_step-Alive (reconnect_due throws jitter) = reconnect_due-Alive throws jitter
  tab_step-Alive (heartbeat_due now hidden start stop backward) =
      if-Alive t.heartbeat _ t (heartbeat_fires-Alive now hidden start stop backward) a
  tab_step-Alive (prune_due now) = if-Alive t.heartbeat (prune_fires now t) t a a
  tab_step-Alive (typed now text) = same_link t (typed_link now text t.session) a
  tab_step-Alive composition_started = same_link t (on_composition_start-link t.session) a
  tab_step-Alive composition_ended = same_link t (on_composition_end-link t.session) a
  tab_step-Alive (commit_due now) = same_link t (end_composition-link now _ t.session) a
  tab_step-Alive (flush_due now sends ttl) =
      same_link t
        (if-link t.session.flush_timer t.session _ _ (flush_fires-link now sends ttl t.session)
          refl)
        a
  tab_step-Alive (undone now) = same_link t (undo-link now t.session) a
  tab_step-Alive (redone now) = same_link t (redo-link now t.session) a
  tab_step-Alive left = leave-Alive t a

pub tab_run-Alive : (es : List Event) (t : Tab) → Alive (view t) → Alive (view (tab_run es t))
unfolding tab_run
tab_run-Alive [] t a = a
tab_run-Alive (e ∷ es) t a = tab_run-Alive es (tab_step e t) (tab_step-Alive t a e)

-- The tab of a page that has just been loaded.
pub record Fresh (t : Tab) : Type 0 where
  pub no_socket : t.socket ≡ none
  pub no_heartbeat : t.heartbeat ≡ false
  pub not_open : t.session.socket_open ≡ false

first_connect :
    (throws : Bool) (jitter : ℕ) (t : Tab) → Fresh t → Alive (view (connect_ws throws jitter t))
unfolding connect_ws close_socket open_socket schedule_reconnect set_connected
first_connect throws jitter t f = ground arith

-- From the first connection of a loaded page on, whatever events come: a tab that was not left has
-- a socket or a timer that makes one, and never both; while it is connected it has a socket, does not poll
-- and counts no failed attempts; it beats exactly while it is connected, and an open socket is
-- a connected one; a page that was left sets no timer.
pub tab_run-Alive_always :
    (throws : Bool) (jitter : ℕ) (es : List Event) (t : Tab)
    → Fresh t
    → Alive (view (tab_run es (connect_ws throws jitter t)))
tab_run-Alive_always throws jitter es t f =
    tab_run-Alive es (connect_ws throws jitter t) (first_connect throws jitter t f)
