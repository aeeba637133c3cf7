-- ===== src/Tab/Leaving.antt =====
-- A page that was left (static/app.js: the beforeunload handler, with the timers and events of
-- connectWS that may still come).
use goclipboard.Common.{
  ℕ, ◌≡◌, refl, ap, ◌∙◌, Bool, true, false, not, List, [], ◌∷◌, Bool-cases, inl, inr, if◌then◌else◌,
}
use goclipboard.Tab.{Tab}
use goclipboard.Tab.Connection.{
  set_connected, close_socket, is_current, on_open, on_close, heartbeat_fires, force_reconnect,
  socket_looks_dead, prune_fires, leave,
}
use goclipboard.Tab.Frames.{
  Frame, state_frame, ops_frame, ack_frame, cursor_frame, files_frame, unreadable, session_frame,
  peers_frame, on_message,
}
use goclipboard.Tab.Events.{
  Event, opened, received, closed, reconnect_due, heartbeat_due, prune_due, typed,
  composition_started, composition_ended, commit_due, flush_due, undone, redone, left, step_if,
  tab_step, tab_run,
}
use goclipboard.Tab.Keeps.{link, if-link}
use goclipboard.Tab.Keeps.Edits.{
  on_composition_start-link, on_composition_end-link, flush_fires-link, end_composition-link,
  undo-link, redo-link,
}
use goclipboard.Tab.Alive.{Alive, view}
use goclipboard.Tab.Alive.Steps.{
  tab_step-Alive, session_frame-link, send_cursor_position-link, typed_link,
}

-- The page was left when `n` was the number of the next socket.
abbrev Left : ℕ → Tab → Type 0
Left n t = (t.session.intentional_close ≡ true) × (t.next_socket ≡ n)

if-Left : (n : ℕ) (b : Bool) (t u : Tab) → Left n t → Left n u → Left n (if b then t else u)
if-Left n true t u h k = h
if-Left n false t u h k = k

module _ (n : ℕ) (t : Tab) (h : Left n t) where
  same_Left : {l : Bool × Bool × Bool × ℕ} → l ≡ link t.session → (l.2 ≡ true) × (t.next_socket ≡ n)
  same_Left e = (ap (λ (l : Bool × Bool × Bool × ℕ). l.2) e ∙ h.0, h.1)

  on_open-Left : (now k : ℕ) → Left n (on_open now k t)
  unfolding on_open set_connected
  on_open-Left now k = if-Left n (is_current k t.socket) _ t h h

  peers_frame-Left : (f : Frame) → Left n (peers_frame f t)
  unfolding peers_frame
  peers_frame-Left (state_frame msg) = h
  peers_frame-Left (ops_frame msg) = h
  peers_frame-Left (ack_frame msg) = h
  peers_frame-Left (cursor_frame msgs) = h
  peers_frame-Left files_frame = h
  peers_frame-Left unreadable = h

  on_close-Left : (jitter k : ℕ) → Left n (on_close jitter k t)
  unfolding on_close set_connected
  on_close-Left jitter k = elim (Bool-cases (is_current k t.socket)) [
    | inr stale ↦ rw stale h
    | inl current ↦ rw (current, h.0) (refl, h.1)
  ]

  heartbeat_fires-Left :
      (now : ℕ) (hidden : Bool) (start stop : ℕ) (backward : Bool)
      → Left n (heartbeat_fires now hidden start stop backward t)
  unfolding heartbeat_fires force_reconnect close_socket
  heartbeat_fires-Left now hidden start stop backward = if-Left n (not t.session.connected) t _ h (
      if-Left n (socket_looks_dead now t) _ _ h (
        if-Left n hidden t _ h
          (same_Left (send_cursor_position-link start stop backward t.session))))

on_message-Left :
    (n : ℕ) (t : Tab) → Left n t → (now k : ℕ) (f : Frame) → Left n (on_message now k f t)
unfolding on_message
on_message-Left n t h now k f =
    let u = record t { session = session_frame now f t.session; last_msg_at = now } in
    if-Left n (is_current k t.socket) (peers_frame f u) t
      (peers_frame-Left n u (same_Left n t h (session_frame-link now f t.session)) f) h

module _ (n : ℕ) (t : Tab) (h : Left n t) (a : Alive (view t)) where
  tab_step-Left : (e : Event) → Left n (tab_step e t)
  unfolding tab_step step_if prune_fires leave close_socket
  tab_step-Left (opened now k) = on_open-Left n t h now k
  tab_step-Left (received now k f) = on_message-Left n t h now k f
  tab_step-Left (closed jitter k) = on_close-Left n t h jitter k
  tab_step-Left (reconnect_due throws jitter) = rw (a.quiet h.0) h
  tab_step-Left (heartbeat_due now hidden start stop backward) =
      if-Left n t.heartbeat _ t (heartbeat_fires-Left n t h now hidden start stop backward) h
  tab_step-Left (prune_due now) = if-Left n t.heartbeat (prune_fires now t) t h h
  tab_step-Left (typed now text) = same_Left n t h (typed_link now text t.session)
  tab_step-Left composition_started = same_Left n t h (on_composition_start-link t.session)
  tab_step-Left composition_ended = same_Left n t h (on_composition_end-link t.session)
  tab_step-Left (commit_due now) = same_Left n t h (end_composition-link now _ t.session)
  tab_step-Left (flush_due now sends ttl) =
      same_Left n t h (
        if-link t.session.flush_timer t.session _ _ (flush_fires-link now sends ttl t.session) refl)
  tab_step-Left (undone now) = same_Left n t h (undo-link now t.session)
  tab_step-Left (redone now) = same_Left n t h (redo-link now t.session)
  tab_step-Left left = (refl, h.1)

tab_run-Left :
    (es : List Event) (n : ℕ) (t : Tab) → Left n t → Alive (view t) → Left n (tab_run es t)
unfolding tab_run
tab_run-Left [] n t h a = h
tab_run-Left (e ∷ es) n t h a =
    tab_run-Left es n (tab_step e t) (tab_step-Left n t h a e) (tab_step-Alive t a e)

-- Once the page was left, a tab that was alive makes no further socket, whatever events still come.
pub left_is_final :
    (es : List Event) (t : Tab)
    → Alive (view t)
    → (tab_run es (tab_step left t)).next_socket ≡ t.next_socket
unfolding tab_step leave close_socket
left_is_final es t a =
    (tab_run-Left es t.next_socket (tab_step left t) (refl, refl) (tab_step-Alive t a left)).1
