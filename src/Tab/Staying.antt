-- ===== src/Tab/Staying.antt =====
-- A page that is not left stays (static/app.js: intentionalClose, along the events of a tab).
use goclipboard.Common.{
  ℕ, ◌≡◌, refl, ap, ◌∙◌, Bool, true, false, not, List, [], ◌∷◌, arith, if◌then◌else◌,
}
use goclipboard.Tab.{Tab, has_some}
use goclipboard.Tab.Connection.{
  set_connected, schedule_reconnect, close_socket, open_socket, is_current, connect_ws, on_open,
  on_close, heartbeat_fires, force_reconnect, socket_looks_dead, prune_fires,
}
use goclipboard.Tab.Frames.{Frame, session_frame, peers_frame, on_message}
use goclipboard.Tab.Events.{
  Event, opened, received, closed, reconnect_due, heartbeat_due, prune_due, typed,
  composition_started, composition_ended, commit_due, flush_due, undone, redone, left, step_if,
  tab_step, tab_run,
}
use goclipboard.Tab.Keeps.{if-link}
use goclipboard.Tab.Keeps.Edits.{
  on_composition_start-link, on_composition_end-link, flush_fires-link, end_composition-link,
  undo-link, redo-link,
}
use goclipboard.Tab.Alive.Steps.{
  session_frame-link, peers_frame-view, send_cursor_position-link, typed_link,
}

-- No event of the list leaves the page.
abbrev pub stays : List Event → Bool
stays [] = true
stays (left ∷ es) = false
stays (e ∷ es) = stays es

abbrev pub gone : Tab → Bool
gone t = t.session.intentional_close

same_gone : {l m : Bool × Bool × Bool × ℕ} → l ≡ m → l.2 ≡ m.2
same_gone e = ap (λ (l : Bool × Bool × Bool × ℕ). l.2) e

if-gone :
    (b : Bool) (t u : Tab) → gone t ≡ false → gone u ≡ false → gone (if b then t else u) ≡ false
if-gone true t u h k = h
if-gone false t u h k = k

module _ (t : Tab) (h : gone t ≡ false) where
  on_open-gone : (now k : ℕ) → gone (on_open now k t) ≡ false
  unfolding on_open set_connected
  on_open-gone now k = if-gone (is_current k t.socket) _ t h h

  on_message-gone : (now k : ℕ) (f : Frame) → gone (on_message now k f t) ≡ false
  unfolding on_message
  on_message-gone now k f =
      let u = record t { session = session_frame now f t.session; last_msg_at = now } in
      if-gone (is_current k t.socket) (peers_frame f u) t
        (ap (λ v. v.gone) (peers_frame-view f u)
          ∙ same_gone (session_frame-link now f t.session)
          ∙ h)
        h

  on_close-gone : (jitter k : ℕ) → gone (on_close jitter k t) ≡ false
  unfolding on_close set_connected schedule_reconnect
  on_close-gone jitter k = ground arith

  connect_ws-gone : (throws : Bool) (jitter : ℕ) → gone (connect_ws throws jitter t) ≡ false
  unfolding connect_ws close_socket open_socket schedule_reconnect set_connected
  connect_ws-gone throws jitter = ground arith

  heartbeat_fires-gone :
      (now : ℕ) (hidden : Bool) (start stop : ℕ) (backward : Bool)
      → gone (heartbeat_fires now hidden start stop backward t) ≡ false
  unfolding heartbeat_fires force_reconnect close_socket
  heartbeat_fires-gone now hidden start stop backward = if-gone (not t.session.connected) t _ h (
      if-gone (socket_looks_dead now t) _ _ h (
        if-gone hidden t _ h
          (same_gone (send_cursor_position-link start stop backward t.session) ∙ h)))

  tab_step-gone : (e : Event) → stays (e ∷ []) ≡ true → gone (tab_step e t) ≡ false
  unfolding tab_step step_if prune_fires
  tab_step-gone (opened now k) n = on_open-gone now k
  tab_step-gone (received now k f) n = on_message-gone now k f
  tab_step-gone (closed jitter k) n = on_close-gone jitter k
  tab_step-gone (reconnect_due throws jitter) n =
      if-gone (has_some t.reconnect_timer) _ t (connect_ws-gone throws jitter) h
  tab_step-gone (heartbeat_due now hidden start stop backward) n =
      if-gone t.heartbeat _ t (heartbeat_fires-gone now hidden start stop backward) h
  tab_step-gone (prune_due now) n = if-gone t.heartbeat (prune_fires now t) t h h
  tab_step-gone (typed now text) n = same_gone (typed_link now text t.session) ∙ h
  tab_step-gone composition_started n = same_gone (on_composition_start-link t.session) ∙ h
  tab_step-gone composition_ended n = same_gone (on_composition_end-link t.session) ∙ h
  tab_step-gone (commit_due now) n = same_gone (end_composition-link now _ t.session) ∙ h
  tab_step-gone (flush_due now sends ttl) n =
      same_gone (
        if-link t.session.flush_timer t.session _ _ (flush_fires-link now sends ttl t.session) refl)
      ∙ h
  tab_step-gone (undone now) n = same_gone (undo-link now t.session) ∙ h
  tab_step-gone (redone now) n = same_gone (redo-link now t.session) ∙ h
  tab_step-gone left n = cc n

first_stays :
    (e : Event) (es : List Event)
    → stays (e ∷ es) ≡ true
    → (stays (e ∷ []) ≡ true) × (stays es ≡ true)
first_stays left es n = (n, cc n)
first_stays (opened now k) es n = (refl, n)
first_stays (received now k f) es n = (refl, n)
first_stays (closed jitter k) es n = (refl, n)
first_stays (reconnect_due throws jitter) es n = (refl, n)
first_stays (heartbeat_due now hidden start stop backward) es n = (refl, n)
first_stays (prune_due now) es n = (refl, n)
first_stays (typed now text) es n = (refl, n)
first_stays composition_started es n = (refl, n)
first_stays composition_ended es n = (refl, n)
first_stays (commit_due now) es n = (refl, n)
first_stays (flush_due now sends ttl) es n = (refl, n)
first_stays (undone now) es n = (refl, n)
first_stays (redone now) es n = (refl, n)

pub tab_run-gone :
    (es : List Event) (t : Tab) → gone t ≡ false → stays es ≡ true → gone (tab_run es t) ≡ false
unfolding tab_run
tab_run-gone [] t h n = h
tab_run-gone (e ∷ es) t h n =
    let ne = first_stays e es n in tab_run-gone es (tab_step e t) (tab_step-gone t h e ne.0) ne.1
