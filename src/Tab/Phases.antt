-- ===== src/Tab/Phases.antt =====
-- The phases of a connection, which is all that the person in front of the tab sees of it
-- (static/app.js: connectWS with its events, scheduleReconnect, the beforeunload handler).
use goclipboard.Common.{
  ℕ, ◌≡◌, refl, sym, ap, ◌∙◌, Bool, true, false, not, List, [], ◌∷◌, Bool-cases, inl, inr, arith,
  if◌then◌else◌,
}
use mathlib.Core.Path.{subst}
use goclipboard.Tab.{Tab, has_some}
use goclipboard.Tab.Connection.{
  set_connected, schedule_reconnect, close_socket, open_socket, is_current, connect_ws, on_open,
  on_close, heartbeat_fires, force_reconnect, socket_looks_dead, prune_fires, leave,
}
use goclipboard.Tab.Frames.{Frame, session_frame, peers_frame, on_message}
use goclipboard.Tab.Events.{
  Event, opened, received, closed, reconnect_due, heartbeat_due, prune_due, typed,
  composition_started, composition_ended, commit_due, flush_due, undone, redone, left, step_if,
  tab_step, tab_run,
}
use goclipboard.Tab.Keeps.{link, if-link}
use goclipboard.Tab.Keeps.Edits.{
  on_composition_start-link, on_composition_end-link, flush_fires-link, end_composition-link,
  undo-link, redo-link,
}
use goclipboard.Tab.Alive.{View, Alive, view, view_of, current_some}
use goclipboard.Tab.Alive.Steps.{
  tab_step-Alive, session_frame-link, peers_frame-view, send_cursor_position-link, typed_link,
}

-- No socket, a socket that is not open yet, a connection, a page that was left.
pub data Phase : Type 0 where
  waiting connecting online gone : Phase

phase_of : Bool → Bool → Bool → Phase
phase_of left_page connected has_socket =
    if left_page
    then gone
    else if connected
    then online
    else if has_socket
    then connecting
    else waiting

pub phase : View → Phase
unfolding phase_of
phase v = phase_of v.gone v.connected v.has_socket

-- An event that concerns the connection: it is of the current socket, of a timer that is set, or the page is
-- left.
pub concerns : Event → Tab → Bool
concerns (opened now k) t = is_current k t.socket
concerns (closed jitter k) t = is_current k t.socket
concerns (reconnect_due throws jitter) t = has_some t.reconnect_timer
concerns left t = true
concerns e t = false

-- What such an event, or another, does to the phase.
pub data Next : Bool → Event → Phase → Phase → Type 0 where
  stay : {e : Event} {p : Phase} → Next false e p p
  dial : {jitter : ℕ} → Next true (reconnect_due false jitter) waiting connecting
  throw : {jitter : ℕ} → Next true (reconnect_due true jitter) waiting waiting
  join : {now k : ℕ} → Next true (opened now k) connecting online
  again : {now k : ℕ} → Next true (opened now k) online online
  late : {now k : ℕ} → Next true (opened now k) gone gone
  fail : {jitter k : ℕ} → Next true (closed jitter k) connecting waiting
  drop : {jitter k : ℕ} → Next true (closed jitter k) online waiting
  close : {jitter k : ℕ} → Next true (closed jitter k) gone gone
  leaves : {p : Phase} → Next true left p gone

-- The events of a run, each with whether it concerns the connection when it takes place.
unfoldable pub marked : List Event → Tab → List (Event × Bool)
marked [] t = []
marked (e ∷ es) t = (e, concerns e t) ∷ marked es (tab_step e t)

-- One step for each of the events.
pub data Steps : List (Event × Bool) → Phase → Phase → Type 0 where
  nil : {p : Phase} → Steps [] p p
  step :
      {e : Event} {c : Bool} {es : List (Event × Bool)} {p q r : Phase}
      → Next c e p q
      → Steps es q r
      → Steps ((e, c) ∷ es) p r

same_phase : {e : Event} {v w : View} → w ≡ v → Next false e (phase v) (phase w)
same_phase {e} {v} {w} same = subst (λ u. Next false e (phase v) (phase u)) (sym same) stay

if-Next :
    {e : Event} (b : Bool) (p : Phase) (t u : Tab)
    → Next false e p (phase (view t))
    → Next false e p (phase (view u))
    → Next false e p (phase (view (if b then t else u)))
if-Next true p t u h k = h
if-Next false p t u h k = k

-- A socket that opens.
joins :
    {now k : ℕ} (left_page connected : Bool)
    → Next true (opened now k) (phase_of left_page connected true) (phase_of left_page true true)
unfolding phase_of
joins true connected = late
joins false true = again
joins false false = join

-- A socket that closes.
drops :
    {jitter k : ℕ} (left_page connected : Bool)
    → Next true
        (closed jitter k)
        (phase_of left_page connected true)
        (phase_of left_page false false)
unfolding phase_of
drops true connected = close
drops false true = drop
drops false false = fail

module _ (t : Tab) where
  on_open-Next :
      (now k : ℕ)
      → Next
          (is_current k t.socket)
          (opened now k)
          (phase (view t))
          (phase (view (on_open now k t)))
  unfolding phase on_open set_connected
  on_open-Next now k = elim (Bool-cases (is_current k t.socket)) [
    | inr stale ↦ rw stale stay
    | inl current ↦
        let here = current_some k t.socket current in
        rw (current, here) (joins t.session.intentional_close t.session.connected)
  ]

  on_close-Next :
      (jitter k : ℕ)
      → Next
          (is_current k t.socket)
          (closed jitter k)
          (phase (view t))
          (phase (view (on_close jitter k t)))
  unfolding phase on_close set_connected schedule_reconnect
  on_close-Next jitter k = elim (Bool-cases (is_current k t.socket)) [
    | inr stale ↦ rw stale stay
    | inl current ↦
        let here = current_some k t.socket current in
        elim (Bool-cases t.session.intentional_close) [
          | inl away ↦ rw (current, here, away) (drops true t.session.connected)
          | inr stays ↦ rw (current, here, stays) (drops false t.session.connected)
        ]
  ]

  -- A timer that is set belongs to a tab that waits.
  timer_waits : Alive (view t) → has_some t.reconnect_timer ≡ true → phase (view t) ≡ waiting
  unfolding phase phase_of
  timer_waits a due =
      let lone = a.alone due in
      let here : t.session.intentional_close ≡ false = ground (arith, a.quiet) in
      let off : t.session.connected ≡ false = ground (arith, a.joined) in rw (here, off, lone) refl

  connect_ws-Next :
      (throws : Bool) (jitter : ℕ)
      → Next true (reconnect_due throws jitter) waiting (phase (view (connect_ws throws jitter t)))
  unfolding phase phase_of connect_ws close_socket open_socket schedule_reconnect set_connected
  connect_ws-Next true jitter = throw
  connect_ws-Next false jitter = dial

  reconnect_due-Next :
      (throws : Bool) (jitter : ℕ)
      → Alive (view t)
      → Next
          (has_some t.reconnect_timer)
          (reconnect_due throws jitter)
          (phase (view t))
          (phase (view (tab_step (reconnect_due throws jitter) t)))
  unfolding tab_step step_if phase
  reconnect_due-Next throws jitter a = elim (Bool-cases (has_some t.reconnect_timer)) [
    | inl due ↦ rw (timer_waits a due, due) (connect_ws-Next throws jitter)
    | inr idle ↦ rw idle stay
  ]

  leave-Next : Next true left (phase (view t)) (phase (view (leave t)))
  unfolding leave close_socket phase phase_of
  leave-Next = leaves

  same_link :
      {e : Event} {l : Bool × Bool × Bool × ℕ}
      → l ≡ link t.session
      → Next false e (phase (view t)) (phase (view_of t l))
  same_link same = same_phase (ap (view_of t) same)

  on_message-Next :
      {e : Event} (now k : ℕ) (f : Frame)
      → Next false e (phase (view t)) (phase (view (on_message now k f t)))
  unfolding on_message
  on_message-Next now k f =
      let u = record t { session = session_frame now f t.session; last_msg_at = now } in
      if-Next (is_current k t.socket) (phase (view t)) (peers_frame f u) t
        (same_phase (peers_frame-view f u ∙ ap (view_of t) (session_frame-link now f t.session)))
        stay

  heartbeat_fires-Next :
      {e : Event} (now : ℕ) (hidden : Bool) (start stop : ℕ) (backward : Bool)
      → Next false e
          (phase (view t))
          (phase (view (heartbeat_fires now hidden start stop backward t)))
  unfolding heartbeat_fires force_reconnect close_socket phase
  heartbeat_fires-Next now hidden start stop backward =
      if-Next (not t.session.connected) (phase (view t)) t _ stay (
        if-Next (socket_looks_dead now t) (phase (view t)) _ _ stay (
          if-Next hidden (phase (view t)) t _ stay
            (same_link (send_cursor_position-link start stop backward t.session))))

  tab_step-Next :
      Alive (view t)
      → (e : Event) → Next (concerns e t) e (phase (view t)) (phase (view (tab_step e t)))
  unfolding tab_step step_if prune_fires concerns
  tab_step-Next a (opened now k) = on_open-Next now k
  tab_step-Next a (received now k f) = on_message-Next now k f
  tab_step-Next a (closed jitter k) = on_close-Next jitter k
  tab_step-Next a (reconnect_due throws jitter) = reconnect_due-Next throws jitter a
  tab_step-Next a (heartbeat_due now hidden start stop backward) =
      if-Next t.heartbeat (phase (view t)) _ t (heartbeat_fires-Next now hidden start stop backward)
        stay
  tab_step-Next a (prune_due now) =
      if-Next t.heartbeat (phase (view t)) (prune_fires now t) t stay stay
  tab_step-Next a (typed now text) = same_link (typed_link now text t.session)
  tab_step-Next a composition_started = same_link (on_composition_start-link t.session)
  tab_step-Next a composition_ended = same_link (on_composition_end-link t.session)
  tab_step-Next a (commit_due now) = same_link (end_composition-link now _ t.session)
  tab_step-Next a (flush_due now sends ttl) =
      same_link (
        if-link t.session.flush_timer t.session _ _ (flush_fires-link now sends ttl t.session) refl)
  tab_step-Next a (undone now) = same_link (undo-link now t.session)
  tab_step-Next a (redone now) = same_link (redo-link now t.session)
  tab_step-Next a left = leave-Next

-- Every run of a tab that is alive refines the machine of four phases: no socket, a socket that is not
-- open yet, a connection, a page that was left. Each event makes one step. An event of a replaced socket or of
-- a timer that is not set, and any message, edit or other timer, leaves the phase as it is. The timer
-- leads from waiting to a new socket, or to waiting where the constructor throws; the opening of the
-- current socket leads online, its closing to waiting, and leaving the page to the page that was
-- left, which is final.
pub tab_run-Steps :
    (es : List Event) (t : Tab)
    → Alive (view t)
    → Steps (marked es t) (phase (view t)) (phase (view (tab_run es t)))
unfolding tab_run marked
tab_run-Steps [] t a = nil
tab_run-Steps (e ∷ es) t a =
    step (tab_step-Next t a e) (tab_run-Steps es (tab_step e t) (tab_step-Alive t a e))
