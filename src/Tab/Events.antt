-- ===== src/Tab/Events.antt =====
-- The life of a tab as a sequence of events: of its socket, its timers and the person in front of it.
use goclipboard.Common.{
  ℕ, Bool, false, not, ◌||◌, Option, none, some, List, [], ◌∷◌, ◌==◌, if◌then◌else◌,
}
use goclipboard.Text.{Text}
use goclipboard.Session.{Session}
use goclipboard.Session.Local.{on_input, on_composition_start, on_composition_end}
use goclipboard.Session.Flush.{flush_fires}
use goclipboard.Session.Undo.{undo, redo}
use goclipboard.Session.Snapshot.{end_composition}
use goclipboard.Tab.{Tab, has_some}
use goclipboard.Tab.Connection.{connect_ws, on_open, on_close, heartbeat_fires, prune_fires, leave}
use goclipboard.Tab.Frames.{Frame, on_message}

pub data Event : Type 0 where
  opened : ℕ → ℕ → Event
  received : ℕ → ℕ → Frame → Event
  closed : ℕ → ℕ → Event
  reconnect_due : Bool → ℕ → Event
  heartbeat_due : ℕ → Bool → ℕ → ℕ → Bool → Event
  prune_due : ℕ → Event
  typed : ℕ → Text → Event
  composition_started : Event
  composition_ended : Event
  commit_due : ℕ → Event
  flush_due : ℕ → Bool → ℕ → Event
  undone : ℕ → Event
  redone : ℕ → Event
  left : Event

-- A timer event takes place only while its timer is set.
unfoldable pub step_if : Bool → Tab → Tab → Tab
step_if due t u = if due then u else t

is_among : ℕ → List ℕ → Bool
is_among k [] = false
is_among k (n ∷ ns) = k == n || is_among k ns

-- `socket.readyState` is CONNECTING or OPEN: the socket has not been told to close.
unfoldable pub socket_live : Option ℕ → List ℕ → Bool
unfolding is_among
socket_live none closes = false
socket_live (some k) closes = not (is_among k closes)

-- What a person or a timer does to the session.
abbrev on_session : (Session → Session) → Tab → Tab
on_session f t = record t { session = f t.session }

unfoldable pub tab_step : Event → Tab → Tab
unfolding step_if
tab_step (opened now k) t = on_open now k t
tab_step (received now k frame) t = on_message now k frame t
tab_step (closed jitter k) t = on_close jitter k t
tab_step (reconnect_due throws jitter) t =
    step_if (has_some t.reconnect_timer) t (connect_ws throws jitter t)
tab_step (heartbeat_due now hidden start stop backward) t =
    step_if t.heartbeat t (heartbeat_fires now hidden start stop backward t)
tab_step (prune_due now) t = step_if t.heartbeat t (prune_fires now t)
tab_step (typed now text) t =
    on_session (λ s. if s.read_only then s else on_input now (record s { content = text })) t
tab_step composition_started t = on_session on_composition_start t
tab_step composition_ended t = on_session on_composition_end t
tab_step (commit_due now) t =
    on_session (end_composition now (socket_live t.socket t.closed_sockets)) t
tab_step (flush_due now sends ttl) t =
    on_session (λ s. if s.flush_timer then flush_fires now sends ttl s else s) t
tab_step (undone now) t = on_session (undo now) t
tab_step (redone now) t = on_session (redo now) t
tab_step left t = leave t

unfoldable pub tab_run : List Event → Tab → Tab
tab_run [] t = t
tab_run (e ∷ es) t = tab_run es (tab_step e t)
