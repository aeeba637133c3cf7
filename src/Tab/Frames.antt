-- ===== src/Tab/Frames.antt =====
-- What arrives on the socket (static/app.js: onmessage of connectWS).
use goclipboard.Common.{ℕ, ◌||◌, List, [], ◌∷◌, ◌++◌, if◌then◌else◌}
use goclipboard.Doc.{visible_ids}
use goclipboard.Session.{Session, Message, AckMessage, Deferred, state_message, ops_message}
use goclipboard.Session.Ack.{handle_ack}
use goclipboard.Session.Remote.{handle_remote_ops}
use goclipboard.Session.Snapshot.{handle_state}
use goclipboard.Session.Peers.{CursorMessage, update_remote_cursors, unique_self_color}
use goclipboard.Tab.{Tab}
use goclipboard.Tab.Connection.{is_current}

-- The frames of the server; `unreadable` is no JSON or has no type that the tab knows. A files
-- frame only redraws the list of files.
pub data Frame : Type 0 where
  state_frame : Message → Frame
  ops_frame : Message → Frame
  ack_frame : AckMessage → Frame
  cursor_frame : List CursorMessage → Frame
  files_frame : Frame
  unreadable : Frame

-- The test of `onmessage` itself, in front of those in the handlers.
unfoldable pub held_back : Session → Deferred → Session → Session
held_back s m handled =
    if s.composition_active || s.composition_commit_pending
    then record s { deferred = s.deferred ++ m ∷ [] }
    else handled

unfoldable pub session_frame : ℕ → Frame → Session → Session
unfolding held_back
session_frame now (state_frame msg) s = held_back s (state_message msg) (handle_state now msg s)
session_frame now (ops_frame msg) s = held_back s (ops_message msg) (handle_remote_ops now msg s)
session_frame now (ack_frame msg) s = handle_ack msg s
session_frame now (cursor_frame msgs) s = s
session_frame now files_frame s = s
session_frame now unreadable s = s

-- The own colour is looked at only where the cursors are drawn anew.
unfoldable pub peers_frame : Frame → Tab → Tab
peers_frame (cursor_frame msgs) t =
    let (peers, drawn) =
      update_remote_cursors t.session.client_id (visible_ids t.session.doc) msgs t.remote_cursors in
    record t {
      remote_cursors = peers;
      client_color =
          if drawn
          then unique_self_color t.session.client_id t.client_color peers
          else t.client_color;
    }
peers_frame f t = t

unfoldable pub on_message : ℕ → ℕ → Frame → Tab → Tab
unfolding session_frame peers_frame
on_message now k frame t =
    if is_current k t.socket
    then peers_frame frame
        (record t { session = session_frame now frame t.session; last_msg_at = now })
    else t
