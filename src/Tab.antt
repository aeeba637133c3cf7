-- ===== src/Tab.antt =====
-- A browser tab (static/app.js): the session with its socket, its timers and the cursors of its peers.
-- A socket is the number of its construction, so that an event of a replaced socket is told apart as
-- by `socket !== ws`. `socket_open` of the session is `readyState === OPEN`, which an opened socket
-- has until it is closed; `closed_sockets` are the calls of `close`.
pub mod Connection
pub mod Frames
pub mod Events
pub mod Keeps
pub mod Alive
pub mod Sockets
pub mod Staying
pub mod Recovery
pub mod Leaving
pub mod Backoff
pub mod Phases
pub mod Status
use goclipboard.Common.{ℕ, Bool, true, false, Option, none, some, List, []}
use goclipboard.Text.{Text}
use goclipboard.Dict.{Dict}
use goclipboard.Session.{Session}
use goclipboard.Session.Peers.{Peer}

pub record Tab : Type 0 where
  pub session : Session
  pub socket : Option ℕ
  pub next_socket : ℕ
  pub closed_sockets : List ℕ
  -- The delay of the timer, where one is set.
  pub reconnect_timer : Option ℕ
  pub last_msg_at : ℕ
  pub rest_poll : Bool
  -- The timers of the heartbeat and of the pruning, which are set and cleared together.
  pub heartbeat : Bool
  pub ever_connected : Bool
  pub remote_cursors : Dict Peer
  pub client_color : Text

abbrev pub has_some : Option ℕ → Bool
has_some none = false
has_some (some n) = true
