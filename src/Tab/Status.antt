-- ===== src/Tab/Status.antt =====
-- What the status line says (static/app.js: setIdleStatus, and the calls of setStatus in connectWS and in
-- onclose).
use goclipboard.Common.{not, ◌&&◌, ◌||◌, if◌then◌else◌}
use goclipboard.Session.{room_needs_unlock}
use goclipboard.Tab.{Tab}

pub data Status : Type 0 where
  live saving locked pending syncing error : Status

-- `setIdleStatus`
unfoldable pub idle_status : Tab → Status
idle_status t =
    if t.session.connected && not t.session.initial_snapshot_applied
    then pending
    else if room_needs_unlock t.session
    then locked
    else if t.session.connected
    then live
    else if t.ever_connected || not t.session.initial_snapshot_applied
    then syncing
    else error

-- While a socket is being opened.
unfoldable pub connect_status : Tab → Status
connect_status t = if t.session.initial_snapshot_applied then syncing else pending

-- When the socket has closed.
unfoldable pub close_status : Tab → Status
close_status t = if t.ever_connected then error else connect_status t
