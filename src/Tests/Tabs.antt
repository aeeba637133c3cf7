-- ===== src/Tests/Tabs.antt =====
-- A tab, its connection and the cursors of its peers (static/app.js) on concrete events.
use goclipboard.Common.{◌+◌, ◌≡◌, refl, true, false, none, some, List, [], ◌∷◌, map, leb}
use goclipboard.Text.{◌===◌, Text, codes}
use goclipboard.Tests.Sessions.{tab}
use goclipboard.Session.Colors.{normalize_color, pick_color}
use goclipboard.Session.Colors.Free.{IsPicked, pick_color-IsPicked}
use goclipboard.Session.Caret.{Cursor, pos_after, pos_from_after_id}
use goclipboard.Session.Peers.{CursorMessage, peer_entry}
use goclipboard.Session.Peers.Fresh.{peer_entry_again}
use goclipboard.Tab.{Tab}
use goclipboard.Tab.Connection.{connect_ws}
use goclipboard.Tab.Frames.{unreadable}
use goclipboard.Tab.Events.{
  Event, opened, received, closed, heartbeat_due, typed, left, tab_step, tab_run,
}
use goclipboard.Tab.Alive.{Alive, view}
use goclipboard.Tab.Alive.Steps.{tab_run-Alive_always}
use goclipboard.Tab.Sockets.{of_open, stale_is_silent}
use goclipboard.Tab.Recovery.{Online, reconnects, tab_run-Online}
use goclipboard.Tab.Phases.{Steps, marked, phase, tab_run-Steps}
use goclipboard.Session.{room_needs_unlock}
use goclipboard.Tab.Status.{syncing, error, idle_status, connect_status, close_status}
use goclipboard.Tab.Leaving.{left_is_final}
use goclipboard.Tab.Backoff.{wait, failures, failures-wait}

-- A loaded page.
abbrev loaded : Tab
loaded = record {
  session = record tab { connected = false; socket_open = false };
  socket = none;
  next_socket = 0;
  closed_sockets = [];
  reconnect_timer = none;
  last_msg_at = 0;
  rest_poll = false;
  heartbeat = false;
  ever_connected = false;
  remote_cursors = [];
  client_color = codes "#ff6b6b";
}

-- A tab whose first socket was lost.
abbrev waiting : Tab
waiting = record loaded { reconnect_timer = some 1000; next_socket = 1 }

abbrev online : Tab
online = record loaded {
  session = tab;
  socket = some 1;
  next_socket = 2;
  heartbeat = true;
  ever_connected = true;
}

online-Alive : Alive (view online)
online-Alive = record {
  retries = λ h. cc h;
  alone = λ h. cc h;
  quiet = λ h. cc h;
  joined = λ h. refl;
  streams = λ h. refl;
  counted = λ h. refl;
  beating = refl;
  readable = λ h. refl;
}

-- A day in which the socket is silent for a minute and somebody types.
abbrev day : List Event
day =
    received 100 1 unreadable
    ∷ heartbeat_due 60000 false 0 0 false
    ∷ typed 60001 (codes "ixo")
    ∷ closed 7 1
    ∷ []

tab_run-Alive_always_example : Alive (view (tab_run (opened 5 0 ∷ day) (connect_ws false 3 loaded)))
tab_run-Alive_always_example =
    tab_run-Alive_always false 3 (opened 5 0 ∷ day) loaded
      (record { no_socket = refl; no_heartbeat = refl; not_open = refl })

tab_run-Online_example :
    Online (tab_run day online) (tab_run (reconnects 9 2 (tab_run day online)) (tab_run day online))
tab_run-Online_example = tab_run-Online day 9 2 online online-Alive refl refl

stale_is_silent_example : tab_step (opened 70 0) (tab_run day online) ≡ tab_run day online
stale_is_silent_example = stale_is_silent 0 day (opened 70 0) online (refl, refl) of_open

left_is_final_example : (tab_run day (tab_step left online)).next_socket ≡ 2
left_is_final_example = left_is_final day online online-Alive

-- The constructor throws, and two sockets close before they open.
failures-wait_example :
    ((tab_run (failures 30 waiting.next_socket (true ∷ false ∷ false ∷ [])) waiting).reconnect_timer
      ≡ some (wait 2 + 30))
    × (leb 1000 (wait 2) ≡ true)
    × (leb (wait 2) 15000 ≡ true)
failures-wait_example = failures-wait 30 true (false ∷ false ∷ []) waiting refl refl

wait_2 : wait 2 ≡ 4000
unfolding wait
wait_2 = refl

-- The first colour of the palette is used.
abbrev used : List Text
used = codes "#FF6B6B" ∷ codes "x" ∷ []

pick_color-IsPicked_example :
    IsPicked (codes "ab") (map normalize_color used) (pick_color (codes "ab") used)
pick_color-IsPicked_example = pick_color-IsPicked (codes "ab") used

abbrev presence : CursorMessage
presence = record {
  client_id = codes "b";
  cursor_pos = some 1;
  selection_end = some 2;
  after_id = some (codes "b:9");
  selection_after_id = none;
  color = [];
  timestamp = 40;
}

abbrev moved_on : Cursor
moved_on = record {
  pos = 2;
  end = 2;
  after_id = some (codes "b:9");
  end_after_id = some (codes "b:9");
}

abbrev ids : List Text
ids = codes "a:1" ∷ codes "a:2" ∷ []

-- The anchor of the message is unknown; a local edit has moved the cursor of the peer.
peer_entry_again_example :
    (peer_entry ids (some (peer_entry ids none presence)) presence ≡ peer_entry ids none presence)
    × (peer_entry
          (codes "a:3" ∷ ids)
          (some (record (peer_entry ids none presence) { cursor = moved_on }))
          presence
        ≡ record (peer_entry ids none presence) { cursor = moved_on })
unfolding pos_from_after_id pos_after ◌===◌
peer_entry_again_example = peer_entry_again ids (codes "a:3" ∷ ids) none presence moved_on refl

tab_run-Steps_example :
    Steps (marked day online) (phase (view online)) (phase (view (tab_run day online)))
tab_run-Steps_example = tab_run-Steps day online online-Alive

-- A tab whose connection was lost is an error when the socket closes, and syncing when it is idle; one that
-- has shown a snapshot and was never connected is the other way around.
statuses :
    (close_status (record waiting { ever_connected = true }) ≡ error)
    × (idle_status (record waiting { ever_connected = true }) ≡ syncing)
    × (close_status waiting ≡ syncing)
    × (idle_status waiting ≡ error)
unfolding close_status connect_status idle_status room_needs_unlock
statuses = (refl, refl, refl, refl)
