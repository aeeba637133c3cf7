-- ===== src/Tab/Connection.antt =====
-- Connecting and reconnecting (static/app.js: connectWS with onopen and onclose, scheduleReconnect,
-- forceReconnect, the presence heartbeat, socketLooksDead, the beforeunload handler). Whether the
-- constructor of the socket throws, the random part of the delay and the clock are arguments.
use goclipboard.Common.{
  ℕ, suc, ◌+◌, ◌-◌, ◌*◌, ◌^◌, Bool, true, false, not, ◌&&◌, ◌||◌, Option, none, some, List, [], ◌∷◌,
  ◌++◌, ltb, leb, ◌==◌, if◌then◌else◌,
}
use goclipboard.Session.{Batch}
use goclipboard.Session.Peers.{prune_stale_peers, send_cursor_position}
use goclipboard.Tab.{Tab}

abbrev pub msg_stale_ms : ℕ
msg_stale_ms = 15000

abbrev pub ack_timeout_ms : ℕ
ack_timeout_ms = 5000

unfoldable pub set_connected : Bool → Tab → Tab
set_connected on t = record t {
  session = record t.session { connected = on };
  ever_connected = if on then true else t.ever_connected;
}

abbrev pub min : ℕ → ℕ → ℕ
min a b = if ltb b a then b else a

-- `Math.min(15000, 1000 * Math.pow(2, Math.min(attempts - 1, 4)))`
unfoldable pub backoff : ℕ → ℕ
backoff attempts = min 15000 (1000 * 2 ^ min (attempts - 1) 4)

-- `jitter` is `Math.floor(Math.random() * 400)`.
unfoldable pub schedule_reconnect : ℕ → Tab → Tab
schedule_reconnect jitter t =
    let attempts = t.session.reconnect_attempts + 1 in
    record t {
      session = record t.session { reconnect_attempts = attempts };
      rest_poll = if leb 2 attempts then true else t.rest_poll;
      reconnect_timer = some (backoff attempts + jitter);
    }

close_list : Option ℕ → List ℕ
close_list none = []
close_list (some k) = k ∷ []

-- `socket.close()`, where there is a socket.
unfoldable pub close_socket : Tab → Tab
unfolding close_list
close_socket t = record t {
  session = record t.session { socket_open = false };
  closed_sockets = t.closed_sockets ++ close_list t.socket;
}

unfoldable pub open_socket : Bool → ℕ → Tab → Tab
open_socket throws jitter t =
    if throws
    then schedule_reconnect jitter t
    else record t { socket = some t.next_socket; next_socket = suc t.next_socket }

-- `connectWS`, up to the events of the socket.
unfoldable pub connect_ws : Bool → ℕ → Tab → Tab
unfolding open_socket
connect_ws throws jitter t =
    let t' = close_socket (set_connected false (record t { reconnect_timer = none })) in
    open_socket throws jitter
      (record t' { session = record t'.session { intentional_close = false }; socket = none })

abbrev pub is_current : ℕ → Option ℕ → Bool
is_current k none = false
is_current k (some s) = s == k

-- `onopen` of the socket `k`; the cursor is sent by a timer.
unfoldable pub on_open : ℕ → ℕ → Tab → Tab
on_open now k t =
    let s = record t.session { reconnect_attempts = 0; socket_open = true } in
    if is_current k t.socket
    then set_connected true
        (record t { session = s; rest_poll = false; last_msg_at = now; heartbeat = true })
    else t

-- `onclose` of the socket `k`.
unfoldable pub on_close : ℕ → ℕ → Tab → Tab
on_close jitter k t =
    let s = record t.session { sent_batches = []; socket_open = false } in
    let t' =
      set_connected false
        (record t { session = s; socket = none; heartbeat = false; remote_cursors = [] }) in
    if is_current k t.socket
    then if t.session.intentional_close then t' else schedule_reconnect jitter t'
    else t

unfoldable pub force_reconnect : Tab → Tab
force_reconnect t = close_socket t

overdue : ℕ → List (ℕ × Batch) → Bool
overdue now [] = false
overdue now ((seq, b) ∷ l) = ltb ack_timeout_ms (now - b.sent_at) || overdue now l

unfoldable pub socket_looks_dead : ℕ → Tab → Bool
unfolding overdue
socket_looks_dead now t =
    not (t.last_msg_at == 0) && ltb msg_stale_ms (now - t.last_msg_at)
    || overdue now t.session.sent_batches

-- A round of the heartbeat; the selection is given by its offsets and its direction.
unfoldable pub heartbeat_fires : ℕ → Bool → ℕ → ℕ → Bool → Tab → Tab
heartbeat_fires now hidden start stop backward t =
    if not t.session.connected
    then t
    else if socket_looks_dead now t
    then force_reconnect t
    else if hidden
    then t
    else record t { session = send_cursor_position start stop backward t.session }

unfoldable pub prune_fires : ℕ → Tab → Tab
prune_fires now t = record t { remote_cursors = prune_stale_peers now t.remote_cursors }

-- The handler of `beforeunload`.
unfoldable pub leave : Tab → Tab
leave t =
    close_socket
      (record t { session = record t.session { intentional_close = true }; reconnect_timer = none })
