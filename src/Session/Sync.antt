-- ===== src/Session/Sync.antt =====
-- Asking the server for a snapshot (static/app.js: requestSync).
use goclipboard.Common.{ℕ, ◌-◌, not, ◌&&◌, ltb, ◌==◌, if◌then◌else◌}
use goclipboard.Session.{Session, emit, send_sync, load}

abbrev pub sync_interval_ms : ℕ
sync_interval_ms = 1500

unfoldable pub request_sync : ℕ → Session → Session
request_sync now s =
    if not (s.sync_requested_at == 0) && ltb (now - s.sync_requested_at) sync_interval_ms
    then s
    else if s.socket_open
    then emit send_sync (record s { sync_requested_at = now })
    else emit load s
