-- ===== src/Session/Lock/Password.antt =====
-- Entering, setting and removing the room password (static/app.js: submitRoomLock and its answer, and
-- what openRoomPasswordDialog, changeRoomPassword and unlockRoom do with theirs).
use goclipboard.Common.{Bool, true, false, Option, none, some, [], if◌then◌else◌}
use goclipboard.Text.{Text, codes, ◌===◌}
use goclipboard.Session.{Session, emit, try_unlock, lock_error, load, schedule_flush, is_view_gate}
use goclipboard.Session.Lock.{
  hide_room_lock, remember_room_password, send_auth_frame, request_view_password,
}

unfoldable pub submit_room_lock : Text → Session → Session
submit_room_lock pw s =
    if s.room_lock_busy
    then s
    else if pw === []
    then emit lock_error s
    else emit (try_unlock pw) (record s { room_lock_busy = true })

-- An edit unlock flushes and reloads; a view unlock authenticates the socket.
unfoldable pub after_unlock : Session → Session
after_unlock s = if is_view_gate s then request_view_password s else emit load (schedule_flush s)

unfoldable pub accept_password : Text → Session → Session
accept_password pw s =
    let s' = remember_room_password pw s.password_scope s in
    after_unlock (hide_room_lock (record s' { edit_password_just_set = true }))

-- The answer of `tryUnlock`; `none` is a failed request.
unfoldable pub submit_answer : Text → Option Bool → Session → Session
unfolding after_unlock accept_password
submit_answer pw none s = emit lock_error (record s { room_lock_busy = false })
submit_answer pw (some false) s = emit lock_error (record s { room_lock_busy = false })
submit_answer pw (some true) s = accept_password pw (record s { room_lock_busy = false })

send_if_view : Text → Text → Session → Session
send_if_view scope pw s = if scope === codes "view" then send_auth_frame pw s else s

-- The dialog was confirmed, and the request is on its way.
unfoldable pub set_password : Session → Session
set_password s = record s { edit_password_just_set = true }

-- The answer says whether the server took the password.
unfoldable pub set_password_answer : Text → Text → Bool → Session → Session
unfolding send_if_view
set_password_answer pw scope false s = record s { edit_password_just_set = false }
set_password_answer pw scope true s = send_if_view scope pw (
    remember_room_password pw scope (record s { edit_password_set = true; password_scope = scope }))

unfoldable pub change_password_answer : Text → Text → Bool → Session → Session
unfolding send_if_view
change_password_answer pw scope false s = s
change_password_answer pw scope true s =
    send_if_view scope pw (remember_room_password pw scope (record s { password_scope = scope }))

unfoldable pub unlock_room_answer : Bool → Session → Session
unlock_room_answer false s = s
unlock_room_answer true s = record s {
  edit_password = [];
  view_password = [];
  edit_password_set = false;
  password_scope = [];
}
