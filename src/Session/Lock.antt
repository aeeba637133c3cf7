-- ===== src/Session/Lock.antt =====
-- The room lock and the passwords (static/app.js: noteEditPasswordSet, syncEditLockGate, showRoomLock,
-- hideRoomLock, rememberRoomPassword, sendAuth, requestViewPassword, onInvalidViewPassword and what
-- unlockWithPassword does with its answer). The two browser stores are the fields `edit_password`
-- and `view_password`, and both work; a page that has the elements of the lock is assumed.
pub mod Gate
pub mod Password
pub mod Steps
use goclipboard.Common.{
  Bool, true, false, not, ◌&&◌, ◌||◌, Option, none, some, List, [], ◌∷◌, ◌++◌, if◌then◌else◌,
}
use goclipboard.Text.{Text, codes, ◌===◌}
use goclipboard.Session.{
  Session, Message, emit, send_auth, try_unlock, lock_error, room_needs_unlock, is_view_gate,
  schedule_flush,
}

abbrev pub scope_of : Bool → Text
scope_of true = codes "edit"
scope_of false = []

unfoldable pub note_set : Option Bool → Session → Session
note_set none s = s
note_set (some b) s = record s { edit_password_set = b }

-- A room that was locked before there were scopes gates edits only.
unfoldable pub note_scope : Text → Option Bool → Session → Session
note_scope (c ∷ scope) set s = record s { password_scope = c ∷ scope }
note_scope [] none s = s
note_scope [] (some b) s = record s { password_scope = scope_of b }

unfoldable pub note_edit_password_set : Message → Session → Session
unfolding note_set note_scope
note_edit_password_set msg s =
    note_scope msg.password_scope msg.edit_password_set (note_set msg.edit_password_set s)

unfoldable pub show_room_lock : Session → Session
show_room_lock s = record s { unlocked = false; read_only = true }

unfoldable pub hide_room_lock : Session → Session
hide_room_lock s = record s { unlocked = true; read_only = false }

unfoldable pub sync_edit_lock_gate : Session → Session
sync_edit_lock_gate s =
    if not (s.password_scope === codes "edit") || not s.edit_password_set
    then if room_needs_unlock s then hide_room_lock s else s
    else if s.edit_password === []
    then show_room_lock s
    else if s.edit_password_just_set
    then hide_room_lock s
    else emit (try_unlock s.edit_password) s

-- What `syncEditLockGate` does with the answer of `tryUnlock`; `none` is a failed request.
pub lock_gate_answer : Option Bool → Session → Session
lock_gate_answer none s = hide_room_lock s
lock_gate_answer (some true) s = hide_room_lock s
lock_gate_answer (some false) s =
    show_room_lock (record s { edit_password = []; view_password = [] })

unfoldable pub remember_room_password : Text → Text → Session → Session
remember_room_password pw scope s =
    if pw === []
    then s
    else if scope === codes "view" || is_view_gate s
    then record s { edit_password = pw; view_password = pw }
    else record s { edit_password = pw }

unfoldable pub send_auth_frame : Text → Session → Session
send_auth_frame pw s = if s.socket_open then emit (send_auth pw) s else s

-- `rememberedViewPassword() || (editPasswordSet ? getEditPassword() : "")`
unfoldable pub replayed_password : Session → Text
replayed_password s =
    if not (s.view_password === [])
    then s.view_password
    else if s.edit_password_set
    then s.edit_password
    else []

unfoldable pub request_view_password : Session → Session
request_view_password s =
    if not (replayed_password s === [])
    then send_auth_frame (replayed_password s) s
    else show_room_lock s

unfoldable pub on_invalid_view_password : Session → Session
on_invalid_view_password s =
    emit lock_error (show_room_lock (record s { edit_password = []; view_password = [] }))

-- What `unlockWithPassword` does with the answer of `tryUnlock`.
pub unlock_answer : Text → Option Bool → Session → Session
unlock_answer pw none s = s
unlock_answer pw (some false) s = s
unlock_answer pw (some true) s =
    let s' = remember_room_password pw s.password_scope s in
    schedule_flush (hide_room_lock (record s' { edit_password_just_set = true }))
