-- ===== src/Session/Lock/Steps.antt =====
-- Every sequence of changes of the room lock (static/app.js) as a run of steps.
use goclipboard.Common.{Bool, Option}
use goclipboard.Text.{Text}
use goclipboard.Session.{Session, Message}
use goclipboard.Session.Lock.{
  note_edit_password_set, sync_edit_lock_gate, lock_gate_answer, request_view_password,
  on_invalid_view_password, unlock_answer,
}
use goclipboard.Session.Lock.Password.{submit_answer}

-- What changes the lock: a message and the check of the gate, the answers of the server, the request
-- for a password and its refusal.
pub data LockStep : Session → Session → Type 0 where
  checked :
      {s : Session} (msg : Message)
      → LockStep s (sync_edit_lock_gate (note_edit_password_set msg s))
  answered : {s : Session} (answer : Option Bool) → LockStep s (lock_gate_answer answer s)
  requested : {s : Session} → LockStep s (request_view_password s)
  refused : {s : Session} → LockStep s (on_invalid_view_password s)
  entered :
      {s : Session} (pw : Text) (answer : Option Bool) → LockStep s (unlock_answer pw answer s)
  submitted :
      {s : Session} (pw : Text) (answer : Option Bool) → LockStep s (submit_answer pw answer s)

pub data LockRun (s : Session) : Session → Type 0 where
  start : LockRun s s
  step : {t u : Session} → LockRun s t → LockStep t u → LockRun s u
