-- ===== src/Session/Lock/Gate.antt =====
-- An editor that is read-only belongs to a locked room (static/app.js: showRoomLock, hideRoomLock
-- and their callers).
use goclipboard.Common.{
  ◌≡◌, refl, ◌∙◌, Bool, not, ◌&&◌, false, ◌||◌, Option, none, some, [], ◌∷◌, Bool-cases, inl, inr,
}
use goclipboard.Text.{Text, codes, ◌===◌}
use goclipboard.Session.{Session, Message, room_needs_unlock}
use goclipboard.Session.Lock.{
  note_set, note_scope, note_edit_password_set, show_room_lock, hide_room_lock, sync_edit_lock_gate,
  send_auth_frame, replayed_password, request_view_password,
}

-- The editor is not read-only in a room that needs no password.
abbrev pub Guards : Session → Type 0
Guards s = (s.read_only && not (room_needs_unlock s)) ≡ false

pub sync_edit_lock_gate-Guards : (s : Session) → Guards s → Guards (sync_edit_lock_gate s)
unfolding sync_edit_lock_gate show_room_lock hide_room_lock room_needs_unlock
sync_edit_lock_gate-Guards s g =
    elim (Bool-cases (not (s.password_scope === codes "edit") || not s.edit_password_set)) [
      | inl ungated ↦ elim (Bool-cases (not s.unlocked)) [
        | inl locked ↦ rw (ungated, locked) refl
        | inr free ↦ rw (ungated, free) g
      ]
      | inr gated ↦ elim (Bool-cases (s.edit_password === [])) [
        | inl absent ↦ rw (gated, absent) refl
        | inr stored ↦ elim (Bool-cases s.edit_password_just_set) [
          | inl fresh ↦ rw (gated, stored, fresh) refl
          | inr older ↦ rw (gated, stored, older) g
        ]
      ]
    ]

pub request_view_password-Guards : (s : Session) → Guards s → Guards (request_view_password s)
unfolding request_view_password send_auth_frame show_room_lock room_needs_unlock
request_view_password-Guards s g = elim (Bool-cases (not (replayed_password s === []))) [
  | inr absent ↦ rw absent refl
  | inl stored ↦ elim (Bool-cases s.socket_open) [
    | inl on ↦ rw (stored, on) g
    | inr off ↦ rw (stored, off) g
  ]
]

note_scope-Guards :
    (scope : Text) (o : Option Bool) (s : Session) → Guards s → Guards (note_scope scope o s)
unfolding note_scope room_needs_unlock
note_scope-Guards (c ∷ scope) o s g = g
note_scope-Guards [] none s g = g
note_scope-Guards [] (some b) s g = g

note_set-Guards : (o : Option Bool) (s : Session) → Guards s → Guards (note_set o s)
unfolding note_set room_needs_unlock
note_set-Guards none s g = g
note_set-Guards (some b) s g = g

pub note_edit_password_set-Guards :
    (msg : Message) (s : Session) → Guards s → Guards (note_edit_password_set msg s)
unfolding note_edit_password_set
note_edit_password_set-Guards msg s g =
    note_scope-Guards msg.password_scope msg.edit_password_set (note_set msg.edit_password_set s)
      (note_set-Guards msg.edit_password_set s g)

-- A session that differs from another in its lock, its passwords and its effects only.
pub record SameEdits (s t : Session) : Type 0 where
  pub client : t.client_id ≡ s.client_id
  pub content : t.content ≡ s.content
  pub pending : t.pending_ops ≡ s.pending_ops
  pub applied : t.initial_snapshot_applied ≡ s.initial_snapshot_applied

SameEdits-refl : (s : Session) → SameEdits s s
SameEdits-refl s = record { client = refl; content = refl; pending = refl; applied = refl }

SameEdits-trans : (s t u : Session) → SameEdits s t → SameEdits t u → SameEdits s u
SameEdits-trans s t u a b = record {
  client = b.client ∙ a.client;
  content = b.content ∙ a.content;
  pending = b.pending ∙ a.pending;
  applied = b.applied ∙ a.applied;
}

note_set-SameEdits : (o : Option Bool) (s : Session) → SameEdits s (note_set o s)
unfolding note_set
note_set-SameEdits none s = SameEdits-refl s
note_set-SameEdits (some b) s = record {
  client = refl;
  content = refl;
  pending = refl;
  applied = refl;
}

note_scope-SameEdits :
    (scope : Text) (o : Option Bool) (s : Session) → SameEdits s (note_scope scope o s)
unfolding note_scope
note_scope-SameEdits (c ∷ scope) o s = record {
  client = refl;
  content = refl;
  pending = refl;
  applied = refl;
}
note_scope-SameEdits [] none s = SameEdits-refl s
note_scope-SameEdits [] (some b) s = record {
  client = refl;
  content = refl;
  pending = refl;
  applied = refl;
}

sync_edit_lock_gate-SameEdits : (s : Session) → SameEdits s (sync_edit_lock_gate s)
unfolding sync_edit_lock_gate show_room_lock hide_room_lock room_needs_unlock
sync_edit_lock_gate-SameEdits s =
    elim (Bool-cases (not (s.password_scope === codes "edit") || not s.edit_password_set)) [
      | inl ungated ↦ elim (Bool-cases (not s.unlocked)) [
        | inl locked ↦
            rw (ungated, locked)
              (record { client = refl; content = refl; pending = refl; applied = refl })
        | inr free ↦ rw (ungated, free) (SameEdits-refl s)
      ]
      | inr gated ↦ elim (Bool-cases (s.edit_password === [])) [
        | inl absent ↦
            rw (gated, absent)
              (record { client = refl; content = refl; pending = refl; applied = refl })
        | inr stored ↦ elim (Bool-cases s.edit_password_just_set) [
          | inl fresh ↦
              rw (gated, stored, fresh)
                (record { client = refl; content = refl; pending = refl; applied = refl })
          | inr older ↦
              rw (gated, stored, older)
                (record { client = refl; content = refl; pending = refl; applied = refl })
        ]
      ]
    ]

-- What a message says of the room lock does not touch the edits.
pub gate-SameEdits :
    (msg : Message) (s : Session) → SameEdits s (sync_edit_lock_gate (note_edit_password_set msg s))
unfolding note_edit_password_set
gate-SameEdits msg s =
    let set = note_set msg.edit_password_set s in
    let noted = note_scope msg.password_scope msg.edit_password_set set in
    SameEdits-trans s noted (sync_edit_lock_gate noted)
      (SameEdits-trans s set noted (note_set-SameEdits msg.edit_password_set s)
        (note_scope-SameEdits msg.password_scope msg.edit_password_set set))
      (sync_edit_lock_gate-SameEdits noted)
