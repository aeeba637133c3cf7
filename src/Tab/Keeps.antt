-- ===== src/Tab/Keeps.antt =====
-- Nothing that the session does touches the connection: sending, local edits and snapshots. Messages
-- has the handlers of the other messages, Edits what a person does.
pub mod Messages
pub mod Edits
use goclipboard.Common.{
  ℕ, ◌≡◌, refl, sym, ap, ◌∙◌, Bool, true, false, not, ◌&&◌, ◌||◌, Option, none, some, List, [], ◌∷◌,
  ◌++◌, arith, Bool-cases, inl, inr, if◌then◌else◌, ltb, ◌==◌, length, take,
}
use goclipboard.Text.{Text, codes, ◌===◌}
use goclipboard.Doc.{Doc, Op, BatchOutcome, all, stopped, apply_batch}
use goclipboard.Session.{
  Session, Message, bump_clock_from_doc, schedule_flush, set_content_value, bump_clock_from_ops,
  emit,
}
use goclipboard.Session.Sync.{request_sync}
use goclipboard.Session.Lock.{
  note_edit_password_set, note_set, note_scope, sync_edit_lock_gate, request_view_password,
  send_auth_frame, show_room_lock, hide_room_lock, on_invalid_view_password,
}
use goclipboard.CodePoints.{code_points}
use goclipboard.Doc.{materialize, visible_ids}
use goclipboard.Diff.{Diff, diff_to_ops}
use goclipboard.Session.{composition_is_active}
use goclipboard.Session.Stale.{snapshot_is_stale}
use goclipboard.Session.Flush.{
  flush_pending, send_batch, record_batch, is_empty, flush_fires, unsent, max_ops_per_send,
}
use goclipboard.Session.Undo.{push_undo_entry}
use goclipboard.Session.Local.{apply_local_text, local_ops, local_diff_ops}
use goclipboard.Session.Local.Correct.{bump-cases}
use goclipboard.Session.Snapshot
use goclipboard.Session.Snapshot.{
  server_doc, adopt_state, note_server, clear_undo_history, replayed, replay_pending, rebase,
  rebased_text, take_state, handle_state,
}

-- The part of the session that belongs to the connection.
abbrev pub link : Session → Bool × Bool × Bool × ℕ
link s = (s.connected, s.socket_open, s.intentional_close, s.reconnect_attempts)

pub request_sync-link : (now : ℕ) (s : Session) → link (request_sync now s) ≡ link s
unfolding request_sync
request_sync-link now s = ground arith

pub bump-link : (s : Session) → link (bump_clock_from_doc s) ≡ link s
unfolding bump_clock_from_doc
bump-link s = ground arith

pub gate-link : (s : Session) → link (sync_edit_lock_gate s) ≡ link s
unfolding sync_edit_lock_gate show_room_lock hide_room_lock
gate-link s = ground arith

pub note-link : (msg : Message) (s : Session) → link (note_edit_password_set msg s) ≡ link s
unfolding note_edit_password_set note_set note_scope
note-link msg s = ground arith

view-link : (s : Session) → link (request_view_password s) ≡ link s
unfolding request_view_password send_auth_frame show_room_lock
view-link s = ground arith

record_batch-link :
    (now seq : ℕ) (b : List Op) (s : Session) → link (record_batch now seq b s) ≡ link s
unfolding record_batch
record_batch-link now seq [] s = refl
record_batch-link now seq (op ∷ ops) s = refl

send_batch-link :
    (now : ℕ) (sends : Bool) (ttl : ℕ) (more : Bool) (b : List Op) (s : Session)
    → link (send_batch now sends ttl more b s) ≡ link s
unfolding send_batch schedule_flush
send_batch-link now false ttl more b s = refl
send_batch-link now true ttl false b s = record_batch-link now s.next_seq b _
send_batch-link now true ttl true b s = record_batch-link now s.next_seq b _

-- A choice between sessions with the same link has it.
pub if-link :
    (b : Bool) (s t u : Session)
    → link t ≡ link s
    → link u ≡ link s
    → link (if b then t else u) ≡ link s
if-link true s t u h k = h
if-link false s t u h k = k

pub flush_pending-link :
    (now : ℕ) (sends : Bool) (ttl : ℕ) (s : Session) → link (flush_pending now sends ttl s) ≡ link s
unfolding flush_pending
flush_pending-link now sends ttl s =
    let batch = unsent s.sent_batches s.pending_ops in
    let more = ltb max_ops_per_send (length batch) in
    if-link (ttl == 0) s s _ refl (
      if-link (s.connected && s.socket_open) s _ _
        (if-link (is_empty batch && not (is_empty s.pending_ops)) s s _ refl (
          send_batch-link now sends ttl more (if more then take max_ops_per_send batch else batch)
            s))
        (if-link (not s.intentional_close && ltb s.reconnect_attempts 2) s s _ refl refl))

pub push-link : (now : ℕ) (ops : List Op) (s : Session) → link (push_undo_entry now ops s) ≡ link s
unfolding push_undo_entry
push-link now [] s = refl
push-link now (op ∷ ops) s = refl

local_ops-link :
    (now : ℕ) (ops : List Op) (s : Session) (r : Doc × BatchOutcome)
    → link (local_ops now ops s r) ≡ link s
unfolding local_ops schedule_flush
local_ops-link now ops s (d, stopped e c i) = refl
local_ops-link now ops s (d, all c) =
    push-link now ops (record s { doc = d; pending_ops = s.pending_ops ++ ops })

local_diff_ops-link :
    (now : ℕ) (r : Diff) (s : Session) (ops : List Op) → link (local_diff_ops now r s ops) ≡ link s
unfolding local_diff_ops
local_diff_ops-link now r s [] = refl
local_diff_ops-link now r s (op ∷ ops) =
    let s' = record s { local_clock = r.clock } in
    local_ops-link now (op ∷ ops) s' (apply_batch s.doc (op ∷ ops))

pub apply_local_text-link :
    (now : ℕ) (text : Text) (s : Session) → link (apply_local_text now text s) ≡ link s
unfolding apply_local_text
apply_local_text-link now text s =
    let s' = bump_clock_from_doc s in
    let diff =
      diff_to_ops (code_points (materialize s.doc)) (visible_ids s.doc) (code_points text)
        s'.client_id s'.local_clock in
    if-link (materialize s.doc === text) s s _ refl
      (local_diff_ops-link now diff s' diff.ops ∙ bump-link s)

replayed-link : (s : Session) (r : Doc × BatchOutcome) → link (replayed s r).0 ≡ link s
unfolding replayed
replayed-link s (d, all c) = bump-link (record s { doc = d })
replayed-link s (d, stopped e c i) = refl

replay_pending-link : (ops : List Op) (s : Session) → link (replay_pending ops s).0 ≡ link s
unfolding replay_pending
replay_pending-link [] s = refl
replay_pending-link (op ∷ ops) s = replayed-link s (apply_batch s.doc (op ∷ ops))

rebase-link :
    (now : ℕ) (local previous : Text) (unsynced : Bool) (r : Session × Bool)
    → link (rebase now local previous unsynced r) ≡ link r.0
unfolding rebase
rebase-link now local previous unsynced (s, replayed?) =
    if-link (not replayed? && (not (local === s.last_synced_text) && unsynced)) s _ s
      (if-link (rebased_text previous local s.last_synced_text === s.last_synced_text) s s _ refl
        (apply_local_text-link now (rebased_text previous local s.last_synced_text) s))
      refl

adopt_state-link : (msg : Message) (s : Session) → link (adopt_state msg s) ≡ link s
unfolding adopt_state note_server clear_undo_history
adopt_state-link msg s =
    let start : Session = record s { doc = server_doc s.client_id msg; local_clock = 0 } in
    let b = bump-cases start in rw b.1 (ground arith)

snapshot_flush-link : (ops : List Op) (s : Session) → link (Snapshot.flush_rest ops s) ≡ link s
unfolding Snapshot.flush_rest schedule_flush
snapshot_flush-link [] s = refl
snapshot_flush-link (op ∷ ops) s = refl

take_state-link : (now : ℕ) (msg : Message) (s : Session) → link (take_state now msg s) ≡ link s
unfolding take_state set_content_value
take_state-link now msg s =
    snapshot_flush-link _ _
    ∙ rebase-link now s.content s.last_synced_text _ _
    ∙ replay_pending-link _ _
    ∙ adopt_state-link msg _

pub handle_state-link :
    (now : ℕ) (msg : Message) (s : Session) → link (handle_state now msg s) ≡ link s
unfolding handle_state
handle_state-link now msg s =
    let s' = sync_edit_lock_gate (note_edit_password_set msg s) in
    let gated : link s' ≡ link s = gate-link (note_edit_password_set msg s) ∙ note-link msg s in
    if-link (composition_is_active s) s _ _ refl (
      if-link (snapshot_is_stale msg s) s s _ refl (
        if-link msg.password_required s _ _
          (view-link (record s' { initial_snapshot_applied = true }) ∙ gated)
          (take_state-link now msg s' ∙ gated)))
