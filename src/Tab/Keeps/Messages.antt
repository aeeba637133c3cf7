-- ===== src/Tab/Keeps/Messages.antt =====
-- Acknowledgements, batches of peers and REST answers leave the connection alone.
use goclipboard.Common.{
  ℕ, ◌+◌, ◌≡◌, refl, ◌∙◌, Bool, not, ◌&&◌, ◌||◌, Option, none, some, List, [], ◌∷◌, leb, ◌==◌,
}
use goclipboard.Text.{Text, codes, ◌===◌}
use goclipboard.Doc.{Doc, Op, BatchOutcome, all, stopped, apply_batch}
use goclipboard.Session.{
  Session, Message, AckMessage, Batch, Deferred, state_message, ops_message, rest_message,
  rest_load_message, bump_clock_from_doc, schedule_flush, set_content_value, bump_clock_from_ops,
  is_some, message_generation, composition_is_active, text_or_empty,
}
use goclipboard.Session.Lock.{
  note_edit_password_set, sync_edit_lock_gate, show_room_lock, on_invalid_view_password,
}
use goclipboard.Session.Ack.{
  find_batch, password_needed, invalid_view, handle_ack, drop_batch, unmark_batch, note_generation,
  note_version, flush_pending_ops, accepted,
}
use goclipboard.Session.Remote.{
  handle_remote_ops, take_echo, take_peer, drop_acked, flush_rest, peer_ops, peer_content,
  note_update, note_content, acked_keys,
}
use goclipboard.Session.Remote.Order.{
  Handled, held, dropped, resync, echo, peer, handle_remote_ops-Handled,
}
use goclipboard.Session.Merge
use goclipboard.Session.Merge.{merge_server_state, apply_loaded_snapshot, adopt_rest, merged_text}
use goclipboard.Session.Stale.{rest_snapshot_is_stale}
use goclipboard.Session.Snapshot.{deliver, deliver_all, flush_deferred}
use goclipboard.Tab.Keeps.{
  link, request_sync-link, bump-link, gate-link, note-link, if-link, handle_state-link,
}

unmark-link : (seq : ℕ) (o : Option Batch) (s : Session) → link (unmark_batch seq o s) ≡ link s
unfolding unmark_batch
unmark-link seq none s = refl
unmark-link seq (some b) s = refl

drop-link : (seq : ℕ) (o : Option Batch) (s : Session) → link (drop_batch seq o s) ≡ link s
unfolding drop_batch
drop-link seq none s = refl
drop-link seq (some b) s = refl

pending-link : (ops : List Op) (s : Session) → link (flush_pending_ops ops s) ≡ link s
unfolding flush_pending_ops schedule_flush
pending-link [] s = refl
pending-link (op ∷ ops) s = refl

note_version-link : (v : ℕ) (s : Session) → link (note_version v s) ≡ link s
unfolding note_version
note_version-link v s = if-link (v == s.known_version + 1) s _ s refl refl

note_generation-link : (msg : AckMessage) (s : Session) → link (note_generation msg s) ≡ link s
unfolding note_generation
note_generation-link msg s =
    if-link (is_some msg.generation && leb s.known_generation (message_generation msg.generation)) s
      _ s refl refl

accepted-link : (msg : AckMessage) (s : Session) → link (accepted msg s) ≡ link s
unfolding accepted
accepted-link msg s =
    let t = note_version msg.version (note_generation msg s) in
    pending-link t.pending_ops t
    ∙ note_version-link msg.version (note_generation msg s)
    ∙ note_generation-link msg s

pub handle_ack-link : (msg : AckMessage) (s : Session) → link (handle_ack msg s) ≡ link s
unfolding handle_ack on_invalid_view_password show_room_lock
handle_ack-link msg s =
    let batch = find_batch msg.seq s.sent_batches in
    if-link (password_needed msg.error || invalid_view msg.error) s _ _
      (if-link (invalid_view msg.error) s _ _ (unmark-link msg.seq batch s)
        (unmark-link msg.seq batch s))
      (if-link (not (msg.error === [])) s _ _ (drop-link msg.seq batch s)
        (accepted-link msg (drop_batch msg.seq batch s) ∙ drop-link msg.seq batch s))

rest-link : (ops : List Op) (s : Session) → link (flush_rest ops s) ≡ link s
unfolding flush_rest schedule_flush
rest-link [] s = refl
rest-link (op ∷ ops) s = refl

acked-link : (ks : List Text) (s : Session) → link (drop_acked ks s) ≡ link s
unfolding drop_acked
acked-link [] s = refl
acked-link (k ∷ ks) s = refl

content-link : (o : Option Text) (s : Session) → link (note_content o s) ≡ link s
unfolding note_content
content-link none s = refl
content-link (some text) s = refl

take_echo-link : (msg : Message) (s : Session) → link (take_echo msg s) ≡ link s
unfolding take_echo note_update
take_echo-link msg s =
    let noted = note_content msg.content (note_update msg s) in
    let left = drop_acked (acked_keys msg.ops) noted in
    rest-link left.pending_ops left
    ∙ acked-link (acked_keys msg.ops) noted
    ∙ content-link msg.content (note_update msg s)

peer_ops-link :
    (now : ℕ) (msg : Message) (s : Session) (r : Doc × BatchOutcome)
    → link (peer_ops now msg s r) ≡ link s
unfolding peer_ops note_update set_content_value bump_clock_from_ops
peer_ops-link now msg s (d, stopped e c i) = request_sync-link now (record s { doc = d })
peer_ops-link now msg s (d, all c) =
    content-link msg.content (bump_clock_from_ops msg.ops (record s { doc = d }))

peer_content-link :
    (msg : Message) (o : Option Text) (s : Session) → link (peer_content msg o s) ≡ link s
unfolding peer_content note_update note_content set_content_value
peer_content-link msg none s = refl
peer_content-link msg (some text) s = refl

take_peer-link :
    (now : ℕ) (msg : Message) (ops : List Op) (s : Session)
    → link (take_peer now msg ops s) ≡ link s
unfolding take_peer
take_peer-link now msg [] s = peer_content-link msg msg.content s
take_peer-link now msg (op ∷ ops) s = peer_ops-link now msg s (apply_batch s.doc (op ∷ ops))

Handled-link : {now : ℕ} {msg : Message} {s t : Session} → Handled now msg s t → link t ≡ link s
Handled-link held = refl
Handled-link dropped = refl
Handled-link {now} {msg} {s} resync = request_sync-link now s
Handled-link {now} {msg} {s} (echo e) = take_echo-link msg s
Handled-link {now} {msg} {s} (peer e) = take_peer-link now msg msg.ops s

pub handle_remote_ops-link :
    (now : ℕ) (msg : Message) (s : Session) → link (handle_remote_ops now msg s) ≡ link s
handle_remote_ops-link now msg s = Handled-link (handle_remote_ops-Handled now msg s)

gated : Message → Session → Session
gated msg s = sync_edit_lock_gate (note_edit_password_set msg s)

gated-link : (msg : Message) (s : Session) → link (gated msg s) ≡ link s
unfolding gated
gated-link msg s = gate-link (note_edit_password_set msg s) ∙ note-link msg s

adopt_rest-link :
    (site text : Text) (msg : Message) (s : Session) → link (adopt_rest site text msg s) ≡ link s
unfolding adopt_rest
adopt_rest-link site text msg s = refl

merge_server_state-link : (msg : Message) (s : Session) → link (merge_server_state msg s) ≡ link s
unfolding merge_server_state set_content_value gated
merge_server_state-link msg s =
    let s' = gated msg s in
    let theirs = text_or_empty msg.content in
    let merged = merged_text s'.last_synced_text s'.content theirs in
    let t = adopt_rest s'.client_id merged msg s' in
    let kept : link (bump_clock_from_doc t) ≡ link s =
      bump-link t ∙ adopt_rest-link s'.client_id merged msg s' ∙ gated-link msg s in
    if-link (composition_is_active s) s _ _ refl (if-link (merged === theirs) s _ _ kept kept)

apply_loaded_snapshot-link :
    (live : Bool) (msg : Message) (force : Bool) (s : Session)
    → link (apply_loaded_snapshot live msg force s) ≡ link s
unfolding apply_loaded_snapshot set_content_value gated
apply_loaded_snapshot-link live msg force s =
    let dirty = not (s.content === []) && not (s.content === s.last_synced_text) in
    let early =
      not s.initial_snapshot_applied
      && (not (Merge.has_ops s.pending_ops) && (not (composition_is_active s) && not dirty)) in
    let text = text_or_empty msg.content in
    if-link (not force && (not early && live)) s s _ refl (
      if-link (not force && Merge.has_ops s.pending_ops) s s _ refl (
        if-link (not force && (s.connected && rest_snapshot_is_stale msg s)) s s _ refl
          (adopt_rest-link (codes "server") text msg (gated msg s) ∙ gated-link msg s)))

deliver-link :
    (now : ℕ) (live : Bool) (m : Deferred) (s : Session) → link (deliver now live m s) ≡ link s
unfolding deliver
deliver-link now live (state_message msg) s = handle_state-link now msg s
deliver-link now live (ops_message msg) s = handle_remote_ops-link now msg s
deliver-link now live (rest_message msg) s = merge_server_state-link msg s
deliver-link now live (rest_load_message msg force) s = apply_loaded_snapshot-link live msg force s

deliver_all-link :
    (now : ℕ) (live : Bool) (ms : List Deferred) (s : Session)
    → link (deliver_all now live ms s) ≡ link s
unfolding deliver_all
deliver_all-link now live [] s = refl
deliver_all-link now live (m ∷ ms) s =
    deliver_all-link now live ms (deliver now live m s) ∙ deliver-link now live m s

pub flush_deferred-link :
    (now : ℕ) (live : Bool) (s : Session) → link (flush_deferred now live s) ≡ link s
unfolding flush_deferred
flush_deferred-link now live s =
    if-link (composition_is_active s) s s _ refl
      (deliver_all-link now live s.deferred (record s { deferred = [] }))
