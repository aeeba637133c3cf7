-- ===== src/Session/Remote.antt =====
-- Batches that other sessions applied, and the echoes of our own (static/app.js: handleRemoteOps).
pub mod Order
use goclipboard.Common.{
  ℕ, ◌+◌, Bool, true, false, not, ◌&&◌, Option, none, some, List, [], ◌∷◌, ◌++◌, map, filter, ltb,
  leb, if◌then◌else◌,
}
use goclipboard.Text.{Text, ◌===◌}
use goclipboard.Doc.{Doc, Op, BatchOutcome, all, stopped, apply_batch, materialize}
use goclipboard.Session.{
  Session, Message, ops_message, op_id, op_key, message_generation, is_some, composition_is_active,
  bump_clock_from_ops, schedule_flush, set_content_value,
}
use goclipboard.Session.Sync.{request_sync}
use goclipboard.Session.Ack.{without_keys, forget_sent_ids}

-- The keys of the operations that have an id.
unfoldable pub acked_keys : List Op → List Text
acked_keys ops = map op_key (filter (λ op. not (op_id op === [])) ops)

-- `if (hasGeneration) knownGeneration = generation`
known_generation_after : Message → Session → ℕ
known_generation_after msg s =
    if is_some msg.generation then message_generation msg.generation else s.known_generation

unfoldable pub note_update : Message → Session → Session
unfolding known_generation_after
note_update msg s = record s {
  known_version = msg.version;
  known_generation = known_generation_after msg s;
  known_exists = true;
}

unfoldable pub note_content : Option Text → Session → Session
note_content none s = s
note_content (some text) s = record s { last_synced_text = text }

unfoldable pub drop_acked : List Text → Session → Session
drop_acked [] s = s
drop_acked (key ∷ keys) s = record s {
  pending_ops = without_keys (key ∷ keys) s.pending_ops;
  sent_batches = forget_sent_ids (key ∷ keys) s.sent_batches;
}

unfoldable pub flush_rest : List Op → Session → Session
flush_rest [] s = s
flush_rest (op ∷ ops) s = schedule_flush s

-- Our own batch comes back: the document has it already.
unfoldable pub take_echo : Message → Session → Session
unfolding drop_acked flush_rest
take_echo msg s =
    let s' = drop_acked (acked_keys msg.ops) (note_content msg.content (note_update msg s)) in
    flush_rest s'.pending_ops s'

unfoldable pub peer_ops : ℕ → Message → Session → Doc × BatchOutcome → Session
peer_ops now msg s (d, stopped e c i) = request_sync now (record s { doc = d })
peer_ops now msg s (d, all c) =
    let s' = note_content msg.content (bump_clock_from_ops msg.ops (record s { doc = d })) in
    set_content_value (materialize d) (note_update msg s')

unfoldable pub peer_content : Message → Option Text → Session → Session
peer_content msg none s = set_content_value (materialize s.doc) (note_update msg s)
peer_content msg (some text) s =
    note_content (some text) (note_update msg (set_content_value text s))

-- A batch of a peer, or its text where there are no operations.
unfoldable pub take_peer : ℕ → Message → List Op → Session → Session
unfolding peer_ops peer_content
take_peer now msg [] s = peer_content msg msg.content s
take_peer now msg (op ∷ ops) s = peer_ops now msg s (apply_batch s.doc (op ∷ ops))

-- `msg.updatedBy && msg.updatedBy === CLIENT_ID`
unfoldable pub from_self : Message → Session → Bool
from_self msg s = not (msg.updated_by === []) && msg.updated_by === s.client_id

unfoldable pub handle_remote_ops : ℕ → Message → Session → Session
handle_remote_ops now msg s =
    let generation = message_generation msg.generation in
    let has_generation = is_some msg.generation in
    if composition_is_active s
    then record s { deferred = s.deferred ++ ops_message msg ∷ [] }
    else if has_generation && ltb generation s.known_generation
    then s
    else if has_generation && ltb s.known_generation generation
    then request_sync now s
    else if has_generation && (not s.known_exists && msg.exists)
    then request_sync now s
    else if leb msg.version s.known_version
    then s
    else if ltb (s.known_version + 1) msg.version
    then request_sync now s
    else if from_self msg s
    then take_echo msg s
    else take_peer now msg msg.ops s
