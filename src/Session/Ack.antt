-- ===== src/Session/Ack.antt =====
-- Answers to sent batches (static/app.js: handleAck, forgetSentIds).
pub mod Pending
pub mod Cycle
pub mod Retry
use goclipboard.Common.{
  ℕ, ◌+◌, Bool, true, false, not, ◌&&◌, ◌||◌, Option, none, some, List, [], ◌∷◌, ◌++◌, filter, leb,
  ◌==◌, if◌then◌else◌,
}
use goclipboard.Text.{Text, codes, ◌===◌}
use goclipboard.Ids.Order.{contains}
use goclipboard.Doc.{Op}
use goclipboard.Session.{
  Session, Batch, AckMessage, op_id, op_key, message_generation, is_some, schedule_flush, emit,
  lock_error,
}
use goclipboard.Session.Lock.{show_room_lock, on_invalid_view_password}

pub find_batch : ℕ → List (ℕ × Batch) → Option Batch
find_batch seq [] = none
find_batch seq ((k, b) ∷ l) = if k == seq then some b else find_batch seq l

-- `delete sentBatches[seq]`
pub delete_batch : ℕ → List (ℕ × Batch) → List (ℕ × Batch)
delete_batch seq = filter (λ e. not (e.0 == seq))

-- What stays pending when the keys are acknowledged.
pub without_keys : List Text → List Op → List Op
without_keys keys = filter (λ op. not (not (op_id op === []) && contains (op_key op) keys))

forget : List Text → Batch → Batch
forget acked b = record b { ids = filter (λ id. not (contains id acked)) b.ids }

no_ids : List Text → Bool
no_ids [] = true
no_ids (id ∷ ids) = false

unfoldable pub forget_sent_ids : List Text → List (ℕ × Batch) → List (ℕ × Batch)
unfolding forget no_ids
forget_sent_ids acked [] = []
forget_sent_ids acked ((seq, b) ∷ l) =
    if no_ids (forget acked b).ids
    then forget_sent_ids acked l
    else (seq, forget acked b) ∷ forget_sent_ids acked l

unfoldable pub password_needed : Text → Bool
password_needed error =
    error === codes "edit password required" || error === codes "view password required"

unfoldable pub invalid_view : Text → Bool
invalid_view error = error === codes "invalid view password"

unfoldable pub drop_batch : ℕ → Option Batch → Session → Session
drop_batch seq none s = s
drop_batch seq (some b) s = record s {
  sent_batches = delete_batch seq s.sent_batches;
  pending_ops = without_keys b.ids s.pending_ops;
}

unfoldable pub unmark_batch : ℕ → Option Batch → Session → Session
unmark_batch seq none s = s
unmark_batch seq (some b) s = record s { sent_batches = delete_batch seq s.sent_batches }

unfoldable pub note_generation : AckMessage → Session → Session
note_generation msg s =
    if is_some msg.generation && leb s.known_generation (message_generation msg.generation)
    then record s {
      known_generation = message_generation msg.generation;
      known_exists = msg.exists;
    }
    else s

unfoldable pub note_version : ℕ → Session → Session
note_version version s =
    if version == s.known_version + 1 then record s { known_version = version } else s

unfoldable pub flush_pending_ops : List Op → Session → Session
flush_pending_ops [] s = s
flush_pending_ops (op ∷ ops) s = schedule_flush s

unfoldable pub accepted : AckMessage → Session → Session
accepted msg s =
    let s' = note_version msg.version (note_generation msg s) in flush_pending_ops s'.pending_ops s'

unfoldable pub handle_ack : AckMessage → Session → Session
unfolding drop_batch unmark_batch note_generation note_version flush_pending_ops accepted
handle_ack msg s =
    let batch = find_batch msg.seq s.sent_batches in
    if password_needed msg.error || invalid_view msg.error
    then (let s' = unmark_batch msg.seq batch s in
        if invalid_view msg.error
        then on_invalid_view_password s'
        else emit lock_error (show_room_lock (record s' { edit_password = [] })))
    else (let s' = drop_batch msg.seq batch s in
        if not (msg.error === []) then s' else accepted msg s')
