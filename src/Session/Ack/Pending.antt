-- ===== src/Session/Ack/Pending.antt =====
-- What the answer to a batch does to the pending operations (static/app.js: handleAck).
use goclipboard.Common.{
  ℕ, ◌+◌, ◌≡◌, refl, sym, ◌∙◌, Bool, true, ◌&&◌, ◌||◌, List, [], ◌∷◌, leb, ◌==◌, Bool-cases, inl,
  inr,
}
use mathlib.Core.Path.{subst}
use goclipboard.Text.{◌===◌}
use goclipboard.Doc.{Op}
use goclipboard.Session.{Session, AckMessage, is_some, message_generation, schedule_flush}
use goclipboard.Session.Lock.{show_room_lock, on_invalid_view_password}
use goclipboard.Session.Ack.{
  find_batch, password_needed, invalid_view, handle_ack, drop_batch, unmark_batch, note_generation,
  note_version, flush_pending_ops, accepted,
}

-- The pending operations and the batches in flight are as before.
abbrev pub SameQueues : Session → Session → Type 0
SameQueues s t = (t.pending_ops ≡ s.pending_ops) × (t.sent_batches ≡ s.sent_batches)

flush_pending_ops-queues : (ops : List Op) (s : Session) → SameQueues s (flush_pending_ops ops s)
unfolding flush_pending_ops schedule_flush
flush_pending_ops-queues [] s = (refl, refl)
flush_pending_ops-queues (op ∷ ops) s = (refl, refl)

note_version-queues : (v : ℕ) (s : Session) → SameQueues s (note_version v s)
unfolding note_version
note_version-queues v s = elim (Bool-cases (v == s.known_version + 1)) [
  | inl next ↦ rw next (refl, refl)
  | inr other ↦ rw other (refl, refl)
]

note_generation-queues : (msg : AckMessage) (s : Session) → SameQueues s (note_generation msg s)
unfolding note_generation
note_generation-queues msg s =
    elim (Bool-cases
      (is_some msg.generation && leb s.known_generation (message_generation msg.generation))) [
        | inl newer ↦ rw newer (refl, refl)
        | inr older ↦ rw older (refl, refl)
      ]

accepted-queues : (msg : AckMessage) (s : Session) → SameQueues s (accepted msg s)
unfolding accepted
accepted-queues msg s =
    let g = note_generation-queues msg s in
    let v = note_version-queues msg.version (note_generation msg s) in
    let t = note_version msg.version (note_generation msg s) in
    let f = flush_pending_ops-queues t.pending_ops t in (f.0 ∙ v.0 ∙ g.0, f.1 ∙ v.1 ∙ g.1)

-- The answers that ask for a password.
abbrev pub asks_password : AckMessage → Bool
asks_password msg = password_needed msg.error || invalid_view msg.error

-- The queues and the connection are as before.
abbrev pub SameSending : Session → Session → Type 0
SameSending s t =
    (t.pending_ops ≡ s.pending_ops)
    × (t.sent_batches ≡ s.sent_batches)
    × (t.connected ≡ s.connected)
    × (t.socket_open ≡ s.socket_open)

-- Such an answer does no more to the queues than to forget that the batch is in flight.
pub handle_ack-asks :
    (msg : AckMessage) (s : Session)
    → asks_password msg ≡ true
    → SameSending (unmark_batch msg.seq (find_batch msg.seq s.sent_batches) s) (handle_ack msg s)
unfolding handle_ack on_invalid_view_password show_room_lock
handle_ack-asks msg s asks = elim (Bool-cases (invalid_view msg.error)) [
  | inl wrong ↦ rw (asks, wrong) (refl, refl, refl, refl)
  | inr absent ↦ rw (asks, absent) (refl, refl, refl, refl)
]

module _ (msg : AckMessage) (s : Session) (fine : msg.error ≡ []) where
  handle_ack-accepted :
      handle_ack msg s ≡ accepted msg (drop_batch msg.seq (find_batch msg.seq s.sent_batches) s)
  unfolding handle_ack password_needed invalid_view ◌===◌
  handle_ack-accepted = rw fine refl

  -- An answer without an error leaves the queues that `drop_batch` leaves.
  pub handle_ack-queues :
      SameQueues (drop_batch msg.seq (find_batch msg.seq s.sent_batches) s) (handle_ack msg s)
  handle_ack-queues =
      subst (SameQueues (drop_batch msg.seq (find_batch msg.seq s.sent_batches) s))
        (sym handle_ack-accepted)
        (accepted-queues msg (drop_batch msg.seq (find_batch msg.seq s.sent_batches) s))
