-- ===== src/Session/Flush.antt =====
-- Sending pending operations (static/app.js: flushPending and the timer of scheduleFlush).
pub mod Bounds
use goclipboard.Common.{
  ℕ, zero, ◌+◌, Bool, true, false, not, ◌&&◌, List, [], ◌∷◌, ◌++◌, map, filter, ltb, ◌==◌,
  if◌then◌else◌, length, take,
}
use goclipboard.Text.{Text, ◌===◌}
use goclipboard.Ids.Order.{contains}
use goclipboard.Doc.{Op}
use goclipboard.Session.{
  Session, Batch, op_id, op_key, schedule_flush, emit, send_ops, put_timer, room_password,
}

abbrev pub max_ops_per_send : ℕ
max_ops_per_send = 1000

-- The keys of every batch that waits for its answer.
unfoldable pub outstanding : List (ℕ × Batch) → List Text
outstanding [] = []
outstanding ((seq, b) ∷ l) = b.ids ++ outstanding l

-- The operations with an id that are recorded in no batch.
unfoldable pub unsent : List (ℕ × Batch) → List Op → List Op
unsent sent = filter (λ op. not (op_id op === []) && not (contains (op_key op) (outstanding sent)))

unfoldable pub is_empty : List Op → Bool
is_empty [] = true
is_empty (op ∷ ops) = false

unfoldable pub record_batch : ℕ → ℕ → List Op → Session → Session
record_batch now seq [] s = s
record_batch now seq (op ∷ ops) s = record s {
  sent_batches =
      s.sent_batches ++ (seq, record { ids = map op_key (op ∷ ops); sent_at = now }) ∷ [];
}

-- `sends` is false where `socket.send` throws; the sequence number is used up then, too.
unfoldable pub send_batch : ℕ → Bool → ℕ → Bool → List Op → Session → Session
unfolding record_batch
send_batch now sends ttl overflow batch s =
    let seq = s.next_seq in
    let s' = record s { next_seq = seq + 1 } in
    if sends
    then (let s'' =
          record_batch now seq batch (emit (send_ops seq batch ttl (room_password s')) s') in
        if overflow then schedule_flush s'' else s'')
    else s'

-- The TTL is 0 where the field holds no positive integer.
unfoldable pub flush_pending : ℕ → Bool → ℕ → Session → Session
unfolding is_empty
flush_pending now sends ttl s =
    if ttl == 0
    then s
    else if s.connected && s.socket_open
    then (let batch = unsent s.sent_batches s.pending_ops in
        let overflow = ltb max_ops_per_send (length batch) in
        if is_empty batch && not (is_empty s.pending_ops)
        then s
        else send_batch now sends ttl overflow
            (if overflow then take max_ops_per_send batch else batch) s)
    else if not s.intentional_close && ltb s.reconnect_attempts 2
    then s
    else emit put_timer s

unfoldable pub flush_fires : ℕ → Bool → ℕ → Session → Session
flush_fires now sends ttl s = flush_pending now sends ttl (record s { flush_timer = false })
