-- ===== src/Session/Flush/Bounds.antt =====
-- What a flush sends and records (static/app.js: flushPending).
use goclipboard.Common.{
  ℕ, ◌≤◌, ◌≡◌, refl, sym, ap, ap₂, ◌∙◌, Bool, true, false, not, ◌&&◌, List, [], ◌∷◌, ◌++◌, map,
  filter, ltb, ◌==◌, length, arith, Bool-cases, inl, inr, append-nil, append_assoc, All,
}
use mathlib.Core.Path.{subst}
use goclipboard.Text.{Text, ◌===◌, ===_refl}
use goclipboard.Ids.Order.{contains}
use goclipboard.Doc.{Op}
use goclipboard.Session.{Session, Batch, Effect, op_id, op_key, send_ops, room_password}
use goclipboard.Session.Flush.{
  outstanding, unsent, flush_pending, send_batch, record_batch, max_ops_per_send, is_empty,
}

contains-append : (k : Text) (a b : List Text) → contains k b ≡ true → contains k (a ++ b) ≡ true
contains-append k [] b h = h
contains-append k (x ∷ a) b h = ground (arith, contains-append k a b h)

contains-front : (k : Text) (a b : List Text) → contains k a ≡ true → contains k (a ++ b) ≡ true
contains-front k [] b h = cc h
contains-front k (x ∷ a) b h = elim (Bool-cases (x === k)) [
  | inl same ↦ rw same refl
  | inr differs ↦ rw differs (contains-front k a b (rw differs at h))
]

-- The operations that a predicate lets through, and whose keys are all in a list.
abbrev pub Covered : List Text → (Op → Bool) → List Op → Type 0
Covered keys p = All (λ op. p op ≡ true → contains (op_key op) keys ≡ true)

Covered-cons :
    (k : Text) (keys : List Text) (p : Op → Bool) (ops : List Op)
    → Covered keys p ops
    → Covered (k ∷ keys) p ops
Covered-cons k keys p [] h = tt
Covered-cons k keys p (op ∷ ops) h =
    ((λ e. contains-append (op_key op) (k ∷ []) keys (h.0 e)), Covered-cons k keys p ops h.1)

pub filter-true :
    (p : Op → Bool) (op : Op) (ops : List Op)
    → p op ≡ true
    → filter p (op ∷ ops) ≡ op ∷ filter p ops
filter-true p op ops h = rw h refl

pub filter-false :
    (p : Op → Bool) (op : Op) (ops : List Op) → p op ≡ false → filter p (op ∷ ops) ≡ filter p ops
filter-false p op ops h = rw h refl

contains-head : (k : Text) (ks : List Text) → contains k (k ∷ ks) ≡ true
contains-head k ks = rw (===_refl k) refl

pub filter-Covered : (p : Op → Bool) (ops : List Op) → Covered (map op_key (filter p ops)) p ops
filter-Covered p [] = tt
filter-Covered p (op ∷ ops) = elim (Bool-cases (p op)) [
  | inl kept ↦
      subst (λ l. Covered (map op_key l) p (op ∷ ops)) (sym (filter-true p op ops kept))
        (
          (λ e. contains-head (op_key op) (map op_key (filter p ops))),
          Covered-cons (op_key op) (map op_key (filter p ops)) p ops (filter-Covered p ops),
        )
  | inr out ↦
      subst (λ l. Covered (map op_key l) p (op ∷ ops)) (sym (filter-false p op ops out))
        ((λ e. cc (e, out)), filter-Covered p ops)
]

outstanding-append :
    (sent : List (ℕ × Batch)) (seq : ℕ) (b : Batch)
    → outstanding (sent ++ (seq, b) ∷ []) ≡ outstanding sent ++ b.ids
unfolding outstanding
outstanding-append [] seq b = append-nil b.ids
outstanding-append ((k, c) ∷ sent) seq b =
    ap (λ l. c.ids ++ l) (outstanding-append sent seq b)
    ∙ sym (append_assoc c.ids (outstanding sent) b.ids)

-- The operations that are neither without an id nor in flight.
abbrev pub is_unsent : List Text → Op → Bool
is_unsent keys op = not (op_id op === []) && not (contains (op_key op) keys)

covered-sent :
    (op : Op) (out keys : List Text)
    → (is_unsent out op ≡ true → contains (op_key op) keys ≡ true)
    → is_unsent (out ++ keys) op ≡ false
covered-sent op out keys h = elim (Bool-cases (op_id op === [])) [
  | inl nameless ↦ rw nameless refl
  | inr named ↦ elim (Bool-cases (contains (op_key op) out)) [
    | inl flying ↦ rw (named, contains-front (op_key op) out keys flying) refl
    | inr here ↦ rw (named, contains-append (op_key op) out keys (h (rw (named, here) refl))) refl
  ]
]

filter_unsent_nil :
    (ops : List Op) (out keys : List Text)
    → Covered keys (is_unsent out) ops
    → filter (is_unsent (out ++ keys)) ops ≡ []
filter_unsent_nil [] out keys h = refl
filter_unsent_nil (op ∷ ops) out keys h =
    filter-false (is_unsent (out ++ keys)) op ops (covered-sent op out keys h.0)
    ∙ filter_unsent_nil ops out keys h.1

-- Once every unsent operation is recorded in a batch, none is unsent.
pub unsent-recorded :
    (sent : List (ℕ × Batch)) (seq now : ℕ) (pending : List Op)
    → unsent
        (sent ++ (seq, record { ids = map op_key (unsent sent pending); sent_at = now }) ∷ [])
        pending
      ≡ []
unfolding unsent
unsent-recorded sent seq now pending =
    let keys = map op_key (unsent sent pending) in
    ap (λ out. filter (is_unsent out) pending)
      (outstanding-append sent seq (record { ids = keys; sent_at = now }))
    ∙ filter_unsent_nil pending (outstanding sent) keys
        (filter-Covered (is_unsent (outstanding sent)) pending)

-- The session may send, and what waits fits one frame.
pub record CanSend (ttl : ℕ) (s : Session) : Type 0 where
  pub lives : (ttl == 0) ≡ false
  pub connected : s.connected ≡ true
  pub socket : s.socket_open ≡ true
  pub fits : length (unsent s.sent_batches s.pending_ops) ≤ max_ops_per_send

-- The batch is recorded under the sequence number that was next.
abbrev pub recorded : ℕ → List Op → Session → List (ℕ × Batch)
recorded now [] s = s.sent_batches
recorded now (op ∷ ops) s =
    s.sent_batches ++ (s.next_seq, record { ids = map op_key (op ∷ ops); sent_at = now }) ∷ []

-- What a flush leaves that sent a batch: the frame, its record, the queue and the connection.
abbrev pub Flushed : ℕ → ℕ → List Op → Session → Session → Type 0
Flushed now ttl batch s t =
    (t.effects ≡ s.effects ++ send_ops s.next_seq batch ttl (room_password s) ∷ [])
    × (t.sent_batches ≡ recorded now batch s)
    × (t.pending_ops ≡ s.pending_ops)
    × (t.connected ≡ true)
    × (t.socket_open ≡ true)

module _ (now ttl : ℕ) (s : Session) (can : CanSend ttl s) where
  flush_pending-small :
      (batch : List Op)
      → unsent s.sent_batches s.pending_ops ≡ batch
      → length batch ≤ max_ops_per_send
      → (is_empty batch && not (is_empty s.pending_ops)) ≡ false
      → flush_pending now true ttl s ≡ send_batch now true ttl false batch s
  unfolding flush_pending
  flush_pending-small batch h fits active =
      let small : ltb max_ops_per_send (length batch) ≡ false = ground arith in
      rw (can.lives, can.connected, can.socket, h, small, active) refl

  send_batch-Flushed :
      (batch : List Op) → Flushed now ttl batch s (send_batch now true ttl false batch s)
  unfolding send_batch record_batch room_password
  send_batch-Flushed [] = (refl, refl, refl, can.connected, can.socket)
  send_batch-Flushed (op ∷ ops) = (refl, refl, refl, can.connected, can.socket)

  -- A flush sends the batch in one frame and records it.
  pub flush_pending-batch :
      (batch : List Op)
      → unsent s.sent_batches s.pending_ops ≡ batch
      → (is_empty batch && not (is_empty s.pending_ops)) ≡ false
      → Flushed now ttl batch s (flush_pending now true ttl s)
  flush_pending-batch batch h active =
      let fits = subst (λ l. length l ≤ max_ops_per_send) h can.fits in
      subst (Flushed now ttl batch s) (sym (flush_pending-small batch h fits active))
        (send_batch-Flushed batch)

  recorded-unsent :
      (batch : List Op)
      → unsent s.sent_batches s.pending_ops ≡ batch
      → unsent (recorded now batch s) s.pending_ops ≡ []
  recorded-unsent [] h = h
  recorded-unsent (op ∷ ops) h =
      subst
        (λ l.
          unsent (s.sent_batches ++ (s.next_seq, record { ids = map op_key l; sent_at = now }) ∷ [])
            s.pending_ops
          ≡ [])
        h (unsent-recorded s.sent_batches s.next_seq now s.pending_ops)

-- Operations wait, and each of them is in flight or has no id: nothing happens.
flush_pending-idle :
    (now ttl : ℕ) (s : Session)
    → (ttl == 0) ≡ false
    → s.connected ≡ true
    → s.socket_open ≡ true
    → is_empty s.pending_ops ≡ false
    → unsent s.sent_batches s.pending_ops ≡ []
    → flush_pending now true ttl s ≡ s
unfolding flush_pending is_empty
flush_pending-idle now ttl s lives connected socket waits none_left =
    rw (lives, connected, socket, none_left, waits) refl

-- The frame of a batch; there is none where the batch is empty.
abbrev pub frame : ℕ → List Op → Session → List Effect
frame ttl [] s = []
frame ttl (op ∷ ops) s = send_ops s.next_seq (op ∷ ops) ttl (room_password s) ∷ []

-- What goes out is the frame of the batch, and at a second flush nothing.
abbrev pub SentOnce : ℕ → ℕ → ℕ → List Op → Session → Session → Type 0
SentOnce now later ttl batch s t =
    (t.effects ≡ s.effects ++ frame ttl batch s)
    × (t.pending_ops ≡ s.pending_ops)
    × (flush_pending later true ttl t ≡ t)

module _ (now later ttl : ℕ) (s : Session) (can : CanSend ttl s) where
  flush_pending-SentOnce :
      (batch : List Op)
      → unsent s.sent_batches s.pending_ops ≡ batch
      → is_empty s.pending_ops ≡ false
      → SentOnce now later ttl batch s (flush_pending now true ttl s)
  unfolding is_empty
  flush_pending-SentOnce [] h waits =
      let e = flush_pending-idle now ttl s can.lives can.connected can.socket waits h in
      subst (SentOnce now later ttl [] s) (sym e) (
        sym (append-nil s.effects),
        refl,
        flush_pending-idle later ttl s can.lives can.connected can.socket waits h,
      )
  flush_pending-SentOnce (op ∷ ops) h waits =
      let t = flush_pending now true ttl s in
      let f = flush_pending-batch now ttl s can (op ∷ ops) h refl in
      let same = f.2 in
      (
        f.0,
        same,
        flush_pending-idle later ttl t can.lives f.3 f.4 (ap is_empty same ∙ waits)
            (ap₂ unsent f.1 same ∙ recorded-unsent now ttl s can (op ∷ ops) h),
      )

-- On an open connection, with a TTL, with pending operations of which at most 1000 are unsent, a flush
-- that the socket takes sends one frame under the next sequence number; it carries, in their order,
-- exactly the pending operations that have an id and are in no batch in flight (no frame, where
-- there is none of them). All of them stay pending, and a second flush sends nothing and changes
-- nothing.
pub flush_pending-sends :
    (now later ttl : ℕ) (s : Session)
    → CanSend ttl s
    → is_empty s.pending_ops ≡ false
    → SentOnce now later ttl
        (filter (is_unsent (outstanding s.sent_batches)) s.pending_ops)
        s
        (flush_pending now true ttl s)
unfolding unsent
flush_pending-sends now later ttl s can waits =
    flush_pending-SentOnce now later ttl s can _ refl waits
