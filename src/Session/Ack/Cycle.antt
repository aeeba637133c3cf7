-- ===== src/Session/Ack/Cycle.antt =====
-- A flush and the answer to it (static/app.js: flushPending, handleAck, opKey).
use goclipboard.Common.{
  ℕ, ◌≡◌, refl, ap, ◌∙◌, Bool, true, false, not, ◌&&◌, some, List, [], ◌∷◌, ◌++◌, arith, All,
}
use goclipboard.Text.{Text, ◌===◌}
use goclipboard.Doc.{Op, ins, del, other}
use goclipboard.Session.{Session, Batch, op_id}
use goclipboard.Session.Flush.{outstanding, unsent, flush_pending, is_empty}
use goclipboard.Session.Flush.Bounds.{is_unsent, filter-true, CanSend, Flushed, flush_pending-batch}
use goclipboard.Session.Ack.{find_batch, delete_batch}

-- Every operation has an id.
abbrev pub Named : List Op → Type 0
Named = All (λ op. (op_id op === []) ≡ false)

pub Named-unsent : (ops : List Op) → Named ops → unsent [] ops ≡ ops
unfolding unsent outstanding
Named-unsent [] h = refl
Named-unsent (op ∷ ops) h =
    filter-true (is_unsent []) op ops (rw h.0 refl) ∙ ap (◌∷◌ op) (Named-unsent ops h.1)

-- The same kind of edit of the same item; an operation of another kind counts as the same as any.
unfoldable pub same_op : Op → Op → Bool
same_op (ins a after ch) (ins b after' ch') = a === b
same_op (ins a after ch) (del b) = false
same_op (ins a after ch) (other kind b) = true
same_op (del a) (ins b after ch) = false
same_op (del a) (del b) = a === b
same_op (del a) (other kind b) = true
same_op (other kind a) op = true

-- None of the later operations is the same as one of the operations before them.
abbrev pub Later : List Op → List Op → Type 0
Later ops = All (λ next. All (λ op. same_op op next ≡ false) ops)

pub find_batch-only : (seq : ℕ) (b : Batch) → find_batch seq ((seq, b) ∷ []) ≡ some b
unfolding find_batch
find_batch-only seq b = ground arith

pub delete_batch-only : (seq : ℕ) (b : Batch) → delete_batch seq ((seq, b) ∷ []) ≡ []
unfolding delete_batch
delete_batch-only seq b = ground arith

-- More operations become pending.
abbrev pub queue : List Op → Session → Session
queue more t = record t { pending_ops = t.pending_ops ++ more }

module _ (now ttl : ℕ) (s : Session) (can : CanSend ttl s) (none_sent : s.sent_batches ≡ [])
    (named : Named s.pending_ops) where
  pub flush_pending-all : Flushed now ttl s.pending_ops s (flush_pending now true ttl s)
  unfolding is_empty
  flush_pending-all =
      flush_pending-batch now ttl s can s.pending_ops
        (ap (λ l. unsent l s.pending_ops) none_sent ∙ Named-unsent s.pending_ops named)
        (never s.pending_ops)
    where
      never : (ops : List Op) → (is_empty ops && not (is_empty ops)) ≡ false
      never [] = refl
      never (op ∷ ops) = refl
