-- ===== src/Doc/Batch.antt =====
-- Batches of operations that all succeed.
use goclipboard.Common.{
  ℕ, ◌+◌, ◌≡◌, refl, ap, ◌∙◌, Bool, true, false, ◌||◌, List, [], ◌∷◌, ◌++◌, Option-cases,
  Bool-cases, inl, inr,
}
use goclipboard.Text.{Text, ◌===◌}
use goclipboard.Dict.{get}
use goclipboard.CodePoints.{single_code_point}
use goclipboard.Doc.{
  Doc, Op, ins, del, Outcome, done, failed, BatchOutcome, all, stopped, apply, insert, delete,
  batch_loop, apply_batch, add, parses,
}
use goclipboard.Doc.Insert.{CanAdd}

-- Every operation succeeds, from the first document to the last.
pub data Runs : Doc → List Op → Doc → Type 0 where
  nil : {d : Doc} → Runs d [] d
  cons :
      {d e f : Doc} {op : Op} {ops : List Op} {b : Bool}
      → apply d op ≡ (e, done b)
      → Runs e ops f
      → Runs d (op ∷ ops) f

pub Runs-append :
    {d e f : Doc} {ops : List Op} (more : List Op)
    → Runs d ops e
    → Runs e more f
    → Runs d (ops ++ more) f
Runs-append more nil s = s
Runs-append more (cons h r) s = cons h (Runs-append more r s)

batch_loop-done :
    (d e : Doc) (op : Op) (ops : List Op) (b c : Bool) (i : ℕ)
    → apply d op ≡ (e, done b)
    → batch_loop d c i (op ∷ ops) ≡ batch_loop e (b || c) (i + 1) ops
unfolding batch_loop
batch_loop-done d e op ops b c i h =
    ap
      (λ (r : Doc × Outcome). elim r.1 as (λ o. Doc × BatchOutcome) [
        | failed x ↦ (r.0, stopped x c i)
        | done y ↦ batch_loop r.0 (y || c) (i + 1) ops
      ])
      h

pub batch_loop-Runs :
    {d e : Doc} {ops : List Op} (c : Bool) (i : ℕ)
    → Runs d ops e
    → (b : Bool) × (batch_loop d c i ops ≡ (e, all b))
unfolding batch_loop
batch_loop-Runs c i nil = (c, refl)
batch_loop-Runs c i (cons {d} {e} {f} {op} {ops} {b} h r) =
    let s = batch_loop-Runs (b || c) (i + 1) r in (s.0, batch_loop-done d e op ops b c i h ∙ s.1)

-- A batch with an operation in it returns that all succeeded.
pub apply_batch-Runs :
    {d e : Doc} (op : Op) (ops : List Op)
    → Runs d (op ∷ ops) e
    → (b : Bool) × (apply_batch d (op ∷ ops) ≡ (e, all b))
unfolding apply_batch
apply_batch-Runs op ops r = batch_loop-Runs false 0 r

pub apply-ins :
    (d : Doc) (id after ch : Text)
    → CanAdd d id after
    → single_code_point ch ≡ true
    → apply d (ins id after ch) ≡ (add d id after ch, done true)
unfolding apply insert
apply-ins d id after ch can one = elim (Bool-cases (after === [])) [
  | inl root ↦ rw (can.valid, one, can.fresh, root)
  | inr below ↦ rw (can.valid, one, can.fresh, below, can.parent below)
]

pub apply-del :
    (d : Doc) (id : Text)
    → parses id ≡ true
    → (b : Bool) × (apply d (del id) ≡ ((delete d id).0, done b))
unfolding apply delete
apply-del d id h = elim (Option-cases (get id d.items)) [
  | inl absent ↦ (false, rw (h, absent))
  | inr (item, found) ↦ elim (Bool-cases item.del) [
    | inl gone ↦ (false, rw (h, found, gone))
    | inr there ↦ (true, rw (h, found, there))
  ]
]
