-- ===== src/Session/Undo.antt =====
-- Undo and redo (static/app.js: pushUndoEntry, inverseOps, applyOpsLocal, undo, redo). The head of
-- a stack is its top.
use goclipboard.Common.{
  ℕ, ◌+◌, ◌-◌, Bool, true, false, not, ◌&&◌, Option, none, some, List, [], ◌∷◌, ◌++◌, reverse, leb,
  if◌then◌else◌, take,
}
use goclipboard.Text.{Text}
use goclipboard.Dict.{get}
use goclipboard.Ids.{format_id}
use goclipboard.Doc.{
  Doc, Item, Op, ins, del, other, BatchOutcome, all, stopped, apply_batch, materialize,
}
use goclipboard.Session.{
  Session, Entry, bump_clock_from_doc, bump_clock_from_ops, schedule_flush, set_content_value,
  room_needs_unlock, is_view_gate,
}

abbrev pub undo_coalesce_ms : ℕ
undo_coalesce_ms = 800

abbrev pub max_undo_depth : ℕ
max_undo_depth = 100

coalesce : ℕ → List Op → List Entry → List Entry
coalesce now ops [] = record { ops = ops; pushed_at = now } ∷ []
coalesce now ops (last ∷ older) =
    if leb (now - last.pushed_at) undo_coalesce_ms
    then record { ops = last.ops ++ ops; pushed_at = now } ∷ older
    else take max_undo_depth (record { ops = ops; pushed_at = now } ∷ last ∷ older)

unfoldable pub push_undo_entry : ℕ → List Op → Session → Session
unfolding coalesce
push_undo_entry now [] s = s
push_undo_entry now (op ∷ ops) s = record s {
  undo_stack = coalesce now (op ∷ ops) s.undo_stack;
  redo_stack = [];
}

-- A deleted character comes back as a new item below the old parent; an item that is gone from the
-- document is skipped, and takes no clock.
revive : Text → ℕ → Option Item → List Op × ℕ → List Op × ℕ
revive site clock none rest = rest
revive site clock (some item) (ops, last) =
    (ins (format_id site (clock + 1)) item.after item.ch ∷ ops, last)

clock_of : ℕ → Option Item → ℕ
clock_of clock none = clock
clock_of clock (some item) = clock + 1

-- The loop from the last operation to the first, over the reversed list.
unfoldable pub inverse_loop : Doc → Text → ℕ → List Op → List Op × ℕ
unfolding revive clock_of
inverse_loop d site clock [] = ([], clock)
inverse_loop d site clock (ins id after ch ∷ ops) =
    let (rest, last) = inverse_loop d site clock ops in (del id ∷ rest, last)
inverse_loop d site clock (del id ∷ ops) =
    revive site clock (get id d.items) (inverse_loop d site (clock_of clock (get id d.items)) ops)
inverse_loop d site clock (other op id ∷ ops) = inverse_loop d site clock ops

unfoldable pub inverse_ops : List Op → Session → List Op × Session
inverse_ops ops s =
    let (inverse, clock) = inverse_loop s.doc s.client_id s.local_clock (reverse ops) in
    (inverse, record s { local_clock = clock })

-- The result says whether the operations were applied; a batch that stops has changed the document
-- up to there.
unfoldable pub queue_ops : List Op → Session → Doc × BatchOutcome → Session × Bool
queue_ops ops s (d, stopped e c i) = (record s { doc = d }, false)
queue_ops ops s (d, all c) =
    let s' = bump_clock_from_ops ops (record s { doc = d }) in
    (schedule_flush (record s' { pending_ops = s'.pending_ops ++ ops }), true)

unfoldable pub apply_ops_local : List Op → Session → Session × Bool
unfolding queue_ops
apply_ops_local [] s = (s, true)
apply_ops_local (op ∷ ops) s =
    let s' = bump_clock_from_doc s in queue_ops (op ∷ ops) s' (apply_batch s'.doc (op ∷ ops))

-- `blockWhenReadOnly`
unfoldable pub block_when_read_only : Session → Bool
block_when_read_only s = room_needs_unlock s && not (is_view_gate s)

abbrev show_doc : Session → Session
show_doc s = set_content_value (materialize s.doc) s

unfoldable pub undo_entry : ℕ → Entry → List Op × Session → Session
undo_entry now entry ([], s) = s
undo_entry now entry (op ∷ ops, s) =
    let (s', ok) = apply_ops_local (op ∷ ops) s in
    if ok
    then show_doc
        (record s' { redo_stack = record { ops = op ∷ ops; pushed_at = now } ∷ s'.redo_stack })
    else record s' { undo_stack = entry ∷ s'.undo_stack }

unfoldable pub undo_top : ℕ → List Entry → Session → Session
undo_top now [] s = s
undo_top now (entry ∷ older) s =
    undo_entry now entry (inverse_ops entry.ops (record s { undo_stack = older }))

unfoldable pub undo : ℕ → Session → Session
unfolding undo_top undo_entry
undo now s = if block_when_read_only s then s else undo_top now s.undo_stack s

unfoldable pub redo_entry : ℕ → Entry → List Op × Session → Session
redo_entry now entry ([], s) = s
redo_entry now entry (op ∷ ops, s) =
    let (s', ok) = apply_ops_local (op ∷ ops) s in
    if ok
    then show_doc
        (record s' { undo_stack = record { ops = op ∷ ops; pushed_at = now } ∷ s'.undo_stack })
    else record s' { redo_stack = entry ∷ s'.redo_stack }

unfoldable pub redo_top : ℕ → List Entry → Session → Session
redo_top now [] s = s
redo_top now (entry ∷ older) s =
    redo_entry now entry (inverse_ops entry.ops (record s { redo_stack = older }))

unfoldable pub redo : ℕ → Session → Session
unfolding redo_top redo_entry
redo now s = if block_when_read_only s then s else redo_top now s.redo_stack s
