-- ===== src/Tab/Keeps/Edits.antt =====
-- Typing, compositions, undo and redo leave the connection alone.
use goclipboard.Common.{ℕ, ◌≡◌, refl, ◌∙◌, Bool, false, List, [], ◌∷◌, ◌++◌}
use goclipboard.CodePoints.{code_points}
use goclipboard.Doc.{Doc, Op, BatchOutcome, all, stopped, apply_batch, materialize, visible_ids}
use goclipboard.Diff.{Diff, diff_to_ops}
use goclipboard.Session.{
  Session, Entry, bump_clock_from_doc, schedule_flush, set_content_value, bump_clock_from_ops,
  composition_is_active,
}
use goclipboard.Session.Flush.{flush_fires}
use goclipboard.Session.Local.{
  on_input, on_composition_start, on_composition_end, commit_composition, commit_ops, commit_diff,
  flush_if, finish_composition, or_clone, or_text,
}
use goclipboard.Session.Undo.{
  inverse_ops, queue_ops, apply_ops_local, undo_entry, undo_top, undo, redo_entry, redo_top, redo,
  block_when_read_only,
}
use goclipboard.Session.Snapshot.{end_composition}
use goclipboard.Tab.Keeps.{
  link, request_sync-link, bump-link, push-link, if-link, apply_local_text-link, flush_pending-link,
}
use goclipboard.Tab.Keeps.Messages.{flush_deferred-link}

pub on_input-link : (now : ℕ) (s : Session) → link (on_input now s) ≡ link s
unfolding on_input
on_input-link now s =
    if-link (composition_is_active s) s _ _ refl (apply_local_text-link now s.content s)

pub on_composition_start-link : (s : Session) → link (on_composition_start s) ≡ link s
unfolding on_composition_start
on_composition_start-link s = if-link s.composition_active s s _ refl refl

pub on_composition_end-link : (s : Session) → link (on_composition_end s) ≡ link s
unfolding on_composition_end
on_composition_end-link s = if-link s.composition_active s _ s refl refl

pub flush_fires-link :
    (now : ℕ) (sends : Bool) (ttl : ℕ) (s : Session) → link (flush_fires now sends ttl s) ≡ link s
unfolding flush_fires
flush_fires-link now sends ttl s =
    flush_pending-link now sends ttl (record s { flush_timer = false })

commit_ops-link :
    (now : ℕ) (ops : List Op) (s : Session) (r : Doc × BatchOutcome)
    → link (commit_ops now ops s r).0 ≡ link s
unfolding commit_ops
commit_ops-link now ops s (d, stopped e c i) = request_sync-link now (record s { doc = d })
commit_ops-link now ops s (d, all c) =
    push-link now ops (record s { doc = d; pending_ops = s.pending_ops ++ ops })

commit_diff-link :
    (now : ℕ) (diff : Diff) (s : Session) (ops : List Op)
    → link (commit_diff now diff s ops).0 ≡ link s
unfolding commit_diff
commit_diff-link now diff s [] = refl
commit_diff-link now diff s (op ∷ ops) =
    commit_ops-link now (op ∷ ops) (record s { local_clock = diff.clock })
      (apply_batch s.doc (op ∷ ops))

flush_if-link : (ops : List Op) (s : Session) → link (flush_if ops s) ≡ link s
unfolding flush_if schedule_flush
flush_if-link [] s = refl
flush_if-link (op ∷ ops) s = refl

finish_composition-link : (r : Session × Bool) → link (finish_composition r) ≡ link r.0
unfolding finish_composition set_content_value
finish_composition-link (s, applied) = if-link applied s _ _ (flush_if-link s.pending_ops _) refl

commit_composition-link : (now : ℕ) (s : Session) → link (commit_composition now s) ≡ link s
unfolding commit_composition
commit_composition-link now s =
    let base_doc = or_clone s.doc s.composition_base_doc in
    let base_text = or_text (materialize s.doc) s.composition_base_text s.composition_base_doc in
    let s' = bump_clock_from_doc s in
    let diff =
      diff_to_ops (code_points base_text) (visible_ids base_doc) (code_points s.content)
        s'.client_id s'.local_clock in
    if-link s.composition_commit_pending s _ s
      (finish_composition-link (commit_diff now diff s' diff.ops)
        ∙ commit_diff-link now diff s' diff.ops
        ∙ bump-link s)
      refl

pub end_composition-link :
    (now : ℕ) (live : Bool) (s : Session) → link (end_composition now live s) ≡ link s
unfolding end_composition
end_composition-link now live s =
    if-link s.composition_commit_pending s _ s
      (flush_deferred-link now live (commit_composition now s) ∙ commit_composition-link now s) refl

queue_ops-link :
    (ops : List Op) (s : Session) (r : Doc × BatchOutcome) → link (queue_ops ops s r).0 ≡ link s
unfolding queue_ops bump_clock_from_ops schedule_flush
queue_ops-link ops s (d, stopped e c i) = refl
queue_ops-link ops s (d, all c) = refl

apply_ops_local-link : (ops : List Op) (s : Session) → link (apply_ops_local ops s).0 ≡ link s
unfolding apply_ops_local
apply_ops_local-link [] s = refl
apply_ops_local-link (op ∷ ops) s =
    let s' = bump_clock_from_doc s in
    queue_ops-link (op ∷ ops) s' (apply_batch s'.doc (op ∷ ops)) ∙ bump-link s

inverse_ops-link : (ops : List Op) (s : Session) → link (inverse_ops ops s).1 ≡ link s
unfolding inverse_ops
inverse_ops-link ops s = refl

undo_entry-link :
    (now : ℕ) (e : Entry) (r : List Op × Session) → link (undo_entry now e r) ≡ link r.1
unfolding undo_entry set_content_value
undo_entry-link now e ([], s) = refl
undo_entry-link now e (op ∷ ops, s) =
    if-link (apply_ops_local (op ∷ ops) s).1 s _ _ (apply_ops_local-link (op ∷ ops) s)
      (apply_ops_local-link (op ∷ ops) s)

undo_top-link : (now : ℕ) (es : List Entry) (s : Session) → link (undo_top now es s) ≡ link s
unfolding undo_top
undo_top-link now [] s = refl
undo_top-link now (e ∷ es) s =
    undo_entry-link now e (inverse_ops e.ops (record s { undo_stack = es }))
    ∙ inverse_ops-link e.ops (record s { undo_stack = es })

pub undo-link : (now : ℕ) (s : Session) → link (undo now s) ≡ link s
unfolding undo
undo-link now s = if-link (block_when_read_only s) s s _ refl (undo_top-link now s.undo_stack s)

redo_entry-link :
    (now : ℕ) (e : Entry) (r : List Op × Session) → link (redo_entry now e r) ≡ link r.1
unfolding redo_entry set_content_value
redo_entry-link now e ([], s) = refl
redo_entry-link now e (op ∷ ops, s) =
    if-link (apply_ops_local (op ∷ ops) s).1 s _ _ (apply_ops_local-link (op ∷ ops) s)
      (apply_ops_local-link (op ∷ ops) s)

redo_top-link : (now : ℕ) (es : List Entry) (s : Session) → link (redo_top now es s) ≡ link s
unfolding redo_top
redo_top-link now [] s = refl
redo_top-link now (e ∷ es) s =
    redo_entry-link now e (inverse_ops e.ops (record s { redo_stack = es }))
    ∙ inverse_ops-link e.ops (record s { redo_stack = es })

pub redo-link : (now : ℕ) (s : Session) → link (redo now s) ≡ link s
unfolding redo
redo-link now s = if-link (block_when_read_only s) s s _ refl (redo_top-link now s.redo_stack s)
