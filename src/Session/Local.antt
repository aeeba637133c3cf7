-- ===== src/Session/Local.antt =====
-- Local edits and compositions by an input method (static/app.js: applyLocalText, onInput,
-- onCompositionStart, onCompositionEnd, commitComposition without the messages that it releases).
pub mod Correct
pub mod Commit
use goclipboard.Common.{
  ℕ, Bool, true, false, Option, none, some, List, [], ◌∷◌, ◌++◌, if◌then◌else◌,
}
use goclipboard.Text.{Text, ◌===◌}
use goclipboard.CodePoints.{code_points}
use goclipboard.Doc.{
  Doc, Op, BatchOutcome, all, stopped, apply_batch, materialize, visible_ids, clone,
}
use goclipboard.Diff.{Diff, diff_to_ops}
use goclipboard.Session.{
  Session, bump_clock_from_doc, schedule_flush, set_content_value, composition_is_active,
}
use goclipboard.Session.Undo.{push_undo_entry}
use goclipboard.Session.Sync.{request_sync}

-- What follows a difference whose operations the document has taken.
unfoldable pub local_ops : ℕ → List Op → Session → Doc × BatchOutcome → Session
local_ops now ops s (d, stopped e c i) = record s { doc = d }
local_ops now ops s (d, all c) =
    schedule_flush
      (push_undo_entry now ops (record s { doc = d; pending_ops = s.pending_ops ++ ops }))

unfoldable pub local_diff_ops : ℕ → Diff → Session → List Op → Session
local_diff_ops now diff s [] = s
local_diff_ops now diff s (op ∷ ops) =
    let s' = record s { local_clock = diff.clock } in
    local_ops now (op ∷ ops) s' (apply_batch s'.doc (op ∷ ops))

unfoldable pub apply_local_text : ℕ → Text → Session → Session
unfolding local_ops local_diff_ops
apply_local_text now new_text s =
    let old_text = materialize s.doc in
    if old_text === new_text
    then s
    else (let s' = bump_clock_from_doc s in
        let diff =
          diff_to_ops (code_points old_text) (visible_ids s.doc) (code_points new_text) s'.client_id
            s'.local_clock in
        local_diff_ops now diff s' diff.ops)

-- The handler of the input event, outside of a programmatic change; `content` is what was typed.
unfoldable pub on_input : ℕ → Session → Session
on_input now s =
    if composition_is_active s
    then record s { composition_input_pending = true }
    else apply_local_text now s.content s

unfoldable pub on_composition_start : Session → Session
on_composition_start s = if s.composition_active then s else record s {
  composition_active = true;
  composition_commit_pending = false;
  composition_input_pending = false;
  composition_base_text = s.content;
  composition_base_doc = some (clone s.doc);
}

-- The timer that it starts calls `commit_composition`.
unfoldable pub on_composition_end : Session → Session
on_composition_end s =
    if s.composition_active
    then record s { composition_active = false; composition_commit_pending = true }
    else s

pub or_clone : Doc → Option Doc → Doc
or_clone d none = clone d
or_clone d (some base) = base

pub or_text : Text → Text → Option Doc → Text
or_text old_text base_text none = old_text
or_text old_text base_text (some base) = base_text

-- The result says whether the text was applied.
unfoldable pub commit_ops : ℕ → List Op → Session → Doc × BatchOutcome → Session × Bool
commit_ops now ops s (d, stopped e c i) = (request_sync now (record s { doc = d }), false)
commit_ops now ops s (d, all c) =
    (push_undo_entry now ops (record s { doc = d; pending_ops = s.pending_ops ++ ops }), true)

unfoldable pub commit_diff : ℕ → Diff → Session → List Op → Session × Bool
commit_diff now diff s [] = (s, true)
commit_diff now diff s (op ∷ ops) =
    let s' = record s { local_clock = diff.clock } in
    commit_ops now (op ∷ ops) s' (apply_batch s'.doc (op ∷ ops))

unfoldable pub flush_if : List Op → Session → Session
flush_if [] s = s
flush_if (op ∷ ops) s = schedule_flush s

unfoldable pub finish_composition : Session × Bool → Session
finish_composition (s, applied) =
    let s' = record s {
      composition_base_text = [];
      composition_base_doc = none;
      composition_input_pending = false;
      composition_commit_pending = false;
    } in
    if applied then flush_if s'.pending_ops (set_content_value (materialize s'.doc) s') else s'

-- The difference is built against the document that was shown when the composition began.
unfoldable pub commit_composition : ℕ → Session → Session
unfolding or_clone or_text commit_ops commit_diff flush_if finish_composition
commit_composition now s =
    if s.composition_commit_pending
    then (let base_doc = or_clone s.doc s.composition_base_doc in
        let base_text =
          or_text (materialize s.doc) s.composition_base_text s.composition_base_doc in
        let s' = bump_clock_from_doc s in
        let diff =
          diff_to_ops (code_points base_text) (visible_ids base_doc) (code_points s.content)
            s'.client_id s'.local_clock in
        finish_composition (commit_diff now diff s' diff.ops))
    else s
