-- ===== src/Session/Snapshot.antt =====
-- Snapshots over the socket and the messages that a composition held back (static/app.js:
-- handleState, flushDeferredContentMessages, commitComposition).
pub mod Adopt
pub mod Held
use goclipboard.Common.{
  ℕ, Bool, true, false, not, ◌&&◌, Option, none, some, List, [], ◌∷◌, ◌++◌, ltb, if◌then◌else◌,
}
use goclipboard.Text.{Text, codes, ◌===◌}
use goclipboard.Doc.{
  Doc, Item, Op, Outcome, done, failed, BatchOutcome, all, stopped, apply_batch, materialize,
  from_items, build_from_string,
}
use goclipboard.Session.{
  Session, Message, Deferred, state_message, ops_message, rest_message, rest_load_message,
  text_or_empty, is_some, message_generation, composition_is_active, room_needs_unlock,
  bump_clock_from_doc, set_content_value, schedule_flush,
}
use goclipboard.Session.Lock.{note_edit_password_set, sync_edit_lock_gate, request_view_password}
use goclipboard.Session.Stale.{snapshot_is_stale}
use goclipboard.Session.Local.{apply_local_text, commit_composition}
use goclipboard.Session.Remote.{handle_remote_ops}
use goclipboard.Session.Merge.{merge3, or_empty, merge_server_state, apply_loaded_snapshot}

abbrev pub has_ops : List Op → Bool
has_ops [] = false
has_ops (op ∷ ops) = true

or_rebuild : Text → Text → Doc × Outcome → Doc
or_rebuild site text (d, done b) = d
or_rebuild site text (d, failed e) = or_empty (build_from_string site text)

-- The tree of a message without `itemsSite`.
tree_of_items : Text → List Item → Text → Doc
tree_of_items site (it ∷ items) text = or_rebuild site text (from_items (it ∷ items))
tree_of_items site [] text = or_empty (build_from_string (codes "server") text)

-- The tree of the server: rebuilt from its text, or from its items. Both agree on the empty text,
-- for which the document is empty.
pub server_doc : Text → Message → Doc
unfolding or_rebuild tree_of_items
server_doc client_id msg =
    let text = text_or_empty msg.content in
    if not (msg.items_site === [])
    then or_empty (build_from_string msg.items_site text)
    else tree_of_items client_id msg.items text

unfoldable pub clear_undo_history : Session → Session
clear_undo_history s = record s { undo_stack = []; redo_stack = [] }

unfoldable pub note_server : Message → Session → Session
note_server msg s = record s {
  known_version = msg.version;
  known_generation =
      if is_some msg.generation then message_generation msg.generation else s.known_generation;
  known_exists = msg.exists;
  sync_requested_at = 0;
}

-- The session takes the tree and what is known of the server; nothing is in flight any more. The
-- generation that the test for the undo history reads is the one that was just stored.
unfoldable pub adopt_state : Message → Session → Session
unfolding note_server
adopt_state msg s =
    let s' =
      note_server msg
        (bump_clock_from_doc (record s { doc = server_doc s.client_id msg; local_clock = 0 })) in
    let s'' =
      if ltb s'.known_generation (message_generation msg.generation)
      then clear_undo_history s'
      else s' in
    record s'' { last_synced_text = materialize s''.doc; sent_batches = [] }

-- The result says whether the pending operations were replayed.
unfoldable pub replayed : Session → Doc × BatchOutcome → Session × Bool
replayed s (d, all c) = (bump_clock_from_doc (record s { doc = d }), true)
replayed s (d, stopped e c i) = (record s { doc = d; pending_ops = [] }, false)

unfoldable pub replay_pending : List Op → Session → Session × Bool
unfolding replayed
replay_pending [] s = (s, false)
replay_pending (op ∷ ops) s = replayed s (apply_batch s.doc (op ∷ ops))

-- The text that the local edits are taken to mean on top of the server's.
unfoldable pub rebased_text : Text → Text → Text → Text
rebased_text previous local server =
    if not (previous === []) && not (previous === local)
    then merge3 previous local server
    else local

unfoldable pub rebase : ℕ → Text → Text → Bool → Session × Bool → Session
rebase now local previous unsynced (s, replayed?) =
    let server = s.last_synced_text in
    let text = rebased_text previous local server in
    if not replayed? && (not (local === server) && unsynced)
    then if text === server then s else apply_local_text now text s
    else s

unfoldable pub flush_rest : List Op → Session → Session
flush_rest [] s = s
flush_rest (op ∷ ops) s = schedule_flush s

-- A message of an authenticated session that is not stale. Text that was there before the first
-- snapshot is kept as an edit.
unfoldable pub take_state : ℕ → Message → Session → Session
unfolding rebase flush_rest
take_state now msg s =
    let draft =
      not s.initial_snapshot_applied
      && (not (has_ops s.pending_ops) && (s.last_synced_text === [] && not (s.content === []))) in
    let unsynced = if has_ops s.pending_ops then true else draft in
    let s1 = record s {
      read_only = if s.read_only && not (room_needs_unlock s) then false else s.read_only;
    } in
    let s2 = adopt_state msg s1 in
    let s3 = rebase now s.content s.last_synced_text unsynced (replay_pending s2.pending_ops s2) in
    let s4 = record (set_content_value (materialize s3.doc) s3) {
      initial_snapshot_applied = true;
    } in
    flush_rest s4.pending_ops s4

unfoldable pub handle_state : ℕ → Message → Session → Session
handle_state now msg s =
    if composition_is_active s
    then record s { deferred = s.deferred ++ state_message msg ∷ [] }
    else if snapshot_is_stale msg s
    then s
    else (let s' = sync_edit_lock_gate (note_edit_password_set msg s) in
        if msg.password_required
        then request_view_password (record s' { initial_snapshot_applied = true })
        else take_state now msg s')

unfoldable pub deliver : ℕ → Bool → Deferred → Session → Session
deliver now live (state_message msg) s = handle_state now msg s
deliver now live (ops_message msg) s = handle_remote_ops now msg s
deliver now live (rest_message msg) s = merge_server_state msg s
deliver now live (rest_load_message msg force) s = apply_loaded_snapshot live msg force s

unfoldable pub deliver_all : ℕ → Bool → List Deferred → Session → Session
deliver_all now live [] s = s
deliver_all now live (m ∷ ms) s = deliver_all now live ms (deliver now live m s)

-- `live` is a socket that is connecting or open.
unfoldable pub flush_deferred : ℕ → Bool → Session → Session
flush_deferred now live s =
    if composition_is_active s
    then s
    else deliver_all now live s.deferred (record s { deferred = [] })

-- The whole handler of the timer that ends a composition.
unfoldable pub end_composition : ℕ → Bool → Session → Session
end_composition now live s =
    if s.composition_commit_pending then flush_deferred now live (commit_composition now s) else s
