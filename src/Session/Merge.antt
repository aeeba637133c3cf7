-- ===== src/Session/Merge.antt =====
-- Merging texts and the state that a REST answer brings (static/app.js: merge3, mergeServerState,
-- applyLoadedSnapshot).
pub mod Laws
use goclipboard.Common.{
  ℕ, Bool, true, false, not, ◌&&◌, ◌||◌, Option, none, some, List, [], ◌∷◌, ◌++◌, if◌then◌else◌,
}
use goclipboard.Text.{Text, codes, ◌===◌}
use goclipboard.CodePoints.{code_points}
use goclipboard.Doc.{
  Doc, Op, BatchOutcome, all, stopped, empty, apply_batch, materialize, visible_ids, max_clock,
  build_from_string,
}
use goclipboard.Diff.{Diff, diff_to_ops}
use goclipboard.Session.{
  Session, Message, rest_message, rest_load_message, emit, put_timer, text_or_empty, is_some,
  message_generation, composition_is_active, bump_clock_from_doc, set_content_value,
}
use goclipboard.Session.Lock.{note_edit_password_set, sync_edit_lock_gate}
use goclipboard.Session.Stale.{rest_snapshot_is_stale}

pub applied_doc : Doc × BatchOutcome → Option Doc
applied_doc (d, all c) = some d
applied_doc (d, stopped e c i) = none

-- `ops.length && !d.applyBatch(ops).ok` is `none`.
pub apply_some : Doc → List Op → Option Doc
unfolding applied_doc
apply_some d [] = some d
apply_some d (op ∷ ops) = applied_doc (apply_batch d (op ∷ ops))

pub merge_loop : Text → Option Doc → List (List Op) → Text
merge_loop mine none batches = mine
merge_loop mine (some d) [] = materialize d
merge_loop mine (some d) (ops ∷ batches) = merge_loop mine (apply_some d ops) batches

-- The difference of a text to the base, as operations of a site.
pub side_ops : Text → Doc → Text → Text → List Op
side_ops base d text site =
    (diff_to_ops (code_points base) (visible_ids d) (code_points text) site (max_clock d)).ops

pub merge_on : Text → Text → Text → Option Doc → Text
merge_on base mine theirs none = mine
merge_on base mine theirs (some d) =
    merge_loop mine (some d)
      (side_ops base d theirs (codes "their") ∷ side_ops base d mine (codes "mine") ∷ [])

pub merge3 : Text → Text → Text → Text
unfolding merge_on
merge3 base mine theirs = merge_on base mine theirs (build_from_string (codes "base") base)

abbrev pub or_empty : Option Doc → Doc
or_empty none = empty
or_empty (some d) = d

unfoldable pub merged_text : Text → Text → Text → Text
merged_text base mine theirs =
    if mine === base || mine === theirs
    then theirs
    else if theirs === base
    then mine
    else merge3 base mine theirs

-- The document that a REST answer leaves behind, and what is known of the server.
unfoldable pub adopt_rest : Text → Text → Message → Session → Session
adopt_rest site text msg s = record s {
  doc = or_empty (build_from_string site text);
  local_clock = 0;
  known_version = msg.version;
  known_generation =
      if is_some msg.generation then message_generation msg.generation else s.known_generation;
  known_exists = msg.exists;
  last_synced_text = text_or_empty msg.content;
  pending_ops = [];
  sent_batches = [];
  initial_snapshot_applied = true;
}

unfoldable pub merge_server_state : Message → Session → Session
merge_server_state msg s =
    if composition_is_active s
    then record s { deferred = s.deferred ++ rest_message msg ∷ [] }
    else (let s' = sync_edit_lock_gate (note_edit_password_set msg s) in
        let theirs = text_or_empty msg.content in
        let merged = merged_text s'.last_synced_text s'.content theirs in
        let s'' =
          set_content_value merged (bump_clock_from_doc (adopt_rest s'.client_id merged msg s')) in
        if merged === theirs then s'' else emit put_timer s'')

pub has_ops : List Op → Bool
has_ops [] = false
has_ops (op ∷ ops) = true

-- `socket_live` is a socket that is connecting or open.
unfoldable pub apply_loaded_snapshot : Bool → Message → Bool → Session → Session
unfolding has_ops
apply_loaded_snapshot socket_live msg force s =
    let local_dirty = not (s.content === []) && not (s.content === s.last_synced_text) in
    let can_paint_early =
      not s.initial_snapshot_applied
      && (not (has_ops s.pending_ops) && (not (composition_is_active s) && not local_dirty)) in
    if not force && (not can_paint_early && socket_live)
    then s
    else if not force && has_ops s.pending_ops
    then s
    else if not force && (s.connected && rest_snapshot_is_stale msg s)
    then s
    else set_content_value (text_or_empty msg.content) (
        adopt_rest (codes "server") (text_or_empty msg.content) msg
          (sync_edit_lock_gate (note_edit_password_set msg s)))
