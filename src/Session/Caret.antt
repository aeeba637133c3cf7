-- ===== src/Session/Caret.antt =====
-- Carets and selections (static/app.js: clampPos, mapCaretIndex, anchorIdAt, posFromAfterId,
-- resolveCaretCp, captureSelection, restoreSelection onLocalTextChanged and the other functions that move
-- remote cursors, each for one cursor, whose `end` is set as in every entry that the code makes). A caret is
-- a number of code points, and an identifier to its left is its anchor.
pub mod Bounds
pub mod Anchors
use goclipboard.Common.{
  ℕ, suc, ◌+◌, ◌-◌, Bool, true, false, Option, none, some, List, [], ◌∷◌, map, ltb, leb,
  if◌then◌else◌, length,
}
use goclipboard.Text.{Text, ◌===◌}
use goclipboard.CodePoints.{code_points, utf16_to_code_point_offset, code_point_to_utf16_offset}
use goclipboard.Diff.{prefix_length, suffix_length, at}

-- Positions are not negative here.
pub clamp_pos : ℕ → ℕ → ℕ
clamp_pos pos max = if ltb max pos then max else pos

-- The part behind the two loops, for a caret that is clamped.
pub caret_between : ℕ → ℕ → ℕ → ℕ → ℕ
caret_between lo ro_old ro_new pos =
    if leb pos lo then pos else if leb ro_old pos then (pos + ro_new) - ro_old else lo

pub map_caret_index : Text → Text → ℕ → ℕ
map_caret_index old_text new_text pos =
    let old_chars = code_points old_text in
    let new_chars = code_points new_text in
    let lo = prefix_length old_chars new_chars in
    let kept = suffix_length lo old_chars new_chars in
    let p = clamp_pos pos (length old_chars) in
    if old_text === new_text
    then p
    else caret_between lo (length old_chars - kept) (length new_chars - kept) p

-- The identifier to the left of a caret; the empty text at the start.
pub anchor_id_at : ℕ → List Text → Text
anchor_id_at pos ids = let p = clamp_pos pos (length ids) in if ltb 0 p then at ids (p - 1) else []

pub next_index : Option ℕ → Option ℕ
next_index none = none
next_index (some i) = some (suc i)

-- The caret behind the first occurrence of an identifier.
unfoldable pub pos_after : Text → List Text → Option ℕ
unfolding next_index
pos_after id [] = none
pos_after id (x ∷ ids) = if x === id then some 1 else next_index (pos_after id ids)

-- `none` stands for -1.
unfoldable pub pos_from_after_id : Text → List Text → Option ℕ
pos_from_after_id after_id ids = if after_id === [] then some 0 else pos_after after_id ids

pub or_clamped : ℕ → List Text → Option ℕ → ℕ
or_clamped pos ids none = clamp_pos pos (length ids)
or_clamped pos ids (some p) = p

-- The cursor of a peer.
pub record Cursor : Type 0 where
  pub pos : ℕ
  pub end : ℕ
  pub after_id : Option Text
  pub end_after_id : Option Text

-- `reanchorRemoteCursorsFromPos`, for one cursor.
pub reanchor : List Text → Cursor → Cursor
reanchor ids c =
    let p = clamp_pos c.pos (length ids) in
    let e = clamp_pos c.end (length ids) in
    record {
      pos = p;
      end = e;
      after_id = some (anchor_id_at p ids);
      end_after_id = some (anchor_id_at e ids);
    }

pub refreshed : List Text → ℕ → Option Text → ℕ
refreshed ids pos none = clamp_pos pos (length ids)
refreshed ids pos (some id) = or_clamped pos ids (pos_from_after_id id ids)

-- `refreshRemoteCursorPositions`, for one cursor.
pub refresh_position : List Text → Cursor → Cursor
unfolding or_clamped refreshed
refresh_position ids c = record c {
  pos = refreshed ids c.pos c.after_id;
  end = refreshed ids c.end c.end_after_id;
}

-- `shiftRemoteCursorsByText`, for one cursor and the visible identifiers behind the change.
unfoldable pub shift_by_text : Text → Text → List Text → Cursor → Cursor
shift_by_text old_text new_text ids c =
    if old_text === new_text
    then c
    else reanchor ids (record c {
      pos = map_caret_index old_text new_text c.pos;
      end = map_caret_index old_text new_text c.end;
    })

remapped : Text → Text → List Text → ℕ → ℕ × Option Text
remapped old_text new_text ids pos =
    let p = map_caret_index old_text new_text pos in (p, some (anchor_id_at p ids))

found_or_remapped : Text → Text → List Text → ℕ → Text → Option ℕ → ℕ × Option Text
found_or_remapped old_text new_text ids pos id none = remapped old_text new_text ids pos
found_or_remapped old_text new_text ids pos id (some p) = (p, some id)

-- Where an edge goes, and its anchor: the anchor is kept where it is still visible.
unfoldable pub follow_edge : Text → Text → List Text → ℕ → Option Text → ℕ × Option Text
unfolding remapped found_or_remapped
follow_edge old_text new_text ids pos none = remapped old_text new_text ids pos
follow_edge old_text new_text ids pos (some id) =
    found_or_remapped old_text new_text ids pos id (pos_from_after_id id ids)

-- `onLocalTextChanged`, for one cursor.
unfoldable pub on_local_text_changed : Text → Text → List Text → Cursor → Cursor
on_local_text_changed old_text new_text ids c =
    let (p, after) = follow_edge old_text new_text ids c.pos c.after_id in
    let (e, end_after) = follow_edge old_text new_text ids c.end c.end_after_id in
    if old_text === new_text
    then c
    else record { pos = p; end = e; after_id = after; end_after_id = end_after }

-- The anchor of an edge of the selection; `none` is the start of the document.
pub record Selection : Type 0 where
  pub start_cp : ℕ
  pub end_cp : ℕ
  pub start_left_id : Option Text
  pub end_left_id : Option Text
  pub use_anchor : Bool

left_id : ℕ → List Text → Option Text
left_id cp ids = if ltb 0 cp then some (at ids (cp - 1)) else none

-- The arguments are the text, the offsets of its selection in units, and the visible identifiers.
unfoldable pub capture_selection : Text → ℕ → ℕ → List Text → Selection
unfolding left_id
capture_selection text start stop ids =
    let s = clamp_pos (utf16_to_code_point_offset text start) (length ids) in
    let e = clamp_pos (utf16_to_code_point_offset text stop) (length ids) in
    record {
      start_cp = s;
      end_cp = e;
      start_left_id = left_id s ids;
      end_left_id = left_id e ids;
      use_anchor = true;
    }

unfoldable pub resolve_caret_cp : Option Text → ℕ → List Text → ℕ
unfolding or_clamped
resolve_caret_cp none fallback ids = 0
resolve_caret_cp (some id) fallback ids = or_clamped fallback ids (pos_after id ids)

-- The offsets in units that the selection gets.
unfoldable pub restore_selection : Text → List Text → Selection → ℕ × ℕ
restore_selection text ids sel =
    let n = length (code_points text) in
    let max = if ltb n (length ids) then length ids else n in
    let s =
      if sel.use_anchor
      then resolve_caret_cp sel.start_left_id sel.start_cp ids
      else sel.start_cp in
    let e =
      if sel.use_anchor then resolve_caret_cp sel.end_left_id sel.end_cp ids else sel.end_cp in
    (
      code_point_to_utf16_offset text (clamp_pos s max),
      code_point_to_utf16_offset text (clamp_pos e max),
    )
