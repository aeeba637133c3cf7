-- ===== src/Session/Peers.antt =====
-- The cursors of the other tabs (static/app.js: updateRemoteCursors, cursorsVisuallyEqual,
-- peerUsedColors, ensureUniqueSelfColor, pruneStalePeers, sendCursorPosition). Positions
-- are whole numbers; what is no number of at least 0 is `none`. A timestamp that is no number is 0.
pub mod Fresh
pub mod Color
use goclipboard.Common.{
  ℕ, ◌+◌, ◌-◌, Bool, true, false, not, ◌&&◌, ◌||◌, Option, none, some, List, [], ◌∷◌, ◌++◌, map,
  filter, Ordering, ltb, leb, ◌==◌, if◌then◌else◌, length,
}
use goclipboard.Text.{Text, ◌===◌, compare_text}
use goclipboard.Dict.{Dict, get, set, keys}
use goclipboard.CodePoints.{utf16_to_code_point_offset}
use goclipboard.Diff.{at}
use goclipboard.Doc.{visible_ids}
use goclipboard.Session.{Session, Effect, send_cursor, emit, composition_is_active}
use goclipboard.Session.Caret.{Cursor, clamp_pos, anchor_id_at, pos_from_after_id}
use goclipboard.Session.Colors.{normalize_color, pick_color}

-- An entry of `remoteCursors`.
pub record Peer : Type 0 where
  pub cursor : Cursor
  pub color : Text
  pub timestamp : ℕ
  pub raw_pos : ℕ
  pub raw_end : ℕ

-- An entry of a cursor message.
pub record CursorMessage : Type 0 where
  pub client_id : Text
  pub cursor_pos : Option ℕ
  pub selection_end : Option ℕ
  pub after_id : Option Text
  pub selection_after_id : Option Text
  pub color : Text
  pub timestamp : ℕ

abbrev pub number_or : ℕ → Option ℕ → ℕ
number_or n none = n
number_or n (some m) = m

abbrev pub same_anchor : Text → Option Text → Bool
same_anchor id none = false
same_anchor id (some a) = a === id

-- Where the entry of a peer keeps what it showed before.
pub kept_anchor : Text → Option Peer → Bool
kept_anchor id none = false
kept_anchor id (some prev) = same_anchor id prev.cursor.after_id

pub shown_before : Cursor → Option Peer → Cursor
shown_before c none = c
shown_before c (some prev) = prev.cursor

-- The end of a selection with an anchor, or the caret itself.
pub anchored_end : List Text → ℕ → ℕ → Text → Option Text → ℕ × Text
anchored_end ids pos raw_end after none = (pos, after)
anchored_end ids pos raw_end after (some a) =
    (number_or (clamp_pos raw_end (length ids)) (pos_from_after_id a ids), a)

pub anchored_cursor : List Text → ℕ → ℕ → Text → Option Text → Cursor
anchored_cursor ids raw_pos raw_end after end_after =
    let pos = number_or (clamp_pos raw_pos (length ids)) (pos_from_after_id after ids) in
    let (e, a) = anchored_end ids pos raw_end after end_after in
    record { pos = pos; end = e; after_id = some after; end_after_id = some a }

abbrev pub is_none : Option ℕ → Bool
is_none none = true
is_none (some n) = false

-- A cursor that comes with anchors. An anchor that is not in the document keeps the last display.
pub with_anchor : List Text → Option Peer → ℕ → ℕ → Text → Option Text → Cursor
with_anchor ids prev raw_pos raw_end after end_after =
    let c = anchored_cursor ids raw_pos raw_end after end_after in
    if is_none (pos_from_after_id after ids) && kept_anchor after prev
    then shown_before c prev
    else c

pub same_raw : ℕ → ℕ → Option Peer → Bool
same_raw raw_pos raw_end none = false
same_raw raw_pos raw_end (some prev) = prev.raw_pos == raw_pos && prev.raw_end == raw_end

-- A cursor with indices only. The same indices again keep the last display.
pub with_indices : List Text → Option Peer → ℕ → ℕ → Cursor
with_indices ids prev raw_pos raw_end =
    let p = clamp_pos raw_pos (length ids) in
    let e = clamp_pos raw_end (length ids) in
    let c : Cursor = record {
      pos = p;
      end = e;
      after_id = some (anchor_id_at p ids);
      end_after_id = some (anchor_id_at e ids);
    } in
    if same_raw raw_pos raw_end prev then shown_before c prev else c

pub cursor_of : List Text → Option Peer → ℕ → ℕ → Option Text → Option Text → Cursor
cursor_of ids prev raw_pos raw_end none end_after = with_indices ids prev raw_pos raw_end
cursor_of ids prev raw_pos raw_end (some after) end_after =
    with_anchor ids prev raw_pos raw_end after end_after

-- The entry that a message makes, from the entry that was there.
pub peer_entry : List Text → Option Peer → CursorMessage → Peer
unfolding kept_anchor shown_before anchored_end anchored_cursor with_anchor same_raw with_indices
    cursor_of
peer_entry ids prev msg =
    let raw_pos = number_or 0 msg.cursor_pos in
    let raw_end = number_or raw_pos msg.selection_end in
    record {
      cursor = cursor_of ids prev raw_pos raw_end msg.after_id msg.selection_after_id;
      color = msg.color;
      timestamp = msg.timestamp;
      raw_pos = raw_pos;
      raw_end = raw_end;
    }

-- The loop that fills `next`.
unfoldable pub next_peers :
    Text → List Text → Dict Peer → Dict Peer → List CursorMessage → Dict Peer
next_peers self ids peers next [] = next
next_peers self ids peers next (msg ∷ msgs) =
    next_peers self ids peers
      (if msg.client_id === [] || msg.client_id === self
        then next
        else set msg.client_id (peer_entry ids (get msg.client_id peers) msg) next)
      msgs

abbrev anchor_text : Option Text → Text
anchor_text none = []
anchor_text (some a) = a

same_display : Peer → Option Peer → Bool
same_display a none = false
same_display a (some b) =
    anchor_text a.cursor.after_id === anchor_text b.cursor.after_id
    && (anchor_text a.cursor.end_after_id === anchor_text b.cursor.end_after_id
        && (a.cursor.pos == b.cursor.pos
            && (a.cursor.end == b.cursor.end
                && normalize_color a.color === normalize_color b.color)))

all_shown : Dict Peer → Dict Peer → Bool
all_shown [] b = true
all_shown ((id, p) ∷ a) b = same_display p (get id b) && all_shown a b

-- The sorted keys are the same where there are as many and each of one object is in the other.
unfoldable pub cursors_visually_equal : Dict Peer → Dict Peer → Bool
unfolding same_display all_shown
cursors_visually_equal a b = length (keys a) == length (keys b) && all_shown a b

touch : Dict Peer → Dict Peer → Dict Peer
touch [] next = []
touch ((id, p) ∷ peers) next =
    (elim (get id next) [ none ↦ (id, p) | some q ↦ (id, record p { timestamp = q.timestamp }) ])
    ∷ touch peers next

unfoldable pub peer_used_colors : Dict Peer → List Text
peer_used_colors [] = []
peer_used_colors ((id, p) ∷ peers) =
    let rest = peer_used_colors peers in if p.color === [] then rest else p.color ∷ rest

abbrev is_greater : Ordering → Bool
is_greater Ordering.gt = true
is_greater _ = false

-- The greatest identifier whose cursor has the colour; the empty text for none.
unfoldable pub conflict_id : Text → Text → Dict Peer → Text
conflict_id self_color found [] = found
conflict_id self_color found ((id, p) ∷ peers) =
    conflict_id self_color
      (if normalize_color p.color === self_color
          && (found === [] || is_greater (compare_text id found))
        then id
        else found)
      peers

-- `ensureUniqueSelfColor`: the own colour afterwards.
unfoldable pub unique_self_color : Text → Text → Dict Peer → Text
unique_self_color self color peers =
    let id = conflict_id (normalize_color color) [] peers in
    let next = pick_color self (peer_used_colors peers) in
    if id === []
    then color
    else if is_greater (compare_text id self)
    then color
    else if normalize_color next === normalize_color color
    then color
    else next

-- `updateRemoteCursors` on the cursors, without the own colour; the result says whether they are
-- drawn anew.
unfoldable pub update_remote_cursors :
    Text → List Text → List CursorMessage → Dict Peer → Dict Peer × Bool
unfolding touch
update_remote_cursors self ids msgs peers =
    let next = next_peers self ids peers [] msgs in
    if cursors_visually_equal peers next then (touch peers next, false) else (next, true)

abbrev pub peer_stale_ms : ℕ
peer_stale_ms = 14000

unfoldable pub prune_stale_peers : ℕ → Dict Peer → Dict Peer
prune_stale_peers now =
    filter (λ e. not (ltb 0 (e.1).timestamp && ltb peer_stale_ms (now - (e.1).timestamp)))

-- The offsets of the selection are in units, and `backward` is its direction.
unfoldable pub send_cursor_position : ℕ → ℕ → Bool → Session → Session
send_cursor_position start stop backward s =
    let ids = visible_ids s.doc in
    let start_cp = clamp_pos (utf16_to_code_point_offset s.content start) (length ids) in
    let end_cp = clamp_pos (utf16_to_code_point_offset s.content stop) (length ids) in
    let caret = if backward then start_cp else end_cp in
    let anchor = if caret == start_cp then end_cp else start_cp in
    if composition_is_active s
    then s
    else if s.socket_open
    then emit
        (send_cursor caret anchor (if ltb 0 caret then at ids (caret - 1) else [])
          (if ltb 0 anchor then at ids (anchor - 1) else []))
        s
    else s
