-- ===== src/Session/Peers/Fresh.antt =====
-- The same cursor message again (static/app.js: updateRemoteCursors).
use goclipboard.Common.{
  ℕ, ◌≡◌, refl, ap, ◌∙◌, Bool, true, false, ◌&&◌, Option, none, some, List, ◌==◌, arith, Bool-cases,
  inl, inr,
}
use goclipboard.Text.{Text, ===_refl}
use goclipboard.Session.Caret.{Cursor, pos_from_after_id}
use goclipboard.Session.Peers.{
  Peer, CursorMessage, number_or, same_anchor, kept_anchor, shown_before, anchored_cursor, is_none,
  with_anchor, same_raw, with_indices, cursor_of, peer_entry,
}

anchored_after :
    (ids : List Text) (p e : ℕ) (a : Text) (o : Option Text)
    → (anchored_cursor ids p e a o).after_id ≡ some a
unfolding anchored_cursor
anchored_after ids p e a o = refl

-- The same cursor comes out of an entry that has it.
Steady : List Text → Option Peer → ℕ → ℕ → Option Text → Option Text → Peer → Type 0
Steady ids prev p e after end_after q =
    q.cursor ≡ cursor_of ids prev p e after end_after
    → q.raw_pos ≡ p
    → q.raw_end ≡ e
    → cursor_of ids (some q) p e after end_after ≡ cursor_of ids prev p e after end_after

indices_again :
    (ids : List Text) (prev : Option Peer) (p e : ℕ) (o : Option Text) (q : Peer)
    → Steady ids prev p e none o q
unfolding Steady cursor_of with_indices same_raw shown_before
indices_again ids prev p e o q h hp he =
    let same : (q.raw_pos == p && q.raw_end == e) ≡ true = ground arith in rw same h

with_anchor-known :
    (ids : List Text) (prev : Option Peer) (p e : ℕ) (a : Text) (o : Option Text)
    → is_none (pos_from_after_id a ids) ≡ false
    → with_anchor ids prev p e a o ≡ anchored_cursor ids p e a o
unfolding with_anchor
with_anchor-known ids prev p e a o h = rw h refl

with_anchor-after :
    (ids : List Text) (prev : Option Peer) (p e : ℕ) (a : Text) (o : Option Text)
    → same_anchor a (with_anchor ids prev p e a o).after_id ≡ true
unfolding with_anchor anchored_cursor kept_anchor shown_before
with_anchor-after ids none p e a o = ground (arith, ===_refl a)
with_anchor-after ids (some prev) p e a o = ground (arith, ===_refl a)

with_anchor-kept :
    (ids : List Text) (q : Peer) (p e : ℕ) (a : Text) (o : Option Text)
    → is_none (pos_from_after_id a ids) ≡ true
    → same_anchor a q.cursor.after_id ≡ true
    → with_anchor ids (some q) p e a o ≡ q.cursor
unfolding with_anchor kept_anchor shown_before
with_anchor-kept ids q p e a o h k = rw (h, k) refl

anchor_again :
    (ids : List Text) (prev : Option Peer) (p e : ℕ) (a : Text) (o : Option Text) (q : Peer)
    → Steady ids prev p e (some a) o q
unfolding Steady cursor_of
anchor_again ids prev p e a o q h hp he = elim (Bool-cases (is_none (pos_from_after_id a ids))) [
  | inr known ↦
      rw (with_anchor-known ids (some q) p e a o known, with_anchor-known ids prev p e a o known)
        refl
  | inl unknown ↦
      with_anchor-kept ids q p e a o unknown
        (ap (λ (c : Cursor). same_anchor a c.after_id) h ∙ with_anchor-after ids prev p e a o)
      ∙ h
]

cursor_again :
    (ids : List Text) (prev : Option Peer) (p e : ℕ) (after end_after : Option Text) (q : Peer)
    → Steady ids prev p e after end_after q
cursor_again ids prev p e none end_after q = indices_again ids prev p e end_after q
cursor_again ids prev p e (some a) end_after q = anchor_again ids prev p e a end_after q

-- The message has no anchor, or one that is not in the document and is the anchor of the cursor that is shown.
abbrev pub keeps_display : List Text → Cursor → Option Text → Bool
keeps_display ids c none = true
keeps_display ids c (some a) = is_none (pos_from_after_id a ids) && same_anchor a c.after_id

kept_cursor :
    (ids : List Text) (p e : ℕ) (after end_after : Option Text) (q : Peer)
    → keeps_display ids q.cursor after ≡ true
    → q.raw_pos ≡ p
    → q.raw_end ≡ e
    → cursor_of ids (some q) p e after end_after ≡ q.cursor
unfolding cursor_of with_indices same_raw shown_before
kept_cursor ids p e none end_after q keeps hp he =
    let same : (q.raw_pos == p && q.raw_end == e) ≡ true = ground arith in rw same refl
kept_cursor ids p e (some a) end_after q keeps hp he =
    with_anchor-kept ids q p e a end_after (ground (arith, keeps)) (ground (arith, keeps))

-- A message that comes again while the document is as before makes the same entry. After it came, the cursor
-- that the entry shows may have become `c` and the document `now_ids`, as local edits do it. If the
-- message has indices only, or an anchor that is not in the document but is the anchor of `c`,
-- then the same message again keeps the entry with `c`.
pub peer_entry_again :
    (ids now_ids : List Text) (prev : Option Peer) (msg : CursorMessage) (c : Cursor)
    → keeps_display now_ids c msg.after_id ≡ true
    → let q = peer_entry ids prev msg in
      (peer_entry ids (some q) msg ≡ q)
      × (peer_entry now_ids (some (record q { cursor = c })) msg ≡ record q { cursor = c })
unfolding peer_entry Steady
peer_entry_again ids now_ids prev msg c keeps =
    let p = number_or 0 msg.cursor_pos in
    let e = number_or p msg.selection_end in
    let q = peer_entry ids prev msg in
    (
      ap (λ c. record q { cursor = c })
          (cursor_again ids prev p e msg.after_id msg.selection_after_id q refl refl refl),
      ap (λ c. record q { cursor = c })
          (kept_cursor now_ids p e msg.after_id msg.selection_after_id (record q { cursor = c })
            keeps refl refl),
    )
