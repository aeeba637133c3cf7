-- ===== src/Page/History/Restore.antt =====
-- A snapshot that is restored is shown (static/app.js: restoreSnapshot).
use goclipboard.Common.{
  ℕ, ◌≡◌, refl, sym, ap, ◌∙◌, true, false, none, some, if◌then◌else◌, get_elem?,
}
use mathlib.Core.Path.{subst}
use goclipboard.Text.{Text, ◌===◌}
use goclipboard.Ids.Format.{IsSite}
use goclipboard.CodePoints.Laws.{IsUtf16}
use goclipboard.Doc.{materialize}
use goclipboard.Doc.WellFormed.{IsWellFormed}
use goclipboard.Session.{Session, set_content_value}
use goclipboard.Session.Local.{apply_local_text}
use goclipboard.Session.Local.Correct.{IsAligned, Shows, apply_local_text-Shows}
use goclipboard.Session.Undo.{block_when_read_only}
use goclipboard.Page.History.{
  Snapshot, Room, blocked, restore_text, restore, restore_snapshot, close_history,
  close_history_preview,
}

-- The room shows the snapshot, and the operations that lead to it are queued as those of an edit.
pub record Restored (text : Text) (r q : Room) : Type 0 where
  pub shows : Shows text r.session q.session
  pub content : q.session.content ≡ text
  pub closed : q.history_hidden ≡ true
  pub preview : q.history_preview_idx ≡ none

content-Shows :
    {text : Text} {s t : Session} (new : Text)
    → Shows text s t
    → Shows text s (set_content_value new t)
unfolding set_content_value
content-Shows new h = record {
  formed = h.formed;
  aligned = h.aligned;
  text = h.text;
  ops = h.ops;
  run = h.run;
  queued = h.queued;
}

shown : (new : Text) (s : Session) → (set_content_value new s).content ≡ new
unfolding set_content_value
shown new s = refl

restore_text-Restored :
    (now : ℕ) (text : Text) (r : Room)
    → Shows text r.session (apply_local_text now text r.session)
    → (text === materialize r.session.doc) ≡ false
    → Restored text r (restore_text now text r)
unfolding restore_text close_history close_history_preview
restore_text-Restored now text r h differs =
    let s = apply_local_text now text r.session in
    let changed : (materialize s.doc === materialize r.session.doc) ≡ false =
      ap (λ x. x === materialize r.session.doc) h.text ∙ differs in
    rw changed (record {
      shows = content-Shows (materialize s.doc) h;
      content = shown (materialize s.doc) s ∙ h.text;
      closed = refl;
      preview = refl;
    })

-- Restoring a snapshot with a text that is not shown, by a person who may write: the document and the
-- editor show its text, the operations that lead to it are queued behind those that were pending, and the
-- history is closed. The client has a name, the text 16-bit units, the document is well formed and
-- aligned.
pub restore_snapshot-Restored :
    (now idx : ℕ) (snap : Snapshot) (r : Room)
    → block_when_read_only r.session ≡ false
    → get_elem? r.history_snapshots idx ≡ some snap
    → (snap.text === materialize r.session.doc) ≡ false
    → IsSite r.session.client_id
    → IsUtf16 snap.text
    → IsWellFormed r.session.doc
    → IsAligned r.session.doc
    → Restored snap.text r (restore_snapshot now idx r)
unfolding restore_snapshot restore
restore_snapshot-Restored now idx snap r writable found differs named units formed aligned =
    let h = apply_local_text-Shows now snap.text r.session named units formed aligned in
    subst (Restored snap.text r)
      (sym (
        ap (λ b. if b then blocked r else restore now (get_elem? r.history_snapshots idx) r)
          writable
        ∙ ap (λ o. restore now o r) found
        ∙ ap (λ b. if b then r else restore_text now snap.text r) differs))
      (restore_text-Restored now snap.text r h differs)
