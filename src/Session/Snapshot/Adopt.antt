-- ===== src/Session/Snapshot/Adopt.antt =====
-- A snapshot replaces the document (static/app.js: handleState).
use goclipboard.Common.{
  ℕ, ◌≡◌, refl, sym, ap, ap₂, ◌∙◌, Bool, true, false, not, ◌&&◌, Option, none, some, List, [], ◌∷◌,
  ltb, arith, Bool-cases, inl, inr, if◌then◌else◌,
}
use mathlib.Core.Path.{subst}
use goclipboard.Text.{Text, ◌===◌}
use goclipboard.Number.{Number}
use goclipboard.Ids.Format.{IsSite}
use goclipboard.CodePoints.{code_points}
use goclipboard.CodePoints.Laws.{IsUtf16}
use goclipboard.Doc.{Op, materialize}
use goclipboard.Doc.WellFormed.{IsWellFormed}
use goclipboard.Diff.Build.{build_from_string-Built}
use goclipboard.Session.{
  Session, Message, is_some, message_generation, composition_is_active, room_needs_unlock,
  set_content_value,
}
use goclipboard.Session.Local.Correct.{IsAligned, bump-cases}
use goclipboard.Session.Stale.{snapshot_is_stale}
use goclipboard.Session.Lock.{note_edit_password_set, sync_edit_lock_gate, request_view_password}
use goclipboard.Session.Lock.Gate.{gate-SameEdits}
use goclipboard.Session.Merge.{or_empty}
use goclipboard.Session.Snapshot.{
  has_ops, server_doc, adopt_state, note_server, replay_pending, rebase, flush_rest, take_state,
  handle_state,
}

-- The generation that is stored is never below the one that the message names.
stored_generation :
    (g : Option Number) (known : ℕ)
    → ltb (if is_some g then message_generation g else known) (message_generation g) ≡ false
unfolding message_generation
stored_generation none known = ground arith
stored_generation (some n) known = ground arith

site_ne_nil : (site : Text) → IsSite site → (site === []) ≡ false
unfolding ◌===◌
site_ne_nil [] named = absurd (named.named refl)
site_ne_nil (c ∷ site) named = refl

-- The session shows a text, in a document that can take local edits.
pub record Showing (text : Text) (v : ℕ) (t : Session) : Type 0 where
  pub formed : IsWellFormed t.doc
  pub aligned : IsAligned t.doc
  pub doc_text : materialize t.doc ≡ text
  pub content : t.content ≡ text
  pub synced : t.last_synced_text ≡ text
  pub version : t.known_version ≡ v

-- A document that was adopted.
record Adopted (text : Text) (v : ℕ) (t : Session) : Type 0 where
  pub formed : IsWellFormed t.doc
  pub aligned : IsAligned t.doc
  pub doc_text : materialize t.doc ≡ text
  pub synced : t.last_synced_text ≡ text
  pub version : t.known_version ≡ v
  pub pending : t.pending_ops ≡ []

module _ (msg : Message) (text : Text) (linear : (msg.items_site === []) ≡ false)
    (named : IsSite msg.items_site) (units : IsUtf16 text) (carries : msg.content ≡ some text) where
  server_doc-built :
      (client : Text)
      → IsWellFormed (server_doc client msg)
        × IsAligned (server_doc client msg)
        × (materialize (server_doc client msg) ≡ text)
  unfolding server_doc
  server_doc-built client =
      let b = build_from_string-Built msg.items_site text named units in
      let e : server_doc client msg ≡ b.0 = rw (linear, carries) (ap or_empty b.1) in
      subst (λ d. IsWellFormed d × IsAligned d × (materialize d ≡ text)) (sym e)
        (b.2.formed, ap code_points b.4 ∙ sym b.3, b.4)

  adopt_state-Adopted :
      (s : Session) → s.pending_ops ≡ [] → Adopted text msg.version (adopt_state msg s)
  unfolding adopt_state note_server
  adopt_state-Adopted s quiet =
      let start : Session = record s { doc = server_doc s.client_id msg; local_clock = 0 } in
      let b = bump-cases start in
      let d = server_doc-built s.client_id in
      rw (b.1, stored_generation msg.generation s.known_generation)
        (record {
          formed = d.0;
          aligned = d.1;
          doc_text = d.2;
          synced = d.2;
          version = refl;
          pending = quiet;
        })

-- The end of `handleState`: the text is shown.
finish : Session → Session
finish t =
    let t' = record (set_content_value (materialize t.doc) t) { initial_snapshot_applied = true } in
    flush_rest t'.pending_ops t'

-- `takeState` behind the adoption, where what is pending and whether there are unsynced edits is given.
after_adoption : ℕ → Session → Text → Text → Bool → List Op → Session
after_adoption now t local previous unsynced pending =
    finish (rebase now local previous unsynced (replay_pending pending t))

rebase-quiet :
    (now : ℕ) (local previous : Text) (t : Session) → rebase now local previous false (t, false) ≡ t
unfolding rebase
rebase-quiet now local previous t = elim (Bool-cases (local === t.last_synced_text)) [
  | inl same ↦ rw same refl
  | inr differs ↦ rw differs refl
]

after_adoption-quiet :
    (now : ℕ) (t : Session) (local previous : Text)
    → after_adoption now t local previous false [] ≡ finish t
unfolding after_adoption replay_pending
after_adoption-quiet now t local previous = ap finish (rebase-quiet now local previous t)

flush_rest-nil : (ops : List Op) (t : Session) → ops ≡ [] → flush_rest ops t ≡ t
unfolding flush_rest
flush_rest-nil ops t h = rw h refl

finish-Showing : (text : Text) (v : ℕ) (t : Session) → Adopted text v t → Showing text v (finish t)
unfolding finish set_content_value
finish-Showing text v t a =
    let t' : Session = record t { content = materialize t.doc; initial_snapshot_applied = true } in
    subst (Showing text v) (sym (flush_rest-nil t.pending_ops t' a.pending)) (record {
      formed = a.formed;
      aligned = a.aligned;
      doc_text = a.doc_text;
      content = a.doc_text;
      synced = a.synced;
      version = a.version;
    })

-- The session from which a snapshot is adopted.
writable : Session → Session
writable s = record s {
  read_only = if s.read_only && not (room_needs_unlock s) then false else s.read_only;
}

-- Whether there are edits that the server does not have.
is_unsynced : Session → Bool
is_unsynced s =
    if has_ops s.pending_ops
    then true
    else not s.initial_snapshot_applied
      && (not (has_ops s.pending_ops) && (s.last_synced_text === [] && not (s.content === [])))

is_unsynced-quiet :
    (s : Session) → s.pending_ops ≡ [] → s.initial_snapshot_applied ≡ true → is_unsynced s ≡ false
unfolding is_unsynced
is_unsynced-quiet s quiet applied = rw (quiet, applied) refl

take_state-after_adoption :
    (now : ℕ) (msg : Message) (s : Session)
    → let t = adopt_state msg (writable s) in
      take_state now msg s
      ≡ after_adoption now t s.content s.last_synced_text (is_unsynced s) t.pending_ops
unfolding take_state after_adoption finish writable is_unsynced
take_state-after_adoption now msg s = refl

take_state-Showing :
    (now : ℕ) (msg : Message) (text : Text) (s : Session)
    → (msg.items_site === []) ≡ false
    → IsSite msg.items_site
    → IsUtf16 text
    → msg.content ≡ some text
    → s.pending_ops ≡ []
    → s.initial_snapshot_applied ≡ true
    → Showing text msg.version (take_state now msg s)
unfolding writable
take_state-Showing now msg text s linear named units carries quiet applied =
    let t = adopt_state msg (writable s) in
    let a = adopt_state-Adopted msg text linear named units carries (writable s) quiet in
    let e : take_state now msg s ≡ finish t =
      take_state-after_adoption now msg s
      ∙ ap₂ (after_adoption now t s.content s.last_synced_text) (is_unsynced-quiet s quiet applied)
          a.pending
      ∙ after_adoption-quiet now t s.content s.last_synced_text in
    subst (Showing text msg.version) (sym e) (finish-Showing text msg.version t a)

handle_state-taken :
    (now : ℕ) (msg : Message) (s : Session)
    → composition_is_active s ≡ false
    → snapshot_is_stale msg s ≡ false
    → msg.password_required ≡ false
    → handle_state now msg s
      ≡ take_state now msg (sync_edit_lock_gate (note_edit_password_set msg s))
unfolding handle_state
handle_state-taken now msg s idle newer shown =
    let s' = sync_edit_lock_gate (note_edit_password_set msg s) in
    rw (idle, newer)
      (ap
        (λ b.
          if b
          then request_view_password (record s' { initial_snapshot_applied = true })
          else take_state now msg s')
        shown)

-- A snapshot of a linear document, which has an items site and a text of 16-bit units, is neither held back
-- nor stale nor withheld, and reaches a session with nothing pending after its first snapshot. Then
-- the session shows that text in a well-formed, aligned document and in the editor, counts it as
-- synced, and knows its version.
pub handle_state-Showing :
    (now : ℕ) (msg : Message) (text : Text) (s : Session)
    → composition_is_active s ≡ false
    → snapshot_is_stale msg s ≡ false
    → msg.password_required ≡ false
    → IsSite msg.items_site
    → IsUtf16 text
    → msg.content ≡ some text
    → s.pending_ops ≡ []
    → s.initial_snapshot_applied ≡ true
    → Showing text msg.version (handle_state now msg s)
handle_state-Showing now msg text s idle newer shown named units carries quiet applied =
    let g = gate-SameEdits msg s in
    let linear : (msg.items_site === []) ≡ false = site_ne_nil msg.items_site named in
    subst (Showing text msg.version) (sym (handle_state-taken now msg s idle newer shown)) (
      take_state-Showing now msg text (sync_edit_lock_gate (note_edit_password_set msg s)) linear
        named units carries (g.pending ∙ quiet) (g.applied ∙ applied))
