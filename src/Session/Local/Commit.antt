-- ===== src/Session/Local/Commit.antt =====
-- The end of a composition brings its text in (static/app.js: commitComposition).
use goclipboard.Common.{
  ℕ, ◌≤◌, ◌≡◌, refl, sym, ap, ◌∙◌, Bool, true, Option, some, List, [], ◌∷◌, ◌++◌, append-nil,
  if◌then◌else◌,
}
use mathlib.Core.Path.{subst}
use goclipboard.Text.{Text}
use goclipboard.Ids.Format.{IsSite}
use goclipboard.CodePoints.{code_points}
use goclipboard.CodePoints.Laws.{join, IsUtf16, join-code_points, single_code_point-code_points}
use goclipboard.Doc.{Doc, Op, all, materialize, visible_ids, max_clock}
use goclipboard.Doc.WellFormed.{IsWellFormed}
use goclipboard.Doc.Newest.{max_clock-ClocksWithin}
use goclipboard.Doc.Batch.{Runs, nil, apply_batch-Runs}
use goclipboard.Diff.{Diff, diff_to_ops}
use goclipboard.Diff.Correct.{local_diff, diff_to_ops-Applied}
use goclipboard.Session.{Session, bump_clock_from_doc, schedule_flush, set_content_value}
use goclipboard.Session.Undo.{push_undo_entry}
use goclipboard.Session.Local.{
  commit_ops, commit_diff, flush_if, finish_composition, commit_composition, or_clone, or_text,
}
use goclipboard.Session.Local.Correct.{IsAligned, Shows, bump-cases, within_mono}

flush_if-edits :
    (ops : List Op) (s : Session)
    → ((flush_if ops s).doc ≡ s.doc)
      × ((flush_if ops s).pending_ops ≡ s.pending_ops)
      × ((flush_if ops s).content ≡ s.content)
unfolding flush_if schedule_flush
flush_if-edits [] s = (refl, refl, refl)
flush_if-edits (op ∷ ops) s = (refl, refl, refl)

-- The operations were taken, and the editor shows the document.
finished :
    (s : Session)
    → let t = finish_composition (s, true) in
      (t.doc ≡ s.doc) × (t.pending_ops ≡ s.pending_ops) × (t.content ≡ materialize s.doc)
unfolding finish_composition set_content_value
finished s = flush_if-edits s.pending_ops _

commit_diff-Runs :
    (now : ℕ) (r : Diff) (s : Session) (ops : List Op) {e : Doc}
    → Runs s.doc ops e
    → let t = finish_composition (commit_diff now r s ops) in
      (t.doc ≡ e) × (t.pending_ops ≡ s.pending_ops ++ ops) × (t.content ≡ materialize e)
unfolding commit_diff commit_ops push_undo_entry
commit_diff-Runs now r s [] nil =
    let f = finished s in (f.0, f.1 ∙ sym (append-nil s.pending_ops), f.2)
commit_diff-Runs now r s (op ∷ ops) {e} run =
    let s' = record s { local_clock = r.clock } in
    let h = apply_batch-Runs op ops run in
    let t = commit_ops now (op ∷ ops) s' (e, all h.0) in
    let f = finished t.0 in
    subst
      (λ q.
        let t = finish_composition (commit_ops now (op ∷ ops) s' q) in
        (t.doc ≡ e) × (t.pending_ops ≡ s.pending_ops ++ (op ∷ ops)) × (t.content ≡ materialize e))
      (sym h.1) (f.0, f.1, f.2)

-- The document that was shown when the composition began has the characters of the present one.
pub record Unmoved (s : Session) : Type 0 where
  pub base : Doc
  pub kept : s.composition_base_doc ≡ some base
  pub ids : visible_ids base ≡ visible_ids s.doc
  pub text : s.composition_base_text ≡ materialize s.doc

-- What a composition leaves: its text in the document and in the editor, and the operations that lead
-- to it behind the pending ones.
pub record Committed (s t : Session) : Type 0 where
  pub shows : Shows s.content s t
  pub content : t.content ≡ s.content

module _ (now : ℕ) (s : Session) (named : IsSite s.client_id) (units : IsUtf16 s.content)
    (formed : IsWellFormed s.doc) (aligned : IsAligned s.doc) where
  diff_of : ℕ → Diff
  diff_of k = local_diff s.doc k s.client_id (code_points s.content)

  committed : ℕ → Session
  committed k =
      finish_composition
        (commit_diff now (diff_of k) (record s { local_clock = k }) (diff_of k).ops)

  -- The end, by the session with the raised clock and the base that the difference is built against.
  ended : List Text → List Text → Session → Session
  ended chars ids s' =
      let r = diff_to_ops chars ids (code_points s.content) s'.client_id s'.local_clock in
      finish_composition (commit_diff now r s' r.ops)

  ended_if : Bool → Option Doc → Text → Session → Session
  ended_if pending base text s' =
      if pending
      then ended (code_points (or_text (materialize s.doc) text base))
          (visible_ids (or_clone s.doc base)) s'
      else s

  commit_composition-committed :
      (u : Unmoved s) (k : ℕ)
      → s.composition_commit_pending ≡ true
      → bump_clock_from_doc s ≡ record s { local_clock = k }
      → commit_composition now s ≡ committed k
  unfolding commit_composition or_clone or_text committed diff_of ended ended_if
  commit_composition-committed u k due bumped =
      let chars = code_points (materialize s.doc) in
      let s' = record s { local_clock = k } in
      ap (λ b. ended_if b s.composition_base_doc s.composition_base_text (bump_clock_from_doc s))
        due
      ∙ ap (λ o. ended_if true o s.composition_base_text (bump_clock_from_doc s)) u.kept
      ∙ ap (λ x. ended_if true (some u.base) x (bump_clock_from_doc s)) u.text
      ∙ ap (λ t. ended_if true (some u.base) (materialize s.doc) t) bumped
      ∙ ap (λ ids. ended chars ids s') u.ids
      ∙ ap (λ cs. ended cs (visible_ids s.doc) s') aligned

  Committed-committed : (k : ℕ) → max_clock s.doc ≤ k → Committed s (committed k)
  unfolding committed diff_of materialize
  Committed-committed k high =
      let within = within_mono s.doc (max_clock s.doc) k high (max_clock-ClocksWithin s.doc) in
      let a =
        diff_to_ops-Applied s.client_id s.doc k (code_points s.content) named
          (record { formed = formed; within = within })
          (single_code_point-code_points s.content units) in
      let h = commit_diff-Runs now (diff_of k) (record s { local_clock = k }) (diff_of k).ops a.1 in
      let text : materialize a.0 ≡ s.content = ap join a.3 ∙ join-code_points s.content in
      record {
        shows =
            subst (λ d. Shows s.content s (record (committed k) { doc = d })) (sym h.0)
              (record {
                formed = a.2.formed;
                aligned = ap code_points text ∙ sym a.3;
                text = text;
                ops = (diff_of k).ops;
                run = a.1;
                queued = h.1;
              });
        content = h.2 ∙ text;
      }

-- A composition that is due ends, for a client with a name, a text of 16-bit units and a well-formed and
-- aligned document that has the characters that it had when the composition began: the document
-- and the editor show the text that was composed, and the operations that lead to it are queued.
pub commit_composition-Committed :
    (now : ℕ) (s : Session)
    → IsSite s.client_id
    → IsUtf16 s.content
    → IsWellFormed s.doc
    → IsAligned s.doc
    → Unmoved s
    → s.composition_commit_pending ≡ true
    → Committed s (commit_composition now s)
commit_composition-Committed now s named units formed aligned u due =
    let b = bump-cases s in
    subst (Committed s)
      (sym (commit_composition-committed now s named units formed aligned u b.0 due b.1))
      (Committed-committed now s named units formed aligned b.0 b.2)
