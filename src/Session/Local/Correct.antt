-- ===== src/Session/Local/Correct.antt =====
-- A local edit brings its text into the document and queues it (static/app.js: applyLocalText,
-- onInput, commitComposition).
use goclipboard.Common.{
  ℕ, ◌≤◌, ◌≡◌, refl, sym, ap, ◌∙◌, true, false, List, [], ◌∷◌, ◌++◌, append-nil, ltb, Bool-cases,
  inl, inr, arith,
}
use mathlib.Core.Path.{subst}
use goclipboard.Text.{Text, ◌===◌, ===_sound}
use goclipboard.Ids.Format.{IsSite}
use goclipboard.CodePoints.{code_points}
use goclipboard.CodePoints.Laws.{join, IsUtf16, join-code_points, single_code_point-code_points}
use goclipboard.Doc.{Doc, Op, materialize, max_clock}
use goclipboard.Doc.WellFormed.{IsWellFormed}
use goclipboard.Doc.Newest.{ClocksWithin, max_clock-ClocksWithin}
use goclipboard.Doc.Batch.{Runs, nil, apply_batch-Runs}
use goclipboard.Diff.{Diff}
use goclipboard.Diff.Correct.{visible_chars, local_diff, diff_to_ops-Applied}
use goclipboard.Session.{Session, bump_clock_from_doc, schedule_flush, composition_is_active}
use goclipboard.Session.Undo.{push_undo_entry}
use goclipboard.Session.Local.{local_ops, local_diff_ops, apply_local_text, on_input}

-- Splitting the text of the document gives its characters back: no pair of characters, one a high
-- and one a low surrogate, stands side by side.
abbrev pub IsAligned : Doc → Type 0
IsAligned d = code_points (materialize d) ≡ visible_chars d

-- The session `t` shows a text that the session `s` may not have shown. What leads from one to the
-- other is queued behind the operations that were pending.
pub record Shows (new : Text) (s t : Session) : Type 0 where
  pub formed : IsWellFormed t.doc
  pub aligned : IsAligned t.doc
  pub text : materialize t.doc ≡ new
  pub ops : List Op
  pub run : Runs s.doc ops t.doc
  pub queued : t.pending_ops ≡ s.pending_ops ++ ops

-- The clock is at least every clock of the document.
pub bump-cases :
    (s : Session)
    → (k : ℕ) × (bump_clock_from_doc s ≡ record s { local_clock = k }) × (max_clock s.doc ≤ k)
unfolding bump_clock_from_doc
bump-cases s = elim (Bool-cases (ltb s.local_clock (max_clock s.doc))) [
  | inl below ↦ (max_clock s.doc, rw below, omega arith)
  | inr above ↦ (s.local_clock, rw above, ground arith)
]

pub within_mono : (d : Doc) (n k : ℕ) → n ≤ k → ClocksWithin d n → ClocksWithin d k
within_mono d n k le within j p h e = omega (arith, within j p h e)

local_ops-Runs :
    (now : ℕ) (r : Diff) (s : Session) (ops : List Op) {e : Doc}
    → Runs s.doc ops e
    → ((local_diff_ops now r s ops).doc ≡ e)
      × ((local_diff_ops now r s ops).pending_ops ≡ s.pending_ops ++ ops)
unfolding local_diff_ops local_ops push_undo_entry schedule_flush
local_ops-Runs now r s [] nil = (refl, sym (append-nil s.pending_ops))
local_ops-Runs now r s (op ∷ ops) run =
    let s' = record s { local_clock = r.clock } in
    let h = apply_batch-Runs op ops run in
    (
      ap (λ q. (local_ops now (op ∷ ops) s' q).doc) h.1,
      ap (λ q. (local_ops now (op ∷ ops) s' q).pending_ops) h.1,
    )

module _ (now : ℕ) (new : Text) (s : Session) (named : IsSite s.client_id) (units : IsUtf16 new)
    (formed : IsWellFormed s.doc) (aligned : IsAligned s.doc) where
  Shows-same : (materialize s.doc === new) ≡ true → Shows new s (apply_local_text now new s)
  unfolding apply_local_text
  Shows-same same = rw same (record {
    formed = formed;
    aligned = aligned;
    text = ===_sound (materialize s.doc) new same;
    ops = [];
    run = nil;
    queued = sym (append-nil s.pending_ops);
  })

  diff_of : ℕ → Diff
  diff_of k = local_diff s.doc k s.client_id (code_points new)

  edited : ℕ → Session
  edited k = local_diff_ops now (diff_of k) (record s { local_clock = k }) (diff_of k).ops

  apply_local_text-edited :
      (k : ℕ)
      → bump_clock_from_doc s ≡ record s { local_clock = k }
      → (materialize s.doc === new) ≡ false
      → apply_local_text now new s ≡ edited k
  unfolding apply_local_text edited diff_of
  apply_local_text-edited k bumped changed = rw (changed, bumped, aligned)

  Shows-edited : (k : ℕ) → max_clock s.doc ≤ k → Shows new s (edited k)
  unfolding edited diff_of materialize
  Shows-edited k high =
      let within = within_mono s.doc (max_clock s.doc) k high (max_clock-ClocksWithin s.doc) in
      let a =
        diff_to_ops-Applied s.client_id s.doc k (code_points new) named
          (record { formed = formed; within = within }) (single_code_point-code_points new units) in
      let h = local_ops-Runs now (diff_of k) (record s { local_clock = k }) (diff_of k).ops a.1 in
      let text : materialize a.0 ≡ new = ap join a.3 ∙ join-code_points new in
      subst (λ d. Shows new s (record (edited k) { doc = d })) (sym h.0)
        (record {
          formed = a.2.formed;
          aligned = ap code_points text ∙ sym a.3;
          text = text;
          ops = (diff_of k).ops;
          run = a.1;
          queued = h.1;
        })

-- For a client with a name and without a colon, a well-formed and aligned document and a text of
-- 16-bit units, `applyLocalText` makes the document show that text. The document stays well formed
-- and aligned, and exactly the operations that lead to it are queued behind the pending ones.
pub apply_local_text-Shows :
    (now : ℕ) (new : Text) (s : Session)
    → IsSite s.client_id
    → IsUtf16 new
    → IsWellFormed s.doc
    → IsAligned s.doc
    → Shows new s (apply_local_text now new s)
apply_local_text-Shows now new s named units formed aligned =
    let b = bump-cases s in
    elim (Bool-cases (materialize s.doc === new)) [
      | inl same ↦ Shows-same now new s named units formed aligned same
      | inr changed ↦
          subst (Shows new s)
            (sym (apply_local_text-edited now new s named units formed aligned b.0 b.1 changed))
            (Shows-edited now new s named units formed aligned b.0 b.2)
    ]

-- Outside of a composition, the handler of the input event brings the typed text into the document
-- and queues it, under the conditions of a client with a name, a text of 16-bit units and a
-- well-formed, aligned document.
pub on_input-Shows :
    (now : ℕ) (s : Session)
    → composition_is_active s ≡ false
    → IsSite s.client_id
    → IsUtf16 s.content
    → IsWellFormed s.doc
    → IsAligned s.doc
    → Shows s.content s (on_input now s)
unfolding on_input
on_input-Shows now s idle named units formed aligned =
    rw idle (apply_local_text-Shows now s.content s named units formed aligned)
