-- ===== src/Session/Merge/Laws.antt =====
-- Where only one side changed the text, the merge is that side (static/app.js: merge3).
use goclipboard.Common.{
  ℕ, ◌-◌, ◌≡◌, refl, sym, ap, ◌∙◌, some, List, [], ◌∷◌, length, drop, arith, suc,
}
use goclipboard.Text.{Text, codes, ===_refl}
use goclipboard.Ids.Format.{IsSite}
use goclipboard.CodePoints.{code_points}
use goclipboard.CodePoints.Laws.{join, IsUtf16, join-code_points, single_code_point-code_points}
use goclipboard.Doc.{Doc, Op, materialize, visible_ids, max_clock}
use goclipboard.Doc.Newest.{max_clock-ClocksWithin}
use goclipboard.Doc.Batch.{Runs, nil, apply_batch-Runs}
use goclipboard.Diff.{prefix_length, suffix_length, ids_from, insert_ops, diff_between, diff_to_ops}
use goclipboard.Diff.Run.{Ready}
use goclipboard.Diff.Build.{build_from_string-Built}
use goclipboard.Diff.Correct.{visible_chars, local_diff, diff_to_ops-Applied}
use goclipboard.Session.Merge.{applied_doc, apply_some, merge_loop, merge_on, side_ops, merge3}

prefix_length_refl : (cs : List Text) → prefix_length cs cs ≡ length cs
unfolding prefix_length
prefix_length_refl [] = refl
prefix_length_refl (c ∷ cs) = rw (===_refl c) (ap suc (prefix_length_refl cs))

drop-length : (cs : List Text) → drop (length cs) cs ≡ []
drop-length [] = refl
drop-length (c ∷ cs) = drop-length cs

suffix_length-all : (cs : List Text) → suffix_length (length cs) cs cs ≡ 0
unfolding suffix_length prefix_length
suffix_length-all cs = rw (drop-length cs) refl

diff_between-same :
    (lo n k : ℕ) (cs ids : List Text) (site : Text) (clock : ℕ)
    → n - lo ≡ 0
    → (diff_between lo n n cs ids cs site clock).ops ≡ []
unfolding diff_between ids_from insert_ops
diff_between-same lo n k cs ids site clock h = rw h refl

-- Equal texts have no difference.
diff_to_ops-same :
    (cs ids : List Text) (site : Text) (clock : ℕ) → (diff_to_ops cs ids cs site clock).ops ≡ []
unfolding diff_to_ops
diff_to_ops-same cs ids site clock =
    rw (prefix_length_refl cs, suffix_length-all cs)
      (diff_between-same (length cs) (length cs - 0) 0 cs ids site clock (omega arith))

apply_some-Runs : {d e : Doc} (ops : List Op) → Runs d ops e → apply_some d ops ≡ some e
unfolding apply_some
apply_some-Runs [] nil = refl
apply_some-Runs (op ∷ ops) run = let h = apply_batch-Runs op ops run in ap applied_doc h.1

-- A document that was built from the base takes the operations of a side and then shows its text.
module _ (base : Text) (d : Doc) (ready : Ready d (max_clock d))
    (shown : visible_chars d ≡ code_points base) (text site : Text) (named : IsSite site)
    (units : IsUtf16 text) where
  apply_some-side :
      (e : Doc) × (apply_some d (side_ops base d text site) ≡ some e) × (materialize e ≡ text)
  unfolding side_ops materialize
  apply_some-side =
      let a =
        diff_to_ops-Applied site d (max_clock d) (code_points text) named ready
          (single_code_point-code_points text units) in
      let ops : (local_diff d (max_clock d) site (code_points text)).ops
          ≡ side_ops base d text site =
        ap (λ cs. (diff_to_ops cs (visible_ids d) (code_points text) site (max_clock d)).ops)
          shown in
      (
        a.0,
        ap (apply_some d) (sym ops)
            ∙ apply_some-Runs (local_diff d (max_clock d) site (code_points text)).ops a.1,
        ap join a.3 ∙ join-code_points text,
      )

apply_some-nil : (d : Doc) → apply_some d [] ≡ some d
unfolding apply_some
apply_some-nil d = refl

side_ops-same : (base : Text) (d : Doc) (site : Text) → side_ops base d base site ≡ []
unfolding side_ops
side_ops-same base d site = diff_to_ops-same (code_points base) (visible_ids d) site (max_clock d)

IsSite-base : IsSite (codes "base")
IsSite-base = record {
  named = λ e. cc;
  plain =
      ((λ e. omega arith), ((λ e. omega arith), ((λ e. omega arith), ((λ e. omega arith), tt))));
}

IsSite-mine : IsSite (codes "mine")
IsSite-mine = record {
  named = λ e. cc;
  plain =
      ((λ e. omega arith), ((λ e. omega arith), ((λ e. omega arith), ((λ e. omega arith), tt))));
}

IsSite-their : IsSite (codes "their")
IsSite-their = record {
  named = λ e. cc;
  plain = (
    (λ e. omega arith),
    ((λ e. omega arith), ((λ e. omega arith), ((λ e. omega arith), ((λ e. omega arith), tt)))),
  );
}

merge_loop-step :
    (text : Text) (d e : Doc) (ops : List Op) (more : List (List Op))
    → apply_some d ops ≡ some e
    → merge_loop text (some d) (ops ∷ more) ≡ merge_loop text (some e) more
unfolding merge_loop
merge_loop-step text d e ops more h = ap (λ o. merge_loop text o more) h

merge_loop-two :
    (text : Text) (d e f : Doc) (ops more : List Op)
    → apply_some d ops ≡ some e
    → apply_some e more ≡ some f
    → merge_loop text (some d) (ops ∷ more ∷ []) ≡ materialize f
unfolding merge_loop
merge_loop-two text d e f ops more h k =
    merge_loop-step text d e ops (more ∷ []) h ∙ merge_loop-step text e f more [] k

-- For texts of 16-bit units: if nobody else changed the base, the merge is my text, and if I did
-- not change it, the merge is their text.
pub merge3_one_side :
    (base text : Text)
    → IsUtf16 base
    → IsUtf16 text
    → (merge3 base text base ≡ text) × (merge3 base base text ≡ text)
unfolding merge3 merge_on
merge3_one_side base text ub ut =
    let b = build_from_string-Built (codes "base") base IsSite-base ub in
    let d = b.0 in
    let ready : Ready d (max_clock d) = record {
      formed = b.2.formed;
      within = max_clock-ClocksWithin d;
    } in
    let mine = apply_some-side base d ready b.3 text (codes "mine") IsSite-mine ut in
    let theirs = apply_some-side base d ready b.3 text (codes "their") IsSite-their ut in
    let idle : (site : Text) (e : Doc) → apply_some e (side_ops base d base site) ≡ some e =
      λ site e. ap (apply_some e) (side_ops-same base d site) ∙ apply_some-nil e in
    (
      ap (merge_on base text base) b.1
          ∙ merge_loop-two text d d mine.0 (side_ops base d base (codes "their"))
              (side_ops base d text (codes "mine")) (idle (codes "their") d) mine.1
          ∙ mine.2,
      ap (merge_on base base text) b.1
          ∙ merge_loop-two base d theirs.0 theirs.0 (side_ops base d text (codes "their"))
              (side_ops base d base (codes "mine")) theirs.1 (idle (codes "mine") theirs.0)
          ∙ theirs.2,
    )
