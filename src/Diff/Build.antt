-- ===== src/Diff/Build.antt =====
-- `buildFromString` builds a document that shows its text.
use goclipboard.Common.{
  ℕ, ◌+◌, ◌≡◌, refl, ap, sym, ◌∙◌, Bool, Option, none, some, List, [], ◌∷◌, arith, length,
  append-nil, inl,
}
use goclipboard.Text.{Text}
use goclipboard.Dict.{get, keys}
use goclipboard.Ids.{format_id}
use goclipboard.Ids.Format.{IsSite}
use goclipboard.CodePoints.{code_points}
use goclipboard.CodePoints.Laws.{join, IsUtf16, join-code_points, single_code_point-code_points}
use goclipboard.Doc.{
  Doc, Op, ins, Outcome, done, failed, empty, kids, has, apply, insert, walk, walk_loop, len,
  visible, materialize, build_loop, build_from_string,
}
use goclipboard.Doc.WellFormed.{empty-IsWellFormed}
use goclipboard.Doc.Batch.{Runs, nil, cons}
use goclipboard.Diff.{insert_ops}
use goclipboard.Diff.Run.{Ready, leaves, insert_run}
use goclipboard.Diff.Correct.{visible_chars, visible-leaves, chars-leaves, chars_of}

pub empty-Ready : (n : ℕ) → Ready empty n
unfolding has get
empty-Ready n = record { formed = empty-IsWellFormed; within = λ j p h e. cc }

walk-empty : walk empty [] ≡ []
unfolding walk walk_loop len keys kids get
walk-empty = refl

build_loop-done :
    (site : Text) (d d' : Doc) (prev c : Text) (i : ℕ) (cs : List Text) (b : Bool)
    → insert d (format_id site (i + 1)) prev c ≡ (d', done b)
    → build_loop site d prev i (c ∷ cs) ≡ build_loop site d' (format_id site (i + 1)) (i + 1) cs
unfolding build_loop
build_loop-done site d d' prev c i cs b h =
    ap
      (λ (r : Doc × Outcome). elim r.1 as (λ o. Option Doc) [
        | failed e ↦ none
        | done b ↦ build_loop site r.0 (format_id site (i + 1)) (i + 1) cs
      ])
      h

-- The loop is the run of the insertions.
build_loop-Runs :
    (site : Text) (cs : List Text) (d e : Doc) (prev : Text) (i : ℕ) (ops : List Op)
    → ops ≡ insert_ops site i prev cs
    → Runs d ops e
    → build_loop site d prev i cs ≡ some e
unfolding build_loop insert_ops apply
build_loop-Runs site [] d e prev i [] q nil = refl
build_loop-Runs site [] d e prev i (op ∷ ops) q r = cc
build_loop-Runs site (c ∷ cs) d e prev i [] q r = cc
build_loop-Runs site (c ∷ cs) d e prev i (op ∷ ops) q (cons {e = m} {b = b} h r) =
    let head : op ≡ ins (format_id site (i + 1)) prev c = cc q in
    let tail : ops ≡ insert_ops site (i + 1) (format_id site (i + 1)) cs = cc q in
    let first : insert d (format_id site (i + 1)) prev c ≡ (m, done b) =
      ap (apply d) (sym head) ∙ h in
    build_loop-done site d m prev c i cs b first
    ∙ build_loop-Runs site cs m e (format_id site (i + 1)) (i + 1) ops tail r

-- A document that was built and shows the text.
abbrev pub Built : Text → Text → Type 0
Built site content =
    (d : Doc) × (build_from_string site content ≡ some d)
    × Ready d (length (code_points content))
    × (visible_chars d ≡ code_points content)
    × (materialize d ≡ content)

-- For a site with a name and without a colon and a text of 16-bit units, `buildFromString` returns
-- a well-formed document that shows the text, one character for each code point, and whose clocks
-- are at most their number.
pub build_from_string-Built :
    (site content : Text) → IsSite site → IsUtf16 content → Built site content
unfolding build_from_string materialize
build_from_string-Built site content named units =
    let cs = code_points content in
    let r =
      insert_run site named cs empty 0 [] [] [] (single_code_point-code_points content units)
        (empty-Ready 0) walk-empty (inl (refl, refl)) in
    let shown : visible (walk r.0 []) ≡ leaves site 0 [] cs =
      ap visible (r.3 ∙ append-nil (leaves site 0 [] cs)) ∙ visible-leaves site 0 [] cs in
    let chars : visible_chars r.0 ≡ cs = ap chars_of shown ∙ chars-leaves site 0 [] cs in
    let k : 0 + length cs ≡ length cs = omega arith in
    (
      r.0,
      build_loop-Runs site cs empty r.0 [] 0 (insert_ops site 0 [] cs) refl r.1,
      rw k at r.2,
      chars,
      ap join chars ∙ join-code_points content,
    )
