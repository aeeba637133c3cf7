-- ===== src/Tests/Documents.antt =====
-- Documents and differences (static/crdt.js) on concrete operations.
use goclipboard.Common.{
  ◌+◌, ℕ, ap, Option, none, some, ◌≡◌, refl, List, [], ◌∷◌, arith, true, false,
}
use goclipboard.Tests.{crdt}
use goclipboard.Text.{Text, codes}
use goclipboard.Ids.{Stamp}
use goclipboard.Ids.Format.{IsSite}
use goclipboard.CodePoints.{single_code_point}
use goclipboard.Doc.{
  Doc, Op, ins, del, done, empty, apply, apply_batch, delete, walk, materialize, max_clock,
}
use goclipboard.Doc.{walk_loop, len, kids}
use goclipboard.Doc.Forest.{count}
use goclipboard.Doc.Sequence.{mark_all}
use goclipboard.Doc.WellFormed.{IsWellFormed, empty-IsWellFormed}
use goclipboard.Doc.Delete.{walk-delete}
use goclipboard.Doc.Newest.{max_clock-ClocksWithin}
use goclipboard.Doc.Apply.{walk_ends, apply_batch-IsWellFormed, apply_again}
use goclipboard.Doc.Converge.{Converges, apply-Converges}
use goclipboard.Diff.Build.{Built, build_from_string-Built}
use goclipboard.Diff.Run.{Ready}
use goclipboard.Diff.Correct.{Applied, local_diff, diff_to_ops-Applied}

abbrev pub sample_ops : List Op
sample_ops =
    ins (codes "a:1") [] (codes "h")
    ∷ ins (codes "a:2") (codes "a:1") (codes "i")
    ∷ ins (codes "b:2") (codes "a:1") (codes "o")
    ∷ del (codes "a:1")
    ∷ []

abbrev pub sample : Doc
sample = (apply_batch empty sample_ops).0

sample_text : materialize sample ≡ codes "io"
unfolding crdt
sample_text = refl

pub sample_formed : IsWellFormed sample
sample_formed = apply_batch-IsWellFormed empty sample_ops empty-IsWellFormed

apply_batch-IsWellFormed_example : IsWellFormed sample
apply_batch-IsWellFormed_example = apply_batch-IsWellFormed empty sample_ops empty-IsWellFormed

walk_ends_example :
    (walk_loop (len sample + 5) sample (kids sample []) ≡ walk sample [])
    × (count (codes "b:2") (walk sample []) ≡ 1)
unfolding crdt
walk_ends_example = walk_ends sample 5 (codes "b:2") sample_formed

walk-delete_example :
    walk (delete sample (codes "a:2")).0 [] ≡ mark_all (codes "a:2") (walk sample [])
walk-delete_example = walk-delete sample (codes "a:2") sample_formed

apply_again_example :
    apply (delete sample (codes "a:2")).0 (del (codes "a:2"))
    ≡ ((delete sample (codes "a:2")).0, done false)
unfolding crdt
apply_again_example =
    apply_again sample (delete sample (codes "a:2")).0 (del (codes "a:2")) true refl

sample-Ready : Ready sample (max_clock sample)
sample-Ready = record { formed = sample_formed; within = max_clock-ClocksWithin sample }

pub IsSite-c : IsSite (codes "c")
IsSite-c = record { named = λ e. cc; plain = ((λ e. omega arith), tt) }

diff_to_ops-Applied_example :
    Applied sample
      (codes "i" ∷ codes "x" ∷ codes "o" ∷ [])
      (local_diff sample (max_clock sample) (codes "c") (codes "i" ∷ codes "x" ∷ codes "o" ∷ []))
unfolding single_code_point
diff_to_ops-Applied_example =
    diff_to_ops-Applied (codes "c") sample (max_clock sample)
      (codes "i" ∷ codes "x" ∷ codes "o" ∷ []) IsSite-c sample-Ready (refl, (refl, (refl, tt)))

-- The difference that the example applies: one insertion behind the kept prefix.
sample_diff :
    local_diff sample (max_clock sample) (codes "c") (codes "i" ∷ codes "x" ∷ codes "o" ∷ [])
    ≡ record {
      ops = ins (codes "c:3") (codes "a:2") (codes "x") ∷ [];
      next_ids = codes "a:2" ∷ codes "c:3" ∷ codes "b:2" ∷ [];
      clock = 3;
    }
unfolding crdt
sample_diff = refl

pub IsSite-s : IsSite (codes "s")
IsSite-s = record { named = λ e. cc; plain = ((λ e. omega arith), tt) }

build_from_string-Built_example : Built (codes "s") (codes "hi")
build_from_string-Built_example =
    build_from_string-Built (codes "s") (codes "hi") IsSite-s (omega arith, (omega arith, tt))

abbrev head_or_zero : Text → ℕ
head_or_zero [] = 0
head_or_zero (c ∷ cs) = c

abbrev first_unit : Option Stamp → ℕ
first_unit none = 0
first_unit (some p) = head_or_zero p.site

abbrev left_op : Op
left_op = ins (codes "a:5") (codes "a:2") (codes "x")

abbrev right_op : Op
right_op = ins (codes "b:5") (codes "a:2") (codes "y")

apply-Converges_example :
    Converges (apply sample left_op).0 (apply sample right_op).0 left_op right_op
unfolding crdt
apply-Converges_example =
    apply-Converges sample (apply sample left_op).0 (apply sample right_op).0 left_op right_op true
      true sample_formed (λ e. omega (arith, ap first_unit e)) refl refl
