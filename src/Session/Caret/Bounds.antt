-- ===== src/Session/Caret/Bounds.antt =====
-- Mapped carets stand inside of the new text and in the old order (static/app.js: mapCaretIndex).
use goclipboard.Common.{
  ℕ, ◌+◌, ◌-◌, ◌≤◌, ap, ◌++◌, length, length-append, arith, Bool-cases, inl, inr,
}
use goclipboard.Text.{Text, ◌===◌, ===_sound}
use goclipboard.CodePoints.{code_points}
use goclipboard.Diff.{prefix_length, suffix_length}
use goclipboard.Diff.Split.{diff-Split}
use goclipboard.Session.Caret.{clamp_pos, caret_between, map_caret_index}

pub clamp_pos-bound : (pos max : ℕ) → clamp_pos pos max ≤ max
unfolding clamp_pos
clamp_pos-bound pos max = ground arith

clamp_pos_mono : (p q max : ℕ) → p ≤ q → clamp_pos p max ≤ clamp_pos q max
unfolding clamp_pos
clamp_pos_mono p q max h = ground arith

caret_between-bound :
    (lo kept old new pos : ℕ)
    → lo + kept ≤ old
    → lo + kept ≤ new
    → pos ≤ old
    → caret_between lo (old - kept) (new - kept) pos ≤ new
unfolding caret_between
caret_between-bound lo kept old new pos ho hn h = ground arith

caret_between_mono :
    (lo kept old new p q : ℕ)
    → lo + kept ≤ old
    → lo + kept ≤ new
    → p ≤ q
    → caret_between lo (old - kept) (new - kept) p ≤ caret_between lo (old - kept) (new - kept) q
unfolding caret_between
caret_between_mono lo kept old new p q ho hn h = ground arith

-- The two common ends do not overlap in either text.
module _ (old_text new_text : Text) where
  abbrev old : ℕ
  old = length (code_points old_text)

  abbrev new : ℕ
  new = length (code_points new_text)

  abbrev lo : ℕ
  lo = prefix_length (code_points old_text) (code_points new_text)

  abbrev kept : ℕ
  kept = suffix_length lo (code_points old_text) (code_points new_text)

  ends_fit : (lo + kept ≤ old) × (lo + kept ≤ new)
  ends_fit =
      let s = diff-Split (code_points old_text) (code_points new_text) in
      (
        omega (
          arith,
          s.lo_eq,
          s.kept_eq,
          ap length s.old_eq,
          length-append s.pre (s.gone ++ s.suf),
          length-append s.gone s.suf,
        ),
        omega (
          arith,
          s.lo_eq,
          s.kept_eq,
          ap length s.new_eq,
          length-append s.pre (s.fresh ++ s.suf),
          length-append s.fresh s.suf,
        ),
      )

-- A mapped caret stands inside of the new text, and of two carets the one that was not behind the
-- other is not behind it afterwards: a selection keeps its direction.
pub map_caret_index-bound :
    (old_text new_text : Text) (p q : ℕ)
    → p ≤ q
    → (map_caret_index old_text new_text q ≤ length (code_points new_text))
      × (map_caret_index old_text new_text p ≤ map_caret_index old_text new_text q)
unfolding map_caret_index
map_caret_index-bound old_text new_text p q h =
    let n = length (code_points old_text) in
    let fit = ends_fit old_text new_text in
    let order = clamp_pos_mono p q n h in
    elim (Bool-cases (old_text === new_text)) [
      | inl same ↦
          let e = ap (λ t. length (code_points t)) (===_sound old_text new_text same) in
          rw same (omega (arith, e, clamp_pos-bound q n), order)
      | inr differs ↦ rw differs (
        caret_between-bound (lo old_text new_text) (kept old_text new_text) n
            (new old_text new_text) (clamp_pos q n) fit.0 fit.1 (clamp_pos-bound q n),
        caret_between_mono (lo old_text new_text) (kept old_text new_text) n (new old_text new_text)
            (clamp_pos p n) (clamp_pos q n) fit.0 fit.1 order,
      )
    ]
