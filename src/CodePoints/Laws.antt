-- ===== src/CodePoints/Laws.antt =====
-- Splitting a text into its code points, and the offsets counted in units and in code points.
use goclipboard.Common.{
  ℕ, ◌<◌, ◌≡◌, refl, ap, ◌∙◌, Bool, true, false, List, [], ◌∷◌, ◌++◌, arith, All, Bool-cases, inl,
  inr,
}
use goclipboard.Text.{Text}
use goclipboard.CodePoints.{is_pair, single_code_point, code_points}

-- `parts.join("")`
abbrev pub join : List Text → Text
join [] = []
join (c ∷ cs) = c ++ join cs

-- The units of a string are below 2^16.
abbrev pub IsUtf16 : Text → Type 0
IsUtf16 = All (λ c. c < 0x10000)

module _ (h l : ℕ) (t : Text) where
  code_points-pair :
      is_pair (h ∷ l ∷ t) ≡ true → code_points (h ∷ l ∷ t) ≡ (h ∷ l ∷ []) ∷ code_points t
  unfolding code_points
  code_points-pair e = ground arith

  code_points-one :
      is_pair (h ∷ l ∷ t) ≡ false → code_points (h ∷ l ∷ t) ≡ (h ∷ []) ∷ code_points (l ∷ t)
  unfolding code_points
  code_points-one e = ground arith

-- The code points of a text are the text, in order.
pub join-code_points : (t : Text) → join (code_points t) ≡ t
unfolding code_points
join-code_points [] = refl
join-code_points (h ∷ []) = refl
join-code_points (h ∷ l ∷ t) = elim (Bool-cases (is_pair (h ∷ l ∷ t))) [
  | inl pair ↦ rw (code_points-pair h l t pair, join-code_points t)
  | inr one ↦ rw (code_points-one h l t one, join-code_points (l ∷ t))
]

single_code_point-one : (h : ℕ) → h < 0x10000 → single_code_point (h ∷ []) ≡ true
unfolding single_code_point
single_code_point-one h u = ground arith

single_code_point-pair :
    (h l : ℕ) (t : Text) → is_pair (h ∷ l ∷ t) ≡ true → single_code_point (h ∷ l ∷ []) ≡ true
unfolding single_code_point
single_code_point-pair h l t e = ground arith

-- Every part of a text of 16-bit units that `codePoints` yields passes `singleCodePoint`.
pub single_code_point-code_points :
    (t : Text) → IsUtf16 t → All (λ c. single_code_point c ≡ true) (code_points t)
unfolding code_points
single_code_point-code_points [] u = tt
single_code_point-code_points (h ∷ []) u = (single_code_point-one h u.0, tt)
single_code_point-code_points (h ∷ l ∷ t) (uh, u) = elim (Bool-cases (is_pair (h ∷ l ∷ t))) [
  | inl pair ↦
      rw (code_points-pair h l t pair)
        (single_code_point-pair h l t pair, single_code_point-code_points t u.1)
  | inr one ↦
      rw (code_points-one h l t one)
        (single_code_point-one h uh, single_code_point-code_points (l ∷ t) u)
]

-- A part that is one unit, and the text behind it: whether a surrogate pair was cut in two there.
is_cut : Text → Text → Bool
is_cut (h ∷ []) t = is_pair (h ∷ t)
is_cut _ t = false

-- No surrogate pair is cut.
unfoldable pub Whole : List Text → Type 0
unfolding is_cut
Whole [] = Unit
Whole (c ∷ cs) = (is_cut c (join cs) ≡ false) × Whole cs

code_points-uncut : (t : Text) → Whole (code_points t)
unfolding code_points Whole is_cut
code_points-uncut [] = tt
code_points-uncut (h ∷ []) = (refl, tt)
code_points-uncut (h ∷ l ∷ t) = elim (Bool-cases (is_pair (h ∷ l ∷ t))) [
  | inl pair ↦ rw (code_points-pair h l t pair) (refl, code_points-uncut t)
  | inr one ↦
      rw (code_points-one h l t one)
        (ap (λ x. is_pair (h ∷ x)) (join-code_points (l ∷ t)) ∙ one, code_points-uncut (l ∷ t))
]

-- The parts that `codePoints` yields for a text of 16-bit units are, one behind the other, that text;
-- each passes `singleCodePoint`, and no surrogate pair is cut in two.
pub code_points-Whole :
    (t : Text)
    → IsUtf16 t
    → (join (code_points t) ≡ t)
      × All (λ c. single_code_point c ≡ true) (code_points t)
      × Whole (code_points t)
code_points-Whole t u = (join-code_points t, single_code_point-code_points t u, code_points-uncut t)
