-- ===== src/CodePoints.antt =====
-- Code points of a text in UTF-16 (static/crdt.js: singleCodePoint, codePoints,
-- utf16ToCodePointOffset, codePointToUtf16Offset). A character is kept as its one or two units.
pub mod Laws
use Prim.Native.Nat.{min}
use goclipboard.Common.{
  ℕ, zero, suc, ◌+◌, ◌-◌, ◌*◌, Bool, true, false, ◌&&◌, List, [], ◌∷◌, ltb, leb, ◌==◌,
  if◌then◌else◌, length, drop,
}
use goclipboard.Text.{Text}

pub is_high : ℕ → Bool
is_high c = leb 0xd800 c && leb c 0xdbff

pub is_low : ℕ → Bool
is_low c = leb 0xdc00 c && leb c 0xdfff

-- A high unit and a low unit behind it are one code point.
pub is_pair : Text → Bool
unfolding is_high is_low
is_pair (h ∷ l ∷ t) = is_high h && is_low l
is_pair _ = false

-- `codePointAt(0)` of a text with a first unit
pub code_point : Text → ℕ
unfolding is_pair
code_point [] = 0
code_point (h ∷ []) = h
code_point (h ∷ l ∷ t) =
    if is_pair (h ∷ l ∷ t) then (h - 0xd800) * 0x400 + (l - 0xdc00) + 0x10000 else h

-- `code > 0xffff ? 2 : 1`
pub units : Text → ℕ
unfolding code_point
units t = if ltb 0xffff (code_point t) then 2 else 1

unfoldable pub single_code_point : Text → Bool
unfolding units
single_code_point [] = false
single_code_point (c ∷ t) = length (c ∷ t) == units (c ∷ t)

-- `Array.from(text)`
unfoldable pub code_points : Text → List Text
unfolding is_pair
code_points [] = []
code_points (h ∷ []) = (h ∷ []) ∷ []
code_points (h ∷ l ∷ t) = elim (is_pair (h ∷ l ∷ t)) [
  | true ↦ (h ∷ l ∷ []) ∷ code_points t
  | false ↦ (h ∷ []) ∷ code_points (l ∷ t)
]

-- The loops of the two offset functions, with fuel: each round moves `i` on.
pub to_code_point_loop : ℕ → Text → ℕ → ℕ → ℕ → ℕ
unfolding units
to_code_point_loop zero s target i cp = cp
to_code_point_loop (suc fuel) s target i cp =
    let rest = to_code_point_loop fuel s target (i + units (drop i s)) (cp + 1) in
    if ltb i target then rest else cp

unfoldable pub utf16_to_code_point_offset : Text → ℕ → ℕ
unfolding to_code_point_loop
utf16_to_code_point_offset s utf16_index =
    to_code_point_loop (suc (length s)) s (min utf16_index (length s)) 0 0

pub to_utf16_loop : ℕ → Text → ℕ → ℕ → ℕ → ℕ
unfolding units
to_utf16_loop zero s target i cp = i
to_utf16_loop (suc fuel) s target i cp =
    let rest = to_utf16_loop fuel s target (i + units (drop i s)) (cp + 1) in
    if ltb i (length s) && ltb cp target then rest else i

unfoldable pub code_point_to_utf16_offset : Text → ℕ → ℕ
unfolding to_utf16_loop
code_point_to_utf16_offset s cp_index = to_utf16_loop (suc (length s)) s cp_index 0 0
