-- ===== src/Session/Colors.antt =====
-- Colours of cursors (static/app.js: CURSOR_COLORS, hashId, normalizeColor, pickColor, hashToHexColor). A 32-bit
-- integer of the code is kept as its two's complement, a number below 2^32.
pub mod Free
use goclipboard.Common.{
  ℕ, zero, suc, ◌+◌, ◌-◌, ◌*◌, ◌/◌, ◌%◌, Bool, true, false, not, ◌&&◌, Option, none, some, List, [],
  ◌∷◌, ◌++◌, map, ltb, leb, if◌then◌else◌,
}
use goclipboard.Text.{Text, codes}
use goclipboard.Number.{trim}
use goclipboard.Ids.Order.{contains}
use goclipboard.Diff.{at}

abbrev pub cursor_colors : List Text
cursor_colors =
    codes "#e06c75"
    ∷ codes "#61afef"
    ∷ codes "#98c379"
    ∷ codes "#d19a66"
    ∷ codes "#c678dd"
    ∷ codes "#56b6c2"
    ∷ codes "#e5c07b"
    ∷ codes "#be5046"
    ∷ codes "#528bff"
    ∷ codes "#e2b86b"
    ∷ codes "#7aa2f7"
    ∷ codes "#9ece6a"
    ∷ codes "#f7768e"
    ∷ codes "#bb9af7"
    ∷ codes "#2ac3de"
    ∷ codes "#ff9e64"
    ∷ codes "#73daca"
    ∷ codes "#ff7a93"
    ∷ []

-- One round: `((hash << 5) - hash) + c`, cut to 32 bits.
unfoldable pub hash_round : ℕ → ℕ → ℕ
hash_round hash c = (hash * 32 % 0x100000000 + (0x100000000 - hash) + c) % 0x100000000

hash_loop : ℕ → Text → ℕ
hash_loop hash [] = hash
hash_loop hash (c ∷ s) = hash_loop (hash_round hash c) s

unfoldable pub hash_id : Text → ℕ
unfolding hash_loop
hash_id id = hash_loop 0 id

-- `Math.abs` of a 32-bit integer
unfoldable pub abs_int32 : ℕ → ℕ
abs_int32 u = if ltb u 0x80000000 then u else 0x100000000 - u

pub lower : ℕ → ℕ
lower c = if leb 65 c && leb c 90 then c + 32 else c

-- `String(color || "").trim().toLowerCase()` of a text without capitals beyond ASCII
unfoldable pub normalize_color : Text → Text
unfolding lower
normalize_color color = map lower (trim color)

-- The loop over the palette, with the rounds that are left.
pub free_color : ℕ → ℕ → ℕ → List Text → Option Text
free_color start i zero used = none
free_color start i (suc n) used =
    let rest = free_color start (suc i) n used in
    let candidate = at cursor_colors ((start + i) % 18) in
    if contains candidate used then rest else some candidate

hex_digit : ℕ → ℕ
hex_digit d = if ltb d 10 then b'0' + d else b'a' + (d - 10)

-- Two hexadecimal digits of a channel, which is between 0 and 255.
hex_byte : ℕ → Text
unfolding hex_digit
hex_byte v = hex_digit (v / 16) ∷ hex_digit (v % 16) ∷ []

-- `Math.round((n + m) * 255)` for `n = x`, where `x` is `k / 60` of `c`: with `s = 0.62` and
-- `l = 0.52`, `c` is 0.5952 and `m` is 0.2224, so that the product is (567120 + 25296 * k) / 10000. It
-- is never closer than 0.0008 to a half, so that the floating-point numbers round the same way; `n = c`
-- is `k = 60` and `n = 0` is `k = 0`.
unfoldable pub channel : ℕ → ℕ
channel k = (567120 + 25296 * k + 5000) / 10000

-- The three `k` of red, green and blue.
unfoldable pub channels : ℕ → ℕ × ℕ × ℕ
channels hue =
    if ltb hue 60
    then (60, hue, 0)
    else if ltb hue 120
    then (120 - hue, 60, 0)
    else if ltb hue 180
    then (0, 60, hue - 120)
    else if ltb hue 240
    then (0, 240 - hue, 60)
    else if ltb hue 300
    then (hue - 240, 0, 60)
    else (60, 0, 360 - hue)

unfoldable pub hash_to_hex_color : ℕ → Text
unfolding hex_byte
hash_to_hex_color hash =
    let (r, g, b) = channels (abs_int32 hash % 360) in
    b'#' ∷ (hex_byte (channel r) ++ (hex_byte (channel g) ++ hex_byte (channel b)))

abbrev pub or_computed : ℕ → Option Text → Text
or_computed hash none = hash_to_hex_color hash
or_computed hash (some color) = color

pub pick_color : Text → List Text → Text
pick_color id used_colors =
    let hash = hash_id id in
    or_computed hash (free_color (abs_int32 hash % 18) 0 18 (map normalize_color used_colors))
