-- ===== src/Session/Colors/Free.antt =====
-- A colour of the palette that is not used is found (static/app.js: pickColor).
use goclipboard.Common.{
  ℕ, zero, suc, ◌+◌, ◌-◌, ◌%◌, ◌<◌, ◌≡◌, refl, ◌⊎◌, true, false, Option, none, some, List, map,
  arith, Bool-cases, inl, inr,
}
use goclipboard.Text.{Text}
use goclipboard.Ids.Order.{contains}
use goclipboard.Diff.{at}
use goclipboard.Session.Colors.{
  cursor_colors, hash_id, abs_int32, normalize_color, free_color, or_computed, hash_to_hex_color,
  pick_color,
}

-- A colour of the palette, by its place.
abbrev pub palette : ℕ → Text
palette j = at cursor_colors j

-- What the search found is a colour of the palette that is not used; where it found none, every place
-- that it looked at is used.
Found : ℕ → ℕ → ℕ → List Text → Option Text → Type 0
Found start i n used (some c) = (contains c used ≡ false) × (j : ℕ) × (j < 18) × (c ≡ palette j)
Found start i n used none =
    (k : ℕ) → k < n → contains (palette ((start + (i + k)) % 18)) used ≡ true

one_more :
    (start i n : ℕ) (used : List Text)
    → contains (palette ((start + i) % 18)) used ≡ true
    → ((k : ℕ) → k < n → contains (palette ((start + (suc i + k)) % 18)) used ≡ true)
    → (k : ℕ) → k < suc n
    → contains (palette ((start + (i + k)) % 18)) used ≡ true
one_more start i n used taken f zero h = let e : i + 0 ≡ i = omega arith in rw e taken
one_more start i n used taken f (suc k) h =
    let e : i + suc k ≡ suc i + k = omega arith in rw e (f k (omega (arith, h)))

widen-Found :
    (start i n : ℕ) (used : List Text) (o : Option Text)
    → contains (palette ((start + i) % 18)) used ≡ true
    → Found start (suc i) n used o
    → Found start i (suc n) used o
unfolding Found
widen-Found start i n used (some c) taken f = f
widen-Found start i n used none taken f = one_more start i n used taken f

free_color-Found :
    (start i n : ℕ) (used : List Text) → Found start i n used (free_color start i n used)
unfolding Found free_color
free_color-Found start i zero used = λ k h. absurd (omega (arith, h))
free_color-Found start i (suc n) used =
    elim (Bool-cases (contains (at cursor_colors ((start + i) % 18)) used)) [
      | inr free ↦ rw free (free, (start + i) % 18, omega arith, refl)
      | inl taken ↦ rw taken (
          widen-Found start i n used (free_color start (suc i) n used) taken
            (free_color-Found start (suc i) n used))
    ]

-- A colour of the palette that is not used, or none because all are.
abbrev IsFree : List Text → Option Text → Type 0
IsFree used (some c) = (contains c used ≡ false) × (j : ℕ) × (j < 18) × (c ≡ palette j)
IsFree used none = (j : ℕ) → j < 18 → contains (palette j) used ≡ true

every_place : (start j : ℕ) → start < 18 → j < 18 → (start + (0 + (j + 18 - start) % 18)) % 18 ≡ j
every_place start j hs hj = omega arith

Found-IsFree :
    (start : ℕ) (used : List Text) (o : Option Text)
    → start < 18
    → Found start 0 18 used o
    → IsFree used o
unfolding Found
Found-IsFree start used (some c) hs f = f
Found-IsFree start used none hs f =
    λ j hj. let h = f ((j + 18 - start) % 18) (omega arith) in rw (every_place start j hs hj) at h

-- What `pickColor` may return for a list of normalised colours: a colour of the palette that is not in
-- the list, or, if all 18 are, the computed one.
abbrev pub IsPicked : Text → List Text → Text → Type 0
IsPicked id used c =
    ((contains c used ≡ false) × (j : ℕ) × (j < 18) × (c ≡ palette j))
    ⊎ (((j : ℕ) → j < 18 → contains (palette j) used ≡ true) × (c ≡ hash_to_hex_color (hash_id id)))

IsFree-IsPicked :
    (id : Text) (used : List Text) (o : Option Text)
    → IsFree used o
    → IsPicked id used (or_computed (hash_id id) o)
IsFree-IsPicked id used (some c) f = inl f
IsFree-IsPicked id used none f = inr (f, refl)

-- Whatever the identifier, `pickColor` picks a colour of the palette that is none of the normalised
-- used colours, and the colour that is computed from the identifier only if all 18 are used.
pub pick_color-IsPicked :
    (id : Text) (used : List Text) → IsPicked id (map normalize_color used) (pick_color id used)
unfolding pick_color
pick_color-IsPicked id used =
    let start = abs_int32 (hash_id id) % 18 in
    let u = map normalize_color used in
    IsFree-IsPicked id u (free_color start 0 18 u)
      (Found-IsFree start u (free_color start 0 18 u) (omega arith) (free_color-Found start 0 18 u))
