-- ===== src/Session/Caret/Anchors.antt =====
-- An anchor finds its caret again (static/app.js: anchorIdAt, posFromAfterId and the positions of
-- remote cursors).
use goclipboard.Common.{
  ℕ, zero, suc, ◌-◌, ◌≤◌, ◌<◌, ◌≡◌, refl, ap, ap₂, ◌∙◌, true, false, some, List, [], ◌∷◌, length,
  ltb, arith, All, Bool-cases, inl, inr,
}
use goclipboard.Text.{Text, ◌===◌, ===_refl, ===_sound}
use goclipboard.Ids.Order.{contains}
use goclipboard.Diff.{at}
use goclipboard.Session.Caret.Bounds.{clamp_pos-bound}
use goclipboard.Session.Caret.{
  clamp_pos, anchor_id_at, next_index, pos_after, pos_from_after_id, Cursor, reanchor, refreshed,
  refresh_position, or_clamped,
}

abbrev pub IsDistinct : List Text → Type 0
IsDistinct [] = Unit
IsDistinct (x ∷ ids) = (contains x ids ≡ false) × IsDistinct ids

-- Every identifier is a text with a character.
abbrev pub AreNamed : List Text → Type 0
AreNamed = All (λ id. (id === []) ≡ false)

contains-at : (i : ℕ) (ids : List Text) → i < length ids → contains (at ids i) ids ≡ true
unfolding at
contains-at i [] h = absurd (omega (arith, h))
contains-at zero (x ∷ ids) h = rw (===_refl x) refl
contains-at (suc i) (x ∷ ids) h = elim (Bool-cases (x === at ids i)) [
  | inl same ↦ rw same refl
  | inr other ↦ rw other (contains-at i ids (omega (arith, h)))
]

at-named : (i : ℕ) (ids : List Text) → AreNamed ids → i < length ids → (at ids i === []) ≡ false
unfolding at
at-named i [] named h = absurd (omega (arith, h))
at-named zero (x ∷ ids) named h = named.0
at-named (suc i) (x ∷ ids) named h = at-named i ids named.1 (omega (arith, h))

at-suc : (x : Text) (ids : List Text) (i : ℕ) → at (x ∷ ids) (suc i) ≡ at ids i
unfolding at
at-suc x ids i = refl

at-zero : (x : Text) (ids : List Text) → at (x ∷ ids) 0 ≡ x
unfolding at
at-zero x ids = refl

ne_at :
    (x : Text) (ids : List Text) (i : ℕ)
    → contains x ids ≡ false
    → i < length ids
    → (x === at ids i) ≡ false
ne_at x ids i absent h = elim (Bool-cases (x === at ids i)) [
  | inr other ↦ other
  | inl same ↦
      let c : contains x ids ≡ true =
        ap (λ y. contains y ids) (===_sound x (at ids i) same) ∙ contains-at i ids h in
      cc (c, absent)
]

pos_after-at :
    (i : ℕ) (ids : List Text)
    → IsDistinct ids
    → i < length ids
    → pos_after (at ids i) ids ≡ some (suc i)
unfolding pos_after next_index at
pos_after-at i [] d h = absurd (omega (arith, h))
pos_after-at zero (x ∷ ids) d h = rw (at-zero x ids, ===_refl x) refl
pos_after-at (suc i) (x ∷ ids) d h =
    let inside : i < length ids = omega (arith, h) in
    rw (at-suc x ids i, ne_at x ids i d.0 inside) (ap next_index (pos_after-at i ids d.1 inside))

pos_from_after_id-anchor_id_at :
    (pos : ℕ) (ids : List Text)
    → IsDistinct ids
    → AreNamed ids
    → pos ≤ length ids
    → pos_from_after_id (anchor_id_at pos ids) ids ≡ some pos
unfolding pos_from_after_id anchor_id_at clamp_pos ◌===◌
pos_from_after_id-anchor_id_at zero ids d named h =
    let fits : ltb (length ids) 0 ≡ false = ground arith in rw fits refl
pos_from_after_id-anchor_id_at (suc i) ids d named h =
    let fits : ltb (length ids) (suc i) ≡ false = ground arith in
    let pos : ltb 0 (suc i) ≡ true = ground arith in
    let inside : i < length ids = omega (arith, h) in
    let back : suc i - 1 ≡ i = omega arith in
    rw (fits, pos, back, at-named i ids named inside) (pos_after-at i ids d inside)

refreshed-anchor :
    (pos : ℕ) (ids : List Text)
    → IsDistinct ids
    → AreNamed ids
    → let p = clamp_pos pos (length ids) in refreshed ids p (some (anchor_id_at p ids)) ≡ p
unfolding refreshed or_clamped
refreshed-anchor pos ids d named =
    let p = clamp_pos pos (length ids) in
    ap (or_clamped p ids)
      (pos_from_after_id-anchor_id_at p ids d named (clamp_pos-bound pos (length ids)))

-- For visible identifiers that are distinct and not empty, the anchors that a remote cursor gets lead
-- back to its positions.
pub refresh_position-reanchor :
    (ids : List Text) (c : Cursor)
    → IsDistinct ids
    → AreNamed ids
    → refresh_position ids (reanchor ids c) ≡ reanchor ids c
unfolding refresh_position reanchor
refresh_position-reanchor ids c d named =
    ap₂ (λ p e. record (reanchor ids c) { pos = p; end = e }) (refreshed-anchor c.pos ids d named)
      (refreshed-anchor c.end ids d named)
