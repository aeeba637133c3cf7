-- ===== src/Text.antt =====
-- The strings of the client (static/crdt.js, static/app.js) as lists of UTF-16 code units, with
-- `===` and `<`.
pub mod Order
use Prim.Native.Char.{code}
use Prim.Native.String.{String}
use goclipboard.Common.{
  ℕ, ◌≡◌, refl, ap, ap₂, ◌↔◌, Bool, true, false, ◌&&◌, List, [], ◌∷◌, compare, Ordering, arith,
  ◌==◌, ==_iff, Bool-cases, inl, inr,
}

abbrev pub Text : Type 0
Text = List ℕ

-- The code units of a literal of the basic plane.
abbrev pub codes : String → Text
codes String.[] = []
codes (String.◌∷◌ c s) = code c ∷ codes s

infix 50 ◌===◌
unfoldable pub ◌===◌ : Text → Text → Bool
[] === [] = true
[] === (b ∷ t) = false
(a ∷ s) === [] = false
(a ∷ s) === (b ∷ t) = a == b && s === t

-- `<` and `>` on strings compare the first code units that differ.
unfoldable pub compare_text : Text → Text → Ordering
compare_text [] [] = Ordering.eq
compare_text [] (b ∷ t) = Ordering.lt
compare_text (a ∷ s) [] = Ordering.gt
compare_text (a ∷ s) (b ∷ t) = elim (compare a b) [
  | Ordering.lt ↦ Ordering.lt
  | Ordering.eq ↦ compare_text s t
  | Ordering.gt ↦ Ordering.gt
]

pub ===_sound : (s t : Text) → (s === t) ≡ true → s ≡ t
unfolding ◌===◌
===_sound [] [] h = refl
===_sound [] (b ∷ t) h = cc
===_sound (a ∷ s) [] h = cc
===_sound (a ∷ s) (b ∷ t) h = ap₂ (λ x xs. x ∷ xs) (ground arith) (===_sound s t (ground arith))

pub ===_refl : (s : Text) → (s === s) ≡ true
unfolding ◌===◌
===_refl [] = refl
===_refl (a ∷ s) = ground (arith, ===_refl s)

pub ===_iff : (s t : Text) → ((s === t) ≡ true) ↔ (s ≡ t)
===_iff s t = (===_sound s t, λ e. rw e (===_refl t))
