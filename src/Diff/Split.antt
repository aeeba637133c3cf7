-- ===== src/Diff/Split.antt =====
-- What the two loops of `diffToOps` find.
use goclipboard.Common.{
  ℕ, suc, ◌≡◌, refl, ap, ap₂, sym, List, [], ◌∷◌, ◌++◌, reverse, arith, length, drop, length-append,
  drop-length-append, Bool-cases, inl, inr, ◌∙◌,
}
use mathlib.Core.List.{reverse-reverse, reverse-append, reverse-cons}
use goclipboard.Text.{Text, ◌===◌, ===_sound}
use goclipboard.Diff.{prefix_length, suffix_length}

-- Both lists begin with `pre` and end with `suf`.
pub record Split (lo kept : ℕ) (old new : List Text) : Type 0 where
  pub pre : List Text
  pub gone : List Text
  pub fresh : List Text
  pub suf : List Text
  pub old_eq : old ≡ pre ++ (gone ++ suf)
  pub new_eq : new ≡ pre ++ (fresh ++ suf)
  pub lo_eq : length pre ≡ lo
  pub kept_eq : length suf ≡ kept

prefix-split :
    (old new : List Text)
    → (pre : List Text) × (a : List Text) × (b : List Text) × (old ≡ pre ++ a)
      × (new ≡ pre ++ b)
      × (length pre ≡ prefix_length old new)
unfolding prefix_length
prefix-split [] new = ([], [], new, refl, refl, refl)
prefix-split (x ∷ old) [] = ([], x ∷ old, [], refl, refl, refl)
prefix-split (x ∷ old) (y ∷ new) = elim (Bool-cases (x === y)) [
  | inl same ↦
      let r = prefix-split old new in
      (
        x ∷ r.0,
        r.1,
        r.2,
        ap (x ∷◌) r.3,
        ap₂ (λ z zs. z ∷ zs) (sym (===_sound x y same)) r.4,
        rw same (ap suc r.5),
      )
  | inr other ↦ ([], x ∷ old, y ∷ new, refl, refl, rw other refl)
]

length-reverse : (l : List Text) → length (reverse l) ≡ length l
length-reverse [] = refl
length-reverse (x ∷ l) =
    rw (reverse-cons x l) (omega (arith, length-append (reverse l) (x ∷ []), length-reverse l))

un-reverse : (l pre a : List Text) → reverse l ≡ pre ++ a → l ≡ reverse a ++ reverse pre
un-reverse l pre a h = sym (reverse-reverse l) ∙ ap reverse h ∙ reverse-append pre a

pub diff-Split :
    (old new : List Text)
    → Split (prefix_length old new) (suffix_length (prefix_length old new) old new) old new
unfolding suffix_length
diff-Split old new =
    let p = prefix-split old new in
    let oa : drop (prefix_length old new) old ≡ p.1 =
      ap₂ drop (sym p.5) p.3 ∙ drop-length-append p.0 p.1 in
    let nb : drop (prefix_length old new) new ≡ p.2 =
      ap₂ drop (sym p.5) p.4 ∙ drop-length-append p.0 p.2 in
    let q = prefix-split (reverse p.1) (reverse p.2) in
    record {
      pre = p.0;
      gone = reverse q.1;
      fresh = reverse q.2;
      suf = reverse q.0;
      old_eq = p.3 ∙ ap (λ t. p.0 ++ t) (un-reverse p.1 q.0 q.1 q.3);
      new_eq = p.4 ∙ ap (λ t. p.0 ++ t) (un-reverse p.2 q.0 q.2 q.4);
      lo_eq = p.5;
      kept_eq = length-reverse q.0 ∙ q.5 ∙ (rw (oa, nb) refl);
    }
