-- ===== src/Text/Order.antt =====
-- The order of strings is total and transitive.
use goclipboard.Common.{◌≡◌, refl, ap₂, [], ◌∷◌, Ordering, arith}
use goclipboard.Text.{Text, compare_text}

pub compare_text_refl : (s : Text) → compare_text s s ≡ Ordering.eq
unfolding compare_text
compare_text_refl [] = refl
compare_text_refl (a ∷ s) = ground (arith, compare_text_refl s)

pub compare_text_eq : (s t : Text) → compare_text s t ≡ Ordering.eq → s ≡ t
unfolding compare_text
compare_text_eq [] [] h = refl
compare_text_eq [] (b ∷ t) h = cc
compare_text_eq (a ∷ s) [] h = cc
compare_text_eq (a ∷ s) (b ∷ t) h =
    ap₂ (λ x xs. x ∷ xs) (ground arith) (compare_text_eq s t (ground arith))

pub compare_text_flip :
    (s t : Text) → compare_text s t ≡ Ordering.gt → compare_text t s ≡ Ordering.lt
unfolding compare_text
compare_text_flip [] [] h = cc
compare_text_flip [] (b ∷ t) h = cc
compare_text_flip (a ∷ s) [] h = refl
compare_text_flip (a ∷ s) (b ∷ t) h = ground (arith, compare_text_flip s t)

pub compare_text_unflip :
    (s t : Text) → compare_text s t ≡ Ordering.lt → compare_text t s ≡ Ordering.gt
unfolding compare_text
compare_text_unflip [] [] h = cc
compare_text_unflip [] (b ∷ t) h = refl
compare_text_unflip (a ∷ s) [] h = cc
compare_text_unflip (a ∷ s) (b ∷ t) h = ground (arith, compare_text_unflip s t)

pub compare_text_trans :
    (s t u : Text)
    → compare_text s t ≡ Ordering.lt
    → compare_text t u ≡ Ordering.lt
    → compare_text s u ≡ Ordering.lt
unfolding compare_text
compare_text_trans [] t [] h k = go t h k
  where
    go :
        (t : Text)
        → compare_text [] t ≡ Ordering.lt
        → compare_text t [] ≡ Ordering.lt
        → compare_text [] [] ≡ Ordering.lt
    go [] h k = cc
    go (b ∷ t) h k = cc
compare_text_trans [] t (c ∷ u) h k = refl
compare_text_trans (a ∷ s) [] u h k = cc
compare_text_trans (a ∷ s) (b ∷ t) [] h k = cc
compare_text_trans (a ∷ s) (b ∷ t) (c ∷ u) h k = ground (arith, compare_text_trans s t u)
