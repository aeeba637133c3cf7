-- ===== src/Doc/Siblings.antt =====
-- Two new children of one parent are put in the same order, whichever comes first.
use goclipboard.Common.{
  ◌≡◌, refl, ap, sym, ◌≢◌, false, List, [], ◌∷◌, arith, Bool-cases, inl, inr, Ordering,
}
use goclipboard.Text.{Text, ◌===◌, ===_iff, ===_sound}
use goclipboard.Ids.{Stamp, compare_sibling}
use goclipboard.Ids.Order.{
  Parses, compare_sibling_trans, compare_sibling_eq, compare_sibling_flip, compare_sibling_unflip,
  compare_sibling_refl,
}
use goclipboard.Doc.{is_before, insert_sorted}
use goclipboard.Doc.Newest.{stamp_of}
use goclipboard.Doc.View.{Parsed}

module _ (a b : Text) {p q : Stamp} (ha : Parses a p) (hb : Parses b q)
    (first : compare_sibling a b ≡ Ordering.lt) where
  second : compare_sibling b a ≡ Ordering.gt
  second = compare_sibling_unflip a b ha hb first

  apart : (a === b) ≡ false
  apart = elim (Bool-cases (a === b)) [
    | inr other ↦ other
    | inl same ↦
        cc (first, compare_sibling_refl b, ap (λ t. compare_sibling t b) (===_sound a b same))
  ]

  insert_sorted-before :
      (l : List Text)
      → Parsed l
      → insert_sorted b (insert_sorted a l) ≡ insert_sorted a (insert_sorted b l)
  unfolding insert_sorted is_before
  insert_sorted-before [] h = ground (arith, first, second, apart, ===_iff a b, ===_iff b a)
  insert_sorted-before (k ∷ l) h =
      let s : (r : Stamp) × Parses k r = stamp_of k h.0 in
      ground (
        arith,
        first,
        second,
        apart,
        insert_sorted-before l h.1,
        compare_sibling_trans k a b s.1 ha hb,
        ===_iff a b,
        ===_iff b a,
        ===_iff k a,
        ===_iff k b,
        compare_sibling_refl k,
      )

pub insert_sorted_comm :
    (a b : Text) {p q : Stamp} (l : List Text)
    → Parses a p
    → Parses b q
    → p ≢ q
    → Parsed l
    → insert_sorted b (insert_sorted a l) ≡ insert_sorted a (insert_sorted b l)
insert_sorted_comm a b l ha hb ne h = by_order (compare_sibling a b) refl
  where
    by_order :
        (o : Ordering)
        → compare_sibling a b ≡ o
        → insert_sorted b (insert_sorted a l) ≡ insert_sorted a (insert_sorted b l)
    by_order Ordering.lt e = insert_sorted-before a b ha hb e l h
    by_order Ordering.eq e = absurd (ne (compare_sibling_eq a b ha hb e))
    by_order Ordering.gt e =
        sym (insert_sorted-before b a hb ha (compare_sibling_flip a b ha hb e) l h)
