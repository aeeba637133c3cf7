-- ===== src/Ids/Order.antt =====
-- `compareSibling` orders the identifiers that parse.
use goclipboard.Common.{
  ℕ, ◌≤◌, ◌<◌, ◌≡◌, inl, inr, some, List, [], ◌∷◌, Ordering, arith, Bool-cases, Bool, true, false,
  ◌||◌, ◌∙◌, ap, sym,
}
use goclipboard.Text.{Text, ◌===◌, ===_refl, ===_sound}
use goclipboard.Text.Order.{
  compare_text_refl, compare_text_eq, compare_text_flip, compare_text_unflip, compare_text_trans,
}
use goclipboard.Ids.{
  Stamp, parse_id, sibling_order, compare_sibling, max_clock_loop, max_clock_from_ids, bump,
}

abbrev pub Parses : Text → Stamp → Type 0
Parses id p = parse_id id ≡ some p

pub compare_sibling_refl : (a : Text) → compare_sibling a a ≡ Ordering.eq
unfolding compare_sibling
compare_sibling_refl a = rw (===_refl a)

sibling_order_refl : (p : Stamp) → sibling_order p p ≡ Ordering.eq
unfolding sibling_order
sibling_order_refl p = ground (arith, compare_text_refl p.site)

sibling_order_trans :
    (p q r : Stamp)
    → sibling_order p q ≡ Ordering.lt
    → sibling_order q r ≡ Ordering.lt
    → sibling_order p r ≡ Ordering.lt
unfolding sibling_order
sibling_order_trans p q r h k = ground (arith, compare_text_trans p.site q.site r.site)

sibling_order_flip :
    (p q : Stamp) → sibling_order p q ≡ Ordering.gt → sibling_order q p ≡ Ordering.lt
unfolding sibling_order
sibling_order_flip p q h = ground (arith, compare_text_flip p.site q.site)

sibling_order_unflip :
    (p q : Stamp) → sibling_order p q ≡ Ordering.lt → sibling_order q p ≡ Ordering.gt
unfolding sibling_order
sibling_order_unflip p q h = ground (arith, compare_text_unflip p.site q.site)

sibling_order_eq : (p q : Stamp) → sibling_order p q ≡ Ordering.eq → p ≡ q
unfolding sibling_order
sibling_order_eq p q h = ground (arith, compare_text_eq p.site q.site)

-- Where both parse, the comparison is that of their parts.
pub compare_sibling-Parses :
    (a b : Text) {p q : Stamp} → Parses a p → Parses b q → compare_sibling a b ≡ sibling_order p q
unfolding compare_sibling
compare_sibling-Parses a b {p} {q} ha hb = elim (Bool-cases (a === b)) [
  | inl same ↦
      let e : some p ≡ some q = sym ha ∙ ap parse_id (===_sound a b same) ∙ hb in
      let pq : p ≡ q = cc e in rw same (rw pq (sym (sibling_order_refl q)))
  | inr other ↦ rw (other, ha, hb)
]

module _ (a b : Text) {p q : Stamp} (ha : Parses a p) (hb : Parses b q) where
  pub compare_sibling_eq : compare_sibling a b ≡ Ordering.eq → p ≡ q
  compare_sibling_eq h = sibling_order_eq p q (sym (compare_sibling-Parses a b ha hb) ∙ h)

  pub compare_sibling_flip : compare_sibling a b ≡ Ordering.gt → compare_sibling b a ≡ Ordering.lt
  compare_sibling_flip h =
      compare_sibling-Parses b a hb ha
      ∙ sibling_order_flip p q (sym (compare_sibling-Parses a b ha hb) ∙ h)

  pub compare_sibling_unflip : compare_sibling a b ≡ Ordering.lt → compare_sibling b a ≡ Ordering.gt
  compare_sibling_unflip h =
      compare_sibling-Parses b a hb ha
      ∙ sibling_order_unflip p q (sym (compare_sibling-Parses a b ha hb) ∙ h)

  -- The larger clock stands first.
  pub compare_sibling-clock : q.clock < p.clock → compare_sibling a b ≡ Ordering.lt
  unfolding sibling_order
  compare_sibling-clock h = rw (compare_sibling-Parses a b ha hb) (ground arith)

-- On identifiers that parse, what stands before an identifier under `compareSibling` stands before
-- whatever that one stands before.
pub compare_sibling_trans :
    (a b c : Text) {p q r : Stamp}
    → Parses a p
    → Parses b q
    → Parses c r
    → compare_sibling a b ≡ Ordering.lt
    → compare_sibling b c ≡ Ordering.lt
    → compare_sibling a c ≡ Ordering.lt
compare_sibling_trans a b c {p} {q} {r} ha hb hc h k =
    compare_sibling-Parses a c ha hc
    ∙ sibling_order_trans p q r (sym (compare_sibling-Parses a b ha hb) ∙ h)
        (sym (compare_sibling-Parses b c hb hc) ∙ k)

-- The largest clock bounds every clock.
max_clock_loop-ge : (m : ℕ) (ids : List Text) → m ≤ max_clock_loop m ids
unfolding max_clock_loop
max_clock_loop-ge m [] = omega arith
max_clock_loop-ge m (id ∷ ids) = ground (arith, max_clock_loop-ge (bump m (parse_id id)) ids)

-- `id` is one of the list.
abbrev pub contains : Text → List Text → Bool
contains id [] = false
contains id (x ∷ xs) = x === id || contains id xs

max_clock_loop-bound :
    (m : ℕ) (ids : List Text) (id : Text) {p : Stamp}
    → Parses id p
    → contains id ids ≡ true
    → p.clock ≤ max_clock_loop m ids
unfolding max_clock_loop
max_clock_loop-bound m [] id h c = cc
max_clock_loop-bound m (x ∷ xs) id {p} h c = elim (Bool-cases (x === id)) [
  | inl same ↦
      let e : parse_id x ≡ some p = ap parse_id (===_sound x id same) ∙ h in
      rw e (ground (arith, max_clock_loop-ge (bump m (some p)) xs))
  | inr other ↦ max_clock_loop-bound (bump m (parse_id x)) xs id h (rw other at c)
]

pub max_clock-bound :
    (ids : List Text) (id : Text) {p : Stamp}
    → Parses id p
    → contains id ids ≡ true
    → p.clock ≤ max_clock_from_ids ids
unfolding max_clock_from_ids
max_clock-bound ids id h c = max_clock_loop-bound 0 ids id h c
