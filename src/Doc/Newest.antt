-- ===== src/Doc/Newest.antt =====
-- A new character with the largest clock of the document.
use goclipboard.Common.{
  ℕ, ◌≤◌, ◌<◌, ◌≡◌, refl, ap, sym, true, false, some, [], ◌∷◌, arith, Ordering, All-append,
  Bool-cases, Option-cases, inl, inr, ◌∙◌,
}
use goclipboard.Text.{Text, ◌===◌, ===_sound}
use goclipboard.Dict.{Dict, get, keys}
use goclipboard.Ids.{Stamp, parse_id, compare_sibling}
use goclipboard.Ids.Order.{
  Parses, compare_sibling-clock, compare_sibling_unflip, contains, max_clock-bound,
}
use goclipboard.Doc.{Doc, is_before, has, parses, add, walk, max_clock}
use goclipboard.Doc.Forest.{Forest, nil, node, flat, Shows}
use goclipboard.Doc.Sequence.{Newest, insert_after-absent, place, flat-graft, flat-insert_tree}
use goclipboard.Doc.Insert.{
  leaf, CanAdd, walk-add-flat, grown, count-absent, no_root, has-of-get, has-add,
}
use goclipboard.Doc.WellFormed.{IsWellFormed, walk-flat}

-- No identifier of the document has a clock above `n`.
abbrev pub ClocksWithin : Doc → ℕ → Type 0
ClocksWithin d n = (j : Text) (p : Stamp) → has d j ≡ true → Parses j p → p.clock ≤ n

contains-keys {ℓ} :
    {V : Type ℓ} (j : Text) (items : Dict V) {v : V}
    → get j items ≡ some v
    → contains j (keys items) ≡ true
unfolding get keys
contains-keys j [] h = cc
contains-keys j ((i, w) ∷ items) h = elim (Bool-cases (i === j)) [
  | inl same ↦ rw same
  | inr other ↦ rw other (contains-keys j items (rw other at h))
]

pub max_clock-ClocksWithin : (d : Doc) → ClocksWithin d (max_clock d)
unfolding max_clock has
max_clock-ClocksWithin d j p h e = elim (Option-cases (get j d.items)) [
  | inl absent ↦ cc (rw (absent, has) at h)
  | inr (item, found) ↦ max_clock-bound (keys d.items) j e (contains-keys j d.items found)
]

pub parses-Parses : (id : Text) {p : Stamp} → Parses id p → parses id ≡ true
unfolding parses
parses-Parses id h = rw (h, parses)

pub stamp_of : (id : Text) → parses id ≡ true → (p : Stamp) × Parses id p
unfolding parses
stamp_of id h = elim (Option-cases (parse_id id)) [
  | inl bad ↦ cc (rw (bad, parses) at h)
  | inr good ↦ good
]

module _ (d : Doc) (w : IsWellFormed d) (n : ℕ) (within : ClocksWithin d n) (id : Text) {q : Stamp}
    (stamped : Parses id q) (later : n < q.clock) where
  clock-ne : (y : Text) {p : Stamp} → Parses y p → p.clock ≤ n → (y === id) ≡ false
  clock-ne y {p} e older = elim (Bool-cases (y === id)) [
    | inr other ↦ other
    | inl same ↦
        let k : parse_id y ≡ some q = ap parse_id (===_sound y id same) ∙ stamped in
        let pq : p ≡ q = cc (e, k) in absurd (omega (arith, ap (λ (s : Stamp). s.clock) pq))
  ]

  sorts_first :
      (y : Text)
      → has d y ≡ true
      → (is_before (compare_sibling y id) ≡ false) × ((y === id) ≡ false)
  unfolding is_before
  sorts_first y h =
      let s : (p : Stamp) × Parses y p = stamp_of y (w.parsed y h) in
      let older : s.0.clock ≤ n = within y s.0 h s.1 in
      let first : compare_sibling id y ≡ Ordering.lt =
        compare_sibling-clock id y stamped s.1 (omega arith) in
      (rw (compare_sibling_unflip id y stamped s.1 first) refl, clock-ne y s.1 older)

  Newest-Shows : (after ch : Text) (f : Forest) → Shows d f → Newest (leaf id after ch) (flat f)
  unfolding flat
  Newest-Shows after ch nil s = tt
  Newest-Shows after ch (node y below rest) (here, children, hb, hr) = (
    sorts_first y.id (has-of-get d y.id here),
    All-append _ (flat below) (flat rest) (Newest-Shows after ch below hb)
        (Newest-Shows after ch rest hr),
  )

  flat-grown :
      (after ch : Text)
      → flat (grown after (leaf id after ch) w.forest)
        ≡ place after (leaf id after ch) (flat w.forest)
  unfolding place
  flat-grown after ch = elim (Bool-cases (after === [])) [
    | inl root ↦
        let e : after ≡ [] = ===_sound after [] root in
        rw root (
          flat-insert_tree after (leaf id after ch) w.forest
            (Newest-Shows after ch w.forest w.shown)
          ∙ ap (leaf id after ch ∷◌) (
              insert_after-absent after (leaf id after ch) (flat w.forest)
                (rw e (count-absent d w [] (no_root d w)))))
    | inr below ↦
        rw below
          (flat-graft after (leaf id after ch) w.forest (Newest-Shows after ch w.forest w.shown))
  ]

  -- The character stands right behind its parent in the walk.
  pub walk-add :
      (after ch : Text)
      → CanAdd d id after
      → walk (add d id after ch) [] ≡ place after (leaf id after ch) (walk d [])
  walk-add after ch can =
      walk-add-flat d w id after ch can
      ∙ flat-grown after ch
      ∙ ap (place after (leaf id after ch)) (sym (walk-flat d w))

  pub ClocksWithin-add : (after ch : Text) → ClocksWithin (add d id after ch) q.clock
  ClocksWithin-add after ch j p h e = elim (Bool-cases (id === j)) [
    | inl same ↦
        let k : some q ≡ some p = sym stamped ∙ ap parse_id (===_sound id j same) ∙ e in
        let qp : q ≡ p = cc k in omega (arith, ap (λ (s : Stamp). s.clock) qp)
    | inr other ↦
        let old : has d j ≡ true = ground (arith, has-add d id after ch j) in
        omega (arith, within j p old e)
  ]
