-- ===== src/Doc/View.antt =====
-- What the rest of the program can see of a document: its items and children by their keys.
use goclipboard.Common.{
  ℕ, zero, suc, ◌<◌, ◌≡◌, refl, ap, ap₂, sym, ◌∙◌, true, Option, none, some, List, [], ◌∷◌, ◌++◌,
  map, ltb, arith, All, Bool-cases, inl, inr,
}
use goclipboard.Text.{Text, ◌===◌, ===_refl, ===_sound}
use goclipboard.Dict.{get}
use goclipboard.CodePoints.Laws.{join}
use goclipboard.Doc.{Item, Doc, kids, len, has, parses, walk, walk_loop, materialize, visible}
use goclipboard.Doc.Forest.{Forest, nil, node, roots, flat, Shows, count, count-append}
use goclipboard.Doc.WellFormed.{IsWellFormed}
use goclipboard.Doc.Insert.{has-of-get}

pub record SameView (d e : Doc) : Type 0 where
  pub items : (id : Text) → get id d.items ≡ get id e.items
  pub children : (q : Text) → kids d q ≡ kids e q
  pub sizes : len d ≡ len e

walk_loop-SameView :
    (d e : Doc) (fuel : ℕ) (stack : List Text)
    → SameView d e
    → walk_loop fuel d stack ≡ walk_loop fuel e stack
unfolding walk_loop
walk_loop-SameView d e zero stack v = refl
walk_loop-SameView d e (suc fuel) [] v = refl
walk_loop-SameView d e (suc fuel) (id ∷ stack) v =
    ap₂
      (λ (o : Option Item) (k : List Item × (Item → List Item)). elim o as (λ x. List Item) [
        | none ↦ k.0
        | some item ↦ item ∷ k.1 item
      ])
      (v.items id)
      (λ i. (
        walk_loop-SameView d e fuel stack v i,
        (λ item.
            (walk_loop-SameView d e fuel (kids d id ++ stack) v
                ∙ ap (λ t. walk_loop fuel e (t ++ stack)) (v.children id))
              i),
      ))

pub walk-SameView : (d e : Doc) (q : Text) → SameView d e → walk d q ≡ walk e q
unfolding walk
walk-SameView d e q v =
    walk_loop-SameView d e (len d) (kids d q) v
    ∙ ap₂ (λ n t. walk_loop n e t) v.sizes (v.children q)

pub materialize-SameView : (d e : Doc) → SameView d e → materialize d ≡ materialize e
unfolding materialize
materialize-SameView d e v =
    ap (λ l. join (map (λ (y : Item). y.ch) (visible l))) (walk-SameView d e [] v)

-- The children of any parent parse.
abbrev pub Parsed : List Text → Type 0
Parsed = All (λ k. parses k ≡ true)

roots-Parsed : (d : Doc) (w : IsWellFormed d) (f : Forest) → Shows d f → Parsed (roots f)
unfolding roots
roots-Parsed d w nil s = tt
roots-Parsed d w (node y below rest) (here, children, hb, hr) =
    (w.parsed y.id (has-of-get d y.id here), roots-Parsed d w rest hr)

kids-Parsed_within :
    (d : Doc) (w : IsWellFormed d) (q : Text) (f : Forest)
    → Shows d f
    → 0 < count q (flat f)
    → Parsed (kids d q)
unfolding flat count
kids-Parsed_within d w q nil s h = absurd (omega arith)
kids-Parsed_within d w q (node y below rest) (here, children, hb, hr) h =
    elim (Bool-cases (y.id === q)) [
      | inl same ↦
          let e : kids d q ≡ roots below = ap (kids d) (sym (===_sound y.id q same)) ∙ children in
          rw e (roots-Parsed d w below hb)
      | inr other ↦ elim (Bool-cases (ltb 0 (count q (flat below)))) [
        | inl inside ↦ kids-Parsed_within d w q below hb (ground arith)
        | inr beside ↦
            kids-Parsed_within d w q rest hr
              (ground (arith, count-append q (flat below) (flat rest)))
      ]
    ]

pub kids-Parsed : (d : Doc) → IsWellFormed d → (q : Text) → Parsed (kids d q)
kids-Parsed d w q = elim (Bool-cases (q === [])) [
  | inl root ↦
      let e : kids d q ≡ roots w.forest = ap (kids d) (===_sound q [] root) ∙ w.top in
      rw e (roots-Parsed d w w.forest w.shown)
  | inr below ↦ elim (Bool-cases (has d q)) [
    | inl here ↦ kids-Parsed_within d w q w.forest w.shown (ground (arith, w.once q))
    | inr absent ↦
        let e : kids d q ≡ [] =
          w.no_kids q absent (λ r. cc (below, ap (λ t. t === []) r, ===_refl [])) in
        rw e tt
  ]
]
