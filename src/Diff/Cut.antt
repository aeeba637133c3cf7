-- ===== src/Diff/Cut.antt =====
-- Cutting the walk of a document, and the lists of identifiers, where the visible text is cut.
use goclipboard.Common.{
  ℕ, zero, suc, ◌-◌, ◌≡◌, refl, ap, ap₂, sym, ◌∙◌, inl, inr, true, false, List, [], ◌∷◌, ◌++◌, map,
  arith, if◌then◌else◌, length, ltb, Bool-cases,
}
use goclipboard.Text.{Text}
use goclipboard.Doc.{Item, visible}
use goclipboard.Diff.{at, ids_from}
use goclipboard.Diff.Run.{Ends, ids_of}

-- The identifier of the last item; the empty text where there is none.
pub last_id : List Item → Text
last_id [] = []
last_id (y ∷ []) = y.id
last_id (y ∷ z ∷ l) = last_id (z ∷ l)

pub visible-append : (l m : List Item) → visible (l ++ m) ≡ visible l ++ visible m
visible-append [] m = refl
visible-append (y ∷ l) m = ground (arith, visible-append l m)

visible-live : (y : Item) (l : List Item) → y.del ≡ false → visible (y ∷ l) ≡ y ∷ visible l
visible-live y l h = rw h

visible-dead : (y : Item) (l : List Item) → y.del ≡ true → visible (y ∷ l) ≡ visible l
visible-dead y l h = rw h

record Cut (l : List Item) (p : List Item) (s : List Item) : Type 0 where
  front : List Item
  last : Item
  rest : List Item
  whole : l ≡ (front ++ last ∷ []) ++ rest
  before : visible (front ++ last ∷ []) ≡ p
  behind : visible rest ≡ s
  named : last.id ≡ last_id p

cut : (l : List Item) (p : Item) (ps s : List Item) → visible l ≡ p ∷ (ps ++ s) → Cut l (p ∷ ps) s
unfolding last_id
cut [] p ps s h = cc
cut (y ∷ l) p ps s h = elim (Bool-cases y.del) [
  | inl dead ↦
      let c = cut l p ps s (sym (visible-dead y l dead) ∙ h) in
      record {
        front = y ∷ c.front;
        last = c.last;
        rest = c.rest;
        whole = ap (y ∷◌) c.whole;
        before = visible-dead y (c.front ++ c.last ∷ []) dead ∙ c.before;
        behind = c.behind;
        named = c.named;
      }
  | inr live ↦
      let both : y ∷ visible l ≡ p ∷ (ps ++ s) = sym (visible-live y l live) ∙ h in
      let here : y ≡ p = cc both in
      let there : visible l ≡ ps ++ s = cc both in go ps there here live (λ q qs. cut l q qs s)
]
  where
    go :
        (ps : List Item)
        → visible l ≡ ps ++ s
        → y ≡ p
        → y.del ≡ false
        → ((q : Item) (qs : List Item) → visible l ≡ q ∷ (qs ++ s) → Cut l (q ∷ qs) s)
        → Cut (y ∷ l) (p ∷ ps) s
    go [] there here live more = record {
      front = [];
      last = y;
      rest = l;
      whole = refl;
      before = visible-live y [] live ∙ ap (λ z. z ∷ []) here;
      behind = there;
      named = ap (λ (z : Item). z.id) here;
    }
    go (q ∷ qs) there here live more =
        let c = more q qs there in
        record {
          front = y ∷ c.front;
          last = c.last;
          rest = c.rest;
          whole = ap (y ∷◌) c.whole;
          before =
              visible-live y (c.front ++ c.last ∷ []) live ∙ ap₂ (λ z zs. z ∷ zs) here c.before;
          behind = c.behind;
          named = c.named;
        }

-- The walk is cut behind the last item of the visible front.
pub cut-Ends :
    (l p s : List Item)
    → visible l ≡ p ++ s
    → (a : List Item) × (b : List Item) × (l ≡ a ++ b)
      × (visible a ≡ p)
      × (visible b ≡ s)
      × Ends (last_id p) a
unfolding last_id
cut-Ends l [] s h = ([], l, refl, refl, h, inl (refl, refl))
cut-Ends l (p ∷ ps) s h =
    let c = cut l p ps s h in
    (
      c.front ++ c.last ∷ [],
      c.rest,
      c.whole,
      c.before,
      c.behind,
      inr (c.front, c.last, refl, c.named),
    )

pub map-split {ℓ κ} :
    {A : Type ℓ} {B : Type κ} (f : A → B) (l : List A) (xs ys : List B)
    → map f l ≡ xs ++ ys
    → (a : List A) × (b : List A) × (l ≡ a ++ b) × (map f a ≡ xs) × (map f b ≡ ys)
map-split f l [] ys h = ([], l, refl, refl, h)
map-split f [] (x ∷ xs) ys h = cc
map-split f (y ∷ l) (x ∷ xs) ys h =
    let r = map-split f l xs ys (cc h) in
    (y ∷ r.0, r.1, ap (y ∷◌) r.2, ap₂ (λ z zs. z ∷ zs) (cc h) r.3, r.4)

ids_from-cons :
    (n i : ℕ) (x : Text) (xs : List Text) → ids_from n (suc i) (x ∷ xs) ≡ ids_from n i xs
unfolding ids_from
ids_from-cons zero i x xs = refl
ids_from-cons (suc n) i x xs = ap (◌∷◌ (at xs i)) (ids_from-cons n (suc i) x xs)

pub ids_from-middle :
    (p m s : List Item) → ids_from (length m) (length p) (ids_of (p ++ (m ++ s))) ≡ ids_of m
unfolding ids_from
ids_from-middle [] [] s = refl
ids_from-middle [] (y ∷ m) s =
    ap (◌∷◌ y.id) (ids_from-cons (length m) 0 y.id (ids_of (m ++ s)) ∙ ids_from-middle [] m s)
ids_from-middle (x ∷ p) m s =
    ids_from-cons (length m) (length p) x.id (ids_of (p ++ (m ++ s))) ∙ ids_from-middle p m s

at-last_id : (y : Item) (p r : List Item) → at (ids_of ((y ∷ p) ++ r)) (length p) ≡ last_id (y ∷ p)
unfolding at last_id
at-last_id y [] r = refl
at-last_id y (z ∷ p) r = at-last_id z p r

-- What `diffToOps` takes for the parent of the first insertion.
pub parent_eq :
    (p r : List Item)
    → (if ltb 0 (length p) then at (ids_of (p ++ r)) (length p - 1) else []) ≡ last_id p
unfolding last_id
parent_eq [] r = refl
parent_eq (y ∷ p) r =
    let k : suc (length p) - 1 ≡ length p = omega arith in
    ground (arith, at-last_id y p r, ap (at (ids_of ((y ∷ p) ++ r))) k)
