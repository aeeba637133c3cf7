-- ===== src/Doc/Forest.antt =====
-- The trees that a document stands for, and its walk as their depth-first order.
use goclipboard.Common.{
  ℕ, zero, suc, ◌+◌, ◌≤◌, ◌≡◌, refl, ap, sym, some, List, [], ◌∷◌, ◌++◌, append_assoc, arith,
  if◌then◌else◌, length, length-append, Bool-cases, inl, inr, ◌∙◌,
}
use goclipboard.Text.{Text, ◌===◌}
use goclipboard.Dict.{get}
use goclipboard.Ids.{compare_sibling}
use goclipboard.Doc.{Item, Doc, kids, is_before, insert_sorted, walk_loop}

-- A node with the trees below it, and its later siblings.
pub data Forest : Type 0 where
  nil : Forest
  node : Item → Forest → Forest → Forest

unfoldable pub roots : Forest → List Text
roots nil = []
roots (node x below rest) = x.id ∷ roots rest

unfoldable pub flat : Forest → List Item
flat nil = []
flat (node x below rest) = x ∷ flat below ++ flat rest

-- The nodes are items of the document, and the trees below a node its children.
abbrev pub Shows : Doc → Forest → Type 0
Shows d nil = Unit {0}
Shows d (node x below rest) =
    (get x.id d.items ≡ some x) × (kids d x.id ≡ roots below) × Shows d below × Shows d rest

unfoldable pub insert_tree : Item → Forest → Forest
insert_tree x nil = node x nil nil
insert_tree x (node y below rest) =
    if is_before (compare_sibling y.id x.id)
    then node y below (insert_tree x rest)
    else if y.id === x.id
    then node y below rest
    else node x nil (node y below rest)

-- A new leaf below every node with the identifier `p`.
unfoldable pub graft : Text → Item → Forest → Forest
graft p x nil = nil
graft p x (node y below rest) =
    node y (if y.id === p then insert_tree x (graft p x below) else graft p x below)
      (graft p x rest)

-- How often an identifier stands in a list of items.
unfoldable pub count : Text → List Item → ℕ
count id [] = 0
count id (x ∷ xs) = (if x.id === id then 1 else 0) + count id xs

pub count-append : (id : Text) (xs ys : List Item) → count id (xs ++ ys) ≡ count id xs + count id ys
unfolding count
count-append id [] ys = omega arith
count-append id (x ∷ xs) ys = omega (arith, count-append id xs ys)

pub roots-insert_tree :
    (x : Item) (f : Forest) → roots (insert_tree x f) ≡ insert_sorted x.id (roots f)
unfolding roots insert_tree insert_sorted
roots-insert_tree x nil = refl
roots-insert_tree x (node y below rest) = ground (arith, roots-insert_tree x rest)

pub roots-graft : (p : Text) (x : Item) (f : Forest) → roots (graft p x f) ≡ roots f
unfolding roots graft
roots-graft p x nil = refl
roots-graft p x (node y below rest) = ap (◌∷◌ y.id) (roots-graft p x rest)

walk_loop-some :
    (d : Doc) (fuel : ℕ) (id : Text) (stack : List Text) {item : Item}
    → get id d.items ≡ some item
    → walk_loop (suc fuel) d (id ∷ stack) ≡ item ∷ walk_loop fuel d (kids d id ++ stack)
unfolding walk_loop
walk_loop-some d fuel id stack h = ground arith

-- The walk of a stack of trees visits the trees in depth-first order.
pub walk_loop-Shows :
    (d : Doc) (f : Forest) (fuel n : ℕ) (stack : List Text)
    → Shows d f
    → fuel ≡ length (flat f) + n
    → walk_loop fuel d (roots f ++ stack) ≡ flat f ++ walk_loop n d stack
unfolding flat roots
walk_loop-Shows d nil fuel n stack h e = let e' : fuel ≡ n = omega arith in rw e'
walk_loop-Shows d (node x below rest) zero n stack h e = absurd (omega arith)
walk_loop-Shows d (node x below rest) (suc fuel) n stack (found, children, hb, hr) e =
    walk_loop-some d fuel x.id (roots rest ++ stack) found
    ∙ ap (λ t. x ∷ walk_loop fuel d (t ++ (roots rest ++ stack))) children
    ∙ ap (◌∷◌ x) (
        walk_loop-Shows d below fuel (length (flat rest) + n) (roots rest ++ stack) hb
          (omega (arith, length-append (flat below) (flat rest)))
        ∙ ap (λ t. flat below ++ t)
            (walk_loop-Shows d rest (length (flat rest) + n) n stack hr refl)
        ∙ sym (append_assoc (flat below) (flat rest) (walk_loop n d stack)))

-- One more node for each node with the parent's identifier.
pub count-insert_tree :
    (id : Text) (x : Item) (f : Forest)
    → count x.id (flat f) ≡ 0
    → count id (flat (insert_tree x f)) ≡ (if x.id === id then 1 else 0) + count id (flat f)
unfolding insert_tree flat count
count-insert_tree id x nil h = omega arith
count-insert_tree id x (node y below rest) h = ground (
  arith,
  count-insert_tree id x rest,
  count-append id (flat below) (flat rest),
  count-append x.id (flat below) (flat rest),
  count-append id (flat below) (flat (insert_tree x rest)),
)

count-nil : (id : Text) → count id (flat nil) ≡ 0
unfolding count flat
count-nil id = refl

-- Counting the nodes of a forest whose first tree has the top `y`.
count-node :
    (id : Text) (y : Item) (f g : Forest)
    → count id (flat (node y f g))
      ≡ (if y.id === id then 1 else 0) + count id (flat f) + count id (flat g)
unfolding flat count
count-node id y f g = omega (arith, count-append id (flat f) (flat g))

pub count-graft :
    (p id : Text) (x : Item) (f : Forest)
    → count x.id (flat f) ≡ 0
    → count p (flat f) ≤ 1
    → count id (flat (graft p x f))
      ≡ count id (flat f) + (if x.id === id then count p (flat f) else 0)
unfolding graft
count-graft p id x nil h u = ground (arith, count-nil id, count-nil p)
count-graft p id x (node y below rest) h u = elim (Bool-cases (y.id === p)) [
  | inl here ↦ rw here (
      ground (
        arith,
        count-node id y below rest,
        count-node x.id y below rest,
        count-node p y below rest,
        count-node id y (insert_tree x (graft p x below)) (graft p x rest),
        count-insert_tree id x (graft p x below),
        count-graft p x.id x below,
        count-graft p id x below,
        count-graft p id x rest,
      ))
  | inr other ↦ rw other (
      ground (
        arith,
        count-node id y below rest,
        count-node x.id y below rest,
        count-node p y below rest,
        count-node id y (graft p x below) (graft p x rest),
        count-graft p id x below,
        count-graft p id x rest,
      ))
]

length-nil : length (flat nil) ≡ 0
unfolding flat
length-nil = refl

length-node :
    (y : Item) (f g : Forest) → length (flat (node y f g)) ≡ suc (length (flat f) + length (flat g))
unfolding flat
length-node y f g = omega (arith, length-append (flat f) (flat g))

pub length-insert_tree :
    (x : Item) (f : Forest)
    → count x.id (flat f) ≡ 0
    → length (flat (insert_tree x f)) ≡ suc (length (flat f))
unfolding insert_tree
length-insert_tree x nil h = omega (arith, length-node x nil nil, length-nil)
length-insert_tree x (node y below rest) h = ground (
  arith,
  count-node x.id y below rest,
  length-insert_tree x rest,
  length-node y below rest,
  length-node y below (insert_tree x rest),
  length-node x nil (node y below rest),
  length-nil,
)

pub length-graft :
    (p : Text) (x : Item) (f : Forest)
    → count x.id (flat f) ≡ 0
    → count p (flat f) ≤ 1
    → length (flat (graft p x f)) ≡ length (flat f) + count p (flat f)
unfolding graft
length-graft p x nil h u = omega (arith, count-nil p)
length-graft p x (node y below rest) h u = elim (Bool-cases (y.id === p)) [
  | inl here ↦ rw here (
      ground (
        arith,
        count-node x.id y below rest,
        count-node p y below rest,
        length-node y below rest,
        length-node y (insert_tree x (graft p x below)) (graft p x rest),
        length-insert_tree x (graft p x below),
        count-graft p x.id x below,
        length-graft p x below,
        length-graft p x rest,
      ))
  | inr other ↦ rw other (
      ground (
        arith,
        count-node x.id y below rest,
        count-node p y below rest,
        length-node y below rest,
        length-node y (graft p x below) (graft p x rest),
        length-graft p x below,
        length-graft p x rest,
      ))
]
