-- ===== src/Doc/Sequence.antt =====
-- The items in walking order as a plain list, and what the operations do to it.
use goclipboard.Common.{
  ◌≡◌, refl, ap, true, false, List, [], ◌∷◌, ◌++◌, arith, if◌then◌else◌, All, Bool-cases, inl, inr,
  ◌∙◌,
}
use goclipboard.Text.{Text, ◌===◌}
use goclipboard.Ids.{compare_sibling}
use goclipboard.Doc.{Item, is_before}
use goclipboard.Doc.Forest.{Forest, nil, node, flat, insert_tree, graft, count}

-- `x` right behind every item with the identifier `p`.
unfoldable pub insert_after : Text → Item → List Item → List Item
insert_after p x [] = []
insert_after p x (y ∷ ys) =
    if y.id === p then y ∷ x ∷ insert_after p x ys else y ∷ insert_after p x ys

-- At the start, if `p` is the empty text.
unfoldable pub place : Text → Item → List Item → List Item
place p x l = if p === [] then x ∷ l else insert_after p x l

unfoldable pub marked : Text → Item → Item
marked id y = if y.id === id then record y { del = true } else y

unfoldable pub mark_all : Text → List Item → List Item
unfolding marked
mark_all id [] = []
mark_all id (y ∷ ys) = marked id y ∷ mark_all id ys

-- `x` sorts before every item of the list.
abbrev pub Newest : Item → List Item → Type 0
Newest x =
    All λ (y : Item). (is_before (compare_sibling y.id x.id) ≡ false) × ((y.id === x.id) ≡ false)

pub insert_after-append :
    (p : Text) (x : Item) (l m : List Item)
    → insert_after p x (l ++ m) ≡ insert_after p x l ++ insert_after p x m
unfolding insert_after
insert_after-append p x [] m = refl
insert_after-append p x (y ∷ l) m = ground (arith, insert_after-append p x l m)

pub insert_after-absent :
    (p : Text) (x : Item) (l : List Item) → count p l ≡ 0 → insert_after p x l ≡ l
unfolding insert_after count
insert_after-absent p x [] h = refl
insert_after-absent p x (y ∷ l) h = ground (arith, insert_after-absent p x l)

All-left {ℓ κ} : {A : Type ℓ} (P : A → Type κ) (l m : List A) → All P (l ++ m) → All P l
All-left P [] m h = tt
All-left P (x ∷ l) m h = (h.0, All-left P l m h.1)

All-right {ℓ κ} : {A : Type ℓ} (P : A → Type κ) (l m : List A) → All P (l ++ m) → All P m
All-right P [] m h = h
All-right P (x ∷ l) m h = All-right P l m h.1

-- A leaf that sorts first stands right behind its parent.
flat-insert_tree-graft :
    (p : Text) (x : Item) (f : Forest)
    → Newest x (flat f)
    → flat (insert_tree x (graft p x f)) ≡ x ∷ flat (graft p x f)
unfolding insert_tree flat graft
flat-insert_tree-graft p x nil h = refl
flat-insert_tree-graft p x (node y below rest) h = rw (h.0.0, h.0.1)

pub flat-graft :
    (p : Text) (x : Item) (f : Forest)
    → Newest x (flat f)
    → flat (graft p x f) ≡ insert_after p x (flat f)
unfolding flat graft insert_after
flat-graft p x nil h = refl
flat-graft p x (node y below rest) h = elim (Bool-cases (y.id === p)) [
  | inl here ↦ rw (
    here,
    flat-insert_tree-graft p x below (All-left _ (flat below) (flat rest) h.1),
    flat-graft p x below (All-left _ (flat below) (flat rest) h.1),
    flat-graft p x rest (All-right _ (flat below) (flat rest) h.1),
    insert_after-append p x (flat below) (flat rest),
  )
  | inr other ↦ rw (
    other,
    flat-graft p x below (All-left _ (flat below) (flat rest) h.1),
    flat-graft p x rest (All-right _ (flat below) (flat rest) h.1),
    insert_after-append p x (flat below) (flat rest),
  )
]

pub flat-insert_tree :
    (p : Text) (x : Item) (f : Forest)
    → Newest x (flat f)
    → flat (insert_tree x (graft p x f)) ≡ x ∷ insert_after p x (flat f)
flat-insert_tree p x f h = flat-insert_tree-graft p x f h ∙ ap (x ∷◌) (flat-graft p x f h)
