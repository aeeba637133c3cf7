-- ===== src/Doc/Delete.antt =====
-- `delete` marks the item of a well-formed document and leaves the trees as they are.
use goclipboard.Common.{
  ◌≡◌, refl, ap, sym, true, false, none, some, List, [], ◌∷◌, ◌++◌, arith, if◌then◌else◌, length,
  Bool-cases, Option-cases, inl, inr, ◌∙◌,
}
use goclipboard.Text.{Text, ◌===◌, ===_iff}
use goclipboard.Dict.{get, set, get-set, keys-set_old}
use goclipboard.Doc.{Item, Doc, kids, len, has, delete, walk}
use goclipboard.Doc.Forest.{Forest, nil, node, roots, flat, Shows, count}
use goclipboard.Doc.Sequence.{marked, mark_all}
use goclipboard.Doc.Insert.{count-absent}
use goclipboard.Doc.WellFormed.{IsWellFormed, walk-flat}

mark_tree : Text → Forest → Forest
mark_tree id nil = nil
mark_tree id (node y below rest) = node (marked id y) (mark_tree id below) (mark_tree id rest)

marked-id : (id : Text) (y : Item) → (marked id y).id ≡ y.id
unfolding marked
marked-id id y = ground arith

roots-mark_tree : (id : Text) (f : Forest) → roots (mark_tree id f) ≡ roots f
unfolding roots mark_tree
roots-mark_tree id nil = refl
roots-mark_tree id (node y below rest) = rw (marked-id id y, roots-mark_tree id rest)

mark_all-append :
    (id : Text) (l m : List Item) → mark_all id (l ++ m) ≡ mark_all id l ++ mark_all id m
unfolding mark_all
mark_all-append id [] m = refl
mark_all-append id (y ∷ l) m = ap (◌∷◌ (marked id y)) (mark_all-append id l m)

flat-mark_tree : (id : Text) (f : Forest) → flat (mark_tree id f) ≡ mark_all id (flat f)
unfolding flat mark_tree mark_all
flat-mark_tree id nil = refl
flat-mark_tree id (node y below rest) =
    rw (flat-mark_tree id below, flat-mark_tree id rest, mark_all-append)

count-mark_all : (j id : Text) (l : List Item) → count j (mark_all id l) ≡ count j l
unfolding count mark_all
count-mark_all j id [] = refl
count-mark_all j id (y ∷ l) = rw (marked-id id y, count-mark_all j id l)

length-mark_all : (id : Text) (l : List Item) → length (mark_all id l) ≡ length l
unfolding mark_all
length-mark_all id [] = refl
length-mark_all id (y ∷ l) = rw (length-mark_all id l)

module _ (d : Doc) (id : Text) (item : Item) (found : get id d.items ≡ some item) where
  abbrev dead : Item
  dead = record item { del = true }

  abbrev marked_doc : Doc
  marked_doc = record d { items = set id dead d.items }

  get-marked_doc :
      (j : Text) → get j marked_doc.items ≡ (if id === j then some dead else get j d.items)
  get-marked_doc j = get-set j id dead d.items

  has-marked_doc : (j : Text) → has marked_doc j ≡ has d j
  unfolding has
  has-marked_doc j = ground (arith, get-marked_doc j, found, ===_iff id j)

  get-marked :
      (y : Item)
      → get y.id d.items ≡ some y
      → get (marked id y).id marked_doc.items ≡ some (marked id y)
  unfolding marked
  get-marked y h = ground (arith, get-marked_doc y.id, found, h, ===_iff id y.id, ===_iff y.id id)

  Shows-marked : (f : Forest) → Shows d f → Shows marked_doc (mark_tree id f)
  unfolding mark_tree kids
  Shows-marked nil s = tt
  Shows-marked (node y below rest) (here, children, hb, hr) = (
    get-marked y here,
    ap (kids d) (marked-id id y) ∙ children ∙ sym (roots-mark_tree id below),
    Shows-marked below hb,
    Shows-marked rest hr,
  )

  marked_doc-IsWellFormed : IsWellFormed d → IsWellFormed marked_doc
  unfolding len kids
  marked_doc-IsWellFormed w = record {
    forest = mark_tree id w.forest;
    top = w.top ∙ sym (roots-mark_tree id w.forest);
    shown = Shows-marked w.forest w.shown;
    once = λ j.
        rw (flat-mark_tree id w.forest, count-mark_all j id (flat w.forest), has-marked_doc j)
          (w.once j);
    size =
        ap length (flat-mark_tree id w.forest)
        ∙ length-mark_all id (flat w.forest)
        ∙ w.size
        ∙ ap length (sym (keys-set_old id dead item d.items found));
    no_kids = λ j h n. w.no_kids j (rw has-marked_doc at h) n;
    parsed = λ j h. w.parsed j (rw has-marked_doc at h);
  }

  walk-marked_doc : IsWellFormed d → walk marked_doc [] ≡ mark_all id (walk d [])
  unfolding marked_doc-IsWellFormed
  walk-marked_doc w =
      walk-flat marked_doc (marked_doc-IsWellFormed w)
      ∙ flat-mark_tree id w.forest
      ∙ ap (mark_all id) (sym (walk-flat d w))

  marked-gone : item.del ≡ true → (y : Item) → get y.id d.items ≡ some y → marked id y ≡ y
  unfolding marked
  marked-gone gone y here = ground (arith, gone, found, here, ===_iff y.id id)

  -- A second mark changes nothing.
  mark_all-Shows : item.del ≡ true → (f : Forest) → Shows d f → mark_all id (flat f) ≡ flat f
  unfolding flat mark_all
  mark_all-Shows gone nil s = refl
  mark_all-Shows gone (node y below rest) (here, children, hb, hr) =
      rw
        (
          mark_all-append id (flat below) (flat rest),
          mark_all-Shows gone below hb,
          mark_all-Shows gone rest hr,
        )
        (ap (λ z. z ∷ flat below ++ flat rest) (marked-gone gone y here))

has-of-none : (d : Doc) (id : Text) → get id d.items ≡ none → has d id ≡ false
unfolding has
has-of-none d id h = ground arith

mark_all-absent : (id : Text) (l : List Item) → count id l ≡ 0 → mark_all id l ≡ l
unfolding mark_all count
mark_all-absent id [] h = refl
mark_all-absent id (y ∷ l) h = ground (arith, mark_all-absent id l)

-- Deletion keeps the document well formed.
pub delete-IsWellFormed : (d : Doc) (id : Text) → IsWellFormed d → IsWellFormed (delete d id).0
unfolding delete
delete-IsWellFormed d id w = elim (Option-cases (get id d.items)) [
  | inl absent ↦ rw absent w
  | inr (item, found) ↦ elim (Bool-cases item.del) [
    | inl gone ↦ rw (found, gone) w
    | inr there ↦ rw (found, there) (marked_doc-IsWellFormed d id item found w)
  ]
]

-- In the walking order of a well-formed document, a deletion marks exactly the item with the
-- identifier, and nothing moves.
pub walk-delete :
    (d : Doc) (id : Text) → IsWellFormed d → walk (delete d id).0 [] ≡ mark_all id (walk d [])
unfolding delete
walk-delete d id w = elim (Option-cases (get id d.items)) [
  | inl absent ↦
      rw (absent, walk-flat d w)
        (sym (mark_all-absent id (flat w.forest) (count-absent d w id (has-of-none d id absent))))
  | inr (item, found) ↦ elim (Bool-cases item.del) [
    | inl gone ↦
        rw (found, gone, walk-flat d w) (sym (mark_all-Shows d id item found gone w.forest w.shown))
    | inr there ↦ rw (found, there) (walk-marked_doc d id item found w)
  ]
]

pub has-delete : (d : Doc) (id j : Text) → has (delete d id).0 j ≡ has d j
unfolding delete
has-delete d id j = elim (Option-cases (get id d.items)) [
  | inl absent ↦ rw absent
  | inr (item, found) ↦ elim (Bool-cases item.del) [
    | inl gone ↦ rw (found, gone)
    | inr there ↦ rw (found, there) (has-marked_doc d id item found j)
  ]
]
