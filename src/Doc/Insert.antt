-- ===== src/Doc/Insert.antt =====
-- `insert` grafts a leaf onto the trees of a well-formed document.
use goclipboard.Common.{
  suc, ◌+◌, ◌≤◌, ◌≡◌, refl, ap, sym, ◌≢◌, Bool, true, false, none, some, [], ◌∷◌, arith,
  if◌then◌else◌, length, Bool-cases, inl, inr, ◌∙◌, length-append,
}
use goclipboard.Ids.{compare_sibling, parse_id, index_of_colon}
use goclipboard.Text.{Text, ◌===◌, ===_iff, ===_refl, ===_sound}
use goclipboard.Dict.{get, get-set, keys, keys-set_new}
use goclipboard.Doc.{
  Item, Doc, is_before, kids, len, has, parses, add, walk, insert_sorted, insert_child,
}
use goclipboard.Doc.Forest.{
  Forest, nil, node, roots, flat, Shows, insert_tree, graft, count, count-insert_tree, count-graft,
  length-insert_tree, length-graft, roots-insert_tree, roots-graft,
}
use goclipboard.Doc.WellFormed.{IsWellFormed, walk-flat}

abbrev pub leaf : Text → Text → Text → Item
leaf id after ch = record { id = id; after = after; ch = ch; del = false }

-- What the two writes change.
pub get-add :
    (d : Doc) (id after ch j : Text)
    → get j (add d id after ch).items
      ≡ (if id === j then some (leaf id after ch) else get j d.items)
unfolding add insert_child
get-add d id after ch j = get-set j id (leaf id after ch) d.items

pub kids-add :
    (d : Doc) (id after ch q : Text)
    → kids (add d id after ch) q
      ≡ (if after === q then insert_sorted id (kids d after) else kids d q)
unfolding add insert_child kids
kids-add d id after ch q =
    ground (arith, get-set q after (insert_sorted id (kids d after)) d.children)

pub has-add :
    (d : Doc) (id after ch j : Text)
    → has (add d id after ch) j ≡ (if id === j then true else has d j)
unfolding has
has-add d id after ch j = ground (arith, get-add d id after ch j)

get-of-not-has : (d : Doc) (id : Text) → has d id ≡ false → get id d.items ≡ none
unfolding has
get-of-not-has d id h = ground arith

pub has-of-get : (d : Doc) (id : Text) {x : Item} → get id d.items ≡ some x → has d id ≡ true
unfolding has
has-of-get d id h = ground arith

module _ (d : Doc) (id after ch : Text) where
  abbrev new_doc : Doc
  new_doc = add d id after ch

  abbrev new_item : Item
  new_item = leaf id after ch

  Shows-insert_tree :
      (f : Forest) → kids new_doc id ≡ [] → Shows new_doc f → Shows new_doc (insert_tree new_item f)
  unfolding insert_tree roots
  Shows-insert_tree nil k s = (rw (get-add d id after ch id, ===_refl id), k, tt, tt)
  Shows-insert_tree (node y below rest) k s =
      elim (Bool-cases (is_before (compare_sibling y.id id))) [
        | inl before ↦ rw before (s.0, s.1, s.2, Shows-insert_tree rest k s.3)
        | inr behind ↦ elim (Bool-cases (y.id === id)) [
          | inl same ↦ rw (behind, same) s
          | inr other ↦ rw (behind, other) (rw (get-add d id after ch id, ===_refl id), k, tt, s)
        ]
      ]

  kids-graft :
      (y : Item) (below : Forest)
      → kids d y.id ≡ roots below
      → kids new_doc y.id
        ≡ roots (
            if y.id === after
            then insert_tree new_item (graft after new_item below)
            else graft after new_item below)
  kids-graft y below h = elim (Bool-cases (y.id === after)) [
    | inl here ↦
        let e : y.id ≡ after = ===_sound y.id after here in
        let t : (after === y.id) ≡ true = rw e (===_refl after) in
        rw here (
          kids-add d id after ch y.id
          ∙ (rw t refl)
          ∙ ap (λ q. insert_sorted id (kids d q)) (sym e)
          ∙ ap (insert_sorted id) (h ∙ sym (roots-graft after new_item below))
          ∙ sym (roots-insert_tree new_item (graft after new_item below)))
    | inr other ↦
        let e : (after === y.id) ≡ false = ground (arith, ===_iff after y.id, ===_iff y.id after) in
        rw (other, kids-add d id after ch y.id, e, h) (sym (roots-graft after new_item below))
  ]

  Shows-if :
      (b : Bool) (f : Forest)
      → kids new_doc id ≡ []
      → Shows new_doc f
      → Shows new_doc (if b then insert_tree new_item f else f)
  Shows-if true f k s = Shows-insert_tree f k s
  Shows-if false f k s = s

  Shows-graft :
      (f : Forest)
      → has d id ≡ false
      → kids new_doc id ≡ []
      → Shows d f
      → Shows new_doc (graft after new_item f)
  unfolding graft
  Shows-graft nil h k s = tt
  Shows-graft (node y below rest) h k (found, children, hb, hr) =
      let other : (id === y.id) ≡ false =
        ground (arith, has-of-get d y.id found, ===_iff id y.id) in
      (
        rw (get-add d id after ch y.id, other) found,
        kids-graft y below children,
        Shows-if (y.id === after) (graft after new_item below) k (Shows-graft below h k hb),
        Shows-graft rest h k hr,
      )

-- The trees behind an insertion.
abbrev pub grown : Text → Item → Forest → Forest
grown after x f = if after === [] then insert_tree x (graft after x f) else graft after x f

parse_nil : parse_id [] ≡ none
unfolding parse_id index_of_colon
parse_nil = refl

-- What `insert` has checked before it writes.
pub record CanAdd (d : Doc) (id after : Text) : Type 0 where
  pub fresh : has d id ≡ false
  pub valid : parses id ≡ true
  pub parent : (after === []) ≡ false → has d after ≡ true

-- An identifier stands at most once.
module _ (d : Doc) (w : IsWellFormed d) where
  open w use {forest, once}

  pub count-le-one : (id : Text) → count id (flat forest) ≤ 1
  count-le-one id = ground (arith, once id)

  pub count-absent : (id : Text) → has d id ≡ false → count id (flat forest) ≡ 0
  count-absent id h = ground (arith, once id)

  pub no_root : has d [] ≡ false
  unfolding parses
  no_root = elim (Bool-cases (has d [])) [ inl h ↦ cc (w.parsed [] h, parse_nil) | inr h ↦ h ]

  module _ (id after ch : Text) (can : CanAdd d id after) where
    abbrev item : Item
    item = leaf id after ch

    count-parent : count after (flat forest) ≡ (if after === [] then 0 else 1)
    count-parent = elim (Bool-cases (after === [])) [
      | inl root ↦
          let e : after ≡ [] = ===_sound after [] root in rw root (rw e (count-absent [] no_root))
      | inr below ↦ rw below (ground (arith, once after, can.parent below))
    ]

    absent : count id (flat forest) ≡ 0
    absent = count-absent id can.fresh

    pub count-grown :
        (j : Text)
        → count j (flat (grown after item forest))
          ≡ (if id === j then 1 else 0) + count j (flat forest)
    count-grown j = elim (Bool-cases (after === [])) [
      | inl root ↦ rw root (
          ground (
            arith,
            root,
            absent,
            count-parent,
            count-insert_tree j item (graft after item forest),
            count-graft after id item forest,
            count-graft after j item forest,
          ))
      | inr below ↦
          rw below (ground (arith, below, absent, count-parent, count-graft after j item forest))
    ]

    pub length-grown : length (flat (grown after item forest)) ≡ suc (length (flat forest))
    length-grown = elim (Bool-cases (after === [])) [
      | inl root ↦ rw root (
          ground (
            arith,
            root,
            absent,
            count-parent,
            length-insert_tree item (graft after item forest),
            count-graft after id item forest,
            length-graft after item forest,
          ))
      | inr below ↦
          rw below (ground (arith, below, absent, count-parent, length-graft after item forest))
    ]

    id-ne-nil : id ≢ []
    unfolding parses
    id-ne-nil e = let v : parses [] ≡ true = rw e at can.valid in cc (v, parse_nil)

    other_parent : (after === id) ≡ false
    other_parent = elim (Bool-cases (after === id)) [
      | inl same ↦ absurd (self_parent (===_sound after id same))
      | inr other ↦ other
    ]
      where
        self_parent : ¬ (after ≡ id)
        self_parent e = elim (Bool-cases (after === [])) [
          | inl root ↦ id-ne-nil (sym e ∙ ===_sound after [] root)
          | inr below ↦ cc (can.parent below, can.fresh, ap (has d) e)
        ]

    kids-new : kids (add d id after ch) id ≡ []
    kids-new = rw (kids-add d id after ch id, other_parent) (w.no_kids id can.fresh id-ne-nil)

    Shows-grown : Shows (add d id after ch) (grown after item forest)
    Shows-grown =
        Shows-if d id after ch (after === []) (graft after item forest) kids-new
          (Shows-graft d id after ch forest can.fresh kids-new w.shown)

    top-grown : kids (add d id after ch) [] ≡ roots (grown after item forest)
    top-grown = elim (Bool-cases (after === [])) [
      | inl root ↦ rw root (
          kids-add d id after ch []
          ∙ (rw root refl)
          ∙ ap (λ q. insert_sorted id (kids d q)) (===_sound after [] root)
          ∙ ap (insert_sorted id) (w.top ∙ sym (roots-graft after item forest))
          ∙ sym (roots-insert_tree item (graft after item forest)))
      | inr below ↦ rw below (
          kids-add d id after ch [] ∙ (rw below refl) ∙ w.top ∙ sym (roots-graft after item forest))
    ]

    pub len-add : len (add d id after ch) ≡ suc (len d)
    unfolding len add insert_child
    len-add =
        ap length (keys-set_new id item d.items (get-of-not-has d id can.fresh))
        ∙ omega (arith, length-append (keys d.items) (id ∷ []))

    no_kids-add :
        (j : Text) → has (add d id after ch) j ≡ false → j ≢ [] → kids (add d id after ch) j ≡ []
    no_kids-add j h n =
        let old : has d j ≡ false = ground (arith, has-add d id after ch j) in
        let apart : (after === j) ≡ false = not_parent j old n in
        rw (kids-add d id after ch j, apart) (w.no_kids j old n)
      where
        not_parent : (j : Text) → has d j ≡ false → j ≢ [] → (after === j) ≡ false
        not_parent j old n = elim (Bool-cases (after === j)) [
          | inr other ↦ other
          | inl same ↦
              let e : after ≡ j = ===_sound after j same in
              elim (Bool-cases (after === [])) [
                | inl root ↦ absurd (n (sym e ∙ ===_sound after [] root))
                | inr below ↦ cc (can.parent below, old, ap (has d) e)
              ]
        ]

    parsed-add : (j : Text) → has (add d id after ch) j ≡ true → parses j ≡ true
    parsed-add j h = elim (Bool-cases (id === j)) [
      | inl same ↦ ap parses (sym (===_sound id j same)) ∙ can.valid
      | inr other ↦ w.parsed j (ground (arith, has-add d id after ch j))
    ]

    pub add-IsWellFormed : IsWellFormed (add d id after ch)
    add-IsWellFormed = record {
      forest = grown after item forest;
      top = top-grown;
      shown = Shows-grown;
      once = λ j.
          ground (arith, count-grown j, once j, has-add d id after ch j, can.fresh, ===_iff id j);
      size = length-grown ∙ ap suc w.size ∙ sym len-add;
      no_kids = no_kids-add;
      parsed = parsed-add;
    }

    pub walk-add-flat : walk (add d id after ch) [] ≡ flat (grown after item forest)
    unfolding add-IsWellFormed
    walk-add-flat = walk-flat (add d id after ch) add-IsWellFormed
