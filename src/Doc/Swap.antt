-- ===== src/Doc/Swap.antt =====
-- The documents behind two writes do not depend on the order of the writes.
use goclipboard.Common.{
  suc, ◌≡◌, refl, ap, ap₂, sym, ◌∙◌, ◌≢◌, true, false, Option, none, some, arith, if◌then◌else◌,
  Bool-cases, Option-cases, inl, inr, length,
}
use goclipboard.Text.{Text, ◌===◌, ===_iff, ===_sound}
use goclipboard.Dict.{get, get-set, keys-set_old}
use goclipboard.Ids.{Stamp, parse_id}
use goclipboard.Ids.Order.{Parses}
use goclipboard.Doc.{Item, Doc, kids, len, add, delete, insert_sorted}
use goclipboard.Doc.WellFormed.{IsWellFormed}
use goclipboard.Doc.Insert.{CanAdd, add-IsWellFormed, get-add, kids-add, has-add, len-add}
use goclipboard.Doc.Delete.{has-delete, delete-IsWellFormed}
use goclipboard.Doc.Apply.{idle, marks, delete-case}
use goclipboard.Doc.Siblings.{insert_sorted_comm}
use goclipboard.Doc.View.{SameView, kids-Parsed}

-- What a deletion does to an entry of `items`.
kill : Option Item → Option Item
kill none = none
kill (some item) = some (record item { del = true })

kill_twice : (o : Option Item) → kill (kill o) ≡ kill o
unfolding kill
kill_twice none = refl
kill_twice (some item) = refl

module _ (d : Doc) (id : Text) where
  get-delete :
      (j : Text)
      → get j (delete d id).0.items ≡ (if id === j then kill (get j d.items) else get j d.items)
  unfolding kill delete
  get-delete j = elim (Option-cases (get id d.items)) [
    | inl absent ↦ rw absent (ground (arith, ===_iff id j, absent))
    | inr (item, found) ↦ elim (Bool-cases item.del) [
      | inl gone ↦ rw (found, gone) (ground (arith, ===_iff id j, found, gone))
      | inr there ↦
          rw (found, there)
            (ground (arith, ===_iff id j, found, get-set j id (record item { del = true }) d.items))
    ]
  ]

  kids-delete : (q : Text) → kids (delete d id).0 q ≡ kids d q
  unfolding kids
  kids-delete q = elim (delete-case d id) [ idle h ↦ rw h | marks item found h ↦ rw h ]

  len-delete : len (delete d id).0 ≡ len d
  unfolding len
  len-delete = elim (delete-case d id) [
    | idle h ↦ rw h
    | marks item found h ↦
        rw h (ap length (keys-set_old id (record item { del = true }) item d.items found))
  ]

-- Two deletions.
pub SameView-delete-delete :
    (d : Doc) (i j : Text) → SameView (delete (delete d i).0 j).0 (delete (delete d j).0 i).0
SameView-delete-delete d i j = record {
  items = λ k. ground (
    arith,
    get-delete (delete d i).0 j k,
    get-delete d i k,
    get-delete (delete d j).0 i k,
    get-delete d j k,
  );
  children = λ q.
      kids-delete (delete d i).0 j q
      ∙ kids-delete d i q
      ∙ sym (kids-delete (delete d j).0 i q ∙ kids-delete d j q);
  sizes =
      len-delete (delete d i).0 j
      ∙ len-delete d i
      ∙ sym (len-delete (delete d j).0 i ∙ len-delete d j);
}

pub CanAdd-delete : (d : Doc) (i after j : Text) → CanAdd d i after → CanAdd (delete d j).0 i after
CanAdd-delete d i after j can = record {
  fresh = has-delete d j i ∙ can.fresh;
  valid = can.valid;
  parent = λ h. has-delete d j after ∙ can.parent h;
}

module _ (d : Doc) (w : IsWellFormed d) where
  -- An insertion and the deletion of another character.
  pub SameView-add-delete :
      (i after ch j : Text)
      → CanAdd d i after
      → (i === j) ≡ false
      → SameView (delete (add d i after ch) j).0 (add (delete d j).0 i after ch)
  SameView-add-delete i after ch j can ne = record {
    items = λ k. ground (
      arith,
      ne,
      get-delete (add d i after ch) j k,
      get-add d i after ch k,
      get-add (delete d j).0 i after ch k,
      get-delete d j k,
      ===_iff i j,
      ===_iff i k,
      ===_iff j k,
    );
    children = λ q.
        kids-delete (add d i after ch) j q
        ∙ kids-add d i after ch q
        ∙ sym (
            kids-add (delete d j).0 i after ch q
            ∙ ap₂ (λ x y. if after === q then insert_sorted i x else y) (kids-delete d j after)
                (kids-delete d j q));
    sizes =
        len-delete (add d i after ch) j
        ∙ len-add d w i after ch can
        ∙ sym (
            len-add (delete d j).0 (delete-IsWellFormed d j w) i after ch
              (CanAdd-delete d i after j can)
            ∙ ap suc (len-delete d j));
  }

  -- Two insertions.
  module _ (i pi ci j pj cj : Text) (can : CanAdd d i pi) (can' : CanAdd d j pj) {p q : Stamp}
      (hi : Parses i p) (hj : Parses j q) (ne : p ≢ q) where
    apart : (i === j) ≡ false
    apart = elim (Bool-cases (i === j)) [
      | inr differ ↦ differ
      | inl same ↦
          let e : some p ≡ some q = sym hi ∙ ap parse_id (===_sound i j same) ∙ hj in
          let pq : p ≡ q = cc e in absurd (ne pq)
    ]

    apart' : (j === i) ≡ false
    apart' = ground (arith, apart, ===_iff i j, ===_iff j i)

    pub later : CanAdd (add d i pi ci) j pj
    later = record {
      fresh = has-add d i pi ci j ∙ (rw apart can'.fresh);
      valid = can'.valid;
      parent = λ h. ground (arith, has-add d i pi ci pj, can'.parent h);
    }

    pub later' : CanAdd (add d j pj cj) i pi
    later' = record {
      fresh = has-add d j pj cj i ∙ (rw apart' can.fresh);
      valid = can.valid;
      parent = λ h. ground (arith, has-add d j pj cj pi, can.parent h);
    }

    pub SameView-add-add : SameView (add (add d i pi ci) j pj cj) (add (add d j pj cj) i pi ci)
    SameView-add-add = record {
      items = λ k. ground (
        arith,
        apart,
        get-add (add d i pi ci) j pj cj k,
        get-add d i pi ci k,
        get-add (add d j pj cj) i pi ci k,
        get-add d j pj cj k,
        ===_iff i j,
        ===_iff i k,
        ===_iff j k,
      );
      children = λ k. ground (
        arith,
        kids-add (add d i pi ci) j pj cj k,
        kids-add d i pi ci k,
        kids-add d i pi ci pj,
        kids-add (add d j pj cj) i pi ci k,
        kids-add d j pj cj k,
        kids-add d j pj cj pi,
        ===_iff pi k,
        ===_iff pj k,
        ===_iff pi pj,
        ===_iff pj pi,
        insert_sorted_comm i j (kids d k) hi hj ne (kids-Parsed d w k),
      );
      sizes =
          len-add (add d i pi ci) (add-IsWellFormed d w i pi ci can) j pj cj later
          ∙ ap suc (len-add d w i pi ci can)
          ∙ sym (
              len-add (add d j pj cj) (add-IsWellFormed d w j pj cj can') i pi ci later'
              ∙ ap suc (len-add d w j pj cj can'));
    }
