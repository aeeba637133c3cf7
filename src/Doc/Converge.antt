-- ===== src/Doc/Converge.antt =====
-- Concurrent operations commute: replicas that apply them in either order show the same text.
use goclipboard.Common.{
  ◌≡◌, refl, ap, sym, ◌∙◌, ◌≢◌, Bool, true, false, some, arith, Bool-cases, inl, inr,
}
use goclipboard.Text.{Text, ◌===◌, ===_sound}
use goclipboard.Ids.{Stamp, parse_id}
use goclipboard.Ids.Order.{Parses}
use goclipboard.CodePoints.{single_code_point}
use goclipboard.Doc.{
  Doc, Op, ins, del, other, done, has, parses, add, insert, delete, apply, materialize,
}
use goclipboard.Doc.WellFormed.{IsWellFormed}
use goclipboard.Doc.Insert.{CanAdd, has-add}
use goclipboard.Doc.Delete.{has-delete}
use goclipboard.Doc.Newest.{stamp_of}
use goclipboard.Doc.Apply.{refused, known, added, insert-case, insert_known}
use goclipboard.Doc.Batch.{apply-ins, apply-del}
use goclipboard.Doc.Swap.{
  CanAdd-delete, SameView-delete-delete, SameView-add-delete, SameView-add-add, later, later',
}
use goclipboard.Doc.View.{SameView, materialize-SameView}

-- What two replicas reach that applied `a` and `b` first: both get through the other operation,
-- and show the same items, children and text.
pub record Converges (da db : Doc) (a b : Op) : Type 0 where
  pub left : Doc
  pub right : Doc
  pub left_changed : Bool
  pub right_changed : Bool
  pub left_applies : apply da b ≡ (left, done left_changed)
  pub right_applies : apply db a ≡ (right, done right_changed)
  pub same : SameView left right
  pub same_text : materialize left ≡ materialize right

converge :
    (da db : Doc) (a b : Op) (f g : Doc) (s t : Bool)
    → apply da b ≡ (f, done s)
    → apply db a ≡ (g, done t)
    → SameView f g
    → Converges da db a b
converge da db a b f g s t h k v = record {
  left = f;
  right = g;
  left_changed = s;
  right_changed = t;
  left_applies = h;
  right_applies = k;
  same = v;
  same_text = materialize-SameView f g v;
}

SameView-refl : (d : Doc) → SameView d d
SameView-refl d = record { items = λ id. refl; children = λ q. refl; sizes = refl }

-- Two insertions are of different characters, and a deletion is not of the character that the
-- other operation inserts.
abbrev pub IsConcurrent : Op → Op → Type 0
IsConcurrent (ins i pi ci) (ins j pj cj) = parse_id i ≢ parse_id j
IsConcurrent (ins i pi ci) (del j) = i ≢ j
IsConcurrent (del i) (ins j pj cj) = i ≢ j
IsConcurrent _ _ = Unit {0}

has-delete-true : (d : Doc) (j i : Text) → has d i ≡ true → has (delete d j).0 i ≡ true
has-delete-true d j i h = has-delete d j i ∙ h

-- A deletion that was accepted.
apply-del-doc :
    (d e : Doc) (j : Text) (y : Bool)
    → apply d (del j) ≡ (e, done y)
    → (parses j ≡ true) × ((delete d j).0 ≡ e)
unfolding apply
apply-del-doc d e j y h = elim (Bool-cases (parses j)) [
  | inl valid ↦ let k : delete d j ≡ (e, done y) = rw valid at h in (valid, ap (λ r. r.0) k)
  | inr bad ↦ cc (rw bad at h)
]

ins-del-Converges :
    (d da db : Doc) (i p c j : Text) (x y : Bool)
    → IsWellFormed d
    → (i === j) ≡ false
    → apply d (ins i p c) ≡ (da, done x)
    → apply d (del j) ≡ (db, done y)
    → Converges da db (ins i p c) (del j)
unfolding apply
ins-del-Converges d da db i p c j x y w ne h k =
    let gone = apply-del-doc d db j y k in
    elim (insert-case d i p c) [
      | refused e r ↦ cc (h, r)
      | known valid one old r ↦
          let e : d ≡ da = cc (h, r) in
          let del_ok = apply-del da j gone.0 in
          converge da db (ins i p c) (del j) (delete da j).0 db del_ok.0 false del_ok.1
            (rw (← gone.1)
              (insert_known (delete d j).0 i p c valid one (has-delete-true d j i old)))
            (rw (← e, gone.1) (SameView-refl db))
      | added can one r ↦
          let e : add d i p c ≡ da = cc (h, r) in
          let del_ok = apply-del da j gone.0 in
          let here : CanAdd db i p = rw gone.1 at (CanAdd-delete d i p j can) in
          converge da db (ins i p c) (del j) (delete da j).0 (add db i p c) del_ok.0 true del_ok.1
            (apply-ins db i p c here one)
            (rw (← e, ← gone.1) (SameView-add-delete d w i p c j can ne))
    ]

del-del-Converges :
    (d da db : Doc) (i j : Text) (x y : Bool)
    → apply d (del i) ≡ (da, done x)
    → apply d (del j) ≡ (db, done y)
    → Converges da db (del i) (del j)
del-del-Converges d da db i j x y h k =
    let a = apply-del-doc d da i x h in
    let b = apply-del-doc d db j y k in
    let ok_b = apply-del da j b.0 in
    let ok_a = apply-del db i a.0 in
    converge da db (del i) (del j) (delete da j).0 (delete db i).0 ok_b.0 ok_a.0 ok_b.1 ok_a.1
      (rw (← a.1, ← b.1) (SameView-delete-delete d i j))

-- An accepted insertion leaves the document as it is, or adds the character.
ins-known-Converges :
    (d da db : Doc) (i p c j q e : Text) (x y : Bool)
    → parses i ≡ true
    → single_code_point c ≡ true
    → has d i ≡ true
    → d ≡ da
    → (has d i ≡ true → has db i ≡ true)
    → apply d (ins j q e) ≡ (db, done y)
    → Converges da db (ins i p c) (ins j q e)
unfolding apply
ins-known-Converges d da db i p c j q e x y valid one old same mono k =
    converge da db (ins i p c) (ins j q e) db db y false (rw (← same) k)
      (insert_known db i p c valid one (mono old)) (SameView-refl db)

Converges-sym : {da db : Doc} {a b : Op} → Converges da db a b → Converges db da b a
Converges-sym c = record {
  left = c.right;
  right = c.left;
  left_changed = c.right_changed;
  right_changed = c.left_changed;
  left_applies = c.right_applies;
  right_applies = c.left_applies;
  same = record {
    items = λ id. sym (c.same.items id);
    children = λ q. sym (c.same.children q);
    sizes = sym c.same.sizes;
  };
  same_text = sym c.same_text;
}

has-insert :
    (d e : Doc) (j q c i : Text) (y : Bool)
    → insert d j q c ≡ (e, done y)
    → has d i ≡ true
    → has e i ≡ true
has-insert d e j q c i y h old = elim (insert-case d j q c) [
  | refused x r ↦ cc (h, r)
  | known valid one there r ↦ let s : d ≡ e = cc (h, r) in rw (← s) old
  | added can one r ↦
      let s : add d j q c ≡ e = cc (h, r) in rw (← s) (ground (arith, has-add d j q c i))
]

ins-ins-Converges :
    (d da db : Doc) (i p c j q e : Text) (x y : Bool)
    → IsWellFormed d
    → parse_id i ≢ parse_id j
    → apply d (ins i p c) ≡ (da, done x)
    → apply d (ins j q e) ≡ (db, done y)
    → Converges da db (ins i p c) (ins j q e)
unfolding apply
ins-ins-Converges d da db i p c j q e x y w ne h k = elim (insert-case d i p c) [
  | refused z r ↦ cc (h, r)
  | known valid one old r ↦
      ins-known-Converges d da db i p c j q e x y valid one old (cc (h, r))
        (has-insert d db j q e i y k) k
  | added can one r ↦ elim (insert-case d j q e) [
    | refused z r' ↦ cc (k, r')
    | known valid' one' old' r' ↦ Converges-sym (
        ins-known-Converges d db da j q e i p c y x valid' one' old' (cc (k, r'))
          (has-insert d da i p c j x h) h)
    | added can' one' r' ↦
        let a : add d i p c ≡ da = cc (h, r) in
        let b : add d j q e ≡ db = cc (k, r') in
        let hi : (s : Stamp) × Parses i s = stamp_of i can.valid in
        let hj : (s : Stamp) × Parses j s = stamp_of j can'.valid in
        let differ : hi.0 ≢ hj.0 = λ z. ne (hi.1 ∙ ap some z ∙ sym hj.1) in
        rw (← a, ← b)
          (converge (add d i p c) (add d j q e) (ins i p c) (ins j q e) (add (add d i p c) j q e)
            (add (add d j q e) i p c) true true
            (apply-ins (add d i p c) j q e (later d w i p c j q e can can' hi.1 hj.1 differ) one')
            (apply-ins (add d j q e) i p c (later' d w i p c j q e can can' hi.1 hj.1 differ) one)
            (SameView-add-add d w i p c j q e can can' hi.1 hj.1 differ))
  ]
]

apply-other : (d : Doc) (o i : Text) (e : Doc) (b : Bool) → ¬ (apply d (other o i) ≡ (e, done b))
unfolding apply
apply-other d o i e b h = cc

not-=== : (i j : Text) → i ≢ j → (i === j) ≡ false
not-=== i j ne = elim (Bool-cases (i === j)) [
  | inr differ ↦ differ
  | inl same ↦ absurd (ne (===_sound i j same))
]

-- Two replicas of a well-formed document each apply one of two concurrent operations. Then each
-- gets through the other one as well, and they show the same items, children and text.
pub apply-Converges :
    (d da db : Doc) (a b : Op) (x y : Bool)
    → IsWellFormed d
    → IsConcurrent a b
    → apply d a ≡ (da, done x)
    → apply d b ≡ (db, done y)
    → Converges da db a b
apply-Converges d da db (ins i p c) (ins j q e) x y w ne h k =
    ins-ins-Converges d da db i p c j q e x y w ne h k
apply-Converges d da db (ins i p c) (del j) x y w ne h k =
    ins-del-Converges d da db i p c j x y w (not-=== i j ne) h k
apply-Converges d da db (ins i p c) (other o j) x y w ne h k = absurd (apply-other d o j db y k)
apply-Converges d da db (del i) (ins j q e) x y w ne h k =
    Converges-sym (ins-del-Converges d db da j q e i y x w (not-=== j i (λ z. ne (sym z))) k h)
apply-Converges d da db (del i) (del j) x y w ne h k = del-del-Converges d da db i j x y h k
apply-Converges d da db (del i) (other o j) x y w ne h k = absurd (apply-other d o j db y k)
apply-Converges d da db (other o i) b x y w ne h k = absurd (apply-other d o i da x h)
