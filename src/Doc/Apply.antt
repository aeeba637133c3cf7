-- ===== src/Doc/Apply.antt =====
-- Properties of `apply` and `applyBatch` on every branch.
use goclipboard.Common.{
  ℕ, ◌+◌, ◌≡◌, refl, sym, ap, ◌∙◌, ◌++◌, append-nil, arith, inl, inr, Bool, true, false, ◌||◌, some,
  List, [], ◌∷◌, if◌then◌else◌, Bool-cases, Option-cases,
}
use goclipboard.Text.{Text, ◌===◌, ===_refl}
use goclipboard.Dict.{get, set, get-set}
use goclipboard.CodePoints.{single_code_point}
use goclipboard.Doc.{
  Item, Doc, Op, ins, del, other, Error, Outcome, done, failed, invalid_id, bad_ch, unknown_parent,
  BatchOutcome, stopped, apply, insert, delete, batch_loop, apply_batch, add, has, parses, walk,
  walk_loop, len, kids,
}
use goclipboard.Doc.Forest.{count, flat, roots, walk_loop-Shows}
use goclipboard.Doc.WellFormed.{IsWellFormed, walk-flat, walk_loop-done}
use goclipboard.Doc.Insert.{CanAdd, add-IsWellFormed, has-add}
use goclipboard.Doc.Delete.{delete-IsWellFormed}

-- On a well-formed document the loop of the walk ends with an empty stack within as many rounds as the
-- document has items: however many more rounds it were given, it would hand out the same items. These
-- are every item of the document exactly once, and nothing else.
pub walk_ends :
    (d : Doc) (more : ℕ) (id : Text)
    → IsWellFormed d
    → (walk_loop (len d + more) d (kids d []) ≡ walk d [])
      × (count id (walk d []) ≡ (if has d id then 1 else 0))
walk_ends d more id w = (
  ap (walk_loop (len d + more) d) (w.top ∙ sym (append-nil (roots w.forest)))
      ∙ walk_loop-Shows d w.forest (len d + more) more [] w.shown (omega (arith, w.size))
      ∙ ap (λ t. flat w.forest ++ t) (walk_loop-done d more)
      ∙ append-nil (flat w.forest)
      ∙ sym (walk-flat d w),
  ap (count id) (walk-flat d w) ∙ w.once id,
)

-- The ways through `insert`.
pub data InsertCase (d : Doc) (id after ch : Text) : Type 0 where
  refused : (e : Error) → insert d id after ch ≡ (d, failed e) → InsertCase d id after ch
  known :
      parses id ≡ true
      → single_code_point ch ≡ true
      → has d id ≡ true
      → insert d id after ch ≡ (d, done false)
      → InsertCase d id after ch
  added :
      CanAdd d id after
      → single_code_point ch ≡ true
      → insert d id after ch ≡ (add d id after ch, done true)
      → InsertCase d id after ch

pub insert-case : (d : Doc) (id after ch : Text) → InsertCase d id after ch
unfolding insert
insert-case d id after ch = elim (Bool-cases (parses id)) [
  | inr bad ↦ refused invalid_id (rw bad refl)
  | inl valid ↦ elim (Bool-cases (single_code_point ch)) [
    | inr long ↦ refused bad_ch (rw (valid, long) refl)
    | inl one ↦ elim (Bool-cases (has d id)) [
      | inl old ↦ known valid one old (rw (valid, one, old) refl)
      | inr fresh ↦ elim (Bool-cases (after === [])) [
        | inl root ↦
            added (record { fresh = fresh; valid = valid; parent = λ h. cc (h, root) }) one
              (rw (valid, one, fresh, root) refl)
        | inr below ↦ elim (Bool-cases (has d after)) [
          | inl here ↦
              added (record { fresh = fresh; valid = valid; parent = λ h. here }) one
                (rw (valid, one, fresh, below, here) refl)
          | inr orphan ↦ refused unknown_parent (rw (valid, one, fresh, below, orphan) refl)
        ]
      ]
    ]
  ]
]

-- The ways through `delete`.
pub data DeleteCase (d : Doc) (id : Text) : Type 0 where
  idle : delete d id ≡ (d, done false) → DeleteCase d id
  marks :
      (item : Item)
      → get id d.items ≡ some item
      → delete d id ≡ (record d { items = set id (record item { del = true }) d.items }, done true)
      → DeleteCase d id

pub delete-case : (d : Doc) (id : Text) → DeleteCase d id
unfolding delete
delete-case d id = elim (Option-cases (get id d.items)) [
  | inl absent ↦ idle (rw absent refl)
  | inr (item, found) ↦ elim (Bool-cases item.del) [
    | inl gone ↦ idle (rw (found, gone) refl)
    | inr there ↦ marks item found (rw (found, there) refl)
  ]
]

insert-IsWellFormed :
    (d : Doc) (id after ch : Text) → IsWellFormed d → IsWellFormed (insert d id after ch).0
insert-IsWellFormed d id after ch w = elim (insert-case d id after ch) [
  | refused e h ↦ rw h w
  | known valid one old h ↦ rw h w
  | added can one h ↦ rw h (add-IsWellFormed d w id after ch can)
]

-- Every operation, whether it succeeds or fails, leaves a well-formed document well formed.
pub apply-IsWellFormed : (d : Doc) (op : Op) → IsWellFormed d → IsWellFormed (apply d op).0
unfolding apply
apply-IsWellFormed d (ins id after ch) w = insert-IsWellFormed d id after ch w
apply-IsWellFormed d (del id) w = elim (Bool-cases (parses id)) [
  | inl valid ↦ rw valid (delete-IsWellFormed d id w)
  | inr bad ↦ rw bad w
]
apply-IsWellFormed d (other op id) w = w

batch_loop-IsWellFormed :
    (ops : List Op) (d : Doc) (c : Bool) (i : ℕ)
    → IsWellFormed d
    → IsWellFormed (batch_loop d c i ops).0
unfolding batch_loop
batch_loop-IsWellFormed [] d c i w = w
batch_loop-IsWellFormed (op ∷ ops) d c i w =
    next (apply d op).1 (λ b. batch_loop-IsWellFormed ops (apply d op).0 (b || c) (i + 1) kept)
  where
    kept : IsWellFormed (apply d op).0
    kept = apply-IsWellFormed d op w

    next :
        (o : Outcome)
        → ((b : Bool) → IsWellFormed (batch_loop (apply d op).0 (b || c) (i + 1) ops).0)
        → IsWellFormed
            (elim o as (λ x. Doc × BatchOutcome) [
              | failed e ↦ ((apply d op).0, stopped e c i)
              | done b ↦ batch_loop (apply d op).0 (b || c) (i + 1) ops
            ]).0
    next (failed e) rest = kept
    next (done b) rest = rest b

-- A batch leaves a well-formed document well formed, also where it stops at a failure.
pub apply_batch-IsWellFormed :
    (d : Doc) (ops : List Op) → IsWellFormed d → IsWellFormed (apply_batch d ops).0
unfolding apply_batch
apply_batch-IsWellFormed d [] w = w
apply_batch-IsWellFormed d (op ∷ ops) w = batch_loop-IsWellFormed (op ∷ ops) d false 0 w

pub insert_known :
    (d : Doc) (id after ch : Text)
    → parses id ≡ true
    → single_code_point ch ≡ true
    → has d id ≡ true
    → insert d id after ch ≡ (d, done false)
unfolding insert
insert_known d id after ch valid one old = rw (valid, one, old) refl

insert-again :
    (d : Doc) (id after ch : Text) (e : Doc) (b : Bool)
    → insert d id after ch ≡ (e, done b)
    → insert e id after ch ≡ (e, done false)
insert-again d id after ch e b h = elim (insert-case d id after ch) [
  | refused x k ↦ cc (h, k)
  | known valid one old k ↦ let same : d ≡ e = cc (h, k) in rw (← same) k
  | added can one k ↦
      let same : add d id after ch ≡ e = cc (h, k) in
      rw (← same) (
        insert_known (add d id after ch) id after ch can.valid one
          (has-add d id after ch id ∙ (rw (===_refl id) refl)))
]

delete_dead :
    (d : Doc) (id : Text) (item : Item)
    → get id d.items ≡ some item
    → item.del ≡ true
    → delete d id ≡ (d, done false)
unfolding delete
delete_dead d id item found gone = rw (found, gone) refl

delete-again :
    (d : Doc) (id : Text) (e : Doc) (b : Bool)
    → delete d id ≡ (e, done b)
    → delete e id ≡ (e, done false)
delete-again d id e b h = elim (delete-case d id) [
  | idle k ↦ let same : d ≡ e = cc (h, k) in rw (← same) k
  | marks item found k ↦
      let dead : Item = record item { del = true } in
      let same : record d { items = set id dead d.items } ≡ e = cc (h, k) in
      rw (← same) (
        delete_dead (record d { items = set id dead d.items }) id dead
          (get-set id id dead d.items ∙ (rw (===_refl id) refl)) refl)
]

-- An operation that succeeded once reports, when it is applied again, that nothing changed, and
-- nothing does.
pub apply_again :
    (d e : Doc) (op : Op) (b : Bool) → apply d op ≡ (e, done b) → apply e op ≡ (e, done false)
unfolding apply
apply_again d e (ins id after ch) b h = insert-again d id after ch e b h
apply_again d e (del id) b h = elim (Bool-cases (parses id)) [
  | inl valid ↦ rw valid (delete-again d id e b (rw valid at h))
  | inr bad ↦ cc (rw bad at h)
]
apply_again d e (other op id) b h = cc
