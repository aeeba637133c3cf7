-- ===== src/Doc.antt =====
-- The sequence document (static/crdt.js: Doc and its methods, buildFromString). Each character is
-- an item below its parent `after`; the children of a parent are kept in sibling order, and the
-- text is the items in depth-first order, without the deleted ones.
pub mod Forest
pub mod WellFormed
pub mod Insert
pub mod Delete
pub mod Sequence
pub mod Newest
pub mod Batch
pub mod Apply
pub mod View
pub mod Siblings
pub mod Swap
pub mod Converge
use goclipboard.Common.{
  ℕ, zero, suc, ◌+◌, Bool, true, false, not, ◌&&◌, ◌||◌, Option, none, some, List, [], ◌∷◌, ◌++◌,
  map, Ordering, if◌then◌else◌, length, filter,
}
use goclipboard.Text.{Text, ◌===◌}
use goclipboard.Dict.{Dict, get, set, keys}
use goclipboard.Ids.{Stamp, parse_id, format_id, compare_sibling, max_clock_from_ids}
use goclipboard.CodePoints.{single_code_point, code_points}
use goclipboard.CodePoints.Laws.{join}

pub record Item : Type 0 where
  pub id : Text
  pub after : Text
  pub ch : Text
  pub del : Bool

-- `items` and `children`; the parent of a root is the empty text.
pub record Doc : Type 0 where
  pub items : Dict Item
  pub children : Dict (List Text)

pub data Error : Type 0 where
  invalid_id bad_ch unknown_parent bad_op unknown_op empty_ops bad_item duplicate : Error

-- `{ ok: true, changed }` or `{ ok: false, error }`
pub data Outcome : Type 0 where
  done : Bool → Outcome
  failed : Error → Outcome

-- An operation on the wire. `other` has another `op` than "ins" and "del", or none: the empty text.
pub data Op : Type 0 where
  ins : Text → Text → Text → Op
  del : Text → Op
  other : Text → Text → Op

abbrev pub empty : Doc
empty = record { items = []; children = [] }

unfoldable pub len : Doc → ℕ
unfolding keys
len d = length (keys d.items)

-- `children[parent] || []`
pub or_no_kids : Option (List Text) → List Text
or_no_kids none = []
or_no_kids (some kids) = kids

unfoldable pub kids : Doc → Text → List Text
unfolding or_no_kids
kids d parent = or_no_kids (get parent d.children)

pub is_before : Ordering → Bool
is_before Ordering.lt = true
is_before _ = false

-- The loop over `kids` and the `splice`.
unfoldable pub insert_sorted : Text → List Text → List Text
unfolding is_before
insert_sorted id [] = id ∷ []
insert_sorted id (k ∷ ks) =
    if is_before (compare_sibling k id)
    then k ∷ insert_sorted id ks
    else if k === id
    then k ∷ ks
    else id ∷ k ∷ ks

unfoldable pub insert_child : Doc → Text → Text → Doc
insert_child d parent id = record d {
  children = set parent (insert_sorted id (kids d parent)) d.children;
}

unfoldable pub max_clock : Doc → ℕ
max_clock d = max_clock_from_ids (keys d.items)

-- `!!items[id]`
unfoldable pub has : Doc → Text → Bool
has d id = elim (get id d.items) [ none ↦ false | some item ↦ true ]

unfoldable pub parses : Text → Bool
parses id = elim (parse_id id) [ none ↦ false | some p ↦ true ]

-- The two writes of `insert`.
unfoldable pub add : Doc → Text → Text → Text → Doc
add d id after ch =
    insert_child
      (record d {
        items = set id (record { id = id; after = after; ch = ch; del = false }) d.items;
      })
      after id

unfoldable pub insert : Doc → Text → Text → Text → Doc × Outcome
insert d id after ch =
    if not (parses id)
    then (d, failed invalid_id)
    else if not (single_code_point ch)
    then (d, failed bad_ch)
    else if has d id
    then (d, done false)
    else if not (after === []) && not (has d after)
    then (d, failed unknown_parent)
    else (add d id after ch, done true)

mark : Doc → Text → Option Item → Doc × Outcome
mark d id none = (d, done false)
mark d id (some item) =
    if item.del
    then (d, done false)
    else (record d { items = set id (record item { del = true }) d.items }, done true)

unfoldable pub delete : Doc → Text → Doc × Outcome
unfolding mark
delete d id = mark d id (get id d.items)

unfoldable pub apply : Doc → Op → Doc × Outcome
apply d (ins id after ch) = insert d id after ch
apply d (del id) = if not (parses id) then (d, failed invalid_id) else delete d id
apply d (other op id) = (d, failed (if op === [] then bad_op else unknown_op))

-- `{ ok: true, changed }` or `{ ok: false, error, changed, index }`
pub data BatchOutcome : Type 0 where
  all : Bool → BatchOutcome
  stopped : Error → Bool → ℕ → BatchOutcome

-- What was applied before a failure stays applied.
unfoldable pub batch_loop : Doc → Bool → ℕ → List Op → Doc × BatchOutcome
batch_loop d changed i [] = (d, all changed)
batch_loop d changed i (op ∷ ops) =
    let (d', r) = apply d op in
    elim r [
      | failed e ↦ (d', stopped e changed i)
      | done c ↦ batch_loop d' (c || changed) (i + 1) ops
    ]

unfoldable pub apply_batch : Doc → List Op → Doc × BatchOutcome
unfolding batch_loop
apply_batch d [] = (d, stopped empty_ops false 0)
apply_batch d (op ∷ ops) = batch_loop d false 0 (op ∷ ops)

-- `walk` hands the items to its callback in this order. The head of the list is the top of the
-- stack, and each round pops one identifier.
unfoldable pub walk_loop : ℕ → Doc → List Text → List Item
walk_loop zero d stack = []
walk_loop (suc fuel) d [] = []
walk_loop (suc fuel) d (id ∷ stack) = elim (get id d.items) [
  | none ↦ walk_loop fuel d stack
  | some item ↦ item ∷ walk_loop fuel d (kids d id ++ stack)
]

unfoldable pub walk : Doc → Text → List Item
walk d parent = walk_loop (len d) d (kids d parent)

abbrev pub visible : List Item → List Item
visible = filter (λ item. not item.del)

unfoldable pub materialize : Doc → Text
materialize d = join (map (λ item. item.ch) (visible (walk d [])))

unfoldable pub visible_ids : Doc → List Text
visible_ids d = map (λ item. item.id) (visible (walk d []))

unfoldable pub to_items : Doc → List Item
to_items d = walk d []

-- The first loop of `fromItems` fills `items`, the second `children`.
pub add_items : Doc → List Item → Doc × Outcome
add_items d [] = (d, done true)
add_items d (it ∷ items) =
    let rest = add_items (record d { items = set it.id it d.items }) items in
    if not (parses it.id) || not (single_code_point it.ch)
    then (d, failed bad_item)
    else if has d it.id
    then (d, failed duplicate)
    else rest

pub link_items : Doc → List Item → Doc × Outcome
link_items d [] = (d, done true)
link_items d (it ∷ items) =
    let rest = link_items (insert_child d it.after it.id) items in
    if not (it.after === []) && not (has d it.after) then (d, failed unknown_parent) else rest

then_link : Doc × Outcome → List Item → Doc × Outcome
then_link (d, failed e) items = (d, failed e)
then_link (d, done b) items = link_items d items

unfoldable pub from_items : List Item → Doc × Outcome
unfolding add_items link_items then_link
from_items items = then_link (add_items empty items) items

unfoldable pub clone : Doc → Doc
clone d = (from_items (to_items d)).0

unfoldable pub build_loop : Text → Doc → Text → ℕ → List Text → Option Doc
build_loop site d prev i [] = some d
build_loop site d prev i (c ∷ cs) =
    let (d', r) = insert d (format_id site (i + 1)) prev c in
    let rest = build_loop site d' (format_id site (i + 1)) (i + 1) cs in
    elim r [ failed e ↦ none | done b ↦ rest ]

unfoldable pub build_from_string : Text → Text → Option Doc
unfolding build_loop
build_from_string site content = build_loop site empty [] 0 (code_points content)
