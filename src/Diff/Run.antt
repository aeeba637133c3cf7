-- ===== src/Diff/Run.antt =====
-- What the deletions and the insertions of a difference do to a well-formed document.
use goclipboard.Common.{
  ℕ, suc, ◌+◌, ◌≤◌, ◌<◌, ◌≡◌, refl, ap, sym, ◌∙◌, ◌⊎◌, inl, inr, true, false, not, List, [], ◌∷◌,
  ◌++◌, map, append_assoc, arith, if◌then◌else◌, length, filter, All, Bool-cases,
}
use goclipboard.Text.{Text, ◌===◌, ===_refl, ===_sound}
use goclipboard.Ids.{format_id}
use goclipboard.Ids.Order.{Parses}
use goclipboard.Ids.Format.{IsSite, parse_id-format_id}
use goclipboard.CodePoints.{single_code_point}
use goclipboard.Doc.{Item, Doc, del, delete, has, parses, add, walk, visible}
use goclipboard.Doc.Forest.{count, count-append}
use goclipboard.Doc.Sequence.{insert_after, insert_after-absent, place, mark_all}
use goclipboard.Doc.WellFormed.{IsWellFormed, walk-flat}
use goclipboard.Doc.Insert.{leaf, no_root, CanAdd, add-IsWellFormed}
use goclipboard.Doc.Delete.{delete-IsWellFormed, walk-delete, has-delete}
use goclipboard.Doc.Newest.{parses-Parses, ClocksWithin, walk-add, ClocksWithin-add}
use goclipboard.Doc.Batch.{Runs, nil, cons, apply-ins, apply-del}
use goclipboard.Diff.{insert_ops}

-- A document that a client may write to with clocks above `n`.
pub record Ready (d : Doc) (n : ℕ) : Type 0 where
  pub formed : IsWellFormed d
  pub within : ClocksWithin d n

pub count-walk :
    (d : Doc) → IsWellFormed d → (id : Text) → count id (walk d []) ≡ (if has d id then 1 else 0)
count-walk d w id = ap (count id) (walk-flat d w) ∙ w.once id

-- Deletion of one visible item.
remove_id : Text → List Item → List Item
remove_id id = filter (λ y. not (y.id === id))

visible-mark_all : (id : Text) (l : List Item) → visible (mark_all id l) ≡ remove_id id (visible l)
unfolding mark_all remove_id
visible-mark_all id [] = refl
visible-mark_all id (y ∷ l) = ground (arith, visible-mark_all id l)

remove_id-absent : (id : Text) (l : List Item) → count id l ≡ 0 → remove_id id l ≡ l
unfolding remove_id count
remove_id-absent id [] h = refl
remove_id-absent id (y ∷ l) h = ground (arith, remove_id-absent id l)

remove_id-middle :
    (p s : List Item) (y : Item)
    → count y.id p ≡ 0
    → count y.id s ≡ 0
    → remove_id y.id (p ++ y ∷ s) ≡ p ++ s
unfolding remove_id count
remove_id-middle [] s y hp hs = rw (===_refl y.id) (remove_id-absent y.id s hs)
remove_id-middle (x ∷ p) s y hp hs = ground (arith, remove_id-middle p s y)

count-visible : (id : Text) (l : List Item) → count id (visible l) ≤ count id l
unfolding count
count-visible id [] = omega arith
count-visible id (y ∷ l) = ground (arith, count-visible id l)

count-middle :
    (p s : List Item) (y : Item) → count y.id (p ++ y ∷ s) ≡ suc (count y.id p + count y.id s)
unfolding count
count-middle p s y = count-append y.id p (y ∷ s) ∙ (rw (===_refl y.id) (omega arith))

abbrev pub ids_of : List Item → List Text
ids_of = map (λ y. y.id)

has-of-count : (d : Doc) → IsWellFormed d → (id : Text) → 0 < count id (walk d []) → has d id ≡ true
has-of-count d w id h = ground (arith, count-walk d w id)

-- The deletion of one visible item between `p` and `s`.
delete-visible :
    (d : Doc) (n : ℕ) (p s : List Item) (y : Item)
    → Ready d n
    → visible (walk d []) ≡ p ++ y ∷ s
    → (has d y.id ≡ true) × (visible (walk (delete d y.id).0 []) ≡ p ++ s)
delete-visible d n p s y r e =
    let once : count y.id (walk d []) ≤ 1 = ground (arith, count-walk d r.formed y.id) in
    let seen : count y.id (visible (walk d [])) ≤ count y.id (walk d []) =
      count-visible y.id (walk d []) in
    let found : count y.id (visible (walk d [])) ≡ suc (count y.id p + count y.id s) =
      ap (count y.id) e ∙ count-middle p s y in
    (
      has-of-count d r.formed y.id (omega arith),
      ap visible (walk-delete d y.id r.formed)
          ∙ visible-mark_all y.id (walk d [])
          ∙ ap (remove_id y.id) e
          ∙ remove_id-middle p s y (omega arith) (omega arith),
    )

pub Ready-delete : (d : Doc) (id : Text) {n : ℕ} → Ready d n → Ready (delete d id).0 n
Ready-delete d id r = record {
  formed = delete-IsWellFormed d id r.formed;
  within = λ j p h e. r.within j p (rw has-delete at h) e;
}

-- The deletions of a stretch of visible items.
pub delete_run :
    (mid p s : List Item) (d : Doc) {n : ℕ}
    → Ready d n
    → visible (walk d []) ≡ p ++ (mid ++ s)
    → (e : Doc) × Runs d (map del (ids_of mid)) e × Ready e n × (visible (walk e []) ≡ p ++ s)
delete_run [] p s d r h = (d, nil, r, h)
delete_run (y ∷ mid) p s d {n} r h =
    let one = delete-visible d n p (mid ++ s) y r h in
    let ok = apply-del d y.id (r.formed.parsed y.id one.0) in
    let rest = delete_run mid p s (delete d y.id).0 (Ready-delete d y.id r) one.1 in
    (rest.0, cons ok.1 rest.1, rest.2, rest.3)

-- `a` ends with the parent, or is empty where there is none.
abbrev pub Ends : Text → List Item → Type 0
Ends after a =
    ((after ≡ []) × (a ≡ [])) ⊎ ((b : List Item) × (y : Item) × (a ≡ b ++ y ∷ []) × (y.id ≡ after))

insert_after-middle :
    (b s : List Item) (x y : Item)
    → count y.id b ≡ 0
    → count y.id s ≡ 0
    → insert_after y.id x (b ++ y ∷ s) ≡ b ++ (y ∷ x ∷ s)
unfolding insert_after count
insert_after-middle [] s x y hb hs = rw (===_refl y.id, insert_after-absent y.id x s hs)
insert_after-middle (z ∷ b) s x y hb hs = ground (arith, insert_after-middle b s x y)

module _ (d : Doc) (after : Text) (a s b : List Item) (y : Item) (w : IsWellFormed d)
    (e : walk d [] ≡ a ++ s) (last : a ≡ b ++ y ∷ []) (same : y.id ≡ after) where
  walk-parent : walk d [] ≡ b ++ y ∷ s
  walk-parent = e ∙ ap (λ t. t ++ s) last ∙ append_assoc b (y ∷ []) s

  count-parent : count y.id (walk d []) ≡ suc (count y.id b + count y.id s)
  count-parent = ap (count y.id) walk-parent ∙ count-middle b s y

  has-parent : has d after ≡ true
  has-parent = rw (← same) (has-of-count d w y.id (omega (arith, count-parent)))

  parent-ne-nil : (after === []) ≡ false
  parent-ne-nil = elim (Bool-cases (after === [])) [
    | inr other ↦ other
    | inl root ↦ cc (has-parent, no_root d w, ap (has d) (===_sound after [] root))
  ]

  place-parent : (x : Item) → place after x (walk d []) ≡ a ++ x ∷ s
  unfolding place
  place-parent x =
      let once : count y.id (walk d []) ≤ 1 = ground (arith, count-walk d w y.id) in
      rw parent-ne-nil (
        ap (λ q. insert_after q x (walk d [])) (sym same)
        ∙ ap (insert_after y.id x) walk-parent
        ∙ insert_after-middle b s x y (omega (arith, count-parent)) (omega (arith, count-parent))
        ∙ sym (append_assoc b (y ∷ []) (x ∷ s))
        ∙ ap (λ t. t ++ x ∷ s) (sym last))

-- The new item goes between `a` and the rest.
place-Ends :
    (d : Doc) (after : Text) (x : Item) (a s : List Item)
    → IsWellFormed d
    → walk d [] ≡ a ++ s
    → Ends after a
    → place after x (walk d []) ≡ a ++ x ∷ s
unfolding place ◌===◌
place-Ends d after x a s w e (inl (root, start)) = rw (root, e, start)
place-Ends d after x a s w e (inr (b, y, last, same)) = place-parent d after a s b y w e last same x

parent-Ends :
    (d : Doc) (after : Text) (a s : List Item)
    → IsWellFormed d
    → walk d [] ≡ a ++ s
    → Ends after a
    → (after === []) ≡ false
    → has d after ≡ true
parent-Ends d after a s w e (inl (root, start)) h = cc (h, ap (λ t. t === []) root, ===_refl [])
parent-Ends d after a s w e (inr (b, y, last, same)) h = has-parent d after a s b y w e last same

-- The characters that the insertions add.
unfoldable pub leaves : Text → ℕ → Text → List Text → List Item
leaves site n after [] = []
leaves site n after (c ∷ cs) =
    leaf (format_id site (n + 1)) after c ∷ leaves site (n + 1) (format_id site (n + 1)) cs

module _ (site : Text) (named : IsSite site) where
  stamped : (n : ℕ) → Parses (format_id site (n + 1)) (record { site = site; clock = n + 1 })
  stamped n = parse_id-format_id site (n + 1) named (omega arith)

  parses-format_id : (n : ℕ) → parses (format_id site (n + 1)) ≡ true
  parses-format_id n = parses-Parses (format_id site (n + 1)) (stamped n)

  fresh-format_id : (d : Doc) (n : ℕ) → Ready d n → has d (format_id site (n + 1)) ≡ false
  fresh-format_id d n r = elim (Bool-cases (has d (format_id site (n + 1)))) [
    | inl old ↦ absurd (omega (arith, r.within (format_id site (n + 1)) _ old (stamped n)))
    | inr new ↦ new
  ]

  -- The insertions go in as one stretch.
  pub insert_run :
      (cs : List Text) (d : Doc) (n : ℕ) (after : Text) (a s : List Item)
      → All (λ c. single_code_point c ≡ true) cs
      → Ready d n
      → walk d [] ≡ a ++ s
      → Ends after a
      → (e : Doc) × Runs d (insert_ops site n after cs) e
        × Ready e (n + length cs)
        × (walk e [] ≡ a ++ (leaves site n after cs ++ s))
  unfolding insert_ops leaves
  insert_run [] d n after a s one r h t = let k : n ≡ n + 0 = omega arith in (d, nil, rw (← k) r, h)
  insert_run (c ∷ cs) d n after a s (one, ones) r h t =
      let id = format_id site (n + 1) in
      let can : CanAdd d id after = record {
        fresh = fresh-format_id d n r;
        valid = parses-format_id n;
        parent = parent-Ends d after a s r.formed h t;
      } in
      let x = leaf id after c in
      let d' = add d id after c in
      let r' : Ready d' (n + 1) = record {
        formed = add-IsWellFormed d r.formed id after c can;
        within = ClocksWithin-add d r.formed n r.within id (stamped n) (omega arith) after c;
      } in
      let h' : walk d' [] ≡ (a ++ x ∷ []) ++ s =
        walk-add d r.formed n r.within id (stamped n) (omega arith) after c can
        ∙ place-Ends d after x a s r.formed h t
        ∙ sym (append_assoc a (x ∷ []) s) in
      let rest = insert_run cs d' (n + 1) id (a ++ x ∷ []) s ones r' h' (inr (a, x, refl, refl)) in
      let k : n + 1 + length cs ≡ n + suc (length cs) = omega arith in
      (
        rest.0,
        cons (apply-ins d id after c can one) rest.1,
        rw (← k) rest.2,
        rest.3 ∙ append_assoc a (x ∷ []) (leaves site (n + 1) id cs ++ s),
      )
