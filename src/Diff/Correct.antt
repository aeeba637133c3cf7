-- ===== src/Diff/Correct.antt =====
-- Applying a difference to the document that it was taken from gives the new text.
use goclipboard.Common.{
  ℕ, suc, ◌+◌, ◌-◌, ◌≡◌, refl, ap, ap₂, sym, ◌∙◌, true, List, [], ◌∷◌, ◌++◌, map, append_assoc,
  append-nil, arith, if◌then◌else◌, length, length-append, take, drop, take-length-append,
  drop-length-append, ltb, All,
}
use mathlib.Core.List.{map-append}
use mathlib.Core.Path.{subst, subst₂}
use goclipboard.Text.{Text}
use goclipboard.Ids.{format_id}
use goclipboard.Ids.Format.{IsSite}
use goclipboard.CodePoints.{single_code_point}
use goclipboard.Doc.{Item, Doc, del, walk, visible, visible_ids}
use goclipboard.Doc.Insert.{leaf}
use goclipboard.Doc.Batch.{Runs, Runs-append}
use goclipboard.Diff.{
  Diff, prefix_length, suffix_length, diff_between, diff_to_ops, at, ids_from, insert_ops,
  inserted_ids,
}
use goclipboard.Diff.Split.{Split, diff-Split}
use goclipboard.Diff.Run.{Ready, ids_of, leaves, delete_run, insert_run}
use goclipboard.Diff.Cut.{last_id, visible-append, cut-Ends, map-split, ids_from-middle, parent_eq}

abbrev pub chars_of : List Item → List Text
chars_of = map (λ y. y.ch)

-- The visible characters; `materialize` joins them.
abbrev pub visible_chars : Doc → List Text
visible_chars d = chars_of (visible (walk d []))

length-map {ℓ κ} : {A : Type ℓ} {B : Type κ} (f : A → B) (l : List A) → length (map f l) ≡ length l
length-map f [] = refl
length-map f (x ∷ l) = ap suc (length-map f l)

map-three :
    {A B : Type 0} (f : A → B) (p m s : List A)
    → map f (p ++ (m ++ s)) ≡ map f p ++ (map f m ++ map f s)
map-three f p m s = map-append f p (m ++ s) ∙ ap (λ t. map f p ++ t) (map-append f m s)

inserted_ids-append :
    (site : Text) (n : ℕ) (after : Text) (cs ms : List Text)
    → inserted_ids (map del ms ++ insert_ops site n after cs) ≡ ids_of (leaves site n after cs)
unfolding inserted_ids insert_ops leaves
inserted_ids-append site n after [] [] = refl
inserted_ids-append site n after (c ∷ cs) [] =
    ap (◌∷◌ (format_id site (n + 1)))
      (inserted_ids-append site (n + 1) (format_id site (n + 1)) cs [])
inserted_ids-append site n after cs (m ∷ ms) = inserted_ids-append site n after cs ms

pub visible-leaves :
    (site : Text) (n : ℕ) (after : Text) (cs : List Text)
    → visible (leaves site n after cs) ≡ leaves site n after cs
unfolding leaves
visible-leaves site n after [] = refl
visible-leaves site n after (c ∷ cs) =
    ap (leaf (format_id site (n + 1)) after c ∷◌)
      (visible-leaves site (n + 1) (format_id site (n + 1)) cs)

pub chars-leaves :
    (site : Text) (n : ℕ) (after : Text) (cs : List Text) → chars_of (leaves site n after cs) ≡ cs
unfolding leaves
chars-leaves site n after [] = refl
chars-leaves site n after (c ∷ cs) =
    ap (c ∷◌) (chars-leaves site (n + 1) (format_id site (n + 1)) cs)

take-drop-middle : (p m s : List Text) → take (length m) (drop (length p) (p ++ (m ++ s))) ≡ m
take-drop-middle p m s =
    ap (take (length m)) (drop-length-append p (m ++ s)) ∙ take-length-append m s

abbrev built : Text → ℕ → List Text → List Text → List Text → List Text → Text → Diff
built site n front gone back fresh after =
    let ops = map del gone ++ insert_ops site n after fresh in
    record { ops = ops; next_ids = front ++ (inserted_ids ops ++ back); clock = n + length fresh }

-- The difference, where the old items are `p`, `m` and `s`, and `fresh` replaces `m`.
abbrev replaced : Text → ℕ → List Item → List Item → List Item → List Text → Diff
replaced site n p m s fresh = record {
  ops = map del (ids_of m) ++ insert_ops site n (last_id p) fresh;
  next_ids = ids_of p ++ (ids_of (leaves site n (last_id p) fresh) ++ ids_of s);
  clock = n + length fresh;
}

module _ (site : Text) (n lo ro_old ro_new : ℕ) (p m s : List Item) (pre fresh suf old : List Text)
    (el : length p ≡ lo) (ep : length pre ≡ lo) (eo : lo + length m ≡ ro_old)
    (en : lo + length fresh ≡ ro_new) (et : length old ≡ ro_old + length s) where
  abbrev old_ids : List Text
  old_ids = ids_of (p ++ (m ++ s))

  front_eq : ids_from lo 0 old_ids ≡ ids_of p
  front_eq = ap (λ k. ids_from k 0 old_ids) (sym el) ∙ ids_from-middle [] p (m ++ s)

  gone_eq : ids_from (ro_old - lo) lo old_ids ≡ ids_of m
  gone_eq =
      let k : ro_old - lo ≡ length m = omega arith in
      ap₂ (λ a b. ids_from a b old_ids) k (sym el) ∙ ids_from-middle p m s

  back_eq : ids_from (length old - ro_old) ro_old old_ids ≡ ids_of s
  back_eq =
      let k : length old - ro_old ≡ length s = omega arith in
      let j : ro_old ≡ length (p ++ m) = omega (arith, length-append p m) in
      let l : p ++ (m ++ s) ≡ (p ++ m) ++ (s ++ []) =
        sym (append_assoc p m s) ∙ ap (λ t. (p ++ m) ++ t) (sym (append-nil s)) in
      ap₂ (λ a b. ids_from a b old_ids) k j
      ∙ ap (λ t. ids_from (length s) (length (p ++ m)) (ids_of t)) l
      ∙ ids_from-middle (p ++ m) s []

  fresh_eq : take (ro_new - lo) (drop lo (pre ++ (fresh ++ suf))) ≡ fresh
  fresh_eq =
      let k : ro_new - lo ≡ length fresh = omega arith in
      ap₂ (λ a b. take a (drop b (pre ++ (fresh ++ suf)))) k (sym ep)
      ∙ take-drop-middle pre fresh suf

  after_eq : (if ltb 0 lo then at old_ids (lo - 1) else []) ≡ last_id p
  after_eq = ap (λ k. if ltb 0 k then at old_ids (k - 1) else []) (sym el) ∙ parent_eq p (m ++ s)

  diff_between-replaced :
      diff_between lo ro_old ro_new old old_ids (pre ++ (fresh ++ suf)) site n
      ≡ replaced site n p m s fresh
  unfolding diff_between
  diff_between-replaced =
      (λ i. built site n (front_eq i) (gone_eq i) (back_eq i) (fresh_eq i) (after_eq i))
      ∙ ap
          (λ t.
            let r : Diff = record {
              ops = map del (ids_of m) ++ insert_ops site n (last_id p) fresh;
              next_ids = ids_of p ++ (t ++ ids_of s);
              clock = n + length fresh;
            } in
            r)
          (inserted_ids-append site n (last_id p) fresh (ids_of m))

-- The difference of the visible text of `d` and `new`.
abbrev pub local_diff : Doc → ℕ → Text → List Text → Diff
local_diff d n site new = diff_to_ops (visible_chars d) (visible_ids d) new site n

-- The document behind the batch shows the new text under the identifiers that the difference names.
abbrev pub Applied : Doc → List Text → Diff → Type 0
Applied d new r =
    (e : Doc) × Runs d r.ops e
    × Ready e r.clock
    × (visible_chars e ≡ new)
    × (visible_ids e ≡ r.next_ids)

module _ (site : Text) (named : IsSite site) (d : Doc) (n : ℕ) (ready : Ready d n)
    (p m s : List Item) (seen : visible (walk d []) ≡ p ++ (m ++ s)) (fresh : List Text)
    (ones : All (λ c. single_code_point c ≡ true) fresh) where
  apply-replaced : Applied d (chars_of p ++ (fresh ++ chars_of s)) (replaced site n p m s fresh)
  unfolding visible_ids
  apply-replaced =
      let a = delete_run m p s d ready seen in
      let c = cut-Ends (walk a.0 []) p s a.3 in
      let b = insert_run site named fresh a.0 n (last_id p) c.0 c.1 ones a.2 c.2 c.5 in
      let new = leaves site n (last_id p) fresh in
      let shown : visible (walk b.0 []) ≡ p ++ (new ++ s) =
        ap visible b.3
        ∙ visible-append c.0 (new ++ c.1)
        ∙ ap₂ (λ x y. x ++ y) c.3
            (visible-append new c.1
              ∙ ap₂ (λ x y. x ++ y) (visible-leaves site n (last_id p) fresh) c.4) in
      (
        b.0,
        Runs-append (insert_ops site n (last_id p) fresh) a.1 b.1,
        b.2,
        ap chars_of shown
            ∙ map-three (λ (y : Item). y.ch) p new s
            ∙ ap (λ t. chars_of p ++ (t ++ chars_of s)) (chars-leaves site n (last_id p) fresh),
        ap ids_of shown ∙ map-three (λ (y : Item). y.id) p new s,
      )

All-middle : (P : Text → Type 0) (p m s : List Text) → All P (p ++ (m ++ s)) → All P m
All-middle P (x ∷ p) m s h = All-middle P p m s h.1
All-middle P [] [] s h = tt
All-middle P [] (x ∷ m) s h = (h.0, All-middle P [] m s h.1)

-- The difference, where the visible items are cut as the two loops find it.
module _ (d : Doc) (n : ℕ) (site : Text) (new : List Text) (p m s : List Item)
    (sp : Split
      (prefix_length (visible_chars d) new)
      (suffix_length (prefix_length (visible_chars d) new) (visible_chars d) new)
      (visible_chars d)
      new)
    (seen : visible (walk d []) ≡ p ++ (m ++ s)) (pe : chars_of p ≡ sp.pre)
    (me : chars_of m ≡ sp.gone) (se : chars_of s ≡ sp.suf) where
  abbrev lo : ℕ
  lo = prefix_length (visible_chars d) new

  abbrev kept : ℕ
  kept = suffix_length lo (visible_chars d) new

  length-front : length p ≡ lo
  length-front = sym (length-map (λ (y : Item). y.ch) p) ∙ ap length pe ∙ sp.lo_eq

  length-gone : length m ≡ length sp.gone
  length-gone = sym (length-map (λ (y : Item). y.ch) m) ∙ ap length me

  length-back : length s ≡ kept
  length-back = sym (length-map (λ (y : Item). y.ch) s) ∙ ap length se ∙ sp.kept_eq

  length-old : length (visible_chars d) ≡ lo + length m + kept
  length-old =
      ap length sp.old_eq
      ∙ omega (
        arith,
        length-append sp.pre (sp.gone ++ sp.suf),
        length-append sp.gone sp.suf,
        sp.lo_eq,
        sp.kept_eq,
        length-gone,
      )

  length-new : length new ≡ lo + length sp.fresh + kept
  length-new =
      ap length sp.new_eq
      ∙ omega (
        arith,
        length-append sp.pre (sp.fresh ++ sp.suf),
        length-append sp.fresh sp.suf,
        sp.lo_eq,
        sp.kept_eq,
      )

  local_diff-replaced : local_diff d n site new ≡ replaced site n p m s sp.fresh
  unfolding visible_ids diff_to_ops
  local_diff-replaced =
      ap₂
        (λ i w.
          diff_between lo (length (visible_chars d) - kept) (length new - kept) (visible_chars d) i
            w site n)
        (ap ids_of seen) sp.new_eq
      ∙ diff_between-replaced site n lo (length (visible_chars d) - kept) (length new - kept) p m s
          sp.pre sp.fresh sp.suf (visible_chars d) length-front sp.lo_eq (omega (arith, length-old))
          (omega (arith, length-new)) (omega (arith, length-old, length-back))

-- For a well-formed document whose clocks are at most `n` and a list of single code points, the
-- batch of `diffToOps` succeeds as a whole. The document behind it shows that list under the
-- identifiers `nextIds`, is well formed, and its clocks are at most the returned clock.
pub diff_to_ops-Applied :
    (site : Text) (d : Doc) (n : ℕ) (new : List Text)
    → IsSite site
    → Ready d n
    → All (λ c. single_code_point c ≡ true) new
    → Applied d new (local_diff d n site new)
diff_to_ops-Applied site d n new named ready ones =
    let v = visible (walk d []) in
    let sp = diff-Split (chars_of v) new in
    let one = map-split (λ (y : Item). y.ch) v sp.pre (sp.gone ++ sp.suf) sp.old_eq in
    let two = map-split (λ (y : Item). y.ch) one.1 sp.gone sp.suf one.4 in
    let seen : v ≡ one.0 ++ (two.0 ++ two.1) = one.2 ∙ ap (λ t. one.0 ++ t) two.2 in
    let fresh_ones =
      All-middle (λ c. single_code_point c ≡ true) sp.pre sp.fresh sp.suf
        (subst (All (λ c. single_code_point c ≡ true)) sp.new_eq ones) in
    let text : chars_of one.0 ++ (sp.fresh ++ chars_of two.1) ≡ new =
      ap₂ (λ x y. x ++ (sp.fresh ++ y)) one.3 two.4 ∙ sym sp.new_eq in
    subst₂ (Applied d) text
      (sym (local_diff-replaced d n site new one.0 two.0 two.1 sp seen one.3 two.3 two.4))
      (apply-replaced site named d n ready one.0 two.0 two.1 seen sp.fresh fresh_ones)
