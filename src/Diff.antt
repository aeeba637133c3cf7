-- ===== src/Diff.antt =====
-- The difference of two texts as operations (static/crdt.js: diffToOps): what the ends have in
-- common stays, the middle of the old text is deleted and that of the new one inserted.
pub mod Split
pub mod Cut
pub mod Run
pub mod Build
pub mod Correct
use goclipboard.Common.{
  ℕ, zero, suc, ◌+◌, ◌-◌, Bool, true, false, Option, none, some, List, [], ◌∷◌, ◌++◌, map, reverse,
  if◌then◌else◌, length, get_elem?, take, drop, filter, ltb,
}
use goclipboard.Text.{Text, ◌===◌}
use goclipboard.Ids.{format_id}
use goclipboard.Doc.{Op, ins, del, other}

-- The first loop: the length of the common prefix.
unfoldable pub prefix_length : List Text → List Text → ℕ
prefix_length [] new = 0
prefix_length (a ∷ old) [] = 0
prefix_length (a ∷ old) (b ∷ new) = if a === b then suc (prefix_length old new) else 0

-- The second loop, which goes down from both ends and stops at `lo`.
unfoldable pub suffix_length : ℕ → List Text → List Text → ℕ
unfolding prefix_length
suffix_length lo old new = prefix_length (reverse (drop lo old)) (reverse (drop lo new))

-- `ids[i]`; the empty text stands for `undefined`, which does not parse either.
or_undefined : Option Text → Text
or_undefined none = []
or_undefined (some id) = id

unfoldable pub at : List Text → ℕ → Text
unfolding or_undefined
at ids i = or_undefined (get_elem? ids i)

-- `ids[i]` for `n` indices from `i` on
unfoldable pub ids_from : ℕ → ℕ → List Text → List Text
unfolding at
ids_from zero i ids = []
ids_from (suc n) i ids = at ids i ∷ ids_from n (suc i) ids

-- One insertion for each character, each behind the one before it.
unfoldable pub insert_ops : Text → ℕ → Text → List Text → List Op
insert_ops site clock after [] = []
insert_ops site clock after (c ∷ cs) =
    ins (format_id site (clock + 1)) after c
    ∷ insert_ops site (clock + 1) (format_id site (clock + 1)) cs

unfoldable pub inserted_ids : List Op → List Text
inserted_ids [] = []
inserted_ids (ins id after c ∷ ops) = id ∷ inserted_ids ops
inserted_ids (del id ∷ ops) = inserted_ids ops
inserted_ids (other op id ∷ ops) = inserted_ids ops

pub record Diff : Type 0 where
  pub ops : List Op
  pub next_ids : List Text
  pub clock : ℕ

-- The part behind the two loops, where the old text is kept below `lo` and from `ro_old` on.
unfoldable pub diff_between : ℕ → ℕ → ℕ → List Text → List Text → List Text → Text → ℕ → Diff
unfolding ids_from inserted_ids insert_ops at
diff_between lo ro_old ro_new old_chars old_ids new_chars site clock =
    let after = if ltb 0 lo then at old_ids (lo - 1) else [] in
    let fresh = take (ro_new - lo) (drop lo new_chars) in
    let ops = map del (ids_from (ro_old - lo) lo old_ids) ++ insert_ops site clock after fresh in
    record {
      ops = ops;
      next_ids =
          ids_from lo 0 old_ids
          ++ (inserted_ids ops ++ ids_from (length old_chars - ro_old) ro_old old_ids);
      clock = clock + length fresh;
    }

unfoldable pub diff_to_ops : List Text → List Text → List Text → Text → ℕ → Diff
diff_to_ops old_chars old_ids new_chars site clock =
    let lo = prefix_length old_chars new_chars in
    let kept = suffix_length lo old_chars new_chars in
    diff_between lo (length old_chars - kept) (length new_chars - kept) old_chars old_ids new_chars
      site clock
