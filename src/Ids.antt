-- ===== src/Ids.antt =====
-- Identifiers of characters, `site:clock` (static/crdt.js: parseID, formatID, compareID,
-- compareSibling, maxClockFromIds). A comparison's result -1, 0 or 1 is an `Ordering`.
pub mod Order
pub mod Format
use goclipboard.Common.{
  ℕ, zero, suc, ◌-◌, Bool, true, false, ◌||◌, Option, none, some, List, [], ◌∷◌, ◌++◌, compare,
  Ordering, ltb, ◌==◌, if◌then◌else◌, length, take, drop,
}
use goclipboard.Text.{Text, ◌===◌, compare_text}
use goclipboard.Number.{Number, number, positive_integer, decimal}

pub record Stamp : Type 0 where
  pub site : Text
  pub clock : ℕ

-- `id.indexOf(":")`
unfoldable pub index_of_colon : Text → Option ℕ
index_of_colon [] = none
index_of_colon (c ∷ t) =
    if c == b':' then some 0 else elim (index_of_colon t) [ none ↦ none | some i ↦ some (suc i) ]

stamp : Text → Option ℕ → Option Stamp
stamp site none = none
stamp site (some clock) = some (record { site = site; clock = clock })

parse_at : Text → Option ℕ → Option Stamp
parse_at id none = none
parse_at id (some i) =
    if i == 0 || i == length id - 1
    then none
    else stamp (take i id) (positive_integer (number (drop (suc i) id)))

unfoldable pub parse_id : Text → Option Stamp
unfolding parse_at stamp
parse_id id = parse_at id (index_of_colon id)

unfoldable pub format_id : Text → ℕ → Text
format_id site clock = site ++ b':' ∷ decimal clock

-- Site first, then clock.
compare_stamps : Option Stamp → Option Stamp → Ordering → Ordering
compare_stamps none pb otherwise = otherwise
compare_stamps (some pa) none otherwise = otherwise
compare_stamps (some pa) (some pb) otherwise = elim (compare_text pa.site pb.site) [
  | Ordering.lt ↦ Ordering.lt
  | Ordering.gt ↦ Ordering.gt
  | Ordering.eq ↦ compare pa.clock pb.clock
]

unfoldable pub compare_id : Text → Text → Ordering
unfolding compare_stamps
compare_id a b =
    if a === b then Ordering.eq else compare_stamps (parse_id a) (parse_id b) (compare_text a b)

-- The larger clock first, then the site.
unfoldable pub sibling_order : Stamp → Stamp → Ordering
sibling_order pa pb = elim (compare pa.clock pb.clock) [
  | Ordering.gt ↦ Ordering.lt
  | Ordering.lt ↦ Ordering.gt
  | Ordering.eq ↦ compare_text pa.site pb.site
]

sibling_stamps : Option Stamp → Option Stamp → Ordering → Ordering
sibling_stamps none pb otherwise = otherwise
sibling_stamps (some pa) none otherwise = otherwise
sibling_stamps (some pa) (some pb) otherwise = sibling_order pa pb

unfoldable pub compare_sibling : Text → Text → Ordering
unfolding sibling_stamps
compare_sibling a b =
    if a === b then Ordering.eq else sibling_stamps (parse_id a) (parse_id b) (compare_id a b)

bump : ℕ → Option Stamp → ℕ
bump m none = m
bump m (some p) = if ltb m p.clock then p.clock else m

pub max_clock_loop : ℕ → List Text → ℕ
unfolding bump
max_clock_loop m [] = m
max_clock_loop m (id ∷ ids) = max_clock_loop (bump m (parse_id id)) ids

unfoldable pub max_clock_from_ids : List Text → ℕ
unfolding max_clock_loop
max_clock_from_ids ids = max_clock_loop 0 ids
