-- ===== src/Tests/Texts.antt =====
-- Identifiers, numbers and code points (static/crdt.js) on concrete texts.
use goclipboard.Common.{All, ◌∷◌, [], true, ◌≡◌, refl, some, Ordering, arith, false}
use goclipboard.Tests.{crdt}
use goclipboard.Text.{Text, codes}
use goclipboard.Number.{number, nan, fraction}
use goclipboard.Ids.{parse_id, format_id, compare_sibling}
use goclipboard.Ids.Format.{parse_id-format_id}
use goclipboard.Ids.Order.{compare_sibling_trans}
use goclipboard.CodePoints.{code_points, single_code_point}
use goclipboard.CodePoints.Laws.{join, Whole, code_points-Whole}

numbers :
    (number (codes " 12 ") ≡ fraction false 12 1)
    × (number (codes "0x1F") ≡ fraction false 31 1)
    × (number (codes "1.5e1") ≡ fraction false 150 10)
    × (number (codes "7x") ≡ nan)
unfolding crdt
numbers = (refl, refl, refl, refl)

parse_id-format_id_example :
    parse_id (format_id (codes "ab") 17) ≡ some (record { site = codes "ab"; clock = 17 })
parse_id-format_id_example =
    parse_id-format_id (codes "ab") 17
      (record { named = λ e. cc; plain = ((λ e. omega arith), ((λ e. omega arith), tt)) })
      (omega arith)

-- A pair, and a high unit of its own.
abbrev smile : Text
smile = 0xd83d ∷ 0xde00 ∷ 0xd83d ∷ []

code_points-Whole_example :
    (join (code_points smile) ≡ smile)
    × All (λ c. single_code_point c ≡ true) (code_points smile)
    × Whole (code_points smile)
code_points-Whole_example = code_points-Whole smile (omega arith, (omega arith, (omega arith, tt)))

compare_sibling_trans_example : compare_sibling (codes "b:3") (codes "b:1") ≡ Ordering.lt
unfolding crdt
compare_sibling_trans_example =
    compare_sibling_trans (codes "b:3") (codes "a:2") (codes "b:1") refl refl refl refl refl
