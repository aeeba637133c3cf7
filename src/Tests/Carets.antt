-- ===== src/Tests/Carets.antt =====
-- Carets (static/app.js) at concrete positions.
use goclipboard.Common.{◌≤◌, ◌≡◌, refl, none, List, [], ◌∷◌, arith, length}
use goclipboard.Text.{Text, codes, ◌===◌}
use goclipboard.CodePoints.{code_points}
use goclipboard.Session.Caret.{Cursor, map_caret_index, reanchor, refresh_position}
use goclipboard.Session.Caret.Bounds.{map_caret_index-bound}
use goclipboard.Session.Caret.Anchors.{refresh_position-reanchor}

map_caret_index-bound_example :
    (map_caret_index (codes "abcd") (codes "axd") 3 ≤ length (code_points (codes "axd")))
    × (map_caret_index (codes "abcd") (codes "axd") 1
        ≤ map_caret_index (codes "abcd") (codes "axd") 3)
map_caret_index-bound_example = map_caret_index-bound (codes "abcd") (codes "axd") 1 3 (omega arith)

abbrev ids : List Text
ids = codes "a:1" ∷ codes "b:2" ∷ codes "a:3" ∷ []

abbrev cursor : Cursor
cursor = record { pos = 2; end = 9; after_id = none; end_after_id = none }

refresh_position-reanchor_example : refresh_position ids (reanchor ids cursor) ≡ reanchor ids cursor
unfolding ◌===◌
refresh_position-reanchor_example =
    refresh_position-reanchor ids cursor (refl, (refl, (refl, tt))) (refl, (refl, (refl, tt)))
