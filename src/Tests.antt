-- ===== src/Tests.antt =====
-- Runs of the definitions on small inputs, and the theorems at concrete inputs.
mod Documents
mod Texts
mod Sessions
mod Carets
mod Tabs
mod Pages
use goclipboard.Common.{ℕ}
use goclipboard.Text.{◌===◌, compare_text}
use goclipboard.Dict.{get, set, keys}
use goclipboard.Number.{number, positive_integer, decimal}
use goclipboard.Ids.{
  parse_id, index_of_colon, format_id, compare_id, sibling_order, compare_sibling,
  max_clock_from_ids,
}
use goclipboard.CodePoints.{
  single_code_point, code_points, utf16_to_code_point_offset, code_point_to_utf16_offset,
}
use goclipboard.Doc.{
  len, kids, insert_sorted, insert_child, max_clock, has, parses, add, insert, delete, apply,
  batch_loop, apply_batch, walk_loop, walk, materialize, visible_ids, to_items, from_items, clone,
  build_from_string,
}
use goclipboard.Diff.{
  prefix_length, suffix_length, at, ids_from, insert_ops, inserted_ids, diff_between, diff_to_ops,
}

-- To unfold this is to unfold the functions of static/crdt.js.
crdt : ℕ
unfolding ◌===◌ compare_text get set keys number positive_integer decimal parse_id index_of_colon
    format_id compare_id sibling_order compare_sibling max_clock_from_ids single_code_point
    code_points utf16_to_code_point_offset code_point_to_utf16_offset len kids insert_sorted
    insert_child max_clock has parses add insert delete apply batch_loop apply_batch walk_loop walk
    materialize visible_ids to_items from_items clone build_from_string prefix_length suffix_length
    at ids_from insert_ops inserted_ids diff_between diff_to_ops
crdt = 0
