-- ===== src/Tree/Index.antt =====
-- `GetPathFromLeafIndex` and `GetLeafIndex` as they are called.
use open_liberty_operator.Common.{
  ℕ, suc, Str, ◌==◌, str_eq, nat_eq, not, [], ◌∷◌, none, some, ℤ, pos, negsuc, Result, ok, err,
  has_byte, split, is_some, if◌then◌else◌, length,
}
use open_liberty_operator.Tree.Node.{Node, Entries, find, value_at}
use open_liberty_operator.Tree.Walk.{
  Search, found, not_found, panicked, out_of_fuel, frame_of, path_loop, index_loop,
}
use open_liberty_operator.Tree.Shape.{shape, steps}

pub data LeafError : Type 0 where
  negative_index no_leaf panic fuel_spent : LeafError

-- Fuel for a traversal of the value `v`.
abbrev pub enough : Str → Node → ℕ
enough path v = suc (steps (shape v path))

unfoldable pub path_result : Search Str → Result LeafError Str
path_result (found p) = ok p
path_result not_found = err no_leaf
path_result panicked = err panic
path_result out_of_fuel = err fuel_spent

unfoldable pub get_path_from_leaf_index : Entries → Str → ℤ → Result LeafError Str
unfolding path_result
get_path_from_leaf_index tree_map version (negsuc i) = err negative_index
get_path_from_leaf_index tree_map version (pos i) =
    let root = value_at version tree_map in
    path_result (path_loop (enough version root) i 0 (frame_of version root ∷ []))

abbrev pub not_an_index : ℤ
not_an_index = negsuc 0

unfoldable pub index_result : Search ℕ → Result LeafError ℤ
index_result (found i) = ok (pos i)
index_result not_found = ok not_an_index
index_result panicked = err panic
index_result out_of_fuel = err fuel_spent

-- The part of a path before its first dot.
unfoldable pub first_segment : Str → Str
first_segment path = elim (split b'.' path) [ [] ↦ [] | p ∷ ps ↦ p ]

-- `GetLeafIndex`; -1 when the path is not found.
unfoldable pub get_leaf_index : Entries → Str → Result LeafError ℤ
unfolding index_result first_segment
get_leaf_index tree_map valid_path =
    if length valid_path == 0
    then ok not_an_index
    else if not (has_byte b'.' valid_path)
    then (if is_some (find valid_path tree_map) then ok (pos 0) else ok not_an_index)
    else elim (find (first_segment valid_path) tree_map) [
      | none ↦ ok not_an_index
      | some root ↦ index_result (
          index_loop (enough (first_segment valid_path) root) valid_path 0
            (frame_of (first_segment valid_path) root ∷ []))
    ]
