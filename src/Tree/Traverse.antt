-- ===== src/Tree/Traverse.antt =====
-- `CanTraverseTree` and `getCastedListElement`. An error carries the sub path that the source
-- returns beside it.
use open_liberty_operator.Common.{
  Str, codes, ◌==◌, str_eq, nat_eq, Bool, true, false, not, ◌&&◌, ◌||◌, List, [], ◌∷◌, ◌++◌, Option,
  none, some, Result, ok, err, has_byte, split, is_some, if◌then◌else◌, length, format_bool,
}
use open_liberty_operator.Tree.Node.{
  Node, Nodes, Entries, flag, text, list, dict, other, nil, cons, find,
}
use open_liberty_operator.Tree.Walk.{dot}

pub data Reason : Type 0 where
  not_a_pair no_key element_missing not_a_constant not_a_map no_matching_flag no_matching_text
        ends_at_map not_castable no_true no_false no_element not_specified :
      Reason

abbrev pub Traversed : Type 0
Traversed = Result (Str × Reason) Str

-- The flags that the loop over the list sets.
pub record Seen : Type 0 where
  pub has_true : Bool
  pub has_false : Bool
  pub has_string : Bool

abbrev pub nothing_seen : Seen
nothing_seen = record { has_true = false; has_false = false; has_string = false }

unfoldable pub look_at : Str → Node → Seen → Seen
look_at element (flag true) seen = record seen { has_true = true }
look_at element (flag false) seen = record seen { has_false = true }
look_at element (text s) seen = if s == element then record seen { has_string = true } else seen
look_at element (list ns) seen = seen
look_at element (dict es) seen = seen
look_at element other seen = seen

unfoldable pub look_through : Str → Nodes → Seen → Seen
unfolding look_at
look_through element nil seen = seen
look_through element (cons n ns) seen = look_through element ns (look_at element n seen)

-- `getCastedListElement`.
unfoldable pub get_casted_list_element : Nodes → Str → Str → Traversed
unfolding look_through
get_casted_list_element casted_list path element =
    let seen = look_through element casted_list nothing_seen in
    if not (length element == 0)
    then (if element == codes "true"
        then (if not seen.has_true then err (path, no_true) else ok (path ++ codes ".true"))
        else if element == codes "false"
        then (if not seen.has_false then err (path, no_false) else ok (path ++ codes ".false"))
        else if not seen.has_string
        then err (path, no_element)
        else ok (path ++ (dot ++ element)))
    else err (path, not_specified)

-- An element of the loop that is no map, reached on the path `path` (without its last dot).
unfoldable pub end_of_sub_path : Bool → Node → Str → Str → Traversed
unfolding get_casted_list_element format_bool
end_of_sub_path false v path element = err (path ++ dot, not_a_map)
end_of_sub_path true (flag b) path element = ok (path ++ (dot ++ format_bool b))
end_of_sub_path true (text s) path element = ok (path ++ (dot ++ s))
end_of_sub_path true (list ns) path element = get_casted_list_element ns path element
end_of_sub_path true (dict es) path element = err (path ++ dot, not_a_constant)
end_of_sub_path true other path element = err (path ++ dot, not_a_constant)

-- The last element of the path key, reached on `path`, against the path value.
unfoldable pub last_element : Node → Str → Str → Traversed
unfolding get_casted_list_element format_bool
last_element (flag b) path path_value =
    if path_value == codes "true" && b || path_value == codes "false" && not b
    then ok (path ++ (dot ++ format_bool b))
    else err (path, no_matching_flag)
last_element (text s) path path_value =
    if s == path_value then ok (path ++ (dot ++ s)) else err (path, no_matching_text)
last_element (list ns) path path_value = get_casted_list_element ns path path_value
last_element (dict es) path path_value = err (path, ends_at_map)
last_element other path path_value = err (path, not_castable)

-- The loop over the segments of the path key and the step behind it. `path` is `currPathString`.
unfoldable pub walk : Bool → Entries → Str → List Str → Str → Traversed
unfolding end_of_sub_path last_element
walk allow curr_map path [] path_value = err (path, element_missing)
walk allow curr_map path (segment ∷ []) path_value = elim (find segment curr_map) [
  | none ↦ err (path, element_missing)
  | some v ↦ last_element v (path ++ segment) path_value
]
walk allow curr_map path (segment ∷ next ∷ rest) path_value = elim (find segment curr_map) [
  | none ↦ err (path, element_missing)
  | some (dict es) ↦ walk allow es (path ++ (segment ++ dot)) (next ∷ rest) path_value
  | some v ↦ end_of_sub_path allow v (path ++ segment) next
]

-- `path[:dotLoc]` and `path[dotLoc+1:]` for the last dot.
unfoldable pub split_last : Str → Option (Str × Str)
split_last [] = none
split_last (c ∷ s) = elim (split_last s) [
  | some (key, v) ↦ some (c ∷ key, v)
  | none ↦ if c == b'.' then some ([], s) else none
]

unfoldable pub can_traverse_tree : Entries → Str → Bool → Traversed
unfolding split_last walk
can_traverse_tree tree_map path allow_sub_paths =
    if length path == 0 then ok path else elim (split_last path) [
      | none ↦ err ([], not_a_pair)
      | some (path_key, path_value) ↦
          if length path_value == 0
          then err ([], not_a_pair)
          else if not (has_byte b'.' path_key)
          then (if is_some (find path_key tree_map) then ok [] else err ([], no_key))
          else walk allow_sub_paths tree_map [] (split b'.' path_key) path_value
    ]

-- `CanTraverseTreeStrict`.
unfoldable pub can_traverse_tree_strict : Entries → Str → Traversed
unfolding can_traverse_tree
can_traverse_tree_strict tree_map path = can_traverse_tree tree_map path false
