-- ===== src/Tree/Walk.antt =====
-- `GetPathFromLeafIndex` and `GetLeafIndex`: iterative traversals with an explicit stack. A loop
-- takes fuel, and `node_steps` below is enough of it (Tree/Search.antt).
use open_liberty_operator.Common.{
  ℕ, zero, suc, Str, ◌==◌, str_eq, nat_eq, List, [], ◌∷◌, ◌++◌, Option, none, some, if◌then◌else◌,
  get_elem?, ltb,
}
use open_liberty_operator.Tree.Node.{
  Node, Nodes, Entries, flag, text, list, dict, other, value_at, count_entries, count_nodes,
  node_at, is_leaf_node, get_sorted_keys,
}

-- `AnnotatedTreeNode`. `next` is its `index + 1`: how many children have been pushed.
pub record Frame : Type 0 where
  pub parent_path : Str
  pub value : Node
  pub next : ℕ
  pub sorted_keys : List Str

abbrev pub dot : Str
dot = b'.' ∷ []

-- A frame for a node that has just been reached.
abbrev pub frame_of : Str → Node → Frame
frame_of path v = record {
  parent_path = path;
  value = v;
  next = 0;
  sorted_keys = get_sorted_keys v;
}

abbrev pub with_next : Frame → Frame
with_next top = record top { next = suc top.next }

-- The frame of the map's child at `top.sortedKeys[top.index]`; out of range the source panics.
unfoldable pub map_child : Frame → Entries → Option Frame
map_child top child_map = elim (get_elem? top.sorted_keys top.next) [
  | none ↦ none
  | some key ↦ some (frame_of (top.parent_path ++ (dot ++ key)) (value_at key child_map))
]

unfoldable pub list_child : Frame → Nodes → Option Frame
list_child top child_list = elim (node_at child_list top.next) [
  | none ↦ none
  | some v ↦ some (frame_of top.parent_path v)
]

unfoldable pub push_child : Frame → List Frame → Option Frame → Option (List Frame)
push_child top stack none = none
push_child top stack (some child) = some (child ∷ with_next top ∷ stack)

-- The stack after a node that is no leaf: the parent again with one more child pushed, or without
-- the parent once it has no more children. `none` is a panic.
unfoldable pub expand : Node → Frame → List Frame → Option (List Frame)
unfolding push_child map_child list_child
expand (dict child_map) top stack =
    if ltb top.next (count_entries child_map)
    then push_child top stack (map_child top child_map)
    else some stack
expand (list child_list) top stack =
    if ltb top.next (count_nodes child_list)
    then push_child top stack (list_child top child_list)
    else some stack
expand (flag b) top stack = some stack
expand (text s) top stack = some stack
expand other top stack = some stack

pub data Search (A : Type 0) : Type 0 where
  found : A → Search A
  not_found : Search A
  panicked : Search A
  out_of_fuel : Search A

abbrev pub leaf_path : Frame → Str → Str
leaf_path top leaf = top.parent_path ++ (dot ++ leaf)

-- The loop of `GetPathFromLeafIndex`. `seen` is its `leafCount + 1`.
unfoldable pub path_loop : ℕ → ℕ → ℕ → List Frame → Search Str
path_loop zero index seen stack = out_of_fuel
path_loop (suc fuel) index seen [] = not_found
path_loop (suc fuel) index seen (top ∷ stack) = elim (is_leaf_node top.value) [
  | some leaf ↦
      let more = path_loop fuel index (suc seen) stack in
      if seen == index then found (leaf_path top leaf) else more
  | none ↦ elim (expand top.value top stack) [
    | none ↦ panicked
    | some stack' ↦ path_loop fuel index seen stack'
  ]
]

-- The loop of `GetLeafIndex`.
unfoldable pub index_loop : ℕ → Str → ℕ → List Frame → Search ℕ
index_loop zero path seen stack = out_of_fuel
index_loop (suc fuel) path seen [] = not_found
index_loop (suc fuel) path seen (top ∷ stack) = elim (is_leaf_node top.value) [
  | some leaf ↦
      let more = index_loop fuel path (suc seen) stack in
      if leaf_path top leaf == path then found seen else more
  | none ↦ elim (expand top.value top stack) [
    | none ↦ panicked
    | some stack' ↦ index_loop fuel path seen stack'
  ]
]
