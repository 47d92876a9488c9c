-- ===== src/Tree/Node.antt =====
-- The values that a decision tree file unmarshals to, and their casts.
use open_liberty_operator.Common.{
  ℕ, zero, suc, Str, ◌==◌, str_eq, Bool, List, [], ◌∷◌, Option, none, some, str_ltb, if◌then◌else◌,
  format_bool,
}

-- A Go `interface{}`: a bool, a string, a list, a map, or anything else (nil, a number). A map is
-- the list of its entries in some order; a Go map has no key twice.
mutual
  pub data Node : Type 0 where
    flag : Bool → Node
    text : Str → Node
    list : Nodes → Node
    dict : Entries → Node
    other : Node

  pub data Nodes : Type 0 where
    nil : Nodes
    cons : Node → Nodes → Nodes

  pub data Entries : Type 0 where
    end : Entries
    entry : Str → Node → Entries → Entries

-- `castMap`, `castList`, `castBool`, `castString`.
abbrev pub cast_map : Node → Option Entries
cast_map (dict es) = some es
cast_map _ = none

abbrev pub cast_list : Node → Option Nodes
cast_list (list ns) = some ns
cast_list _ = none

abbrev pub cast_bool : Node → Option Bool
cast_bool (flag b) = some b
cast_bool _ = none

abbrev pub cast_string : Node → Option Str
cast_string (text s) = some s
cast_string _ = none

-- `m[key]` with its `found`.
unfoldable pub find : Str → Entries → Option Node
find k end = none
find k (entry j v es) = if j == k then some v else find k es

-- `m[key]` alone: nil for a missing key.
abbrev pub value_at : Str → Entries → Node
value_at k es = elim (find k es) [ none ↦ other | some v ↦ v ]

abbrev pub keys_of : Entries → List Str
keys_of end = []
keys_of (entry k v es) = k ∷ keys_of es

abbrev pub count_entries : Entries → ℕ
count_entries end = 0
count_entries (entry k v es) = suc (count_entries es)

abbrev pub count_nodes : Nodes → ℕ
count_nodes nil = 0
count_nodes (cons n ns) = suc (count_nodes ns)

abbrev pub node_at : Nodes → ℕ → Option Node
node_at nil i = none
node_at (cons n ns) zero = some n
node_at (cons n ns) (suc i) = node_at ns i

-- `isLeafNode`: the leaf's text.
unfoldable pub is_leaf_node : Node → Option Str
unfolding format_bool
is_leaf_node (flag b) = some (format_bool b)
is_leaf_node (text s) = some s
is_leaf_node (list ns) = none
is_leaf_node (dict es) = none
is_leaf_node other = none

unfoldable pub insert_sorted : Str → List Str → List Str
unfolding str_ltb
insert_sorted k [] = k ∷ []
insert_sorted k (j ∷ js) =
    let rest = insert_sorted k js in if str_ltb j k then j ∷ rest else k ∷ j ∷ js

-- `sort.Strings`.
unfoldable pub sort_strings : List Str → List Str
unfolding insert_sorted
sort_strings [] = []
sort_strings (k ∷ ks) = insert_sorted k (sort_strings ks)

-- `getSortedKeysFromMapInterface`.
unfoldable pub get_sorted_keys : Node → List Str
unfolding sort_strings
get_sorted_keys (dict es) = sort_strings (keys_of es)
get_sorted_keys (flag b) = []
get_sorted_keys (text s) = []
get_sorted_keys (list ns) = []
get_sorted_keys other = []
