-- ===== src/Tree/Tests.antt =====
-- A small decision tree.
use open_liberty_operator.Common.{
  ℕ, Str, codes, ◌==◌, str_eq, str_beq, true, false, [], ◌∷◌, ◌++◌, pos, ok, ◌≡◌, refl, ap, ◌⊎◌,
  inl, inr, Lacks, has_byte, has_byte-Lacks, Distinct, In, All, is_some, arith, split, format_bool,
}
use mathlib.Core.List.{cons-ne-nil}
use open_liberty_operator.Version.{is_operand_version_string, compare_operand_version}
use open_liberty_operator.Tree.Node.{
  Node, Entries, flag, list, dict, nil, cons, end, entry, find, value_at, keys_of, is_leaf_node,
  get_sorted_keys, sort_strings,
}
use open_liberty_operator.Tree.Walk.{dot, path_loop, index_loop, expand}
use open_liberty_operator.Tree.Shape.{leaf_paths, leaves, shape, steps}
use open_liberty_operator.Tree.Index.{get_path_from_leaf_index, get_leaf_index}
use open_liberty_operator.Tree.RoundTrip.{
  nth_leaf, index_or_not, get_path_from_leaf_index-nth_leaf, get_leaf_index-position,
}
use open_liberty_operator.Tree.Search.{position}
use open_liberty_operator.Tree.Inverse.{get_leaf_index-get_path, get_path-get_leaf_index}
use open_liberty_operator.Tree.Traverse.{can_traverse_tree}
use open_liberty_operator.Tree.Validated.{can_traverse_tree-get_leaf_index}
use open_liberty_operator.Tree.Maps.{ReplaceMap, get_latest_tree_map_operand_version}
use open_liberty_operator.Tree.Latest.{UpTo, get_latest-greatest}
use open_liberty_operator.Tree.Replace.{replace_path}
use open_liberty_operator.Tree.Downgrade.{Ends, replace_path-Ends}

abbrev version : Str
version = codes "v1_4_0"

abbrev root : Node
root = dict (entry (codes "ltpa") (list (cons (flag true) (cons (flag false) nil))) end)

abbrev tree : Entries
tree = entry version root end

abbrev lowering : ReplaceMap
lowering = (codes "v1_4_1", (codes "v1_4_0.b", codes "v1_4_1.a") ∷ []) ∷ []

abbrev second_path : Str
second_path = codes "v1_4_0.ltpa.false"

version-Lacks : Lacks b'.' version
unfolding has_byte
version-Lacks = has_byte-Lacks b'.' version refl

get_path_from_leaf_index-nth_leaf_example :
    get_path_from_leaf_index tree version (pos 1)
    ≡ nth_leaf (leaf_paths version (value_at version tree)) 1
get_path_from_leaf_index-nth_leaf_example = get_path_from_leaf_index-nth_leaf tree version 1

get_leaf_index-position_example :
    get_leaf_index tree (version ++ (dot ++ codes "ltpa.false"))
    ≡ ok
        (index_or_not (position (version ++ (dot ++ codes "ltpa.false")) (leaf_paths version root)))
unfolding find str_beq
get_leaf_index-position_example =
    get_leaf_index-position tree version (codes "ltpa.false") root version-Lacks refl

paths-Distinct : Distinct (leaf_paths version root)
unfolding leaves shape format_bool str_beq sort_strings
paths-Distinct =
    ((λ m. elim m [ inl e ↦ differ (ap (λ s. s == second_path) e) | inr n ↦ n ]), ((λ m. m), tt))
  where
    differ : false ≡ true → ⊥
    differ e = ground (arith, e)

get_leaf_index-get_path_example : get_leaf_index tree second_path ≡ ok (pos 1)
unfolding find str_beq get_path_from_leaf_index path_loop is_leaf_node expand get_sorted_keys steps
    shape
get_leaf_index-get_path_example =
    get_leaf_index-get_path tree version root 1 second_path version-Lacks refl paths-Distinct refl

get_path-get_leaf_index_example :
    get_path_from_leaf_index tree version (pos 1) ≡ ok (version ++ (dot ++ codes "ltpa.false"))
unfolding find str_beq get_leaf_index has_byte split index_loop is_leaf_node expand get_sorted_keys
    steps shape
get_path-get_leaf_index_example =
    get_path-get_leaf_index tree version root 1 (codes "ltpa.false") version-Lacks refl refl

can_traverse_tree-get_leaf_index_example : (i : ℕ) × (get_leaf_index tree second_path ≡ ok (pos i))
unfolding can_traverse_tree find str_beq has_byte split
can_traverse_tree-get_leaf_index_example =
    can_traverse_tree-get_leaf_index tree second_path true second_path refl
      (cons-ne-nil b'v' (codes "1_4_0.ltpa.false"))

get_latest-greatest_example :
    (is_some (find version tree) ≡ true)
    × ((version ≡ codes "v0_0_0") ⊎ (In version (keys_of tree) × UpTo (codes "v1_6_2") version))
    × All (λ v. UpTo (codes "v1_6_2") v → UpTo version v) (keys_of tree)
unfolding is_operand_version_string get_latest_tree_map_operand_version find str_beq
    compare_operand_version
get_latest-greatest_example = get_latest-greatest tree (codes "v1_6_2") version refl refl

replace_path-Ends_example : Ends (replace_path (codes "v1_4_1.a") (codes "v1_4_0") tree lowering)
replace_path-Ends_example = replace_path-Ends (codes "v1_4_1.a") (codes "v1_4_0") tree lowering
