-- ===== src/Tree/Maps.antt =====
-- The casts of a decision tree file, `ValidateMaps`, `GetLatestOperandVersion` and
-- `GetLabelFromDecisionPath`.
use open_liberty_operator.Common.{
  Str, codes, ◌==◌, str_eq, nat_eq, Bool, true, not, ◌&&◌, ◌||◌, List, [], ◌∷◌, ◌++◌, Option, none,
  some, ℤ, pos, ltb_ℤ, leb_ℤ, Result, ok, err, ◌>>=◌, is_some, is_ok, if◌then◌else◌, length,
}
use open_liberty_operator.Version.{
  compare_operand_version, is_operand_version_string, operand_version, operand_version_string,
}
use open_liberty_operator.Tree.Node.{
  Node, Entries, dict, end, entry, find, cast_map, cast_string, keys_of,
}
use open_liberty_operator.Tree.Walk.{dot}
use open_liberty_operator.Tree.Index.{get_path_from_leaf_index}
use open_liberty_operator.Tree.Traverse.{can_traverse_tree_strict}

-- `map[string]string` and `map[string]map[string]string`, as their entries in some order.
abbrev pub Labels : Type 0
Labels = List (Str × Str)

abbrev pub ReplaceMap : Type 0
ReplaceMap = List (Str × Labels)

-- `m[key]` of an association list.
unfoldable pub lookup : {V : Type 0} → Str → List (Str × V) → Option V
lookup k [] = none
lookup k ((j, v) ∷ m) = if j == k then some v else lookup k m

pub data CastError : Type 0 where
  label_not_string labels_not_map versions_not_map no_replace tree_not_map no_tree : CastError

-- The loop of `castLabelReplaceMap`.
cast_labels : Entries → Result CastError Labels
cast_labels end = ok []
cast_labels (entry k v es) = elim (cast_string v) [
  | none ↦ err label_not_string
  | some s ↦ cast_labels es >>= λ rest. ok ((k, s) ∷ rest)
]

unfoldable pub cast_label_replace_map : Node → Result CastError Labels
unfolding cast_labels
cast_label_replace_map v = elim (cast_map v) [
  | none ↦ err labels_not_map
  | some es ↦ cast_labels es
]

-- The loop of `castReplaceVersionMap`.
cast_versions : Entries → Result CastError ReplaceMap
unfolding cast_label_replace_map
cast_versions end = ok []
cast_versions (entry k v es) = elim (cast_map v) [
  | none ↦ err labels_not_map
  | some ls ↦
      cast_label_replace_map (dict ls)
      >>= (λ labels. cast_versions es >>= λ rest. ok ((k, labels) ∷ rest))
]

unfoldable pub cast_replace_version_map : Node → Result CastError ReplaceMap
unfolding cast_versions
cast_replace_version_map v = elim (cast_map v) [
  | none ↦ err versions_not_map
  | some es ↦ cast_versions es
]

-- `CastReplaceMap`.
unfoldable pub cast_replace_map : Entries → Result CastError ReplaceMap
unfolding cast_replace_version_map
cast_replace_map yaml = elim (find (codes "replace") yaml) [
  | none ↦ err no_replace
  | some v ↦ if is_some (cast_map v) then cast_replace_version_map v else err no_replace
]

-- `CastTreeMap`.
unfoldable pub cast_tree_map : Entries → Result CastError Entries
cast_tree_map yaml = elim (find (codes "tree") yaml) [
  | none ↦ err no_tree
  | some v ↦ elim (cast_map v) [ none ↦ err tree_not_map | some es ↦ ok es ]
]

all_versions : Entries → List Str → Bool
all_versions tree_map [] = true
all_versions tree_map (v ∷ vs) =
    is_ok (get_path_from_leaf_index tree_map v (pos 0)) && all_versions tree_map vs

all_replaced : Entries → ReplaceMap → Bool
all_replaced tree_map [] = true
all_replaced tree_map ((v, labels) ∷ rest) = is_some (find v tree_map) && all_replaced tree_map rest

labels_walk : Entries → Labels → Bool
labels_walk tree_map [] = true
labels_walk tree_map ((k, v) ∷ rest) =
    is_ok (can_traverse_tree_strict tree_map k)
    && is_ok (can_traverse_tree_strict tree_map v)
    && labels_walk tree_map rest

all_walk : Entries → ReplaceMap → Bool
unfolding labels_walk
all_walk tree_map [] = true
all_walk tree_map ((v, labels) ∷ rest) = labels_walk tree_map labels && all_walk tree_map rest

pub data MapsError : Type 0 where
  no_terminating_leaf replaced_not_in_tree label_not_in_tree : MapsError

-- `ValidateMaps`: the error, or none.
unfoldable pub validate_maps : Entries → ReplaceMap → Option MapsError
unfolding all_versions all_replaced all_walk
validate_maps tree_map replace_map =
    if not (all_versions tree_map (keys_of tree_map))
    then some no_terminating_leaf
    else if not (all_replaced tree_map replace_map)
    then some replaced_not_in_tree
    else if not (all_walk tree_map replace_map)
    then some label_not_in_tree
    else none

pub data LatestError : Type 0 where
  bad_key no_version comparison_panics bad_operand_version : LatestError

-- A comparison that must not panic.
abbrev pub compared : Str → Str → Result LatestError ℤ
compared a b = elim (compare_operand_version a b) [ none ↦ err comparison_panics | some d ↦ ok d ]

-- One round of the loop of `getLatestTreeMapOperandVersion`.
unfoldable pub newer : Str → Str → Str → Result LatestError Str
newer max_version best version = compared best version >>= λ c.
    if ltb_ℤ c (pos 0)
    then (compared max_version version >>= λ d. if leb_ℤ (pos 0) d then ok version else ok best)
    else ok best

unfoldable pub latest_from : Str → Str → List Str → Result LatestError Str
unfolding newer
latest_from max_version best [] = ok best
latest_from max_version best (version ∷ versions) =
    if not (is_operand_version_string version)
    then err bad_key
    else newer max_version best version >>= λ best'. latest_from max_version best' versions

-- `getLatestTreeMapOperandVersion`.
unfoldable pub get_latest_tree_map_operand_version : Entries → Str → Result LatestError Str
unfolding latest_from
get_latest_tree_map_operand_version tree_map max_version =
    latest_from max_version (codes "v0_0_0") (keys_of tree_map) >>= λ best.
    if is_some (find best tree_map) then ok best else err no_version

-- `GetLatestOperandVersion`.
unfoldable pub get_latest_operand_version : Entries → Str → Result LatestError Str
unfolding get_latest_tree_map_operand_version
get_latest_operand_version tree_map [] = elim (operand_version_string operand_version) [
  | err e ↦ err bad_operand_version
  | ok version ↦ get_latest_tree_map_operand_version tree_map version
]
get_latest_operand_version tree_map (c ∷ s) = get_latest_tree_map_operand_version tree_map (c ∷ s)

pub data LabelError : Type 0 where
  empty_lists different_lengths index_panics : LabelError

-- The loop of `GetLabelFromDecisionPath`: each option and choice behind the label so far.
weave : Str → List Str → List Str → Result LabelError Str
weave label [] choices = ok label
weave label (option ∷ options) [] = err index_panics
weave label (option ∷ options) (choice ∷ choices) =
    let label' = label ++ (option ++ (dot ++ choice)) in
    weave (if not (length options == 0) && not (length choice == 0) then label' ++ dot else label')
      options choices

unfoldable pub get_label_from_decision_path : Str → List Str → List Str → Result LabelError Str
unfolding weave
get_label_from_decision_path version options choices =
    if length options == 0 || length choices == 0
    then err empty_lists
    else if not (length options == length choices)
    then err different_lengths
    else weave (version ++ dot) options choices
