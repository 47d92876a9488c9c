-- ===== src/Sharing/RebuildTests.antt =====
-- Rebuilding trackers from concrete labels.
use open_liberty_operator.Common.{
  All, ◌≢◌, Str, codes, str_eq, str_beq, true, false, [], ◌∷◌, none, some, ok, ◌≡◌, refl, arith,
  has_byte, has_byte-Lacks, split, parse_int, format_int,
}
use open_liberty_operator.Version.{
  compare_operand_version, is_valid_operand_version, is_operand_version_string,
}
use open_liberty_operator.Tree.Node.{
  Node, Entries, flag, list, dict, nil, cons, end, entry, find, is_leaf_node, get_sorted_keys,
}
use open_liberty_operator.Tree.Maps.{ReplaceMap, lookup, get_latest_operand_version}
use open_liberty_operator.Tree.Walk.{path_loop, index_loop, expand}
use open_liberty_operator.Tree.Shape.{shape, steps}
use open_liberty_operator.Tree.Index.{get_leaf_index, get_path_from_leaf_index}
use open_liberty_operator.Tree.Replace.{replace_path}
use open_liberty_operator.Sharing.{elect}
use open_liberty_operator.Sharing.Recreate.{
  Labelled, path_index_of, Tracking, tracking, track_resource, create_new_leader_tracker_list,
}
use open_liberty_operator.Sharing.Again.{track_resource_again}
use open_liberty_operator.Sharing.Collision.{
  has_default_ltpa_key_collision, track_resource-has_default_ltpa_key_collision,
}
use open_liberty_operator.Sharing.Vacant.{Vacant, elect-create}

abbrev older : Str
older = codes "v1_4_0"

abbrev newer : Str
newer = codes "v1_4_1"

abbrev leaves : Node
leaves = dict (entry (codes "ltpa") (list (cons (flag true) (cons (flag false) nil))) end)

abbrev tree : Entries
tree = entry older leaves (entry newer leaves end)

abbrev replacements : ReplaceMap
replacements = (newer, (codes "v1_4_0.ltpa.false", codes "v1_4_1.ltpa.true") ∷ []) ∷ []

abbrev key : Labelled
key = record { name = codes "ltpa-aaaaa"; path_index = some (codes "v1_4_0.1") }

abbrev tracked : Tracking
tracked =
    tracking (codes "-aaaaa") (codes "v1_4_1.0") (codes "v1_4_1.ltpa.true")
      (some (codes "v1_4_1.0"))

key-tracked :
    track_resource tree replacements newer (codes "ltpa") (λ n. false) key ≡ ok (some tracked)
unfolding track_resource replace_path get_path_from_leaf_index get_leaf_index path_loop index_loop
    str_beq has_byte split parse_int is_leaf_node find expand get_sorted_keys steps shape
    is_valid_operand_version compare_operand_version get_latest_operand_version
    is_operand_version_string lookup format_int
key-tracked = refl

track_resource_again_example :
    track_resource tree replacements newer
      (codes "ltpa")
      (λ n. true)
      (record { name = codes "ltpa-aaaaa"; path_index = some (codes "v1_4_1.0") })
    ≡ ok (some (record { tracker = tracked.tracker; relabelled = none }))
unfolding find str_beq get_leaf_index index_loop has_byte split is_leaf_node expand get_sorted_keys
    steps shape
track_resource_again_example =
    track_resource_again tree replacements newer (codes "ltpa") (λ n. false) (λ n. true)
      (codes "ltpa-aaaaa") (codes "v1_4_0.1") tracked (codes "v1_4_1.0") (codes "ltpa.true") leaves
      0 key-tracked refl refl (has_byte-Lacks b'.' newer (unfold has_byte in refl)) refl refl
      (omega arith)

elect-create_example :
    let ts =
      (create_new_leader_tracker_list tree replacements newer
        (λ n. false)
        ((codes "ltpa", key ∷ []) ∷ [])
        []).trackers in
    Vacant ts
    × ((elect
          (codes "app-a")
          (record {
            name = codes "-aaaaa";
            path = codes "v1_4_1.ltpa.true";
            path_index = codes "v1_4_1.0";
          })
          true
          ts).answer.leader
        ≡ codes "app-a")
    × ((elect
          (codes "app-a")
          (record {
            name = codes "-aaaaa";
            path = codes "v1_4_1.ltpa.true";
            path_index = codes "v1_4_1.0";
          })
          true
          ts).answer.is_leader
        ≡ true)
elect-create_example =
    elect-create tree replacements newer (λ n. false) ((codes "ltpa", key ∷ []) ∷ [])
      (codes "app-a")
      (record {
        name = codes "-aaaaa";
        path = codes "v1_4_1.ltpa.true";
        path_index = codes "v1_4_1.0";
      })

abbrev other_index : Str
other_index = codes "v1_4_1.1"

other-latest :
    (version index : Str) → split b'.' other_index ≡ version ∷ index ∷ [] → version ≡ newer
unfolding split
other-latest version index e = ground (arith, e)

no_collision :
    has_default_ltpa_key_collision tree replacements newer other_index (codes "ltpa") (key ∷ [])
    ≡ ok false
unfolding has_default_ltpa_key_collision replace_path get_path_from_leaf_index get_leaf_index
    path_loop index_loop str_beq has_byte split parse_int is_leaf_node find expand get_sorted_keys
    steps shape is_valid_operand_version compare_operand_version get_latest_operand_version
    is_operand_version_string lookup format_int path_index_of
no_collision = refl

track_resource-has_default_ltpa_key_collision_example :
    All
      (λ r.
        r.name ≢ codes "ltpa"
        → (k : Tracking)
        → track_resource tree replacements newer (codes "ltpa") (λ n. false) r ≡ ok (some k)
        → k.tracker.path_index ≢ other_index)
      (key ∷ [])
track_resource-has_default_ltpa_key_collision_example =
    track_resource-has_default_ltpa_key_collision tree replacements newer other_index (codes "ltpa")
      (λ n. false) (key ∷ []) other-latest no_collision
