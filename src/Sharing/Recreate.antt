-- ===== src/Sharing/Recreate.antt =====
-- Rebuilding the trackers from the labels of the shared resources in the cluster:
-- `UpdateLeaderTrackersFromUnstructuredList` and `createNewLeaderTrackerList`.
use open_liberty_operator.Common.{
  Str, codes, ◌==◌, str_eq, nat_eq, Bool, not, List, [], ◌∷◌, ◌++◌, Option, none, some, Result, ok,
  err, ◌>>=◌, split, has_byte, parse_int, int_value, format_int, length, drop, ltb, is_some, ◌&&◌,
  if◌then◌else◌,
}
use open_liberty_operator.Tree.Node.{Entries}
use open_liberty_operator.Tree.Maps.{ReplaceMap}
use open_liberty_operator.Tree.Index.{
  negative_index, no_leaf, panic, fuel_spent, get_path_from_leaf_index, get_leaf_index,
  first_segment,
}
use open_liberty_operator.Tree.Replace.{ReplaceError, replace_path}
use open_liberty_operator.Tracker.{LeaderTracker, evict_owner, insert_into_sorted_leader_trackers}

-- What the loop reads of a resource: its name, and its label of the path index if it has one.
pub record Labelled : Type 0 where
  pub name : Str
  pub path_index : Option Str

pub data TrackError : Type 0 where
  write_failed panics : TrackError

-- A tracker that is to be inserted, with the label that is written to its resource, if any.
pub record Tracking : Type 0 where
  pub tracker : LeaderTracker
  pub relabelled : Option Str

-- The tracker of a resource, by its name, path and path index.
abbrev pub tracking : Str → Str → Str → Option Str → Tracking
tracking name path_index path label = record {
  tracker =
      evict_owner
        (record { name = name; owner = []; path_index = path_index; path = path; sublease = [] });
  relabelled = label;
}

-- `nameString[len(resourceRootName):]`.
unfoldable pub name_suffix : Str → Str → Result TrackError Str
name_suffix root name =
    if ltb (length name) (length root) then err panics else ok (drop (length root) name)

-- `strings.Split(path, ".")[0] + "." + strconv.FormatInt(…)`.
unfoldable pub path_index_of : Entries → Str → Result TrackError Str
path_index_of tree_map path = elim (get_leaf_index tree_map path) [
  | err e ↦ err panics
  | ok i ↦ ok (first_segment path ++ (codes "." ++ format_int i))
]

-- The path and the path index of a path that an older or a newer version labelled, and the label to
-- write; a path without a way to the version keeps its index, and the tracker has no path.
unfoldable pub migrate :
    Entries → ReplaceMap → Str → Str → Str → Result TrackError (Str × Str × Option Str)
unfolding path_index_of
migrate tree_map replace_map latest path_index path =
    elim (replace_path path latest tree_map replace_map) [
      | err e ↦ elim e [
        | ReplaceError.no_upgrade_path ↦ ok (path_index, [], none)
        | ReplaceError.panics ↦ err panics
        | ReplaceError.out_of_fuel ↦ err panics
      ]
      | ok path' ↦ path_index_of tree_map path' >>= λ index. ok (index, path', some index)
    ]

-- The end of a round for a migrated path: the label is written, and the name is cut.
unfoldable pub track_migrated :
    Str → (Str → Bool) → Str → Str × Str × Option Str → Result TrackError (Option Tracking)
unfolding name_suffix
track_migrated root refuses name (index, path, label) =
    if is_some label && refuses name
    then err write_failed
    else name_suffix root name >>= λ n. ok (some (tracking n index path label))

-- A round for a path index of two parts.
unfoldable pub track_pair :
    Entries
    → ReplaceMap
    → Str
    → Str
    → (Str → Bool)
    → Str
    → Str
    → Str
    → Str
    → Result TrackError (Option Tracking)
unfolding migrate track_migrated
track_pair tree_map replace_map latest root refuses name path_index version index =
    elim (get_path_from_leaf_index tree_map version (int_value (parse_int index))) [
      | err e ↦ elim e [
        | negative_index ↦ ok none
        | no_leaf ↦ ok none
        | panic ↦ err panics
        | fuel_spent ↦ err panics
      ]
      | ok path ↦
          if version == latest
          then (name_suffix root name >>= λ n. ok (some (tracking n path_index path none)))
          else migrate tree_map replace_map latest path_index path
            >>= track_migrated root refuses name
    ]

-- A round for the parts of a path index.
unfoldable pub tracked_parts :
    Entries
    → ReplaceMap
    → Str
    → Str
    → (Str → Bool)
    → Str
    → Str
    → List Str
    → Result TrackError (Option Tracking)
unfolding track_pair
tracked_parts tree_map replace_map latest root refuses name path_index (version ∷ index ∷ []) =
    track_pair tree_map replace_map latest root refuses name path_index version index
tracked_parts tree_map replace_map latest root refuses name path_index parts = ok none

-- One round of the loop, without the insertion: `none` for a resource that is skipped.
unfoldable pub track_resource :
    Entries → ReplaceMap → Str → Str → (Str → Bool) → Labelled → Result TrackError (Option Tracking)
unfolding tracked_parts
track_resource tree_map replace_map latest root refuses r = elim r.path_index [
  | none ↦ ok none
  | some path_index ↦
      if not (has_byte b'.' path_index)
      then ok none
      else tracked_parts tree_map replace_map latest root refuses r.name path_index
          (split b'.' path_index)
]

-- The trackers after the loop, the labels that it has written, and the error that ended it.
pub record Rebuilt : Type 0 where
  pub trackers : List LeaderTracker
  pub labels : List (Str × Str)
  pub failure : Option TrackError

abbrev pub with_label : Str → Option Str → Rebuilt → Rebuilt
with_label name none b = b
with_label name (some l) b = record {
  trackers = b.trackers;
  labels = (name, l) ∷ b.labels;
  failure = b.failure;
}

module _ (tree_map : Entries) (replace_map : ReplaceMap) (latest : Str) (refuses : Str → Bool) where
  -- `UpdateLeaderTrackersFromUnstructuredList`.
  unfoldable pub update_leader_trackers : Str → List Labelled → List LeaderTracker → Rebuilt
  update_leader_trackers root [] ts = record { trackers = ts; labels = []; failure = none }
  update_leader_trackers root (r ∷ rs) ts =
      elim (track_resource tree_map replace_map latest root refuses r) [
        | err e ↦ record { trackers = ts; labels = []; failure = some e }
        | ok t ↦ elim t [
          | none ↦ update_leader_trackers root rs ts
          | some t' ↦
              with_label r.name t'.relabelled
                (update_leader_trackers root rs (insert_into_sorted_leader_trackers ts t'.tracker))
        ]
      ]

  -- The last loop of `createNewLeaderTrackerList`, over the lists of resources with the root of
  -- their names; the error of a write is dropped, a panic is not.
  unfoldable pub create_new_leader_tracker_list :
      List (Str × List Labelled) → List LeaderTracker → Rebuilt
  create_new_leader_tracker_list [] ts = record { trackers = ts; labels = []; failure = none }
  create_new_leader_tracker_list ((root, rs) ∷ lists) ts =
      let b = update_leader_trackers root rs ts in
      let more = create_new_leader_tracker_list lists b.trackers in
      elim b.failure [
        | none ↦ record {
          trackers = more.trackers;
          labels = b.labels ++ more.labels;
          failure = more.failure;
        }
        | some e ↦ elim e [
          | panics ↦ b
          | write_failed ↦ record {
            trackers = more.trackers;
            labels = b.labels ++ more.labels;
            failure = more.failure;
          }
        ]
      ]
