-- ===== src/Tracker/Codec.antt =====
-- How a list of trackers is kept in a Secret: `CustomizeLeaderTracker`, and the part of
-- `GetLeaderTracker` that reads the Secret's data back.
use open_liberty_operator.Common.{
  Str, ◌==◌, str_eq, nat_eq, Bool, true, false, not, ◌&&◌, ◌||◌, List, [], ◌∷◌, ◌++◌, Option, none,
  some, if◌then◌else◌, split, has_byte, length, is_some, Result, ok, err,
}
use open_liberty_operator.Tracker.{LeaderTracker}

-- The four entries of the Secret's data that the operator writes and reads.
pub record TrackerData : Type 0 where
  pub names : Option Str
  pub owners : Option Str
  pub path_indices : Option Str
  pub paths : Option Str

-- The texts that the loop of `CustomizeLeaderTracker` builds up: a comma behind every field but the
-- last tracker's.
unfoldable pub concatenated : (LeaderTracker → Str) → List LeaderTracker → Str
concatenated field [] = []
concatenated field (t ∷ []) = field t
concatenated field (t ∷ u ∷ ts) = field t ++ (b',' ∷ concatenated field (u ∷ ts))

-- `CustomizeLeaderTracker`; `none` is a nil list.
unfoldable pub customize_leader_tracker : Option (List LeaderTracker) → TrackerData
unfolding concatenated
customize_leader_tracker none = record {
  names = some [];
  owners = some [];
  path_indices = some [];
  paths = some [];
}
customize_leader_tracker (some ts) = record {
  names = some (concatenated (λ t. t.name) ts);
  owners = some (concatenated (λ t. t.owner) ts);
  path_indices = some (concatenated (λ t. t.path_index) ts);
  paths = some (concatenated (λ t. t.path) ts);
}

-- `GetCommaSeparatedArray`.
unfoldable pub get_comma_separated_array : Str → List Str
get_comma_separated_array string_list =
    if has_byte b',' string_list then split b',' string_list else string_list ∷ []

-- The bytes of an entry; a missing key reads as no bytes.
abbrev pub bytes : Option Str → Str
bytes none = []
bytes (some s) = s

pub data DataError : Type 0 where
  out_of_sync unequal_lengths index_panics : DataError

-- The loop that populates the trackers.
unfoldable pub populate :
    List Str → List Str → List Str → List Str → Result DataError (List LeaderTracker)
populate [] ns is ps = ok []
populate (o ∷ os) (n ∷ ns) (i ∷ is) (p ∷ ps) = elim (populate os ns is ps) [
  | err e ↦ err e
  | ok ts ↦ ok (record { name = n; owner = o; path_index = i; path = p; sublease = [] } ∷ ts)
]
populate (o ∷ os) _ _ _ = err index_panics

-- What `GetLeaderTracker` reads from the data of the Secret.
unfoldable pub trackers_of : TrackerData → Result DataError (List LeaderTracker)
unfolding get_comma_separated_array populate
trackers_of d =
    let os = get_comma_separated_array (bytes d.owners) in
    let ns = get_comma_separated_array (bytes d.names) in
    let is = get_comma_separated_array (bytes d.path_indices) in
    let ps = get_comma_separated_array (bytes d.paths) in
    if not (same (is_some d.owners) (is_some d.names))
      || not (same (is_some d.path_indices) (is_some d.paths))
      || not (same (is_some d.names) (is_some d.path_indices))
    then err out_of_sync
    else if bytes d.owners == []
        && bytes d.names == []
        && bytes d.path_indices == []
        && bytes d.paths == []
    then ok []
    else if not (length os == length ns)
        || not (length ns == length is)
        || not (length is == length ps)
    then err unequal_lengths
    else populate os ns is ps
  where
    same : Bool → Bool → Bool
    same true b = b
    same false b = not b
