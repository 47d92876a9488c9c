-- ===== src/Tracker.antt =====
-- The leader trackers of shared resources (utils/leader_tracker.go): which instance owns which
-- resource. The method receivers are never nil where the code calls them, so a tracker is a value and
-- a method returns the new tracker with the flag it reports.
pub mod Codec
pub mod Encode
mod Place
mod Tests
use open_liberty_operator.Common.{
  ℕ, zero, suc, ◌+◌, Str, codes, ◌==◌, str_eq, nat_eq, Bool, true, false, not, ◌&&◌, ◌||◌, List, [],
  ◌∷◌, ◌++◌, Option, none, some, if◌then◌else◌, split, join, has_byte, str_ltb, ◌≡◌, refl, ℤ, ltb_ℤ,
  Parsed, parsed, parse_int, length, set, get_elem?, drop, wrap64, pos, ltb, ◌-ℤ◌, syntax_error,
  range_error,
}

pub record LeaderTracker : Type 0 where
  pub name : Str
  pub owner : Str
  pub path_index : Str
  pub path : Str
  pub sublease : Str

abbrev pub blank_tracker : LeaderTracker
blank_tracker = record { name = []; owner = []; path_index = []; path = []; sublease = [] }

-- `SetOwner`.
abbrev pub set_owner : Str → LeaderTracker → LeaderTracker
set_owner instance_name t = record {
  name = t.name;
  owner = instance_name;
  path_index = t.path_index;
  path = t.path;
  sublease = t.sublease;
}

-- `EvictOwner`.
abbrev pub evict_owner : LeaderTracker → LeaderTracker
evict_owner t = set_owner [] t

-- `EvictOwnerIfSubleaseHasExpired` at the time `now`, in seconds; the flag says whether it evicted.
unfoldable pub evict_owner_if_sublease_has_expired : ℤ → LeaderTracker → LeaderTracker × Bool
evict_owner_if_sublease_has_expired now t = elim (parse_int t.sublease) [
  | parsed before ↦
      if ltb_ℤ (pos 20) (wrap64 (now -ℤ before)) then (evict_owner t, true) else (t, false)
  | syntax_error ↦ (evict_owner t, true)
  | range_error z ↦ (evict_owner t, true)
]

-- `RenewSublease`, with the text of the current time.
abbrev pub renew_sublease : Str → LeaderTracker → LeaderTracker
renew_sublease now t = record {
  name = t.name;
  owner = t.owner;
  path_index = t.path_index;
  path = t.path;
  sublease = now;
}

-- `ClearOwnerIfMatching`.
unfoldable pub clear_owner_if_matching : Str → LeaderTracker → LeaderTracker × Bool
clear_owner_if_matching instance_name t =
    if t.owner == instance_name then (set_owner [] t, true) else (t, false)

-- All parts but the last.
unfoldable pub but_last : List Str → List Str
but_last [] = []
but_last (p ∷ []) = []
but_last (p ∷ q ∷ ps) = p ∷ but_last (q ∷ ps)

-- A path without its last segment.
unfoldable pub path_parent : Str → Str
path_parent path = join b'.' (but_last (split b'.' path))

-- Whether both paths have a parent, and it is the same.
unfoldable pub shares_last_path_parent : Str → Str → Bool
unfolding path_parent
shares_last_path_parent path path' =
    if not (has_byte b'.' path) || not (has_byte b'.' path')
    then false
    else path_parent path == path_parent path'

-- `ClearOwnerIfMatchingAndSharesLastPathParent`, whose callers drop the flag.
unfoldable pub clear_owner_if_shares : Str → Str → LeaderTracker → LeaderTracker
unfolding shares_last_path_parent
clear_owner_if_shares instance_name path t =
    if t.owner == instance_name && shares_last_path_parent path t.path then set_owner [] t else t

-- `RemoveLeaderTracker` on a list that is there.
unfoldable pub remove_leader_tracker : List LeaderTracker → ℕ → List LeaderTracker × Bool
remove_leader_tracker ts i = if ltb i (length ts) then (removed ts i, true) else (ts, false)
  where
    removed : List LeaderTracker → ℕ → List LeaderTracker
    removed [] i = []
    removed (t ∷ ts) zero = ts
    removed (t ∷ ts) (suc i) = t ∷ removed ts i

-- The loop that finds the insertion index: the position of the last tracker whose name is greater.
unfoldable pub insert_index : Str → List LeaderTracker → ℕ → Option ℕ → Option ℕ
insert_index new_name [] i found = found
insert_index new_name (leader ∷ leaders) i found =
    insert_index new_name leaders (suc i) (if str_ltb new_name leader.name then some i else found)

-- The copy that shifts the trackers from `i` up by one place.
abbrev pub insert_at : ℕ → LeaderTracker → List LeaderTracker → List LeaderTracker
insert_at zero new leaders = new ∷ leaders
insert_at (suc i) new [] = new ∷ []
insert_at (suc i) new (leader ∷ leaders) = leader ∷ insert_at i new leaders

-- `InsertIntoSortedLeaderTrackers`.
unfoldable pub insert_into_sorted_leader_trackers :
    List LeaderTracker → LeaderTracker → List LeaderTracker
unfolding insert_index
insert_into_sorted_leader_trackers leaders new = elim (insert_index new.name leaders 0 none) [
  | none ↦ leaders ++ (new ∷ [])
  | some i ↦ insert_at i new leaders
]
