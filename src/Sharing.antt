-- ===== src/Sharing.antt =====
-- Electing the owner of a shared resource (internal/controller/resource_sharing.go): what one reconcile
-- does to the trackers. Store keeps them in the cluster.
mod Locate
mod Elect
mod Agreement
mod Store
mod Durable
mod Removed
mod Steady
mod History
mod Recreate
mod Again
mod Vacant
mod Collision
mod RebuildTests
mod Tests
use open_liberty_operator.Common.{
  ℕ, zero, suc, Str, ◌==◌, str_eq, nat_eq, Bool, true, false, not, List, [], ◌∷◌, ◌++◌, map, Option,
  none, some, if◌then◌else◌,
}
use open_liberty_operator.Tracker.{
  LeaderTracker, blank_tracker, set_owner, clear_owner_if_matching, clear_owner_if_shares,
}

-- What a `LeaderTrackerMetadata` tells of the resource: its name, path and path index.
pub record Metadata : Type 0 where
  pub name : Str
  pub path : Str
  pub path_index : Str

-- The answer of a reconcile: the leader's name, whether it is this instance, and the path index.
pub record Leader : Type 0 where
  pub leader : Str
  pub is_leader : Bool
  pub path_index : Str

-- The answer with the trackers to be saved, if the branch saves them.
pub record Election : Type 0 where
  pub answer : Leader
  pub saved : Option (List LeaderTracker)

abbrev pub no_leader : Election
no_leader = record {
  answer = record { leader = []; is_leader = false; path_index = [] };
  saved = none;
}

-- The loop that finds the tracker of a resource: the last one of that name, with its index.
unfoldable pub leader_index :
    Str → List LeaderTracker → ℕ → Option (ℕ × LeaderTracker) → Option (ℕ × LeaderTracker)
leader_index n [] i found = found
leader_index n (t ∷ ts) i found =
    leader_index n ts (suc i) (if t.name == n then some (i, t) else found)

-- A write to the tracker at an index.
abbrev pub update_at : (LeaderTracker → LeaderTracker) → ℕ → List LeaderTracker → List LeaderTracker
update_at f i [] = []
update_at f zero (t ∷ ts) = f t ∷ ts
update_at f (suc i) (t ∷ ts) = t ∷ update_at f i ts

-- The last loop: the tracker at the index gets the owner, every other is cleared if it matches.
unfoldable pub take_over : Str → Str → ℕ → List LeaderTracker → List LeaderTracker
take_over instance_name path i [] = []
take_over instance_name path zero (t ∷ ts) =
    set_owner instance_name t ∷ map (clear_owner_if_shares instance_name path) ts
take_over instance_name path (suc i) (t ∷ ts) =
    clear_owner_if_shares instance_name path t ∷ take_over instance_name path i ts

-- The answer for a resource whose recorded owner is not empty.
unfoldable pub follow : Str → Str → ℕ → LeaderTracker → List LeaderTracker → Election
follow instance_name path i t ts =
    let ts' =
      if not (t.owner == instance_name)
      then map (clear_owner_if_shares instance_name path) ts
      else ts in
    let t' =
      if not (t.owner == instance_name) then clear_owner_if_shares instance_name path t else t in
    if t'.owner == []
    then record {
      answer = record { leader = instance_name; is_leader = true; path_index = t'.path_index };
      saved = some (update_at (set_owner instance_name) i ts');
    }
    else record {
      answer = record {
        leader = t'.owner;
        is_leader = t'.owner == instance_name;
        path_index = t'.path_index;
      };
      saved = some ts';
    }

-- `reconcileLeaderWithState` up to its call of `SaveLeaderTracker`.
unfoldable pub elect : Str → Metadata → Bool → List LeaderTracker → Election
unfolding leader_index follow take_over
elect instance_name m should_elect ts = elim (leader_index m.name ts 0 none) [
  | none ↦ if not should_elect then no_leader else record {
    answer = record { leader = instance_name; is_leader = true; path_index = m.path_index };
    saved = some (
        map (clear_owner_if_shares instance_name m.path) ts
        ++ (record {
          name = m.name;
          owner = instance_name;
          path_index = m.path_index;
          path = m.path;
          sublease = [];
        }
            ∷ []));
  }
  | some (i, t) ↦
      if not (t.owner == [])
      then follow instance_name m.path i t ts
      else if not should_elect
      then no_leader
      else record {
        answer = record { leader = instance_name; is_leader = true; path_index = t.path_index };
        saved = some (take_over instance_name m.path i ts);
      }
]

-- The loop of `RemoveLeader`: the trackers with the instance cleared, whether one changed, and whether no
-- tracker has an owner left.
unfoldable pub clear_all : Str → List LeaderTracker → List LeaderTracker × Bool × Bool
unfolding clear_owner_if_matching
clear_all instance_name [] = ([], false, true)
clear_all instance_name (t ∷ ts) =
    let (t', cleared) = clear_owner_if_matching instance_name t in
    let (ts', changed, no_owners) = clear_all instance_name ts in
    (
      t' ∷ ts',
      (if cleared then true else changed),
      (if not (t'.owner == []) then false else no_owners),
    )

-- What `RemoveLeader` asks of the cluster.
pub data Removal : Type 0 where
  deletes keeps : Removal
  saves : List LeaderTracker → Removal

-- `RemoveLeader` up to its calls of `DeleteLeaderTracker` and `SaveLeaderTracker`.
unfoldable pub remove_leader : Str → List LeaderTracker → Removal
unfolding clear_all
remove_leader instance_name ts =
    let (ts', changed, no_owners) = clear_all instance_name ts in
    if no_owners then deletes else if changed then saves ts' else keeps

-- What instances do to the trackers of one kind of resource, as sequences of whole calls.
pub data Event : Type 0 where
  reconciles : Str → Metadata → Bool → Event
  leaves : Str → Event

-- The trackers after an event; `none` when their Secret is deleted.
unfoldable pub after_event : Event → List LeaderTracker → Option (List LeaderTracker)
unfolding elect remove_leader
after_event (reconciles a m should_elect) ts = elim ((elect a m should_elect ts).saved) [
  | none ↦ some ts
  | some ts' ↦ some ts'
]
after_event (leaves a) ts = elim (remove_leader a ts) [
  | deletes ↦ none
  | keeps ↦ some ts
  | saves ts' ↦ some ts'
]

unfoldable pub after_events : List Event → List LeaderTracker → Option (List LeaderTracker)
unfolding after_event
after_events [] ts = some ts
after_events (e ∷ es) ts = elim (after_event e ts) [ none ↦ none | some ts' ↦ after_events es ts' ]
