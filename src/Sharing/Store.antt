-- ===== src/Sharing/Store.antt =====
-- The trackers in their Secret (`GetLeaderTracker`, `SaveLeaderTracker`, `DeleteLeaderTracker`, `reconcileLeader`,
-- `reconcileLeaderTracker`, `RemoveLeaderTrackerReference`). The Kubernetes client is a parameter.
use open_liberty_operator.Common.{
  Str, codes, ◌==◌, str_eq, Bool, true, false, not, List, [], ◌∷◌, ◌++◌, Option, none, some,
  if◌then◌else◌, Result, ok, err,
}
use open_liberty_operator.Tracker.{LeaderTracker}
use open_liberty_operator.Tracker.Codec.{
  TrackerData, customize_leader_tracker, trackers_of, DataError,
}
use open_liberty_operator.Sharing.{Metadata, Leader, elect, remove_leader, deletes, keeps, saves}

-- What the operator reads and writes of the Secret.
pub record Secret : Type 0 where
  pub name : Str
  pub version : Str
  pub data_of : TrackerData

-- The client: each call on the cluster's state, with the errors it may return.
pub record Cluster (F S : Type 0) : Type 0 where
  pub get : Str → S → Result F Secret
  pub is_not_found : F → Bool
  pub delete : Secret → S → Option F × S
  pub create_or_update : Secret → S → Option F × S

-- Why an operation fails: no mutex, an error of the client, one of the client when it is to delete a Secret
-- that cannot be read (without a Secret beside it), such a Secret, or the use of a nil Secret.
pub data Failure (F : Type 0) : Type 0 where
  no_mutex : Failure F
  fault not_deleted : F → Failure F
  unreadable : DataError → Failure F
  panics : Failure F

-- The client's error as one of the operator's.
abbrev pub faulted : {F : Type 0} → Option F → Option (Failure F)
faulted none = none
faulted (some e) = some (fault e)

-- Whether the tracker type has a mutex (`LeaderTrackerMutexes.Load`).
abbrev pub has_mutex : Str → List Str → Bool
has_mutex tracker_type [] = false
has_mutex tracker_type (m ∷ ms) = if m == tracker_type then true else has_mutex tracker_type ms

abbrev pub tracker_secret_name : Str → Str → Str
tracker_secret_name short_name tracker_type =
    short_name ++ (codes "-managed-leader-tracking-" ++ tracker_type)

module _ {F S : Type 0} (cluster : Cluster F S) (mutexes : List Str)
    (short_name tracker_type : Str) where
  -- `GetLeaderTracker`: a Secret that cannot be read is deleted.
  unfoldable pub get_leader_tracker : S → Result (Failure F) (Secret × List LeaderTracker) × S
  get_leader_tracker s =
      if not (has_mutex tracker_type mutexes)
      then (err no_mutex, s)
      else elim (cluster.get (tracker_secret_name short_name tracker_type) s) [
        | err e ↦ (err (fault e), s)
        | ok secret ↦ elim (trackers_of secret.data_of) [
          | ok ts ↦ (ok (secret, ts), s)
          | err e ↦
              let (failed, s') = cluster.delete secret s in
              elim failed [ some e' ↦ (err (not_deleted e'), s') | none ↦ (err (unreadable e), s') ]
        ]
      ]

  -- `SaveLeaderTracker`.
  unfoldable pub save_leader_tracker :
      Secret → Option (List LeaderTracker) → S → Option (Failure F) × S
  save_leader_tracker secret ts s =
      if not (has_mutex tracker_type mutexes)
      then (some no_mutex, s)
      else let (failed, s') =
          cluster.create_or_update
            (record {
              name = secret.name;
              version = secret.version;
              data_of = customize_leader_tracker ts;
            })
            s in
        (faulted failed, s')

  -- `DeleteLeaderTracker`.
  unfoldable pub delete_leader_tracker : Secret → S → Option (Failure F) × S
  delete_leader_tracker secret s =
      if not (has_mutex tracker_type mutexes)
      then (some no_mutex, s)
      else let (failed, s') = cluster.delete secret s in (faulted failed, s')

  -- `reconcileLeaderWithState`.
  unfoldable pub reconcile_leader_with_state :
      Str → Secret → List LeaderTracker → Metadata → Bool → S → Result (Failure F) Leader × S
  unfolding save_leader_tracker
  reconcile_leader_with_state instance_name secret ts m should_elect s =
      let e = elect instance_name m should_elect ts in
      elim (e.saved) [
        | none ↦ (ok (e.answer), s)
        | some ts' ↦
            let (failed, s') = save_leader_tracker secret (some ts') s in
            elim failed [ some failure ↦ (err failure, s') | none ↦ (ok (e.answer), s') ]
      ]

  -- `reconcileLeader`.
  unfoldable pub reconcile_leader : Str → Metadata → Bool → S → Result (Failure F) Leader × S
  unfolding get_leader_tracker reconcile_leader_with_state
  reconcile_leader instance_name m should_elect s =
      let (found, s') = get_leader_tracker s in
      elim found [
        | err e ↦ (err e, s')
        | ok (secret, ts) ↦ reconcile_leader_with_state instance_name secret ts m should_elect s'
      ]

  -- `RemoveLeaderTrackerReference`, with `RemoveLeader`.
  unfoldable pub remove_leader_tracker_reference : Str → S → Option (Failure F) × S
  unfolding get_leader_tracker save_leader_tracker delete_leader_tracker
  remove_leader_tracker_reference instance_name s =
      let (found, s') = get_leader_tracker s in
      elim found [
        | err (fault e) ↦ if cluster.is_not_found e then (none, s') else (some (fault e), s')
        | err (not_deleted e) ↦
            if cluster.is_not_found e then (none, s') else (some (not_deleted e), s')
        | err no_mutex ↦ (some no_mutex, s')
        | err (unreadable e) ↦ (some (unreadable e), s')
        | err panics ↦ (some panics, s')
        | ok (secret, ts) ↦ elim (remove_leader instance_name ts) [
          | deletes ↦ delete_leader_tracker secret s'
          | keeps ↦ (none, s')
          | saves ts' ↦ save_leader_tracker secret (some ts') s'
        ]
      ]

  -- `reconcileLeaderTracker`, which panics at the nil Secret that `GetLeaderTracker` returns when one that cannot
  -- be read is gone before it is deleted; with the result of `createNewLeaderTrackerList` for a missing Secret.
  unfoldable pub reconcile_leader_tracker :
      Str → Result (Failure F) (List LeaderTracker) → S → Option (Failure F) × S
  unfolding get_leader_tracker save_leader_tracker delete_leader_tracker
  reconcile_leader_tracker latest_version created s =
      let (found, s') = get_leader_tracker s in
      elim found [
        | err (fault e) ↦
            if not (cluster.is_not_found e) then (some (fault e), s') else elim created [
              | err failure ↦ (some failure, s')
              | ok ts ↦
                  save_leader_tracker
                    (record {
                      name = tracker_secret_name short_name tracker_type;
                      version = latest_version;
                      data_of = customize_leader_tracker none;
                    })
                    (some ts) s'
            ]
        | err (not_deleted e) ↦
            if cluster.is_not_found e then (some panics, s') else (some (not_deleted e), s')
        | err no_mutex ↦ (some no_mutex, s')
        | err (unreadable e) ↦ (some (unreadable e), s')
        | err panics ↦ (some panics, s')
        | ok (secret, ts) ↦
            if not (secret.version == latest_version)
            then (none, (delete_leader_tracker secret s').1)
            else (none, s')
      ]
