-- ===== src/Sharing/Vacant.antt =====
-- Rebuilt trackers have no owner, so the first instance that asks becomes the leader.
use open_liberty_operator.Common.{
  ℕ, zero, suc, Str, str_eq, Bool, true, List, [], ◌∷◌, ◌++◌, Option, none, some, Result, ok, err,
  ◌≡◌, refl, arith, All, All-append, Bool-cases, Option-cases, inl, inr, has_byte, split,
}
use open_liberty_operator.Tree.Node.{Entries}
use open_liberty_operator.Tree.Maps.{ReplaceMap}
use open_liberty_operator.Tracker.{
  LeaderTracker, insert_index, insert_at, insert_into_sorted_leader_trackers,
}
use open_liberty_operator.Sharing.{Metadata, Election, elect}
use open_liberty_operator.Sharing.Locate.{Located}
use open_liberty_operator.Sharing.Elect.{
  Elected, unknown_waits, unknown_elects, follows_self, follows_other, vacant_waits, vacant_elects,
  elect-Elected,
}
use open_liberty_operator.Sharing.Recreate.{
  Labelled, Rebuilt, with_label, TrackError, Tracking, panics, write_failed, track_resource,
  track_pair, tracked_parts, update_leader_trackers, create_new_leader_tracker_list,
}

abbrev pub Vacant : List LeaderTracker → Type 0
Vacant = All (λ t. t.owner ≡ [])

insert_at-Vacant :
    (i : ℕ) (t : LeaderTracker) (ts : List LeaderTracker)
    → t.owner ≡ []
    → Vacant ts
    → Vacant (insert_at i t ts)
insert_at-Vacant zero t ts h v = (h, v)
insert_at-Vacant (suc i) t [] h v = (h, tt)
insert_at-Vacant (suc i) t (u ∷ ts) h (w, v) = (w, insert_at-Vacant i t ts h v)

insert-Vacant :
    (ts : List LeaderTracker) (t : LeaderTracker)
    → t.owner ≡ []
    → Vacant ts
    → Vacant (insert_into_sorted_leader_trackers ts t)
unfolding insert_into_sorted_leader_trackers
insert-Vacant ts t h v = elim (Option-cases (insert_index t.name ts 0 none)) [
  | inl e ↦
      rw (e, insert_into_sorted_leader_trackers)
        (All-append (λ t. t.owner ≡ []) ts (t ∷ []) v (h, tt))
  | inr (i, e) ↦ rw (e, insert_into_sorted_leader_trackers) (insert_at-Vacant i t ts h v)
]

module _ (tree_map : Entries) (replace_map : ReplaceMap) (latest : Str) (refuses : Str → Bool) where
  -- A tracker that is made for a resource has no owner.
  abbrev IsVacant : Result TrackError (Option Tracking) → Type 0
  IsVacant (err e) = Unit {0}
  IsVacant (ok none) = Unit {0}
  IsVacant (ok (some k)) = k.tracker.owner ≡ []

  track_pair-IsVacant :
      (root name path_index version index : Str)
      → IsVacant (track_pair tree_map replace_map latest root refuses name path_index version index)
  unfolding track_pair
  track_pair-IsVacant root name path_index version index = ground arith

  tracked_parts-IsVacant :
      (root name path_index : Str) (parts : List Str)
      → IsVacant (tracked_parts tree_map replace_map latest root refuses name path_index parts)
  unfolding tracked_parts
  tracked_parts-IsVacant root name path_index [] = tt
  tracked_parts-IsVacant root name path_index (v ∷ []) = tt
  tracked_parts-IsVacant root name path_index (v ∷ i ∷ []) =
      track_pair-IsVacant root name path_index v i
  tracked_parts-IsVacant root name path_index (v ∷ i ∷ w ∷ ps) = tt

  track_resource-IsVacant :
      (root : Str) (r : Labelled)
      → IsVacant (track_resource tree_map replace_map latest root refuses r)
  unfolding track_resource
  track_resource-IsVacant root r = elim (Option-cases r.path_index) [
    | inl e ↦ rw (e, track_resource) tt
    | inr (path_index, e) ↦ elim (Bool-cases (has_byte b'.' path_index)) [
      | inr none_there ↦ rw (e, none_there, track_resource) tt
      | inl there ↦
          rw (e, there, track_resource)
            (tracked_parts-IsVacant root r.name path_index (split b'.' path_index))
    ]
  ]

  with_label-trackers :
      (name : Str) (o : Option Str) (b : Rebuilt) → (with_label name o b).trackers ≡ b.trackers
  with_label-trackers name none b = refl
  with_label-trackers name (some l) b = refl

  update-Vacant :
      (root : Str) (rs : List Labelled) (ts : List LeaderTracker)
      → Vacant ts
      → Vacant (update_leader_trackers tree_map replace_map latest refuses root rs ts).trackers
  unfolding update_leader_trackers
  update-Vacant root [] ts v = v
  update-Vacant root (r ∷ rs) ts v =
      go (track_resource tree_map replace_map latest root refuses r) refl
        (track_resource-IsVacant root r) (λ ts' v'. update-Vacant root rs ts' v')
    where
      go :
          (x : Result TrackError (Option Tracking))
          → track_resource tree_map replace_map latest root refuses r ≡ x
          → IsVacant x
          → ((ts' : List LeaderTracker)
              → Vacant ts'
              → Vacant
                  (update_leader_trackers tree_map replace_map latest refuses root rs ts').trackers)
          → Vacant
              (update_leader_trackers tree_map replace_map latest refuses root (r ∷ rs) ts).trackers
      go (err e) q h ih = rw (q, update_leader_trackers) v
      go (ok none) q h ih = rw (q, update_leader_trackers) (ih ts v)
      go (ok (some k)) q h ih =
          rw (q, update_leader_trackers, with_label-trackers r.name k.relabelled)
            (ih (insert_into_sorted_leader_trackers ts k.tracker) (insert-Vacant ts k.tracker h v))

  create-Vacant :
      (lists : List (Str × List Labelled)) (ts : List LeaderTracker)
      → Vacant ts
      → Vacant
          (create_new_leader_tracker_list tree_map replace_map latest refuses lists ts).trackers
  unfolding create_new_leader_tracker_list
  create-Vacant [] ts v = v
  create-Vacant ((root, rs) ∷ lists) ts v =
      let b = update_leader_trackers tree_map replace_map latest refuses root rs ts in
      go b.failure refl (update-Vacant root rs ts v)
        (create-Vacant lists b.trackers (update-Vacant root rs ts v))
    where
      go :
          (x : Option TrackError)
          → (update_leader_trackers tree_map replace_map latest refuses root rs ts).failure ≡ x
          → Vacant (update_leader_trackers tree_map replace_map latest refuses root rs ts).trackers
          → Vacant
              (create_new_leader_tracker_list tree_map replace_map latest refuses lists
                (update_leader_trackers tree_map replace_map latest refuses root rs
                  ts).trackers).trackers
          → Vacant
              (create_new_leader_tracker_list tree_map replace_map latest refuses
                ((root, rs) ∷ lists)
                ts).trackers
      go none q v' w = rw (q, create_new_leader_tracker_list) w
      go (some write_failed) q v' w = rw (q, create_new_leader_tracker_list) w
      go (some panics) q v' w = rw (q, create_new_leader_tracker_list) v'

Located-Vacant :
    (n : Str) (ts : List LeaderTracker) (l : Located n ts) → Vacant ts → l.at.owner ≡ []
Located-Vacant n ts l v = at_middle l.before l.after l.at (rw (← l.parts) v)
  where
    at_middle :
        (before after : List LeaderTracker) (t : LeaderTracker)
        → Vacant (before ++ (t ∷ after))
        → t.owner ≡ []
    at_middle [] after t v = v.0
    at_middle (b ∷ before) after t v = at_middle before after t v.1

Elected-Vacant :
    (a : Str) (m : Metadata) (ts : List LeaderTracker) (e : Election)
    → Elected a m true ts e
    → Vacant ts
    → (e.answer.leader ≡ a) × (e.answer.is_leader ≡ true)
Elected-Vacant a m ts e (unknown_waits n s) v = absurd (cc)
Elected-Vacant a m ts e (unknown_elects n s) v = (refl, refl)
Elected-Vacant a m ts e (follows_self l held self) v =
    absurd (ground (arith, held, Located-Vacant m.name ts l v, str_eq.same_iff l.at.owner []))
Elected-Vacant a m ts e (follows_other l held other) v =
    absurd (ground (arith, held, Located-Vacant m.name ts l v, str_eq.same_iff l.at.owner []))
Elected-Vacant a m ts e (vacant_waits l held s) v = absurd (cc)
Elected-Vacant a m ts e (vacant_elects l held s) v = (refl, refl)

-- After `createNewLeaderTrackerList` has rebuilt the trackers from the labels in the cluster, whatever
-- these are and whatever writes are refused, no tracker has an owner, and the first instance that
-- is to elect a leader for a resource becomes it.
pub elect-create :
    (tree_map : Entries) (replace_map : ReplaceMap) (latest : Str) (refuses : Str → Bool)
    → (lists : List (Str × List Labelled)) (a : Str) (m : Metadata)
    → let ts =
        (create_new_leader_tracker_list tree_map replace_map latest refuses lists []).trackers in
      Vacant ts
      × ((elect a m true ts).answer.leader ≡ a)
      × ((elect a m true ts).answer.is_leader ≡ true)
elect-create tree_map replace_map latest refuses lists a m =
    let v = create-Vacant tree_map replace_map latest refuses lists [] tt in
    let ts =
      (create_new_leader_tracker_list tree_map replace_map latest refuses lists []).trackers in
    let (leader, is_leader) =
      Elected-Vacant a m ts (elect a m true ts) (elect-Elected a m true ts) v in
    (v, leader, is_leader)
