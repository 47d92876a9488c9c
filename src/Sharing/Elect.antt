-- ===== src/Sharing/Elect.antt =====
-- What one election answers and records.
use open_liberty_operator.Common.{
  ℕ, Str, ◌==◌, str_eq, Bool, true, false, not, List, [], ◌∷◌, ◌++◌, map, none, some, if◌then◌else◌,
  length, ◌≡◌, refl, ap, ◌∙◌, inl, inr, arith, Bool-cases,
}
use open_liberty_operator.Tracker.{LeaderTracker, set_owner, clear_owner_if_shares}
use open_liberty_operator.Sharing.{
  Metadata, Election, leader_index, take_over, follow, elect, no_leader,
}
use open_liberty_operator.Sharing.Locate.{
  Located, NoneNamed, KeepsNames, leader_index-cases, take_over-parts,
}

pub clear-name : (a path : Str) → KeepsNames (clear_owner_if_shares a path)
unfolding clear_owner_if_shares
clear-name a path t = ground arith

pub clear-path : (a path : Str) (t : LeaderTracker) → (clear_owner_if_shares a path t).path ≡ t.path
unfolding clear_owner_if_shares
clear-path a path t = ground arith

-- Another instance's tracker is not cleared.
pub clear-other :
    (a path : Str) (t : LeaderTracker) → (t.owner == a) ≡ false → clear_owner_if_shares a path t ≡ t
unfolding clear_owner_if_shares
clear-other a path t h = ground (arith, h)

-- With a recorded owner, the branch that would find it evicted is never taken.
pub follow_recorded :
    (a path : Str) (i : ℕ) (t : LeaderTracker) (ts : List LeaderTracker)
    → (t.owner == []) ≡ false
    → follow a path i t ts ≡ record {
      answer = record { leader = t.owner; is_leader = t.owner == a; path_index = t.path_index };
      saved = some (if not (t.owner == a) then map (clear_owner_if_shares a path) ts else ts);
    }
unfolding follow
follow_recorded a path i t ts h = elim (Bool-cases (t.owner == a)) [
  | inl e ↦ ground (arith, e, h)
  | inr e ↦ ground (arith, e, h, clear-other a path t e)
]

-- The tracker that a new resource gets.
abbrev pub fresh : Str → Metadata → LeaderTracker
fresh a m = record {
  name = m.name;
  owner = a;
  path_index = m.path_index;
  path = m.path;
  sublease = [];
}

abbrev pub answered : Str → Bool → Str → List LeaderTracker → Election
answered a is_leader path_index ts = record {
  answer = record { leader = a; is_leader = is_leader; path_index = path_index };
  saved = some ts;
}

-- What an election by `a` for the resource `m` may do, case by case: no tracker or a vacant one is left
-- alone or taken over, and a recorded owner is followed.
pub data Elected (a : Str) (m : Metadata) (should_elect : Bool) (ts : List LeaderTracker)
    : Election → Type 0 where
  unknown_waits : NoneNamed m.name ts → should_elect ≡ false → Elected a m should_elect ts no_leader
  unknown_elects :
      NoneNamed m.name ts
      → should_elect ≡ true
      → Elected a m should_elect ts (
          answered a true m.path_index
            (map (clear_owner_if_shares a m.path) ts ++ (fresh a m ∷ [])))
  follows_self :
      (l : Located m.name ts)
      → (l.at.owner == []) ≡ false
      → (l.at.owner == a) ≡ true
      → Elected a m should_elect ts (answered l.at.owner true l.at.path_index ts)
  follows_other :
      (l : Located m.name ts)
      → (l.at.owner == []) ≡ false
      → (l.at.owner == a) ≡ false
      → Elected a m should_elect ts
          (answered l.at.owner false l.at.path_index (map (clear_owner_if_shares a m.path) ts))
  vacant_waits :
      (l : Located m.name ts)
      → (l.at.owner == []) ≡ true
      → should_elect ≡ false
      → Elected a m should_elect ts no_leader
  vacant_elects :
      (l : Located m.name ts)
      → (l.at.owner == []) ≡ true
      → should_elect ≡ true
      → Elected a m should_elect ts (
          answered a true l.at.path_index (
            map (clear_owner_if_shares a m.path) l.before
            ++ (set_owner a l.at ∷ map (clear_owner_if_shares a m.path) l.after)))

module _ (a : Str) (m : Metadata) where
  Located-elects :
      (s : Bool) (ts : List LeaderTracker) (l : Located m.name ts)
      → leader_index m.name ts 0 none ≡ some (length l.before, l.at)
      → Elected a m s ts (elect a m s ts)
  unfolding elect
  Located-elects s ts l e = elim (Bool-cases (l.at.owner == [])) [
    | inr held ↦
        let f = follow_recorded a m.path (length l.before) l.at ts held in
        elim (Bool-cases (l.at.owner == a)) [
          | inl self ↦ rw (e, elect, held, f, self) (follows_self l held self)
          | inr other ↦ rw (e, elect, held, f, other) (follows_other l held other)
        ]
    | inl vacant ↦ elim (Bool-cases s) [
      | inr waits ↦ rw (e, elect, vacant, waits) (vacant_waits l vacant refl)
      | inl elects ↦
          let moved : take_over a m.path (length l.before) ts ≡ _ =
            ap (take_over a m.path (length l.before)) l.parts
            ∙ take_over-parts a m.path l.before l.after l.at in
          rw (e, elect, vacant, elects, moved) (vacant_elects l vacant refl)
    ]
  ]

  -- `reconcileLeaderWithState` does what the cases say.
  pub elect-Elected : (s : Bool) (ts : List LeaderTracker) → Elected a m s ts (elect a m s ts)
  unfolding elect
  elect-Elected s ts = elim (leader_index-cases m.name ts 0 none) [
    | inr (l, e) ↦ Located-elects s ts l (ground (arith, e))
    | inl (none_named, e) ↦ elim (Bool-cases s) [
      | inr waits ↦ rw (e, elect, waits) (unknown_waits none_named refl)
      | inl elects ↦ rw (e, elect, elects) (unknown_elects none_named refl)
    ]
  ]
