-- ===== src/Sharing/Removed.antt =====
-- An instance that leaves gives up every resource, and the Secret goes with the last owner.
use open_liberty_operator.Common.{
  Str, ◌==◌, str_eq, str_beq_iff, Bool, true, false, not, List, [], ◌∷◌, map, if◌then◌else◌, ◌≡◌,
  refl, inl, inr, arith, Bool-cases,
}
use open_liberty_operator.Tracker.{LeaderTracker, set_owner, clear_owner_if_matching}
use open_liberty_operator.Sharing.{clear_all, remove_leader, deletes, keeps, saves}

-- The tracker without the instance.
abbrev pub vacated : Str → LeaderTracker → LeaderTracker
vacated a t = if t.owner == a then set_owner [] t else t

abbrev pub owned_by : Str → List LeaderTracker → Bool
owned_by a [] = false
owned_by a (t ∷ ts) = if t.owner == a then true else owned_by a ts

-- Whether every tracker is without an owner once the instance has left.
abbrev pub only_owner : Str → List LeaderTracker → Bool
only_owner a [] = true
only_owner a (t ∷ ts) = if not ((vacated a t).owner == []) then false else only_owner a ts

clear_all-result :
    (a : Str) (ts : List LeaderTracker)
    → clear_all a ts ≡ (map (vacated a) ts, owned_by a ts, only_owner a ts)
unfolding clear_all clear_owner_if_matching
clear_all-result a [] = refl
clear_all-result a (t ∷ ts) = ground (arith, clear_all-result a ts)

-- `RemoveLeader` deletes the Secret when no other instance owns a tracker; otherwise it saves the trackers
-- with the instance's name cleared when it owned one, and leaves them as they are when it owned none.
pub remove_leader-result :
    (a : Str) (ts : List LeaderTracker)
    → remove_leader a ts ≡ (
        if only_owner a ts
        then deletes
        else if owned_by a ts
        then saves (map (vacated a) ts)
        else keeps)
unfolding remove_leader
remove_leader-result a ts = rw (clear_all-result a ts) refl

pub owned_by-vacated :
    (a : Str) (ts : List LeaderTracker)
    → (a == []) ≡ false
    → owned_by a (map (vacated a) ts) ≡ false
owned_by-vacated a [] h = refl
owned_by-vacated a (t ∷ ts) h = elim (Bool-cases (t.owner == a)) [
  | inl mine ↦ ground (arith, mine, h, str_beq_iff [] a, str_beq_iff a [], owned_by-vacated a ts h)
  | inr other ↦ ground (arith, other, owned_by-vacated a ts h)
]
