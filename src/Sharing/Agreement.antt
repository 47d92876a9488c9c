-- ===== src/Sharing/Agreement.antt =====
-- The instances agree on the leader of a resource.
use open_liberty_operator.Common.{
  ℕ, Str, ◌==◌, str_eq, Bool, false, List, [], ◌∷◌, ◌++◌, map, Option, none, some, length, ◌≡◌,
  refl, sym, ap, subst, ◌∙◌, arith,
}
use open_liberty_operator.Tracker.{LeaderTracker, set_owner, clear_owner_if_shares}
use open_liberty_operator.Sharing.{Metadata, Election, leader_index, elect}
use open_liberty_operator.Sharing.Locate.{NoneNamed, leader_index-parts, map-append, NoneNamed-map}
use open_liberty_operator.Sharing.Elect.{
  Elected, elect-Elected, fresh, follow_recorded, clear-name, clear-other,
}

-- The trackers record `leader` as the owner of the resource `n`, with its path index.
abbrev pub Recorded : Str → Str → Str → List LeaderTracker → Type 0
Recorded n leader path_index ts =
    (i : ℕ) × (t : LeaderTracker) × (leader_index n ts 0 none ≡ some (i, t))
    × (t.owner ≡ leader)
    × ((t.owner == []) ≡ false)
    × (t.path_index ≡ path_index)

abbrev pub WhenSaved : (List LeaderTracker → Type 0) → Option (List LeaderTracker) → Type 0
WhenSaved P none = Unit
WhenSaved P (some ts) = P ts

module _ (a : Str) (m : Metadata) (s : Bool) (ts : List LeaderTracker)
    (some_name : (a == []) ≡ false) where
  Recorded-parts :
      (xs ys : List LeaderTracker) (t : LeaderTracker)
      → t.name ≡ m.name
      → NoneNamed m.name ys
      → (t.owner == []) ≡ false
      → Recorded m.name t.owner t.path_index (xs ++ (t ∷ ys))
  Recorded-parts xs ys t named later held = (
    length xs,
    t,
    ground (arith, leader_index-parts m.name xs ys t 0 none named later),
    refl,
    held,
    refl,
  )

  Elected-Recorded :
      (e : Election)
      → Elected a m s ts e
      → WhenSaved (Recorded m.name e.answer.leader e.answer.path_index) e.saved
  Elected-Recorded e (Elected.unknown_waits _ _) = tt
  Elected-Recorded e (Elected.vacant_waits _ _ _) = tt
  Elected-Recorded e (Elected.unknown_elects none_named _) =
      Recorded-parts (map (clear_owner_if_shares a m.path) ts) [] (fresh a m) refl tt some_name
  Elected-Recorded e (Elected.follows_self l held self) =
      rw l.parts (Recorded-parts l.before l.after l.at l.named l.no_later held)
  Elected-Recorded e (Elected.follows_other l held other) =
      let clear = clear_owner_if_shares a m.path in
      let around : map clear ts ≡ map clear l.before ++ (l.at ∷ map clear l.after) =
        ap (map clear) l.parts
        ∙ map-append clear l.before (l.at ∷ l.after)
        ∙ ap (λ t. map clear l.before ++ (t ∷ map clear l.after))
            (clear-other a m.path l.at other) in
      rw around (
        Recorded-parts (map clear l.before) (map clear l.after) l.at l.named
          (NoneNamed-map clear m.name l.after (clear-name a m.path) l.no_later) held)
  Elected-Recorded e (Elected.vacant_elects l vacant _) =
      let clear = clear_owner_if_shares a m.path in
      Recorded-parts (map clear l.before) (map clear l.after) (set_owner a l.at) l.named
        (NoneNamed-map clear m.name l.after (clear-name a m.path) l.no_later) some_name

-- An election for a recorded resource answers with the recorded owner, and its path index.
pub elect-Recorded :
    (b : Str) (m : Metadata) (s : Bool) (ts : List LeaderTracker) (leader path_index : Str)
    → Recorded m.name leader path_index ts
    → ((elect b m s ts).answer.leader ≡ leader)
      × ((elect b m s ts).answer.is_leader ≡ (leader == b))
      × ((elect b m s ts).answer.path_index ≡ path_index)
unfolding elect
elect-Recorded b m s ts leader path_index (i, t, e, o, held, p) =
    let f = follow_recorded b m.path i t ts held in
    (
      rw (e, elect, held, f) o,
      rw (e, elect, held, f) (ap (λ w. w == b) o),
      rw (e, elect, held, f) p,
    )

-- What an election saves records what it answers.
pub saved-Recorded :
    (a : Str) (m : Metadata) (s : Bool) (ts ts' : List LeaderTracker)
    → (a == []) ≡ false
    → (elect a m s ts).saved ≡ some ts'
    → Recorded m.name (elect a m s ts).answer.leader (elect a m s ts).answer.path_index ts'
saved-Recorded a m s ts ts' ha saved =
    let e = elect a m s ts in
    subst (WhenSaved (Recorded m.name e.answer.leader e.answer.path_index)) saved
      (Elected-Recorded a m s ts ha e (elect-Elected a m s ts))

-- When `reconcileLeaderWithState` for an instance `a` with a name has saved its trackers, a later one for
-- the same resource by any instance `b` answers with the same leader and the same path index, and
-- tells `b` that it is the leader just when the leader's name is its own.
pub elect_agrees :
    (a b : Str) (m m' : Metadata) (s s' : Bool) (ts ts' : List LeaderTracker)
    → (a == []) ≡ false
    → m'.name ≡ m.name
    → (elect a m s ts).saved ≡ some ts'
    → ((elect b m' s' ts').answer.leader ≡ (elect a m s ts).answer.leader)
      × ((elect b m' s' ts').answer.is_leader ≡ ((elect a m s ts).answer.leader == b))
      × ((elect b m' s' ts').answer.path_index ≡ (elect a m s ts).answer.path_index)
elect_agrees a b m m' s s' ts ts' ha same saved = elect-Recorded b m' s' ts' _ _ (
    subst (λ n. Recorded n (elect a m s ts).answer.leader (elect a m s ts).answer.path_index ts')
      (sym same) (saved-Recorded a m s ts ts' ha saved))
