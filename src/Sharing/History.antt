-- ===== src/Sharing/History.antt =====
-- A leader keeps its resource through whatever the other instances do.
use open_liberty_operator.Common.{
  ℕ, Str, ◌==◌, str_eq, Bool, false, List, [], ◌∷◌, ◌++◌, map, Option, none, some, ◌≡◌, refl, ap,
  ◌∙◌, inl, inr, arith, All, Bool-cases,
}
use open_liberty_operator.Tracker.{LeaderTracker}
use open_liberty_operator.Sharing.{
  Metadata, leader_index, elect, Event, reconciles, leaves, after_event, after_events,
}
use open_liberty_operator.Sharing.Locate.{leader_index-cases}
use open_liberty_operator.Sharing.Elect.{elect-Elected}
use open_liberty_operator.Sharing.Removed.{vacated, owned_by, only_owner, remove_leader-result}
use open_liberty_operator.Sharing.Agreement.{WhenSaved, elect-Recorded, saved-Recorded}
use open_liberty_operator.Sharing.Steady.{Steady, Steady-leader_index, Elected-Steady}

-- The instance that acts in an event.
abbrev pub actor : Event → Str
actor (reconciles b m s) = b
actor (leaves b) = b

module _ (n a : Str) (named : (a == []) ≡ false) where
  Steady-vacated :
      (b : Str) (ts : List LeaderTracker) → (a == b) ≡ false → Steady n a ts (map (vacated b) ts)
  Steady-vacated b [] h = tt
  Steady-vacated b (t ∷ ts) h =
      (ground arith, (λ _ o. ground (arith, ap (λ w. w == b) o ∙ h)), Steady-vacated b ts h)

  still_owner :
      (b : Str) (xs ys : List LeaderTracker) (t : LeaderTracker)
      → (a == b) ≡ false
      → t.owner ≡ a
      → only_owner b (xs ++ (t ∷ ys)) ≡ false
  still_owner b [] ys t h o = ground (arith, ap (λ w. w == b) o ∙ h, ap (λ w. w == []) o ∙ named)
  still_owner b (x ∷ xs) ys t h o = ground (arith, still_owner b xs ys t h o)

  located_owner :
      (b : Str) (ts : List LeaderTracker) (i : ℕ) (t : LeaderTracker)
      → (a == b) ≡ false
      → leader_index n ts 0 none ≡ some (i, t)
      → t.owner ≡ a
      → only_owner b ts ≡ false
  located_owner b ts i t h found o = elim (leader_index-cases n ts 0 none) [
    | inl (_, e) ↦ absurd (ground (arith, e, found))
    | inr (l, e) ↦
        let same : l.at ≡ t = ground (arith, e, found) in
        rw l.parts (still_owner b l.before l.after l.at h (ap (λ w. w.owner) same ∙ o))
  ]

  -- The trackers after the event, with the same tracker for the resource.
  abbrev Kept : ℕ → LeaderTracker → Option (List LeaderTracker) → Type 0
  Kept i t o = (ts : List LeaderTracker) × (o ≡ some ts) × (leader_index n ts 0 none ≡ some (i, t))

  module _ (ts : List LeaderTracker) (i : ℕ) (t : LeaderTracker)
      (found : leader_index n ts 0 none ≡ some (i, t)) (o : t.owner ≡ a) where
    kept_by :
        (ts' : List LeaderTracker) → Steady n a ts ts' → leader_index n ts' 0 none ≡ some (i, t)
    kept_by ts' s = Steady-leader_index n a ts ts' 0 none none (λ j u e _. e) s i t found o

    after_event-Kept : (e : Event) → (a == actor e) ≡ false → Kept i t (after_event e ts)
    unfolding after_event
    after_event-Kept (reconciles b m s) h =
        saved ((elect b m s ts).saved) (
          Elected-Steady n a b m s ts (elect b m s ts) named h i t found o (elect-Elected b m s ts))
      where
        saved :
            (r : Option (List LeaderTracker))
            → WhenSaved (Steady n a ts) r
            → Kept i t (elim r [ none ↦ some ts | some ts' ↦ some ts' ])
        saved none w = (ts, refl, found)
        saved (some ts') w = (ts', refl, kept_by ts' w)
    after_event-Kept (leaves b) h = elim (Bool-cases (owned_by b ts)) [
      | inl mine ↦
          rw (after_event, remove_leader-result b ts, located_owner b ts i t h found o, mine)
            (map (vacated b) ts, refl, kept_by (map (vacated b) ts) (Steady-vacated b ts h))
      | inr other ↦
          rw (after_event, remove_leader-result b ts, located_owner b ts i t h found o, other)
            (ts, refl, found)
    ]

  -- Over any sequence of events by instances other than `a`, the Secret is never deleted, and the
  -- tracker of a resource that `a` owns stays at its place as it is.
  after_events-Kept :
      (es : List Event) (ts : List LeaderTracker) (i : ℕ) (t : LeaderTracker)
      → All (λ e. (a == actor e) ≡ false) es
      → leader_index n ts 0 none ≡ some (i, t)
      → t.owner ≡ a
      → Kept i t (after_events es ts)
  unfolding after_events
  after_events-Kept [] ts i t h found o = (ts, refl, found)
  after_events-Kept (e ∷ es) ts i t (h, hs) found o =
      let (ts', e', found') = after_event-Kept ts i t found o e h in
      rw (after_events, e') (after_events-Kept es ts' i t hs found' o)

-- After an election that saved `a` as the leader of a resource, and then any sequence of reconciles and
-- departures of other instances, the trackers are still there, and an election by any instance for
-- the resource answers `a`, with the same path index.
pub leader_stays :
    (a : Str) (m : Metadata) (s : Bool) (ts ts' : List LeaderTracker) (es : List Event) (b : Str)
    (s' : Bool)
    → (a == []) ≡ false
    → (elect a m s ts).saved ≡ some ts'
    → (elect a m s ts).answer.leader ≡ a
    → All (λ e. (a == actor e) ≡ false) es
    → (ts'' : List LeaderTracker) × (after_events es ts' ≡ some ts'')
      × ((elect b m s' ts'').answer.leader ≡ a)
      × ((elect b m s' ts'').answer.path_index ≡ (elect a m s ts).answer.path_index)
leader_stays a m s ts ts' es b s' ha saved mine h =
    let (i, t, found, o, held, p) = saved-Recorded a m s ts ts' ha saved in
    let (ts'', reached, found') = after_events-Kept m.name a ha es ts' i t h found (o ∙ mine) in
    let (leader, _, index) = elect-Recorded b m s' ts'' a _ (i, t, found', o ∙ mine, held, p) in
    (ts'', reached, leader, index)
