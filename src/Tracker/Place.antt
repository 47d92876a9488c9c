-- ===== src/Tracker/Place.antt =====
-- Where `InsertIntoSortedLeaderTrackers` puts a new tracker.
use open_liberty_operator.Common.{
  ℕ, suc, ◌+◌, Str, true, false, List, [], ◌∷◌, ◌++◌, Option, none, some, str_ltb, length, ◌≡◌,
  refl, ap, ◌∙◌, ◌⊎◌, inl, inr, arith, All, Bool-cases, if◌then◌else◌,
}
use open_liberty_operator.Tracker.{
  LeaderTracker, insert_index, insert_at, insert_into_sorted_leader_trackers,
}

-- No tracker has a name greater than `n`.
abbrev pub NoGreater : Str → List LeaderTracker → Type 0
NoGreater n = All (λ l. str_ltb n l.name ≡ false)

-- The list up to the last tracker with a name greater than `n`, and from it on.
pub record LastGreater (n : Str) (leaders : List LeaderTracker) : Type 0 where
  pub before : List LeaderTracker
  pub last : LeaderTracker
  pub after : List LeaderTracker
  pub parts : leaders ≡ before ++ (last ∷ after)
  pub last_greater : str_ltb n last.name ≡ true
  pub no_later : NoGreater n after

insert_index-cases :
    (n : Str) (leaders : List LeaderTracker) (i : ℕ) (found : Option ℕ)
    → (NoGreater n leaders × (insert_index n leaders i found ≡ found))
      ⊎ ((g : LastGreater n leaders) × (insert_index n leaders i found
            ≡ some (i + length g.before)))
unfolding insert_index
insert_index-cases n [] i found = inl (tt, refl)
insert_index-cases n (l ∷ ls) i found =
    elim (insert_index-cases n ls (suc i) (if str_ltb n l.name then some i else found)) [
      | inr (g, e) ↦ inr (
        record {
          before = l ∷ g.before;
          last = g.last;
          after = g.after;
          parts = ap (◌∷◌ l) g.parts;
          last_greater = g.last_greater;
          no_later = g.no_later;
        },
        ground (arith, e),
      )
      | inl (none_later, e) ↦ elim (Bool-cases (str_ltb n l.name)) [
        | inr h ↦ inl ((h, none_later), rw h (rw h at e))
        | inl h ↦ inr (
          record {
            before = [];
            last = l;
            after = ls;
            parts = refl;
            last_greater = h;
            no_later = none_later;
          },
          ground (arith, e, h),
        )
      ]
    ]

insert_at-length :
    (xs ys : List LeaderTracker) (new : LeaderTracker)
    → insert_at (length xs) new (xs ++ ys) ≡ xs ++ (new ∷ ys)
insert_at-length [] ys new = refl
insert_at-length (x ∷ xs) ys new = ap (◌∷◌ x) (insert_at-length xs ys new)

-- `InsertIntoSortedLeaderTrackers` appends the new tracker when no name is greater, and puts it directly
-- in front of the last tracker with a greater name otherwise, leaving the other trackers as they are.
pub insert_into_sorted-place :
    (leaders : List LeaderTracker) (new : LeaderTracker)
    → (NoGreater new.name leaders
        × (insert_into_sorted_leader_trackers leaders new ≡ leaders ++ (new ∷ [])))
      ⊎ ((g : LastGreater new.name leaders) × (insert_into_sorted_leader_trackers leaders new
            ≡ g.before ++ (new ∷ g.last ∷ g.after)))
unfolding insert_into_sorted_leader_trackers
insert_into_sorted-place leaders new = elim (insert_index-cases new.name leaders 0 none) [
  | inl (no_greater, e) ↦ inl (no_greater, rw (e, insert_into_sorted_leader_trackers) refl)
  | inr (g, e) ↦
      let e' : insert_index new.name leaders 0 none ≡ some (length g.before) = ground (arith, e) in
      inr (
        g,
        rw (e', insert_into_sorted_leader_trackers)
            (ap (insert_at (length g.before) new) g.parts
              ∙ insert_at-length g.before (g.last ∷ g.after) new),
      )
]
