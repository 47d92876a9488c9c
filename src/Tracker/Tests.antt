-- ===== src/Tracker/Tests.antt =====
-- Concrete lists of trackers.
use open_liberty_operator.Common.{
  Str, codes, List, [], ◌∷◌, ◌++◌, map, some, ok, str_beq, str_ltb, ◌≡◌, ◌⊎◌, refl, All, has_byte,
  has_byte-Lacks,
}
use open_liberty_operator.Tracker.{LeaderTracker, insert_into_sorted_leader_trackers}
use open_liberty_operator.Tracker.Codec.{customize_leader_tracker, trackers_of}
use open_liberty_operator.Tracker.Encode.{stored, IsStorable, trackers_of-customize}
use open_liberty_operator.Tracker.Place.{NoGreater, LastGreater, insert_into_sorted-place}

abbrev tracker : Str → LeaderTracker
tracker n = record {
  name = n;
  owner = codes "app";
  path_index = codes "v1_4_0.0";
  path = codes "v1_4_0.a.true";
  sublease = codes "7";
}

abbrev b_and_c : List LeaderTracker
b_and_c = tracker (codes "b") ∷ tracker (codes "c") ∷ []

b_and_c-IsStorable : All IsStorable b_and_c
unfolding has_byte str_beq
b_and_c-IsStorable =
    let owner = has_byte-Lacks b',' (codes "app") refl in
    let index = has_byte-Lacks b',' (codes "v1_4_0.0") refl in
    let path = has_byte-Lacks b',' (codes "v1_4_0.a.true") refl in
    (
      (refl, has_byte-Lacks b',' (codes "b") refl, owner, index, path),
      ((refl, has_byte-Lacks b',' (codes "c") refl, owner, index, path), tt),
    )

trackers_of-customize_example :
    trackers_of (customize_leader_tracker (some b_and_c)) ≡ ok (map stored b_and_c)
trackers_of-customize_example = trackers_of-customize b_and_c b_and_c-IsStorable

-- A name before both of two sorted names is put between them.
insert_between :
    map (λ t. t.name) (insert_into_sorted_leader_trackers b_and_c (tracker (codes "a")))
    ≡ codes "b" ∷ codes "a" ∷ codes "c" ∷ []
unfolding insert_into_sorted_leader_trackers str_ltb
insert_between = refl

insert_into_sorted-place_example :
    (NoGreater (codes "a") b_and_c
      × (insert_into_sorted_leader_trackers b_and_c (tracker (codes "a"))
          ≡ b_and_c ++ (tracker (codes "a") ∷ [])))
    ⊎ ((g : LastGreater (codes "a") b_and_c) × (insert_into_sorted_leader_trackers b_and_c
            (tracker (codes "a"))
          ≡ g.before ++ (tracker (codes "a") ∷ g.last ∷ g.after)))
insert_into_sorted-place_example = insert_into_sorted-place b_and_c (tracker (codes "a"))
