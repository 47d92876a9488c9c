-- ===== src/Sharing/Tests.antt =====
-- Runs of the election on concrete trackers.
use open_liberty_operator.Common.{
  Str, codes, ◌==◌, str_eq, str_beq, true, false, List, [], ◌∷◌, map, none, some, Result, ok, err,
  if◌then◌else◌, ◌≡◌, refl, sym, ap, subst, ◌∙◌, inl, inr, arith, All, Bool-cases, Lacks, has_byte,
  has_byte-Lacks, str_beq_iff,
}
use open_liberty_operator.Tracker.{LeaderTracker}
use open_liberty_operator.Tracker.Codec.{customize_leader_tracker, trackers_of, DataError}
use open_liberty_operator.Tracker.Encode.{IsStorable}
use open_liberty_operator.Sharing.{
  Metadata, reconciles, leaves, after_events, elect, remove_leader, deletes, keeps, saves,
}
use open_liberty_operator.Sharing.Elect.{Elected, elect-Elected, fresh}
use open_liberty_operator.Sharing.Agreement.{elect_agrees}
use open_liberty_operator.Sharing.History.{leader_stays}
use open_liberty_operator.Sharing.Removed.{vacated, owned_by, only_owner, remove_leader-result}
use open_liberty_operator.Sharing.Store.{Secret, Cluster, reconcile_leader, tracker_secret_name}
use open_liberty_operator.Sharing.Durable.{
  IsKeepable, ReadsNamed, Shows, AnswersOrFaults, reconcile_leader_agrees,
}

abbrev ltpa : Metadata
ltpa = record { name = codes "k1"; path = codes "v1_4_0.ltpa.true"; path_index = codes "v1_4_0.0" }

abbrev ltpa_tracker : LeaderTracker
ltpa_tracker = fresh (codes "app-a") ltpa

leader_stays_example :
    (ts'' : List LeaderTracker) × (after_events
        (reconciles (codes "app-b") ltpa true ∷ leaves (codes "app-c") ∷ [])
        (ltpa_tracker ∷ [])
      ≡ some ts'')
    × ((elect (codes "app-b") ltpa true ts'').answer.leader ≡ codes "app-a")
    × ((elect (codes "app-b") ltpa true ts'').answer.path_index
        ≡ (elect (codes "app-a") ltpa true []).answer.path_index)
unfolding elect str_beq
leader_stays_example =
    leader_stays (codes "app-a") ltpa true [] (ltpa_tracker ∷ [])
      (reconciles (codes "app-b") ltpa true ∷ leaves (codes "app-c") ∷ []) (codes "app-b") true refl
      refl refl (refl, (refl, tt))

elect_agrees_example :
    ((elect (codes "app-b") ltpa false (ltpa_tracker ∷ [])).answer.leader
      ≡ (elect (codes "app-a") ltpa true []).answer.leader)
    × ((elect (codes "app-b") ltpa false (ltpa_tracker ∷ [])).answer.is_leader
        ≡ ((elect (codes "app-a") ltpa true []).answer.leader == codes "app-b"))
    × ((elect (codes "app-b") ltpa false (ltpa_tracker ∷ [])).answer.path_index
        ≡ (elect (codes "app-a") ltpa true []).answer.path_index)
unfolding elect str_beq
elect_agrees_example =
    elect_agrees (codes "app-a") (codes "app-b") ltpa ltpa true false [] (ltpa_tracker ∷ []) refl
      refl refl

elect-Elected_example :
    Elected
      (codes "app-b")
      ltpa
      true
      (ltpa_tracker ∷ [])
      (elect (codes "app-b") ltpa true (ltpa_tracker ∷ []))
elect-Elected_example = elect-Elected (codes "app-b") ltpa true (ltpa_tracker ∷ [])

remove_leader-result_example : remove_leader (codes "app-a") (ltpa_tracker ∷ []) ≡ (
    if only_owner (codes "app-a") (ltpa_tracker ∷ [])
    then deletes
    else if owned_by (codes "app-a") (ltpa_tracker ∷ [])
    then saves (map (vacated (codes "app-a")) (ltpa_tracker ∷ []))
    else keeps)
remove_leader-result_example = remove_leader-result (codes "app-a") (ltpa_tracker ∷ [])

-- A cluster that holds one Secret, by name, and a cache of it from which the client reads.
abbrev one_secret : Cluster Unit (Secret × Secret)
one_secret = record {
  get = λ n s. if s.1.name == n then ok s.1 else err tt;
  is_not_found = λ _. true;
  delete = λ _ s. (some tt, s);
  create_or_update = λ secret s. (none, (secret, s.1));
}

secret_of : Secret → Result Unit Secret → Secret
secret_of d (ok s) = s
secret_of d (err e) = d

trackers_in : Result DataError (List LeaderTracker) → List LeaderTracker
trackers_in (ok ts) = ts
trackers_in (err e) = []

one_secret-ReadsNamed : ReadsNamed one_secret
unfolding secret_of
one_secret-ReadsNamed n s secret h = elim (Bool-cases (s.1.name == n)) [
  | inl e ↦
      let same : s.1 ≡ secret = ap (secret_of s.1) (rw e at h) in
      ap (λ w. w.name) (sym same) ∙ ground (arith, e, str_beq_iff s.1.name n)
  | inr e ↦ absurd (ground (arith, e, h))
]

abbrev secret_name : Str
secret_name = tracker_secret_name (codes "olo") (codes "ltpa")

abbrev empty_secret : Secret
empty_secret = record {
  name = secret_name;
  version = codes "v1_4_0";
  data_of = customize_leader_tracker none;
}

abbrev saved_secret : Secret
saved_secret = record {
  name = secret_name;
  version = codes "v1_4_0";
  data_of = customize_leader_tracker (some (ltpa_tracker ∷ []));
}

empty_secret-IsStorable :
    (secret : Secret) (ts : List LeaderTracker)
    → one_secret.get secret_name (empty_secret, empty_secret) ≡ ok secret
    → trackers_of secret.data_of ≡ ok ts
    → All IsStorable ts
unfolding str_beq secret_of trackers_of trackers_in customize_leader_tracker
empty_secret-IsStorable secret ts got read =
    let same : empty_secret ≡ secret = ap (secret_of empty_secret) got in
    let none_kept : [] ≡ ts = ap trackers_in (ap (λ s. trackers_of s.data_of) same ∙ read) in
    subst (All IsStorable) none_kept tt

app_a-Lacks : Lacks b',' (codes "app-a")
unfolding has_byte
app_a-Lacks = has_byte-Lacks b',' (codes "app-a") refl

ltpa-IsKeepable : IsKeepable ltpa
unfolding has_byte str_beq
ltpa-IsKeepable = (
  refl,
  has_byte-Lacks b',' ltpa.name refl,
  has_byte-Lacks b',' ltpa.path_index refl,
  has_byte-Lacks b',' ltpa.path refl,
)

-- The cache is behind, and then it has caught up.
written-Shows :
    Shows one_secret
      (empty_secret, empty_secret)
      (saved_secret, empty_secret)
      (saved_secret, saved_secret)
unfolding str_beq
written-Shows secret h = let same : secret ≡ saved_secret = ap (λ r. r.1.0) h in rw (same) refl

reconcile_leader_agrees_example : AnswersOrFaults {F = Unit} (codes "app-a") (
    (reconcile_leader one_secret
      (codes "ltpa" ∷ [])
      (codes "olo")
      (codes "ltpa")
      (codes "app-b")
      ltpa
      true
      (saved_secret, saved_secret)).0)
unfolding str_beq elect reconcile_leader trackers_of customize_leader_tracker
reconcile_leader_agrees_example =
    reconcile_leader_agrees one_secret (codes "ltpa" ∷ []) (codes "olo") (codes "ltpa")
      (codes "app-a") (codes "app-b") ltpa true true (empty_secret, empty_secret)
      (saved_secret, empty_secret) (saved_secret, saved_secret)
      (elect (codes "app-a") ltpa true []).answer one_secret-ReadsNamed written-Shows refl
      app_a-Lacks ltpa-IsKeepable empty_secret-IsStorable refl refl
