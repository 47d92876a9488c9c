-- ===== src/Sharing/Durable.antt =====
-- Two reconciles agree on the leader through the Secret.
use open_liberty_operator.Common.{
  Str, ◌==◌, str_eq, str_beq, Bool, true, false, ◌&&◌, List, [], ◌∷◌, ◌++◌, map, none, some,
  if◌then◌else◌, Result, Result-cases, ok, err, ◌≡◌, refl, sym, ap, ◌∙◌, arith, All, All-append,
  Lacks, Bool-cases, Option-cases, inl, inr, subst,
}
use open_liberty_operator.Tracker.{
  LeaderTracker, set_owner, clear_owner_if_shares, shares_last_path_parent,
}
use open_liberty_operator.Tracker.Codec.{customize_leader_tracker, trackers_of}
use open_liberty_operator.Tracker.Encode.{IsStorable, stored, trackers_of-customize}
use open_liberty_operator.Sharing.{Metadata, Leader, Election, elect, leader_index}
use open_liberty_operator.Sharing.Locate.{
  leader_index-cases, leader_index-parts, map-append, NoneNamed-map,
}
use open_liberty_operator.Sharing.Elect.{Elected, elect-Elected, fresh}
use open_liberty_operator.Sharing.Agreement.{WhenSaved, Recorded, saved-Recorded, elect-Recorded}
use open_liberty_operator.Sharing.Store.{
  Secret, Cluster, Failure, fault, has_mutex, tracker_secret_name, get_leader_tracker,
  save_leader_tracker, reconcile_leader_with_state, reconcile_leader,
}

-- The metadata can be kept in the Secret.
abbrev pub IsKeepable : Metadata → Type 0
IsKeepable m =
    ((m.name == [] && m.path_index == [] && m.path == []) ≡ false)
    × Lacks b',' m.name
    × Lacks b',' m.path_index
    × Lacks b',' m.path

clear-IsStorable :
    (a path : Str) (ts : List LeaderTracker)
    → All IsStorable ts
    → All IsStorable (map (clear_owner_if_shares a path) ts)
unfolding clear_owner_if_shares
clear-IsStorable a path [] h = tt
clear-IsStorable a path (t ∷ ts) (h, hs) =
    (either (t.owner == a && shares_last_path_parent path t.path), clear-IsStorable a path ts hs)
  where
    either : (c : Bool) → IsStorable (if c then set_owner [] t else t)
    either true = (h.0, h.1, tt, h.3, h.4)
    either false = h

All-parts :
    (xs ys : List LeaderTracker) → All IsStorable (xs ++ ys) → All IsStorable xs × All IsStorable ys
All-parts [] ys h = (tt, h)
All-parts (x ∷ xs) ys (p, h) = let (hx, hy) = All-parts xs ys h in ((p, hx), hy)

module _ (a : Str) (m : Metadata) (s : Bool) (ts : List LeaderTracker) (la : Lacks b',' a)
    (km : IsKeepable m) (h : All IsStorable ts) where
  Elected-IsStorable : (e : Election) → Elected a m s ts e → WhenSaved (All IsStorable) e.saved
  Elected-IsStorable e (Elected.unknown_waits _ _) = tt
  Elected-IsStorable e (Elected.vacant_waits _ _ _) = tt
  Elected-IsStorable e (Elected.unknown_elects _ _) =
      All-append IsStorable (map (clear_owner_if_shares a m.path) ts) (fresh a m ∷ [])
        (clear-IsStorable a m.path ts h) ((km.0, km.1, la, km.2, km.3), tt)
  Elected-IsStorable e (Elected.follows_self l _ _) = h
  Elected-IsStorable e (Elected.follows_other l _ _) = clear-IsStorable a m.path ts h
  Elected-IsStorable e (Elected.vacant_elects l _ _) =
      let (hx, (ht, hy)) = All-parts l.before (l.at ∷ l.after) (subst (All IsStorable) l.parts h) in
      All-append IsStorable (map (clear_owner_if_shares a m.path) l.before) _
        (clear-IsStorable a m.path l.before hx)
        ((ht.0, ht.1, la, ht.3, ht.4), clear-IsStorable a m.path l.after hy)

Elected-waits :
    (a : Str) (m : Metadata) (s : Bool) (ts : List LeaderTracker) (e : Election)
    → Elected a m s ts e
    → e.saved ≡ none
    → e.answer.leader ≡ []
Elected-waits a m s ts e (Elected.unknown_waits _ _) h = refl
Elected-waits a m s ts e (Elected.vacant_waits _ _ _) h = refl
Elected-waits a m s ts e (Elected.unknown_elects _ _) h = absurd (ground (arith, h))
Elected-waits a m s ts e (Elected.follows_self _ _ _) h = absurd (ground (arith, h))
Elected-waits a m s ts e (Elected.follows_other _ _ _) h = absurd (ground (arith, h))
Elected-waits a m s ts e (Elected.vacant_elects _ _ _) h = absurd (ground (arith, h))

stored-Recorded :
    (n leader path_index : Str) (ts : List LeaderTracker)
    → Recorded n leader path_index ts
    → Recorded n leader path_index (map stored ts)
stored-Recorded n leader path_index ts (i, t, found, o, held, p) =
    elim (leader_index-cases n ts 0 none) [
      | inl (_, e) ↦ absurd (ground (arith, e, found))
      | inr (l, e) ↦
          let same : l.at ≡ t = ground (arith, e, found) in
          let around : map stored ts ≡ _ =
            ap (map stored) l.parts ∙ map-append stored l.before (l.at ∷ l.after) in
          let later = NoneNamed-map stored n l.after (λ _. refl) l.no_later in
          let here : leader_index n (map stored ts) 0 none ≡ _ =
            ap (λ us. leader_index n us 0 none) around
            ∙ leader_index-parts n (map stored l.before) (map stored l.after) (stored l.at) 0 none
                l.named later in
          (
            _,
            stored l.at,
            here,
            ap (λ u. u.owner) same ∙ o,
            ap (λ u. u.owner == []) same ∙ held,
            ap (λ u. u.path_index) same ∙ p,
          )
    ]

-- A read of the client gives the Secret of the name asked for.
abbrev pub ReadsNamed : {F S : Type 0} → Cluster F S → Type 0
ReadsNamed {S = S} cluster =
    (n : Str) (s : S) (secret : Secret) → cluster.get n s ≡ ok secret → secret.name ≡ n

-- In the state `later` the client's reads show the Secret that it wrote from the state `s` to `s'`: its cache
-- has caught up, and nothing else has been written.
abbrev pub Shows : {F S : Type 0} → Cluster F S → S → S → S → Type 0
Shows cluster s s' later =
    (secret : Secret)
    → cluster.create_or_update secret s ≡ (none, s')
    → cluster.get secret.name later ≡ ok secret

-- The outcome names `leader`, or is an error of the client's.
abbrev pub AnswersOrFaults : {F : Type 0} → Str → Result (Failure F) Leader → Type 0
AnswersOrFaults leader (ok answer) = answer.leader ≡ leader
AnswersOrFaults leader (err (fault e)) = Unit
AnswersOrFaults leader (err _) = ⊥

module _ {F S : Type 0} (cluster : Cluster F S) (mutexes : List Str)
    (short_name tracker_type : Str) where
  reads_then :
      (a : Str) (secret : Secret) (ts : List LeaderTracker) (m : Metadata) (se : Bool) (s : S)
      → has_mutex tracker_type mutexes ≡ true
      → cluster.get (tracker_secret_name short_name tracker_type) s ≡ ok secret
      → trackers_of secret.data_of ≡ ok ts
      → reconcile_leader cluster mutexes short_name tracker_type a m se s
        ≡ reconcile_leader_with_state cluster mutexes short_name tracker_type a secret ts m se s
  unfolding reconcile_leader get_leader_tracker
  reads_then a secret ts m se s mutex got read = ground (arith, mutex, got, read)

  -- A successful reconcile has read the trackers.
  reconciled :
      (a : Str) (m : Metadata) (se : Bool) (s s' : S) (answer : Leader)
      → reconcile_leader cluster mutexes short_name tracker_type a m se s ≡ (ok answer, s')
      → (secret : Secret) × (ts : List LeaderTracker) × (has_mutex tracker_type mutexes ≡ true)
        × (cluster.get (tracker_secret_name short_name tracker_type) s ≡ ok secret)
        × (trackers_of secret.data_of ≡ ok ts)
        × (reconcile_leader_with_state cluster mutexes short_name tracker_type a secret ts m se s
            ≡ (ok answer, s'))
  unfolding reconcile_leader get_leader_tracker
  reconciled a m se s s' answer h = elim (Bool-cases (has_mutex tracker_type mutexes)) [
    | inr none_stored ↦ absurd (ground (arith, none_stored, h))
    | inl mutex ↦
        elim (Result-cases (cluster.get (tracker_secret_name short_name tracker_type) s)) [
          | inr (e, failed) ↦ absurd (ground (arith, mutex, failed, h))
          | inl (secret, got) ↦ elim (Result-cases (trackers_of secret.data_of)) [
            | inr (e, failed) ↦ absurd (ground (arith, mutex, got, failed, h))
            | inl (ts, read) ↦ (
              secret,
              ts,
              mutex,
              got,
              read,
              sym (reads_then a secret ts m se s mutex got read) ∙ h,
            )
          ]
        ]
  ]

  -- A successful reconcile that names a leader has saved the trackers that record it.
  saved_trackers :
      (a : Str) (secret : Secret) (ts : List LeaderTracker) (m : Metadata) (se : Bool) (s s' : S)
      (answer : Leader)
      → reconcile_leader_with_state cluster mutexes short_name tracker_type a secret ts m se s
        ≡ (ok answer, s')
      → (answer.leader == []) ≡ false
      → ((elect a m se ts).answer ≡ answer)
        × (ts' : List LeaderTracker) × ((elect a m se ts).saved ≡ some ts')
        × (cluster.create_or_update
              (record {
                name = secret.name;
                version = secret.version;
                data_of = customize_leader_tracker (some ts');
              })
              s
            ≡ (none, s'))
  unfolding reconcile_leader_with_state save_leader_tracker str_beq
  saved_trackers a secret ts m se s s' answer h named =
      elim (Option-cases ((elect a m se ts).saved)) [
        | inl waits ↦ absurd (
            ground (
              arith,
              waits,
              h,
              named,
              Elected-waits a m se ts (elect a m se ts) (elect-Elected a m se ts) waits,
            ))
        | inr (ts', saved) ↦
            let written =
              cluster.create_or_update
                (record {
                  name = secret.name;
                  version = secret.version;
                  data_of = customize_leader_tracker (some ts');
                })
                s in
            let last_state : written.0 ≡ none → written.1 ≡ s' = λ f. ground (arith, saved, f, h) in
            elim (Option-cases (written.0)) [
              | inr (e, failed) ↦ absurd (ground (arith, saved, failed, h))
              | inl fine ↦
                  (ground (arith, saved, fine, h), ts', saved, λ i. (fine i, last_state fine i))
            ]
      ]

  with_state-answers :
      (b : Str) (secret : Secret) (ts : List LeaderTracker) (m : Metadata) (se : Bool) (s : S)
      → has_mutex tracker_type mutexes ≡ true
      → AnswersOrFaults ((elect b m se ts).answer.leader) (
          (reconcile_leader_with_state cluster mutexes short_name tracker_type b secret ts m se
            s).0)
  unfolding reconcile_leader_with_state save_leader_tracker
  with_state-answers b secret ts m se s mutex = elim (Option-cases ((elect b m se ts).saved)) [
    | inl waits ↦ holds (ok answer) (ground (arith, waits)) refl
    | inr (ts', saved) ↦
        let written =
          cluster.create_or_update
            (record {
              name = secret.name;
              version = secret.version;
              data_of = customize_leader_tracker (some ts');
            })
            s in
        elim (Option-cases (written.0)) [
          | inl fine ↦ holds (ok answer) (ground (arith, saved, mutex, fine)) refl
          | inr (e, failed) ↦ holds (err (fault e)) (ground (arith, saved, mutex, failed)) tt
        ]
  ]
    where
      answer : Leader
      answer = (elect b m se ts).answer

      outcome : Result (Failure F) Leader
      outcome =
          (reconcile_leader_with_state cluster mutexes short_name tracker_type b secret ts m se s).0

      holds :
          (r : Result (Failure F) Leader)
          → outcome ≡ r
          → AnswersOrFaults answer.leader r
          → AnswersOrFaults answer.leader outcome
      holds r e h = subst (AnswersOrFaults answer.leader) (sym e) h

-- When `reconcileLeader` for an instance `a` with a name succeeds and names a leader, a `reconcileLeader` for
-- the same resource by any instance `b`, in any state in which the client's reads show the Secret that the
-- first one wrote, names the same leader or returns an error of the client's. The client reads from a
-- cache, and nothing is said of the states before the cache shows that Secret. No text that is kept has a
-- comma: neither in the trackers that were read nor in the metadata, each of which has a name, a path
-- index or a path.
pub reconcile_leader_agrees :
    {F S : Type 0} (cluster : Cluster F S) (mutexes : List Str) (short_name tracker_type a b : Str)
    (m : Metadata) (se se' : Bool) (s s' later : S) (answer : Leader)
    → ReadsNamed cluster
    → Shows cluster s s' later
    → (a == []) ≡ false
    → Lacks b',' a
    → IsKeepable m
    → ((secret : Secret) (ts : List LeaderTracker)
        → cluster.get (tracker_secret_name short_name tracker_type) s ≡ ok secret
        → trackers_of secret.data_of ≡ ok ts
        → All IsStorable ts)
    → reconcile_leader cluster mutexes short_name tracker_type a m se s ≡ (ok answer, s')
    → (answer.leader == []) ≡ false
    → AnswersOrFaults answer.leader
        ((reconcile_leader cluster mutexes short_name tracker_type b m se' later).0)
reconcile_leader_agrees cluster mutexes short_name tracker_type a b m se se' s s' later answer law
      shows ha la km storable h named =
    let (secret, ts, mutex, got, read, went_on) =
      reconciled cluster mutexes short_name tracker_type a m se s s' answer h in
    let (answers, ts', saved, written) =
      saved_trackers cluster mutexes short_name tracker_type a secret ts m se s s' answer went_on
        named in
    let kept : All IsStorable ts' = subst (WhenSaved (All IsStorable)) saved (
      Elected-IsStorable a m se ts la km (storable secret ts got read) (elect a m se ts)
        (elect-Elected a m se ts)) in
    let (same, _, _) =
      elect-Recorded b m se' (map stored ts') _ _
        (stored-Recorded m.name _ _ ts' (saved-Recorded a m se ts ts' ha saved)) in
    let secret' : Secret = record {
      name = secret.name;
      version = secret.version;
      data_of = customize_leader_tracker (some ts');
    } in
    let again =
      subst (λ n. cluster.get n later ≡ ok secret') (law _ s secret got) (shows secret' written) in
    let next =
      reads_then cluster mutexes short_name tracker_type b secret' (map stored ts') m se' later
        mutex again (trackers_of-customize ts' kept) in
    rw next (
      subst
        (λ leader. AnswersOrFaults leader (
          (reconcile_leader_with_state cluster mutexes short_name tracker_type b secret'
            (map stored ts') m se' later).0))
        (same ∙ ap (λ w. w.leader) answers)
        (with_state-answers cluster mutexes short_name tracker_type b secret' (map stored ts') m se'
          later mutex))
