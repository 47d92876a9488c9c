-- ===== src/Injector/Lifecycle.antt =====
-- What a client of the pod injector sees of the run of its own pod.
use open_liberty_operator.Common.{
  ◌<◌, Str, ◌==◌, str_eq, str_beq_iff, nat_eq, Bool, true, false, List, [], ◌∷◌, ◌++◌, none, some,
  if◌then◌else◌, leb, length, ◌≡◌, refl, sym, ap, ◌∙◌, inl, inr, arith, subst, Distinct, In,
  Bool-cases,
}
use open_liberty_operator.Injector.{
  SyncMap, load, delete, store, State, writing, done, name, has_worker, remove_worker,
  without_worker, start, complete, status, linperf_file_name, succeeded, Step, unlists,
  marks_completed, names_file, records_error, callback_steps, callback_step,
}
use open_liberty_operator.Injector.Capacity.{
  IsWithin, start-IsWithin, callback_step-IsWithin, removed-IsWithin,
}

same_key : (k : Str) → (k == k) ≡ true
same_key k = ground (arith, str_beq_iff k k)

module _ {V : Type 0} where
  pub load-delete : (k : Str) (m : SyncMap V) → load k (delete k m) ≡ none
  unfolding load delete
  load-delete k [] = refl
  load-delete k ((k', v) ∷ m) = ground (arith, load-delete k m)

  pub load-delete_other :
      (k k' : Str) (m : SyncMap V) → (k' == k) ≡ false → load k (delete k' m) ≡ load k m
  unfolding load delete
  load-delete_other k k' [] h = refl
  load-delete_other k k' ((l, v) ∷ m) h = elim (Bool-cases (l == k')) [
    | inl same ↦
        let other : (l == k) ≡ false =
          ground (arith, same, h, str_beq_iff l k', str_beq_iff l k, str_beq_iff k' k) in
        ground (arith, same, other, load-delete_other k k' m h)
    | inr e ↦ ground (arith, e, load-delete_other k k' m h)
  ]

  pub load-store : (k : Str) (v : V) (m : SyncMap V) → load k (store k v m) ≡ some v
  unfolding load store
  load-store k v m = rw (same_key k) refl

  pub load-store_other :
      (k k' : Str) (v : V) (m : SyncMap V) → (k' == k) ≡ false → load k (store k' v m) ≡ load k m
  unfolding load store
  load-store_other k k' v m h = rw h (load-delete_other k k' m h)

-- Nothing that the injector keeps of the pod `k` differs.
pub record SamePod (k : Str) (s s' : State) : Type 0 where
  pub same_worker : has_worker k s'.workers ≡ has_worker k s.workers
  pub same_completed : load k s'.completed_pods ≡ load k s.completed_pods
  pub same_error : load k s'.erroring_pods ≡ load k s.erroring_pods
  pub same_file_name : load k s'.linperf_file_names ≡ load k s.linperf_file_names

has_worker-remove_other :
    (k k' : Str) (ws : List Str)
    → (k' == k) ≡ false
    → has_worker k (remove_worker k' ws) ≡ has_worker k ws
unfolding has_worker remove_worker
has_worker-remove_other k k' [] h = refl
has_worker-remove_other k k' (w ∷ ws) h = elim (Bool-cases (w == k')) [
  | inl same ↦
      let other : (w == k) ≡ false =
        ground (arith, same, h, str_beq_iff w k', str_beq_iff w k, str_beq_iff k' k) in
      ground (arith, same, other)
  | inr e ↦ ground (arith, e, has_worker-remove_other k k' ws h)
]

has_worker-append :
    (k w : Str) (ws : List Str)
    → has_worker k (ws ++ (w ∷ [])) ≡ (if w == k then true else has_worker k ws)
unfolding has_worker
has_worker-append k w [] = refl
has_worker-append k w (v ∷ ws) = ground (arith, has_worker-append k w ws)

-- The calls that concern a pod, and the steps of the callback of its script.
pub data Call : Type 0 where
  starts : Bool → Call
  completes stops : Call
  proceeds : Step → Call

abbrev pub called : Call → Str → State → State
called (starts started) k s = (start started k s).0
called completes k s = complete k s
called stops k s = without_worker k s
called (proceeds step) k s = callback_step step k s

SamePod-refl : (k : Str) (s : State) → SamePod k s s
SamePod-refl k s = record {
  same_worker = refl;
  same_completed = refl;
  same_error = refl;
  same_file_name = refl;
}

module _ (k k' : Str) (h : (k' == k) ≡ false) where
  begun-SamePod :
      (started : Bool) (s : State)
      → has_worker k' s.workers ≡ false
      → leb s.current_max_workers (length s.workers) ≡ false
      → SamePod k s (start started k' s).0
  unfolding start
  begun-SamePod true s new room =
      rw (start, new, room)
        (record {
          same_worker = has_worker-append k k' s.workers ∙ rw h refl;
          same_completed = load-store_other k k' false s.completed_pods h;
          same_error = refl;
          same_file_name = load-delete_other k k' s.linperf_file_names h;
        })
  begun-SamePod false s new room =
      rw (start, new, room)
        (record {
          same_worker = refl;
          same_completed = load-store_other k k' false s.completed_pods h;
          same_error = refl;
          same_file_name = load-delete_other k k' s.linperf_file_names h;
        })

  start-SamePod : (started : Bool) (s : State) → SamePod k s (start started k' s).0
  unfolding start
  start-SamePod started s = elim (Bool-cases (has_worker k' s.workers)) [
    | inl has ↦ rw (start, has) (SamePod-refl k s)
    | inr new ↦ elim (Bool-cases (leb s.current_max_workers (length s.workers))) [
      | inl full ↦ rw (start, new, full) (SamePod-refl k s)
      | inr room ↦ begun-SamePod started s new room
    ]
  ]

  -- A call for another pod changes nothing of the pod `k`.
  called-SamePod : (c : Call) (s : State) → SamePod k s (called c k' s)
  called-SamePod (starts started) s = start-SamePod started s
  called-SamePod completes s =
      unfold complete in
      record {
        same_worker = has_worker-remove_other k k' s.workers h;
        same_completed = load-delete_other k k' s.completed_pods h;
        same_error = load-delete_other k k' s.erroring_pods h;
        same_file_name = refl;
      }
  called-SamePod stops s = record {
    same_worker = has_worker-remove_other k k' s.workers h;
    same_completed = refl;
    same_error = refl;
    same_file_name = refl;
  }
  called-SamePod (proceeds unlists) s =
      unfold callback_step in
      record {
        same_worker = has_worker-remove_other k k' s.workers h;
        same_completed = refl;
        same_error = refl;
        same_file_name = refl;
      }
  called-SamePod (proceeds marks_completed) s =
      unfold callback_step in
      record {
        same_worker = refl;
        same_completed = load-store_other k k' true s.completed_pods h;
        same_error = refl;
        same_file_name = refl;
      }
  called-SamePod (proceeds (names_file file_name)) s =
      unfold callback_step in
      record {
        same_worker = refl;
        same_completed = refl;
        same_error = refl;
        same_file_name = load-store_other k k' file_name s.linperf_file_names h;
      }
  called-SamePod (proceeds (records_error message)) s =
      unfold callback_step in
      record {
        same_worker = refl;
        same_completed = refl;
        same_error = load-store_other k k' message s.erroring_pods h;
        same_file_name = refl;
      }

SamePod-trans : (k : Str) (s s' s'' : State) → SamePod k s s' → SamePod k s' s'' → SamePod k s s''
SamePod-trans k s s' s'' p q = record {
  same_worker = q.same_worker ∙ p.same_worker;
  same_completed = q.same_completed ∙ p.same_completed;
  same_error = q.same_error ∙ p.same_error;
  same_file_name = q.same_file_name ∙ p.same_file_name;
}

-- A sequence of calls, each with its pod.
abbrev pub called_all : List (Call × Str) → State → State
called_all [] s = s
called_all ((c, k) ∷ cs) s = called_all cs (called c k s)

abbrev pub Others : Str → List (Call × Str) → Type 0
Others k [] = Unit
Others k ((c, k') ∷ cs) = ((k' == k) ≡ false) × Others k cs

called_all-SamePod :
    (k : Str) (cs : List (Call × Str)) (s : State) → Others k cs → SamePod k s (called_all cs s)
called_all-SamePod k [] s h = SamePod-refl k s
called_all-SamePod k ((c, k') ∷ cs) s (h, hs) =
    SamePod-trans k s (called c k' s) (called_all cs (called c k' s)) (called-SamePod k k' h c s)
      (called_all-SamePod k cs (called c k' s) hs)

called-IsWithin : (c : Call) (k : Str) (s : State) → IsWithin s → IsWithin (called c k s)
called-IsWithin (starts started) k s h = start-IsWithin s h started k
called-IsWithin completes k s h = unfold complete in removed-IsWithin k s _ refl refl h
called-IsWithin stops k s h = removed-IsWithin k s _ refl refl h
called-IsWithin (proceeds step) k s h = callback_step-IsWithin s h step k

called_all-IsWithin : (cs : List (Call × Str)) (s : State) → IsWithin s → IsWithin (called_all cs s)
called_all-IsWithin [] s h = h
called_all-IsWithin ((c, k) ∷ cs) s h =
    called_all-IsWithin cs (called c k s) (called-IsWithin c k s h)

absent-has_worker : (k : Str) (vs : List Str) → ¬ (In k vs) → has_worker k vs ≡ false
unfolding has_worker
absent-has_worker k [] n = refl
absent-has_worker k (v ∷ vs) n = elim (Bool-cases (v == k)) [
  | inl same ↦ absurd (n (inl (sym (ground (arith, same, str_beq_iff v k)))))
  | inr e ↦ rw e (absent-has_worker k vs (λ m. n (inr m)))
]

has_worker-removed :
    (k : Str) (ws : List Str) → Distinct ws → has_worker k (remove_worker k ws) ≡ false
unfolding has_worker remove_worker
has_worker-removed k [] h = refl
has_worker-removed k (w ∷ ws) (fresh, h) = elim (Bool-cases (w == k)) [
  | inl same ↦
      let w_k : w ≡ k = ground (arith, same, str_beq_iff w k) in
      rw same (absent-has_worker k ws (λ m. fresh (subst (λ x. In x ws) (sym w_k) m)))
  | inr e ↦ ground (arith, e, has_worker-removed k ws h)
]

started-run :
    (k : Str) (s : State)
    → has_worker k s.workers ≡ false
    → length s.workers < s.current_max_workers
    → (has_worker k (start true k s).0.workers ≡ true)
      × ((start true k s).0.erroring_pods ≡ s.erroring_pods)
unfolding start
started-run k s new room =
    let full : leb s.current_max_workers (length s.workers) ≡ false = ground (arith, room) in
    (
      rw (start, new, full) (has_worker-append k k s.workers ∙ rw (same_key k) refl),
      rw (start, new, full) refl,
    )

-- The steps of the callback of the pod `k`, with the next list of other calls behind each.
abbrev pub interleaved : Str → List Step → List (List (Call × Str)) → State → State
interleaved k [] others s = s
interleaved k (step ∷ steps) [] s = interleaved k steps [] (callback_step step k s)
interleaved k (step ∷ steps) (cs ∷ others) s =
    interleaved k steps others (called_all cs (callback_step step k s))

abbrev pub AllOthers : Str → List (List (Call × Str)) → Type 0
AllOthers k [] = Unit
AllOthers k (cs ∷ others) = Others k cs × AllOthers k others

-- What the injector keeps of the pod `k` after a success.
record Finished (k file_name : Str) (s finished : State) : Type 0 where
  unlisted : has_worker k finished.workers ≡ has_worker k (remove_worker k s.workers)
  no_new_error : load k finished.erroring_pods ≡ load k s.erroring_pods
  completed : load k finished.completed_pods ≡ some true
  file_named : load k finished.linperf_file_names ≡ some file_name

interleaved-Finished :
    (k file_name : Str) (s : State) (between later after : List (Call × Str))
    → AllOthers k (between ∷ later ∷ after ∷ [])
    → Finished k file_name s
        (interleaved k (callback_steps (succeeded file_name)) (between ∷ later ∷ after ∷ []) s)
unfolding callback_steps callback_step
interleaved-Finished k file_name s between later after (hb, (hl, (ha, _))) =
    let s1 = called_all between (callback_step unlists k s) in
    let s2 = called_all later (callback_step marks_completed k s1) in
    let p = called_all-SamePod k between (callback_step unlists k s) hb in
    let q = called_all-SamePod k later (callback_step marks_completed k s1) hl in
    let r = called_all-SamePod k after (callback_step (names_file file_name) k s2) ha in
    record {
      unlisted = r.same_worker ∙ q.same_worker ∙ p.same_worker;
      no_new_error = r.same_error ∙ q.same_error ∙ p.same_error;
      completed = r.same_completed ∙ q.same_completed ∙ load-store k true s1.completed_pods;
      file_named = r.same_file_name ∙ load-store k file_name s2.linperf_file_names;
    }

-- A run that `start` begins, its script started, for a pod without a worker or an error, in a state within
-- its capacity and with room: whatever is called for the other pods before the script ends, between
-- the steps of its callback and after them, the pod's status is `writing` until the callback's first
-- step, and once the steps of a success are done it is `done`, with the file name of the script's
-- output. The callback's steps come after `start` has listed the worker.
pub status_of_run :
    (k file_name : Str) (s : State) (before between later after : List (Call × Str))
    → IsWithin s
    → has_worker k s.workers ≡ false
    → length s.workers < s.current_max_workers
    → load k s.erroring_pods ≡ none
    → Others k before
    → AllOthers k (between ∷ later ∷ after ∷ [])
    → let running = called_all before (start true k s).0 in
      let finished =
        interleaved k
          (callback_steps (succeeded file_name))
          (between ∷ later ∷ after ∷ [])
          running in
      (status k running ≡ writing)
      × (status k finished ≡ done)
      × (linperf_file_name k finished ≡ name file_name)
unfolding status linperf_file_name
status_of_run k file_name s before between later after h new room no_error hb ha =
    let begun = started-run k s new room in
    let running = called_all before (start true k s).0 in
    let p = called_all-SamePod k before (start true k s).0 hb in
    let within = called_all-IsWithin before _ (start-IsWithin s h true k) in
    let removed = has_worker-removed k running.workers within.distinct in
    let f = interleaved-Finished k file_name running between later after ha in
    let no_error' = f.no_new_error ∙ p.same_error ∙ ap (load k) begun.1 ∙ no_error in
    (
      rw (status, p.same_worker ∙ begun.0) refl,
      rw (status, f.unlisted ∙ removed, no_error', f.completed) refl,
      rw (linperf_file_name, f.file_named) refl,
    )
