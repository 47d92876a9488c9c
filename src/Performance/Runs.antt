-- ===== src/Performance/Runs.antt =====
-- When a reconcile completes the instance, and when it starts a script.
use open_liberty_operator.Common.{
  codes, ◌==◌, str_eq, str_beq, str_beq_iff, nat_eq, Bool, true, false, not, ◌&&◌, ◌||◌, List, [],
  ◌∷◌, ◌++◌, if◌then◌else◌, has_prefix, ◌≡◌, refl, sym, ap, ◌∙◌, inl, inr, ◌⊎◌, arith, Bool-cases,
}
use open_liberty_operator.Performance.Conditions.{started, type_eq, holds}
use open_liberty_operator.Performance.Reconcile.{
  Instance, Pod, no_pod, unreadable, not_running, running, Inputs, Command, sets_max_workers,
  polls_status, starts_script, polls_file_name, completes_script, condition, with_condition,
  is_performance_data_running, on_done, on_failure, on_progress, on_status, on_running_pod,
  on_waiting, on_active, is_completed, on_deletion, reconcile, with_finalizer,
}

-- Whether a script is started.
abbrev pub starts : List Command → Bool
starts [] = false
starts (starts_script ∷ cs) = true
starts (sets_max_workers n ∷ cs) = starts cs
starts (polls_status ∷ cs) = starts cs
starts (polls_file_name ∷ cs) = starts cs
starts (completes_script ∷ cs) = starts cs

abbrev pub is_running : Pod → Bool
is_running running = true
is_running no_pod = false
is_running unreadable = false
is_running not_running = false

pub starts-append : (cs ds : List Command) → starts (cs ++ ds) ≡ (starts cs || starts ds)
starts-append [] ds = refl
starts-append (starts_script ∷ cs) ds = refl
starts-append (sets_max_workers n ∷ cs) ds = starts-append cs ds
starts-append (polls_status ∷ cs) ds = starts-append cs ds
starts-append (polls_file_name ∷ cs) ds = starts-append cs ds
starts-append (completes_script ∷ cs) ds = starts-append cs ds

done-starts :
    (x : Inputs) (i : Instance) (sent : List Command)
    → starts sent ≡ false
    → starts (on_done x i sent).commands ≡ false
unfolding on_done
done-starts x i sent h = sent_then (x.status_updates)
  where
    sent_then :
        (b : Bool)
        → starts (
            if b
            then sent ++ (polls_file_name ∷ completes_script ∷ [])
            else sent ++ (polls_file_name ∷ []))
          ≡ false
    sent_then true = starts-append sent (polls_file_name ∷ completes_script ∷ []) ∙ rw h refl
    sent_then false = starts-append sent (polls_file_name ∷ []) ∙ rw h refl

idle-starts :
    (x : Inputs) (i : Instance) (sent : List Command)
    → starts sent ≡ false
    → x.injector_status ≡ codes "idle..."
    → starts (on_status x i sent).commands
      ≡ (x.injector_status == codes "idle..." && not (is_performance_data_running i))
unfolding on_status on_progress on_failure str_beq has_prefix
idle-starts x i sent h idle =
    let is_idle : (x.injector_status == codes "idle...") ≡ true =
      ap (λ s. s == codes "idle...") idle in
    let not_done : (x.injector_status == codes "done...") ≡ false =
      ap (λ s. s == codes "done...") idle in
    let no_error : has_prefix (codes "error:") x.injector_status ≡ false =
      ap (has_prefix (codes "error:")) idle in
    let not_writing : (x.injector_status == codes "writing...") ≡ false =
      ap (λ s. s == codes "writing...") idle in
    elim (Bool-cases (is_performance_data_running i)) [
      | inl g ↦ rw (on_status, not_done, no_error, not_writing, g, is_idle) h
      | inr g ↦
          rw (on_status, not_done, no_error, not_writing, g, is_idle)
            (starts-append sent (starts_script ∷ []) ∙ rw h refl)
    ]

-- The commands of a status start a script exactly when the injector is idle and no run goes on.
starts-on_status :
    (x : Inputs) (i : Instance) (sent : List Command)
    → starts sent ≡ false
    → starts (on_status x i sent).commands
      ≡ (x.injector_status == codes "idle..." && not (is_performance_data_running i))
unfolding on_status
starts-on_status x i sent h = elim (Bool-cases (x.injector_status == codes "idle...")) [
  | inl idle ↦
      idle-starts x i sent h (ground (arith, idle, str_beq_iff x.injector_status (codes "idle...")))
  | inr other ↦ elim (Bool-cases (x.injector_status == codes "done...")) [
    | inl e ↦ rw (other, on_status, e) (done-starts x i sent h)
    | inr e ↦ elim (Bool-cases (has_prefix (codes "error:") x.injector_status)) [
      | inl f ↦ rw (other, on_status, e, f) h
      | inr f ↦
          elim (Bool-cases
            (not (x.injector_status == codes "writing...") && is_performance_data_running i)) [
              | inl g ↦ rw (other, on_status, e, f, g) h
              | inr g ↦ rw (other, on_status, e, f, g) h
            ]
    ]
  ]
]

running-starts :
    (x : Inputs) (i : Instance)
    → starts (on_running_pod x i).commands ≡ (
        x.connects
        && x.namespace_found
        && x.injector_status == codes "idle..."
        && not
            (is_performance_data_running (with_condition x.now (condition started holds [] []) i)))
unfolding on_running_pod
running-starts x i = elim (Bool-cases (x.connects)) [
  | inr e ↦ rw (on_running_pod, e) refl
  | inl e ↦ elim (Bool-cases (x.namespace_found)) [
    | inr n ↦ rw (on_running_pod, e, n) refl
    | inl n ↦
        let i' = with_condition x.now (condition started holds [] []) i in
        elim (Bool-cases (x.max_workers == [])) [
          | inl m ↦ rw (on_running_pod, e, n, m) (starts-on_status x i' (polls_status ∷ []) refl)
          | inr m ↦
              rw (on_running_pod, e, n, m)
                (starts-on_status x i' (sets_max_workers x.max_workers ∷ polls_status ∷ []) refl)
        ]
  ]
]

starts-on_active :
    (x : Inputs) (i : Instance)
    → starts (on_active x i).commands ≡ (
        is_running x.pod
        && x.connects
        && x.namespace_found
        && x.injector_status == codes "idle..."
        && not
            (is_performance_data_running (with_condition x.now (condition started holds [] []) i)))
unfolding on_active
starts-on_active x i = by_pod (x.pod) refl
  where
    by_pod :
        (p : Pod)
        → x.pod ≡ p
        → starts (on_active x i).commands ≡ (
            is_running p
            && x.connects
            && x.namespace_found
            && x.injector_status == codes "idle..."
            && not (
                is_performance_data_running
                  (with_condition x.now (condition started holds [] []) i)))
    by_pod no_pod e = rw (on_active, e) refl
    by_pod unreadable e = rw (on_active, e) (unfold on_waiting in refl)
    by_pod not_running e = rw (on_active, e) (unfold on_waiting in refl)
    by_pod running e = rw (on_active, e) (running-starts x i)

starts-on_deletion : (x : Inputs) (i : Instance) → starts (on_deletion x i).commands ≡ false
unfolding on_deletion
starts-on_deletion x i = elim (Bool-cases i.has_finalizer) [
  | inr e ↦ rw (on_deletion, e) refl
  | inl e ↦ elim (Bool-cases x.connects) [
    | inr f ↦ rw (on_deletion, e, f) refl
    | inl f ↦ rw (on_deletion, e, f) refl
  ]
]

-- The reconcile goes on to the pod: the instance is not being deleted, and it has its finalizer or can be
-- given it.
abbrev pub goes_on : Inputs → Instance → Bool
goes_on x i = not i.deleting && (i.has_finalizer || x.instance_updates)

-- What a reconcile does.
reconcile-cases :
    (x : Inputs) (i : Instance)
    → ((goes_on x i ≡ false) × (reconcile x i ≡ on_deletion x i))
      ⊎ ((goes_on x i ≡ false)
          × ((reconcile x i).instance_after ≡ with_finalizer true i)
          × ((reconcile x i).commands ≡ []))
      ⊎ ((goes_on x i ≡ true)
          × (is_completed (with_finalizer true i) ≡ true)
          × ((reconcile x i).commands ≡ []))
      ⊎ ((goes_on x i ≡ true)
          × (is_completed (with_finalizer true i) ≡ false)
          × (reconcile x i ≡ on_active x (with_finalizer true i)))
unfolding reconcile
reconcile-cases x i = ground arith

completed-with_finalizer :
    (b : Bool) (i : Instance) → is_completed (with_finalizer b i) ≡ is_completed i
unfolding is_completed
completed-with_finalizer b i = refl

-- `Reconcile` starts a script exactly when the instance is neither being deleted nor completed, it has its
-- finalizer or its update succeeds, its pod runs, the pod injector answers that it is idle, the operator's
-- namespace is found, and the conditions, with Started set, do not say that a run goes on.
pub starts-reconcile :
    (x : Inputs) (i : Instance)
    → starts (reconcile x i).commands ≡ (
        goes_on x i
        && not (is_completed i)
        && is_running x.pod
        && x.connects
        && x.namespace_found
        && x.injector_status == codes "idle..."
        && not
            (is_performance_data_running (with_condition x.now (condition started holds [] []) i)))
starts-reconcile x i =
    let kept = completed-with_finalizer true i in
    elim (reconcile-cases x i) [
      | inl (d, e) ↦ rw (e, d) (starts-on_deletion x i)
      | inr (inl (g, e, c)) ↦ rw (c, g) refl
      | inr (inr (inl (g, done, c))) ↦ rw (c, g, sym kept ∙ done) refl
      | inr (inr (inr (g, new, e))) ↦
          rw (e, g, sym kept ∙ new)
            (starts-on_active x (with_finalizer true i)
              ∙ unfold is_performance_data_running in refl)
    ]
