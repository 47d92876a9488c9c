-- ===== src/Trace/Runs.antt =====
-- The reconciles of a resource for tracing, one after the other.
use open_liberty_operator.Common.{
  ◌==◌, str_eq, Bool, true, false, not, [], ◌∷◌, ◌++◌, if◌then◌else◌, ◌≡◌, ◌≢◌, ap, arith,
  Bool-cases, Option-cases, inl, inr, ◌⊎◌,
}
use open_liberty_operator.Utils.{contains, remove}
use open_liberty_operator.Trace.{
  without, State, Call, Answer, failed, trace_finalizer, is_enabled, update_status, with_files,
  with_finalizers, stop_trace, disable_trace_on_prev_pod, disable_trace, enable_trace, operate,
  finalize, reconcile,
}
use open_liberty_operator.Trace.Traced.{
  is_only_in, vanish, IsTidy, Reliable, without-only_in, vanish-only_in, vanish-empty,
  vanish-missing, contains-append, empty_nil, update_status-empty, enable_trace-IsTidy,
  disable_trace-IsTidy, disable_trace-empty, left_empty,
}

module _ (c : Call) (s : State) where
  -- The end of `operate`, for the state that the previous pod has left.
  abbrev pub settle : Bool → State → State × Answer
  settle changed t =
      if c.is_missing c.pod_name
      then update_status c true false [] t
      else if is_enabled c.disable
      then disable_trace c changed (is_enabled s.enabled) t
      else enable_trace c t

  settle-empty :
      (changed : Bool) (t : State)
      → c.updates_status ≡ true
      → c.reports_error c.pod_name ≡ not (c.has_effect c.pod_name)
      → t.files ≡ []
      → contains t.finalizers trace_finalizer ≡ true
      → IsTidy (settle changed t).0
  unfolding without
  settle-empty changed t w h e f = ground (
    arith,
    update_status-empty c true false [] t w e,
    disable_trace-empty c changed (is_enabled s.enabled) t w e,
    enable_trace-IsTidy c t w h (ap (without c.pod_name) e) (λ q. e) f,
  )

  pub operate_same : s.operated ≡ c.pod_name → operate c s ≡ settle false s
  unfolding operate
  operate_same p = ground (arith, str_eq.same_iff s.operated c.pod_name)

  pub operate_left :
      s.operated ≢ c.pod_name
      → is_enabled s.enabled ≡ true
      → operate c s ≡ settle true (disable_trace_on_prev_pod c s)
  unfolding operate
  operate_left p q = ground (arith, q, str_eq.same_iff s.operated c.pod_name)

  pub operate_idle :
      s.operated ≢ c.pod_name → is_enabled s.enabled ≡ false → operate c s ≡ settle true s
  unfolding operate
  operate_idle p q = ground (arith, q, str_eq.same_iff s.operated c.pod_name)

  left_finalizers : (disable_trace_on_prev_pod c s).finalizers ≡ s.finalizers
  unfolding disable_trace_on_prev_pod stop_trace
  left_finalizers = ground arith

  -- What is known of the state when a call operates.
  module _ (tidy : IsTidy s) (r : Reliable c s)
      (gone : c.is_missing s.operated ≡ true → s.files ≡ [])
      (f : contains s.finalizers trace_finalizer ≡ true) where
    settle-same : c.deleted ≡ false → s.operated ≡ c.pod_name → IsTidy (settle false s).0
    settle-same d p =
        let only : is_only_in c.pod_name s.files ≡ true = ground (arith, tidy.0, p) in
        let no_file : is_enabled s.enabled ≡ false → s.files ≡ [] =
          λ q. empty_nil s.files (ground (arith, q, tidy.1)) in
        ground (
          arith,
          d,
          p,
          r.reached,
          gone,
          update_status-empty c true false [] s r.writes,
          disable_trace-empty c false false s r.writes,
          disable_trace-IsTidy c s r.writes r.honest only f,
          enable_trace-IsTidy c s r.writes r.honest (without-only_in c.pod_name s.files only),
          no_file,
          f,
        )

    operate-IsTidy : c.deleted ≡ false → IsTidy (operate c s).0
    operate-IsTidy d = elim (Bool-cases (s.operated == c.pod_name)) [
      | inl q ↦
          let p : s.operated ≡ c.pod_name =
            ground (arith, q, str_eq.same_iff s.operated c.pod_name) in
          rw (operate_same p) (settle-same d p)
      | inr q ↦
          let p : s.operated ≢ c.pod_name =
            ground (arith, q, str_eq.same_iff s.operated c.pod_name) in
          elim (Bool-cases (is_enabled s.enabled)) [
            | inl e ↦ rw (operate_left p e) (
                settle-empty true (disable_trace_on_prev_pod c s) r.writes r.honest
                  (left_empty c s tidy gone (ground (arith, q, r.reached)))
                  (ground (arith, left_finalizers, f)))
            | inr e ↦ rw (operate_idle p e) (
                settle-empty true s r.writes r.honest
                  (empty_nil s.files (ground (arith, e, tidy.1))) f)
          ]
    ]

-- A resource that is deleted stops the trace before the finalizer goes.
finalize-IsTidy :
    (c : Call) (s : State)
    → IsTidy s
    → (c.is_missing s.operated ≡ true → s.files ≡ [])
    → c.has_effect s.operated ≡ true
    → IsTidy (finalize c s).0
unfolding finalize
finalize-IsTidy c s (only, e, f) gone effect =
    let stopped = left_empty c s (only, e, f) gone effect in
    elim (Option-cases (remove s.finalizers trace_finalizer)) [
      | inr (fs, q) ↦ ground (arith, q, stopped, empty_nil s.files, only, e, f)
      | inl q ↦ ground (arith, q, stopped, empty_nil s.files, only, e, f)
    ]

-- A state as the next call finds it, with the files of the missing pods gone.
abbrev pub found_by : Call → State → State
found_by c s = with_files (vanish c.is_missing s.files) s

pub found_by-IsTidy : (c : Call) (s : State) → IsTidy s → IsTidy (found_by c s)
found_by-IsTidy c s (only, e, f) = (
  vanish-only_in c.is_missing s.operated s.files only,
  ground (arith, e, vanish-empty c.is_missing s.files),
  ground (arith, f, vanish-empty c.is_missing s.files),
)

abbrev pub added_finalizer : State → State
added_finalizer s = with_finalizers (s.finalizers ++ (trace_finalizer ∷ [])) s

-- What a reconcile does.
pub reconcile-cases :
    (c : Call) (s : State)
    → ((c.deleted ≡ true) × (reconcile c s ≡ finalize c s))
      ⊎ ((c.deleted ≡ false)
          × ((contains s.finalizers trace_finalizer ≡ true) × (reconcile c s ≡ operate c s)
              ⊎ (contains s.finalizers trace_finalizer ≡ false)
                × (c.updates ≡ false)
                × (reconcile c s ≡ (s, failed))
              ⊎ (reconcile c s ≡ operate c (added_finalizer s))))
unfolding reconcile
reconcile-cases c s = ground arith

pub added_finalizer-IsTidy : (s : State) → IsTidy s → IsTidy (added_finalizer s)
added_finalizer-IsTidy s (only, e, f) =
    (only, e, ground (arith, contains-append s.finalizers trace_finalizer))

reconcile-IsTidy :
    (c : Call) (s : State)
    → IsTidy s
    → Reliable c s
    → (c.is_missing s.operated ≡ true → s.files ≡ [])
    → IsTidy (reconcile c s).0
reconcile-IsTidy c s tidy r gone = elim (reconcile-cases c s) [
  | inl (d, e) ↦ rw e (finalize-IsTidy c s tidy gone (ground (arith, d, r.reached)))
  | inr (d, inl (f, e)) ↦ rw e (operate-IsTidy c s tidy r gone f d)
  | inr (d, inr (inl (f, n, e))) ↦ rw e tidy
  | inr (d, inr (inr e)) ↦
      let added = contains-append s.finalizers trace_finalizer in
      let r' : Reliable c (added_finalizer s) = record {
        writes = r.writes;
        honest = r.honest;
        reached = r.reached;
      } in
      rw e (operate-IsTidy c (added_finalizer s) (added_finalizer-IsTidy s tidy) r' gone added d)
]

-- The states that reliable reconciles lead to.
pub data Reached (s : State) : State → Type 0 where
  start : Reached s s
  reconciled :
      {t : State} (c : Call) → Reached s t → Reliable c t → Reached s (reconcile c (found_by c t)).0

-- Over any reconciles of a resource that starts without a traced pod, a pod is traced only if it is the
-- operated one, the condition Enabled is true and the resource has the finalizer, so that none is traced
-- when the resource goes. Pods come and go between the reconciles; each reconcile can write the status,
-- a command reports an error just when it has no effect, and it has its effect in
-- the operated pod, unless it is to disable the trace there.
pub Reached-IsTidy : (s t : State) → s.files ≡ [] → Reached s t → IsTidy t
Reached-IsTidy s t e start = ground (arith, e)
Reached-IsTidy s t e (reconciled {t = u} c before r) =
    let tidy = Reached-IsTidy s u e before in
    reconcile-IsTidy c (found_by c u) (found_by-IsTidy c u tidy)
      (record { writes = r.writes; honest = r.honest; reached = r.reached })
      (λ m. vanish-missing c.is_missing u.operated u.files tidy.0 m)
