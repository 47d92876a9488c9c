-- ===== src/Trace/Enabled.antt =====
-- A reconcile that enables the trace.
use open_liberty_operator.Common.{
  ◌==◌, str_eq, Bool, true, false, ◌||◌, [], ◌∷◌, some, ◌≡◌, ◌≢◌, arith, Bool-cases, inl, inr,
}
use open_liberty_operator.Utils.{contains}
use open_liberty_operator.Trace.{
  without, State, Call, Answer, finished, trace_finalizer, trace_config, is_enabled, update_status,
  disable_trace_on_prev_pod, enable_trace, operate, reconcile,
}
use open_liberty_operator.Trace.Traced.{
  IsTidy, Reliable, without-only_in, empty_nil, left_empty, enable_trace_done, vanish-missing,
}
use open_liberty_operator.Trace.Runs.{
  operate_same, operate_left, operate_idle, reconcile-cases, added_finalizer, settle, Reached,
  Reached-IsTidy, found_by, found_by-IsTidy, added_finalizer-IsTidy,
}

-- Just the pod of the call is traced, with the configuration of the call, and the status says so.
abbrev pub Traces : Call → State × Answer → Type 0
Traces c x =
    (x.0.files ≡ (c.pod_name, trace_config c) ∷ [])
    × (x.0.enabled ≡ some true)
    × (x.0.operated ≡ c.pod_name)
    × (x.1 ≡ finished)

enable_trace-Traces :
    (c : Call) (t : State)
    → c.updates_status ≡ true
    → c.has_effect c.pod_name ≡ true
    → c.reports_error c.pod_name ≡ false
    → without c.pod_name t.files ≡ []
    → Traces c (enable_trace c t)
unfolding update_status
enable_trace-Traces c t w e h o = rw (enable_trace_done c t e h o) (ground (arith, w))

module _ (c : Call) where
  -- The call is to enable the trace, and its pod can be traced.
  pub record Enables : Type 0 where
    pub wanted : is_enabled c.disable ≡ false
    pub there : c.is_missing c.pod_name ≡ false
    pub effective : c.has_effect c.pod_name ≡ true

  settle-Traces :
      (s : State) (changed : Bool) (t : State)
      → Reliable c s
      → Enables
      → without c.pod_name t.files ≡ []
      → Traces c (settle c s changed t)
  settle-Traces s changed t r b o =
      rw (b.there, b.wanted)
        (enable_trace-Traces c t r.writes b.effective (ground (arith, r.honest, b.effective)) o)

  without_nil : (t : State) → t.files ≡ [] → without c.pod_name t.files ≡ []
  unfolding without
  without_nil t e = ground (arith, e)

  operate-Traces :
      (s : State)
      → IsTidy s
      → Reliable c s
      → Enables
      → (c.is_missing s.operated ≡ true → s.files ≡ [])
      → c.deleted ≡ false
      → Traces c (operate c s)
  operate-Traces s tidy r b gone d = elim (Bool-cases (s.operated == c.pod_name)) [
    | inl q ↦
        let p : s.operated ≡ c.pod_name =
          ground (arith, q, str_eq.same_iff s.operated c.pod_name) in
        rw (operate_same c s p) (
          settle-Traces s false s r b
            (without-only_in c.pod_name s.files (ground (arith, tidy.0, p))))
    | inr q ↦
        let p : s.operated ≢ c.pod_name =
          ground (arith, q, str_eq.same_iff s.operated c.pod_name) in
        elim (Bool-cases (is_enabled s.enabled)) [
          | inl e ↦ rw (operate_left c s p e) (
              settle-Traces s true (disable_trace_on_prev_pod c s) r b (
                without_nil (disable_trace_on_prev_pod c s)
                  (left_empty c s tidy gone (ground (arith, q, r.reached)))))
          | inr e ↦ rw (operate_idle c s p e) (
              settle-Traces s true s r b
                (without_nil s (empty_nil s.files (ground (arith, e, tidy.1)))))
        ]
  ]

-- In every state that reliable reconciles reach from one without a traced pod, a reliable call to enable
-- the trace, in a pod that is there and where the command has its effect, leaves just that pod
-- traced, with the configuration of the call, and the status says so. The resource is not deleted, and it
-- has the finalizer or can be updated.
pub reconcile-Traces :
    (s t : State) (c : Call)
    → s.files ≡ []
    → Reached s t
    → Reliable c t
    → Enables c
    → c.deleted ≡ false
    → (contains t.finalizers trace_finalizer || c.updates) ≡ true
    → Traces c (reconcile c (found_by c t))
reconcile-Traces s t c e before r b d u =
    let tidy = Reached-IsTidy s t e before in
    let found = found_by-IsTidy c t tidy in
    let r' : Reliable c (found_by c t) = record {
      writes = r.writes;
      honest = r.honest;
      reached = r.reached;
    } in
    let gone = vanish-missing c.is_missing t.operated t.files tidy.0 in
    elim (reconcile-cases c (found_by c t)) [
      | inl (q, x) ↦ absurd (ground (arith, d, q))
      | inr (q, inl (f, x)) ↦ rw x (operate-Traces c (found_by c t) found r' b gone d)
      | inr (q, inr (inl (f, n, x))) ↦ absurd (ground (arith, f, n, u))
      | inr (q, inr (inr x)) ↦ rw x (
          operate-Traces c (added_finalizer (found_by c t))
            (added_finalizer-IsTidy (found_by c t) found)
            (record { writes = r.writes; honest = r.honest; reached = r.reached }) b gone d)
    ]
