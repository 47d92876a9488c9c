-- ===== src/Trace/Tests.antt =====
-- Reconciles of a resource for tracing on concrete pods.
use open_liberty_operator.Common.{
  Str, codes, str_eq, str_beq, Bool, true, false, [], ◌∷◌, none, some, ◌≡◌, refl, arith,
}
use open_liberty_operator.Utils.{contains, remove}
use open_liberty_operator.Trace.{State, Call, trace_config, reconcile}
use open_liberty_operator.Trace.Traced.{IsTidy, Reliable, vanish}
use open_liberty_operator.Trace.Runs.{Reached, start, reconciled, Reached-IsTidy, found_by}
use open_liberty_operator.Trace.Enabled.{Traces, reconcile-Traces}

abbrev fresh : State
fresh = record {
  finalizers = [];
  operated = [];
  enabled = none;
  last_transition = none;
  has_error = false;
  log_directory = [];
  files = [];
}

-- A call for a pod, where the commands have the given effects and report errors as given.
abbrev call_for : Str → (Str → Bool) → (Str → Bool) → Bool → Call
call_for pod has_effect reports_error deleted = record {
  namespace = codes "ns";
  pod_name = pod;
  trace_specification = codes "*=info";
  max_file_size = none;
  max_files = none;
  disable = some false;
  deleted = deleted;
  now = 5;
  is_missing = λ p. false;
  has_effect = has_effect;
  reports_error = reports_error;
  updates = true;
  updates_status = true;
}

abbrev on : Str → Call
on pod = call_for pod (λ p. true) (λ p. false) false

abbrev first : Call
first = on (codes "a")

abbrev second : Call
second = on (codes "b")

abbrev traced : State
traced = (reconcile first (found_by first fresh)).0

first-Reliable : Reliable first fresh
first-Reliable = record { writes = refl; honest = refl; reached = refl }

second-Reliable : Reliable second traced
second-Reliable = record { writes = refl; honest = refl; reached = ground arith }

reached : Reached fresh traced
reached = reconciled first start first-Reliable

Reached-IsTidy_example : IsTidy (reconcile second (found_by second traced)).0
Reached-IsTidy_example =
    Reached-IsTidy fresh (reconcile second (found_by second traced)).0 refl
      (reconciled second reached second-Reliable)

reconcile-Traces_example : Traces second (reconcile second (found_by second traced))
reconcile-Traces_example =
    reconcile-Traces fresh traced second refl reached second-Reliable
      (record { wanted = refl; there = refl; effective = refl }) refl (ground arith)

-- A change that is refused in the pod that is traced leaves the trace on, with the condition false, and a
-- deleted resource then does not stop it.
abbrev refused : Call
refused = call_for (codes "a") (λ p. false) (λ p. true) false

abbrev forgotten : State
forgotten = (reconcile refused traced).0

forgotten_trace :
    (reconcile (call_for (codes "a") (λ p. true) (λ p. false) true) forgotten).0.files
    ≡ (codes "a", trace_config first) ∷ []
unfolding reconcile contains str_beq remove vanish
forgotten_trace = refl

-- The finalizer goes also when the trace cannot be stopped.
unstopped_finalizers :
    (reconcile (call_for (codes "a") (λ p. false) (λ p. true) true) traced).0.finalizers ≡ []
unfolding reconcile contains str_beq remove
unstopped_finalizers = refl
