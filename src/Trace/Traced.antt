-- ===== src/Trace/Traced.antt =====
-- Which pods are traced, over the reconciles of a resource.
use open_liberty_operator.Common.{
  Str, ◌==◌, str_eq, Bool, true, false, not, ◌&&◌, ◌||◌, List, [], ◌∷◌, ◌++◌, if◌then◌else◌, ◌≡◌,
  refl, arith, Bool-cases, inl, inr,
}
use open_liberty_operator.Utils.{contains}
use open_liberty_operator.Trace.{
  Files, without, State, Call, finished, trace_finalizer, is_enabled, update_status, with_files,
  stop_trace, disable_trace_on_prev_pod, trace_output_dir, trace_config, start_trace, disable_trace,
  enable_trace,
}

abbrev pub is_empty : Files → Bool
is_empty [] = true
is_empty (f ∷ fs) = false

abbrev pub is_only_in : Str → Files → Bool
is_only_in pod [] = true
is_only_in pod (f ∷ fs) = f.0 == pod && is_only_in pod fs

-- With a pod that is gone, its files are.
unfoldable pub vanish : (Str → Bool) → Files → Files
vanish is_missing [] = []
vanish is_missing (f ∷ fs) =
    let rest = vanish is_missing fs in if is_missing f.0 then rest else f ∷ rest

-- Only the operated pod is traced, with the condition Enabled true, and the resource has the finalizer.
abbrev pub IsTidy : State → Type 0
IsTidy s =
    (is_only_in s.operated s.files ≡ true)
    × ((is_enabled s.enabled || is_empty s.files) ≡ true)
    × ((contains s.finalizers trace_finalizer || is_empty s.files) ≡ true)

-- The cluster answers as it should: the update of the status succeeds, a command reports an error just
-- when it has no effect, and it has its effect in the operated pod, unless it is to disable the trace
-- there.
pub record Reliable (c : Call) (s : State) : Type 0 where
  pub writes : c.updates_status ≡ true
  pub honest : c.reports_error c.pod_name ≡ not (c.has_effect c.pod_name)
  pub reached :
      (not c.deleted && is_enabled c.disable && s.operated == c.pod_name || c.has_effect s.operated)
      ≡ true

pub without-only_in : (pod : Str) (fs : Files) → is_only_in pod fs ≡ true → without pod fs ≡ []
unfolding without
without-only_in pod [] h = refl
without-only_in pod (f ∷ fs) h = ground (arith, h, without-only_in pod fs)

pub vanish-only_in :
    (m : Str → Bool) (pod : Str) (fs : Files)
    → is_only_in pod fs ≡ true
    → is_only_in pod (vanish m fs) ≡ true
unfolding vanish
vanish-only_in m pod [] h = refl
vanish-only_in m pod (f ∷ fs) h = ground (arith, h, vanish-only_in m pod fs)

pub vanish-empty :
    (m : Str → Bool) (fs : Files) → is_empty fs ≡ true → is_empty (vanish m fs) ≡ true
unfolding vanish
vanish-empty m [] h = refl
vanish-empty m (f ∷ fs) h = absurd (ground (arith, h))

pub vanish-missing :
    (m : Str → Bool) (pod : Str) (fs : Files)
    → is_only_in pod fs ≡ true
    → m pod ≡ true
    → vanish m fs ≡ []
unfolding vanish
vanish-missing m pod [] h k = refl
vanish-missing m pod (f ∷ fs) h k =
    ground (arith, h, k, str_eq.same_iff f.0 pod, vanish-missing m pod fs)

pub contains-append : (fs : List Str) (f : Str) → contains (fs ++ (f ∷ [])) f ≡ true
unfolding contains
contains-append [] f = ground (arith, str_eq.same_iff f f)
contains-append (g ∷ fs) f = ground (arith, contains-append fs f)

pub empty_nil : (fs : Files) → is_empty fs ≡ true → fs ≡ []
empty_nil [] h = refl
empty_nil (f ∷ fs) h = absurd (ground (arith, h))

module _ (c : Call) (s : State) where
  -- The files that are left when the pod changes.
  pub left_empty :
      IsTidy s
      → (c.is_missing s.operated ≡ true → s.files ≡ [])
      → c.has_effect s.operated ≡ true
      → (disable_trace_on_prev_pod c s).files ≡ []
  unfolding disable_trace_on_prev_pod stop_trace
  left_empty (only, e, f) gone effect =
      ground (arith, gone, effect, without-only_in s.operated s.files only)

-- The status of a pod without a file.
pub update_status-empty :
    (c : Call) (issue enabled : Bool) (dir : Str) (t : State)
    → c.updates_status ≡ true
    → t.files ≡ []
    → IsTidy (update_status c issue enabled dir t).0
unfolding update_status
update_status-empty c issue enabled dir t w e = ground (arith, w, e)

-- The status of the only traced pod.
update_status-traced :
    (c : Call) (issue : Bool) (dir : Str) (t : State)
    → c.updates_status ≡ true
    → is_only_in c.pod_name t.files ≡ true
    → contains t.finalizers trace_finalizer ≡ true
    → IsTidy (update_status c issue true dir t).0
unfolding update_status
update_status-traced c issue dir t w o f = ground (arith, w, o, f)

pub stop_trace-empty :
    (c : Call) (pod : Str) (t : State) → t.files ≡ [] → (stop_trace c pod t).files ≡ []
unfolding stop_trace without
stop_trace-empty c pod t e = ground (arith, e)

pub enable_trace_done :
    (c : Call) (t : State)
    → c.has_effect c.pod_name ≡ true
    → c.reports_error c.pod_name ≡ false
    → without c.pod_name t.files ≡ []
    → enable_trace c t ≡ (
      (update_status c false true
          (trace_output_dir c)
          (with_files ((c.pod_name, trace_config c) ∷ []) t)).0,
      finished,
    )
unfolding enable_trace start_trace
enable_trace_done c t q h o = ground (arith, q, h, o)

enable_trace_refused :
    (c : Call) (t : State)
    → c.has_effect c.pod_name ≡ false
    → c.reports_error c.pod_name ≡ true
    → enable_trace c t ≡ update_status c true false (trace_output_dir c) t
unfolding enable_trace start_trace
enable_trace_refused c t q h = ground (arith, q, h)

pub enable_trace-IsTidy :
    (c : Call) (t : State)
    → c.updates_status ≡ true
    → c.reports_error c.pod_name ≡ not (c.has_effect c.pod_name)
    → without c.pod_name t.files ≡ []
    → (c.has_effect c.pod_name ≡ false → t.files ≡ [])
    → contains t.finalizers trace_finalizer ≡ true
    → IsTidy (enable_trace c t).0
enable_trace-IsTidy c t w h o e f = elim (Bool-cases (c.has_effect c.pod_name)) [
  | inl q ↦ rw (enable_trace_done c t q (ground (arith, h, q)) o) (
      update_status-traced c false (trace_output_dir c)
        (with_files ((c.pod_name, trace_config c) ∷ []) t) w
        (ground (arith, str_eq.same_iff c.pod_name c.pod_name)) f)
  | inr q ↦
      rw (enable_trace_refused c t q (ground (arith, h, q)))
        (update_status-empty c true false (trace_output_dir c) t w (e q))
]

disable_trace_done :
    (c : Call) (t : State)
    → c.has_effect c.pod_name ≡ true
    → c.reports_error c.pod_name ≡ false
    → disable_trace c false true t
      ≡ ((update_status c false false [] (with_files (without c.pod_name t.files) t)).0, finished)
unfolding disable_trace stop_trace
disable_trace_done c t q h = ground (arith, q, h)

disable_trace_refused :
    (c : Call) (t : State)
    → c.has_effect c.pod_name ≡ false
    → c.reports_error c.pod_name ≡ true
    → disable_trace c false true t ≡ update_status c true true [] t
unfolding disable_trace stop_trace
disable_trace_refused c t q h = ground (arith, q, h)

-- To disable the trace in the pod where it is on.
pub disable_trace-IsTidy :
    (c : Call) (t : State)
    → c.updates_status ≡ true
    → c.reports_error c.pod_name ≡ not (c.has_effect c.pod_name)
    → is_only_in c.pod_name t.files ≡ true
    → contains t.finalizers trace_finalizer ≡ true
    → IsTidy (disable_trace c false true t).0
disable_trace-IsTidy c t w h o f = elim (Bool-cases (c.has_effect c.pod_name)) [
  | inl q ↦ rw (disable_trace_done c t q (ground (arith, h, q))) (
      update_status-empty c false false [] (with_files (without c.pod_name t.files) t) w
        (without-only_in c.pod_name t.files o))
  | inr q ↦
      rw (disable_trace_refused c t q (ground (arith, h, q)))
        (update_status-traced c true [] t w o f)
]

-- To disable the trace where no pod is traced.
pub disable_trace-empty :
    (c : Call) (changed was_enabled : Bool) (t : State)
    → c.updates_status ≡ true
    → t.files ≡ []
    → IsTidy (disable_trace c changed was_enabled t).0
unfolding disable_trace
disable_trace-empty c changed was_enabled t w e =
    let stopped = stop_trace c c.pod_name t in
    ground (
      arith,
      update_status-empty c true true [] stopped w (stop_trace-empty c c.pod_name t e),
      update_status-empty c false false [] stopped w (stop_trace-empty c c.pod_name t e),
      update_status-empty c false false [] t w e,
    )
