-- ===== src/Trace.antt =====
-- Tracing a pod (internal/controller/openlibertytrace_controller.go). The trace is on in a pod whose
-- container has the configuration file of the trace; these files are part of the state. What the
-- cluster answers, and what a command in a container does, are inputs.
mod Traced
mod Runs
mod Enabled
mod Tests
use open_liberty_operator.Common.{
  ℕ, ℤ, Str, codes, ◌==◌, str_eq, nat_eq, Bool, true, false, not, ◌&&◌, ◌||◌, List, [], ◌∷◌, ◌++◌,
  Option, none, some, Comparable, format_int, if◌then◌else◌,
}
use open_liberty_operator.Utils.{contains, remove}

-- The trace configurations in the containers, by the pod.
abbrev pub Files : Type 0
Files = List (Str × Str)

-- `rm -f` of the file in the container of a pod.
unfoldable pub without : Str → Files → Files
without pod [] = []
without pod (f ∷ fs) = let rest = without pod fs in if f.0 == pod then rest else f ∷ rest

-- The resource, with what its status says of the operated pod and of the condition Enabled, and the
-- files in the containers.
pub record State : Type 0 where
  pub finalizers : List Str
  pub operated : Str
  pub enabled : Option Bool
  pub last_transition : Option ℕ
  pub has_error : Bool
  pub log_directory : Str
  pub files : Files

-- What one reconcile reads besides its status, and how the cluster answers: the pods that are not found,
-- the pods in which a command has its effect, those for which it reports an error, and
-- whether an update of the resource and of its status succeeds.
pub record Call : Type 0 where
  pub namespace : Str
  pub pod_name : Str
  pub trace_specification : Str
  pub max_file_size : Option ℤ
  pub max_files : Option ℤ
  pub disable : Option Bool
  pub deleted : Bool
  pub now : ℕ
  pub is_missing : Str → Bool
  pub has_effect : Str → Bool
  pub reports_error : Str → Bool
  pub updates : Bool
  pub updates_status : Bool

pub data Answer : Type 0 where
  finished requeued failed panics : Answer

abbrev pub trace_finalizer : Str
trace_finalizer = codes "finalizer.openlibertytraces.apps.openliberty.io"

-- The condition Enabled is true, or false.
abbrev pub is_enabled : Option Bool → Bool
is_enabled none = false
is_enabled (some b) = b

abbrev pub is_disabled : Option Bool → Bool
is_disabled none = false
is_disabled (some b) = not b

abbrev pub pod_changed : Call → State → Bool
pod_changed c s = not (s.operated == c.pod_name)

-- `UpdateStatus`.
unfoldable pub update_status : Call → Bool → Bool → Str → State → State × Answer
update_status c issue enabled log_directory s =
    let same = if enabled then is_enabled s.enabled else is_disabled s.enabled in
    if not c.updates_status then (s, requeued) else (
      record {
        finalizers = s.finalizers;
        operated = c.pod_name;
        enabled = some enabled;
        last_transition = if pod_changed c s || not same then some c.now else s.last_transition;
        has_error = issue;
        log_directory = if log_directory == [] then s.log_directory else log_directory;
        files = s.files;
      },
      finished,
    )

abbrev pub with_files : Files → State → State
with_files fs s = record s { files = fs }

abbrev pub with_finalizers : List Str → State → State
with_finalizers fs s = record s { finalizers = fs }

-- The command that stops the trace in a pod.
unfoldable pub stop_trace : Call → Str → State → State
unfolding without
stop_trace c pod s = if c.has_effect pod then with_files (without pod s.files) s else s

-- `disableTraceOnPrevPod`, whose error is only logged.
unfoldable pub disable_trace_on_prev_pod : Call → State → State
unfolding stop_trace
disable_trace_on_prev_pod c s = if c.is_missing s.operated then s else stop_trace c s.operated s

abbrev pub trace_output_dir : Call → Str
trace_output_dir c =
    codes "/serviceability"
    ++ (codes "/" ++ (c.namespace ++ (codes "/" ++ (c.pod_name ++ codes "/logs"))))

abbrev pub attribute : Str → Option ℤ → Str
attribute name none = []
attribute name (some n) = name ++ (format_int n ++ codes "\"")

-- The text of the trace configuration.
unfoldable pub trace_config : Call → Str
trace_config c =
    codes "<server><logging traceSpecification=\""
    ++ (c.trace_specification
        ++ (codes "\" logDirectory=\""
            ++ (trace_output_dir c
                ++ (codes "\""
                    ++ (attribute (codes " maxFileSize=\"") c.max_file_size
                        ++ (attribute (codes " maxFiles=\"") c.max_files
                            ++ codes "/></server>"))))))

-- The command that writes the configuration.
unfoldable pub start_trace : Call → State → State
unfolding without trace_config
start_trace c s =
    if c.has_effect c.pod_name
    then with_files ((c.pod_name, trace_config c) ∷ without c.pod_name s.files) s
    else s

-- A reconcile that is to disable the trace; the answer of its last update is dropped.
unfoldable pub disable_trace : Call → Bool → Bool → State → State × Answer
unfolding update_status stop_trace
disable_trace c changed was_enabled s =
    let stopped = stop_trace c c.pod_name s in
    if not changed && was_enabled
    then (if c.reports_error c.pod_name
        then update_status c true true [] stopped
        else ((update_status c false false [] stopped).0, finished))
    else ((update_status c false false [] s).0, finished)

-- A reconcile that is to enable the trace or to change it; the answer of its last update is dropped.
unfoldable pub enable_trace : Call → State → State × Answer
unfolding update_status start_trace
enable_trace c s =
    let started = start_trace c s in
    if c.reports_error c.pod_name
    then update_status c true false (trace_output_dir c) started
    else ((update_status c false true (trace_output_dir c) started).0, finished)

-- The part of the reconcile behind the finalizer.
unfoldable pub operate : Call → State → State × Answer
unfolding disable_trace_on_prev_pod update_status disable_trace enable_trace
operate c s =
    let changed = pod_changed c s in
    let was_enabled = is_enabled s.enabled in
    let left = if changed && was_enabled then disable_trace_on_prev_pod c s else s in
    if c.is_missing c.pod_name
    then update_status c true false [] left
    else if is_enabled c.disable
    then disable_trace c changed was_enabled left
    else enable_trace c left

-- A resource that is being deleted.
unfoldable pub finalize : Call → State → State × Answer
unfolding disable_trace_on_prev_pod
finalize c s =
    let stopped = if is_enabled s.enabled then disable_trace_on_prev_pod c s else s in
    if not (contains s.finalizers trace_finalizer)
    then (s, finished)
    else elim (remove s.finalizers trace_finalizer) [
      | none ↦ (stopped, panics)
      | some fs ↦
          if not c.updates then (stopped, failed) else (with_finalizers fs stopped, finished)
    ]

-- `Reconcile`, of a resource that was read.
unfoldable pub reconcile : Call → State → State × Answer
unfolding operate finalize
reconcile c s =
    if c.deleted
    then finalize c s
    else if contains s.finalizers trace_finalizer
    then operate c s
    else if not c.updates
    then (s, failed)
    else operate c (with_finalizers (s.finalizers ++ (trace_finalizer ∷ [])) s)
