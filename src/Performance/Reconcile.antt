-- ===== src/Performance/Reconcile.antt =====
-- `Reconcile` of the performance data controller. What the cluster and the pod injector answer during a
-- reconcile is a record of inputs; the result keeps the instance as the reconcile leaves it, and what it
-- sent to the pod injector, in order.
use open_liberty_operator.Common.{
  ℕ, Str, codes, ◌==◌, str_eq, nat_eq, Bool, true, false, not, ◌&&◌, ◌||◌, List, [], ◌∷◌, ◌++◌,
  Option, none, some, if◌then◌else◌, has_prefix, trim_prefix,
}
use open_liberty_operator.Performance.Conditions.{
  ConditionType, started, completed, failed, type_eq, ConditionStatus, holds, fails, status_beq,
  Condition, get_condition, set_condition,
}

pub record Instance : Type 0 where
  pub pod_name : Str
  pub deleting : Bool
  pub has_finalizer : Bool
  pub conditions : List Condition
  pub performance_data_file : Str

-- What the read of the pod gives: that there is none, another error, or a pod that runs or does not.
pub data Pod : Type 0 where
  no_pod unreadable not_running running : Pod

-- The answers to the calls of one reconcile.
pub record Inputs : Type 0 where
  pub now : ℕ
  pub pod : Pod
  pub connects : Bool
  pub instance_updates : Bool
  pub namespace_found : Bool
  pub max_workers : Str
  pub injector_status : Str
  pub file_name_response : Str
  pub status_updates : Bool

-- What is sent to the pod injector.
pub data Command : Type 0 where
  sets_max_workers : Str → Command
  polls_status starts_script polls_file_name completes_script : Command

pub data Verdict : Type 0 where
  finished requeued errored : Verdict

pub record Outcome : Type 0 where
  pub instance_after : Instance
  pub commands : List Command
  pub verdict : Verdict

abbrev pub condition : ConditionType → ConditionStatus → Str → Str → Condition
condition t s reason message = record {
  type_of = t;
  status_of = s;
  reason = reason;
  message = message;
  last_transition = none;
}

abbrev pub with_condition : ℕ → Condition → Instance → Instance
with_condition now c i = record {
  pod_name = i.pod_name;
  deleting = i.deleting;
  has_finalizer = i.has_finalizer;
  conditions = set_condition now c i.conditions;
  performance_data_file = i.performance_data_file;
}

abbrev pub with_finalizer : Bool → Instance → Instance
with_finalizer b i = record {
  pod_name = i.pod_name;
  deleting = i.deleting;
  has_finalizer = b;
  conditions = i.conditions;
  performance_data_file = i.performance_data_file;
}

abbrev pub with_file : Str → Instance → Instance
with_file f i = record {
  pod_name = i.pod_name;
  deleting = i.deleting;
  has_finalizer = i.has_finalizer;
  conditions = i.conditions;
  performance_data_file = f;
}

-- Whether some condition of the type has the status, and the reason if one is asked for.
abbrev pub any_condition : ConditionType → ConditionStatus → Option Str → List Condition → Bool
any_condition t s r [] = false
any_condition t s none (c ∷ cs) =
    c.type_of == t && status_beq c.status_of s || any_condition t s none cs
any_condition t s (some reason) (c ∷ cs) =
    c.type_of == t && status_beq c.status_of s && c.reason == reason
    || any_condition t s (some reason) cs

-- `isPerformanceDataRunning`.
unfoldable pub is_performance_data_running : Instance → Bool
is_performance_data_running i =
    any_condition started holds none i.conditions
    && any_condition completed fails (some (codes "InProgress")) i.conditions
    && not (any_condition failed holds none i.conditions)

-- `GetPerformanceDataConnectionLostMessage`, `GetPerformanceDataWritingMessage`.
unfoldable pub connection_lost_message : Str → Str
connection_lost_message pod_name =
    codes "Connection between Liberty operator and Pod '"
    ++ (pod_name ++ codes "' was lost while writing performance data.")

unfoldable pub writing_message : Str → Str
writing_message pod_name =
    codes "Collecting performance data for Pod '" ++ (pod_name ++ codes "'...")

-- `strings.TrimSuffix(s, "\\n")`.
abbrev pub trim_newline : Str → Str
trim_newline [] = []
trim_newline (c ∷ []) = if c == 10 then [] else c ∷ []
trim_newline (c ∷ d ∷ s) = c ∷ trim_newline (d ∷ s)

-- The end of `Reconcile` for a run that is done.
unfoldable pub on_done : Inputs → Instance → List Command → Outcome
on_done x i sent =
    let file =
      if has_prefix (codes "name:") x.file_name_response
      then trim_newline (trim_prefix (codes "name:") x.file_name_response)
      else [] in
    record {
      instance_after = with_file file (with_condition x.now (condition completed holds [] []) i);
      commands =
          if x.status_updates
          then sent ++ (polls_file_name ∷ completes_script ∷ [])
          else sent ++ (polls_file_name ∷ []);
      verdict = finished;
    }

-- The exits on an error of the script and on a lost connection.
unfoldable pub on_failure : Inputs → Str → Str → Instance → List Command → Outcome
on_failure x reason message i sent = record {
  instance_after =
      with_condition x.now (condition failed holds reason message)
        (with_condition x.now (condition completed fails [] []) i);
  commands = sent;
  verdict = finished;
}

-- The requeue while the run goes on or waits.
unfoldable pub on_progress : Inputs → Instance → List Command → Outcome
unfolding writing_message
on_progress x i sent =
    let full = x.injector_status == codes "toomanyworkers..." in
    let message =
      if full
      then codes
          "The operator performance data queue is full. Waiting for a worker to become available..."
      else writing_message i.pod_name in
    let reason = if full then codes "TooManyWorkers" else codes "InProgress" in
    record {
      instance_after = with_condition x.now (condition completed fails reason message) i;
      commands =
          if x.injector_status == codes "idle..." then sent ++ (starts_script ∷ []) else sent;
      verdict = requeued;
    }

-- What `Reconcile` does with the status that the injector answers.
unfoldable pub on_status : Inputs → Instance → List Command → Outcome
unfolding on_done on_failure on_progress is_performance_data_running
on_status x i sent =
    if x.injector_status == codes "done..."
    then on_done x i sent
    else if has_prefix (codes "error:") x.injector_status
    then on_failure x (codes "Error") (trim_prefix (codes "error:") x.injector_status) i sent
    else if not (x.injector_status == codes "writing...") && is_performance_data_running i
    then on_failure x (codes "ConnectionLost") (connection_lost_message i.pod_name) i sent
    else on_progress x i sent

-- `Reconcile` once the pod is known to run.
unfoldable pub on_running_pod : Inputs → Instance → Outcome
unfolding on_status
on_running_pod x i =
    let message = codes "Failed to connect to the operator pod injector" in
    let i' = with_condition x.now (condition started holds [] []) i in
    let sent =
      if not (x.max_workers == [])
      then sets_max_workers x.max_workers ∷ polls_status ∷ []
      else polls_status ∷ [] in
    if not x.connects
    then record {
      instance_after = with_condition x.now (condition started fails (codes "Error") message) i;
      commands = [];
      verdict = finished;
    }
    else if not x.namespace_found
    then record { instance_after = i'; commands = []; verdict = errored }
    else on_status x i' sent

-- The requeue while the pod does not run.
unfoldable pub on_waiting : Inputs → Str → Instance → Outcome
on_waiting x pod_name i = record {
  instance_after =
      with_condition x.now
        (condition started fails (codes "Error")
          (codes "Waiting for Pod '" ++ (pod_name ++ codes "' to be in a running state.")))
        i;
  commands = [];
  verdict = requeued;
}

-- `Reconcile` for an instance with its finalizer that is not deleted nor completed.
unfoldable pub on_active : Inputs → Instance → Outcome
unfolding on_running_pod on_waiting connection_lost_message
on_active x i = elim (x.pod) [
  | no_pod ↦
      let was_running = is_performance_data_running i in
      let message =
        if was_running
        then connection_lost_message i.pod_name
        else codes "Failed to find a pod or pod is not in running state" in
      record {
        instance_after =
            with_condition x.now (condition completed fails (codes "Error") message)
              (with_condition x.now (condition started holds [] []) i);
        commands = [];
        verdict = if was_running then finished else requeued;
      }
  | unreadable ↦ on_waiting x [] i
  | not_running ↦ on_waiting x i.pod_name i
  | running ↦ on_running_pod x i
]

-- Whether the instance has its data already.
unfoldable pub is_completed : Instance → Bool
unfolding get_condition
is_completed i = elim (get_condition i.conditions completed) [
  | none ↦ false
  | some c ↦ status_beq c.status_of holds
]

-- The finalizer of a deleted instance.
unfoldable pub on_deletion : Inputs → Instance → Outcome
on_deletion x i =
    if not i.has_finalizer
    then record { instance_after = i; commands = []; verdict = finished }
    else if not x.connects
    then record { instance_after = i; commands = []; verdict = errored }
    else record {
      instance_after = with_finalizer false i;
      commands = completes_script ∷ [];
      verdict = if x.instance_updates then finished else errored;
    }

-- `Reconcile` of an instance that was read from the cluster.
unfoldable pub reconcile : Inputs → Instance → Outcome
unfolding on_deletion is_completed on_active
reconcile x i =
    let i' = with_finalizer true i in
    if i.deleting
    then on_deletion x i
    else if not i.has_finalizer && not x.instance_updates
    then record { instance_after = i'; commands = []; verdict = errored }
    else if is_completed i'
    then record { instance_after = i'; commands = []; verdict = finished }
    else on_active x i'
