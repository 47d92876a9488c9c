-- ===== src/Performance/Tests.antt =====
-- Reconciles of an instance whose pod runs.
use open_liberty_operator.Common.{Str, codes, ◌==◌, str_eq, true, false, not, ◌&&◌, [], ◌≡◌}
use open_liberty_operator.Performance.Conditions.{started, type_eq, holds}
use open_liberty_operator.Performance.Reconcile.{
  Instance, running, Inputs, condition, with_condition, reconcile, is_completed,
  is_performance_data_running,
}
use open_liberty_operator.Performance.Runs.{starts, is_running, starts-reconcile, goes_on}

abbrev new_instance : Instance
new_instance = record {
  pod_name = codes "pod";
  deleting = false;
  has_finalizer = true;
  conditions = [];
  performance_data_file = [];
}

abbrev answering : Str → Inputs
answering s = record {
  now = 5;
  pod = running;
  connects = true;
  instance_updates = true;
  namespace_found = true;
  max_workers = codes "10";
  injector_status = s;
  file_name_response = codes "name:f";
  status_updates = true;
}

starts-reconcile_example :
    starts (reconcile (answering (codes "idle...")) new_instance).commands ≡ (
      goes_on (answering (codes "idle...")) new_instance
      && not (is_completed new_instance)
      && is_running running
      && true
      && true
      && codes "idle..." == codes "idle..."
      && not (
          is_performance_data_running
            (with_condition 5 (condition started holds [] []) new_instance)))
starts-reconcile_example = starts-reconcile (answering (codes "idle...")) new_instance
