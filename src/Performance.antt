-- ===== src/Performance.antt =====
-- Collecting performance data of a pod
-- (internal/controller/openlibertyperformancedata_controller.go, api/v1/openlibertyperformancedata_types.go).
-- Conditions has the conditions of the status, Reconcile the controller.
mod Conditions
mod Reconcile
mod Runs
mod Tests
