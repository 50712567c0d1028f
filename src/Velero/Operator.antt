-- ===== src/Velero/Operator.antt =====
-- The service as the operator's reconciler takes it: internal/veleroops/ops.go, filled by
-- internal/service/velero.go, with the errors that the reconciler tells apart.
use vcluster_manager.Prelude.{true, false, Option, none, some}
use vcluster_manager.VCluster.{Error, other}
use vcluster_manager.Marker.{
  RestoreError, volume_gone_error, stage_error, forbidden_error, other_error, VeleroRestoreView,
  VeleroRestoreStatusView, InterruptedRestoreView, Marker, MarkerOps,
}
use vcluster_manager.Velero.{
  Actor, VeleroError, forbidden_request, restore_stage_failed, restore_stage_failed_volume_gone,
  client_failed, Outcome, done, refused, Service, ServiceRun, Serve,
}
use vcluster_manager.Velero.Restore.{create_velero_restore, abort_in_place_restore}
use vcluster_manager.Velero.Request.{trigger_backup_of}
use vcluster_manager.Velero.Follow.{restore_status_of, interrupted_restore_of, backup_phase_of}

abbrev pub system_actor : Actor
system_actor = record { username = "vcluster-operator"; is_admin = true }

-- The first sentinel that recordRestoreFailure finds in an error.
unfoldable pub restore_error_of : VeleroError → RestoreError
restore_error_of (restore_stage_failed_volume_gone _) = volume_gone_error
restore_error_of (restore_stage_failed _) = stage_error
restore_error_of forbidden_request = forbidden_error
restore_error_of _ = other_error

-- An error for a caller that only reports it.
unfoldable pub plain_error : VeleroError → Error
plain_error (client_failed e) = e
plain_error _ = other "velero"

abbrev pub empty_restore_view : VeleroRestoreView
empty_restore_view = record { restore_name = ""; phase = ""; in_place = false }

abbrev restore_answer : Outcome VeleroRestoreView → VeleroRestoreView × Option RestoreError
restore_answer (done view) = (view, none)
restore_answer (refused e) = (empty_restore_view, some (restore_error_of e))

-- A Go pair of a value and an error, the value being the zero value with an error.
abbrev answer : {A : Type 0} → A → Outcome A → A × Option Error
answer zero (done a) = (a, none)
answer zero (refused e) = (zero, some (plain_error e))

abbrev error_answer : Option VeleroError → Option Error
error_answer none = none
error_answer (some e) = some (plain_error e)

abbrev empty_status_view : VeleroRestoreStatusView
empty_status_view = record {
  phase = "";
  resume_pending = false;
  resume_failed = false;
  resume_error = "";
  volume_destroyed = false;
}

abbrev empty_interrupted_view : InterruptedRestoreView
empty_interrupted_view = record {
  volume_gone = false;
  active_restore_name = "";
  active_restore_phase = "";
}

abbrev answered : {W A B : Type 0} → (A → B) → Serve W A → Serve W B
answered f m s = (f (m s).0, (m s).1)

-- The operations that the reconciler calls; the write of a marker's status goes to the API server.
unfoldable pub operator_ops :
    {W : Type 0}
    → Service W
    → (Marker → ServiceRun W → (Marker × Option Error) × ServiceRun W)
    → MarkerOps (ServiceRun W)
operator_ops svc update = record {
  trigger_velero_backup = λ name env.
      answered
        (λ o. elim o [
          | done ack ↦ (ack.backup_name, none)
          | refused e ↦ ("", some (plain_error e))
        ])
        (trigger_backup_of svc system_actor name env);
  get_velero_backup_phase = λ backup env. answered (answer "") (backup_phase_of svc backup env);
  create_velero_restore_unwatched = λ name env backup target.
      answered restore_answer (create_velero_restore svc system_actor name env backup target true);
  inspect_interrupted_restore =
      λ name env. answered (answer empty_interrupted_view) (interrupted_restore_of svc name env);
  get_velero_restore_status = λ name restore env in_place.
      answered (answer empty_status_view) (restore_status_of svc name restore env in_place);
  abort_in_place_restore =
      λ name env. answered error_answer (abort_in_place_restore svc system_actor name env);
  update_status = update;
}
