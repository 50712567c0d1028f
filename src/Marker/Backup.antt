-- ===== src/Marker/Backup.antt =====
-- reconcileBackup of internal/controller/veleroops_controller.go.
use vcluster_manager.Prelude.{String, Bool, not, ◌&&◌, ◌||◌, none, some, if◌then◌else◌, str_eq}
use vcluster_manager.Kube.{
  backup_completed, condition_true, condition_false, condition_unknown, trigger_failed, failure,
  in_progress, completed,
}
use vcluster_manager.VCluster.{Error}
use vcluster_manager.Integrations.{Delay, delay_ok, delay_failed}
use vcluster_manager.Deletion.Steps.{requeue_interval}
use vcluster_manager.Marker.{
  VeleroOpsReconciler, Step, ◌>>=◌, ◌>>◌, pure, ask, get_marker, modify, with_backup, set_cond,
  store_status, triggered_backup, read_backup_phase, is_terminal_backup_phase,
}

-- `0, err`
abbrev pub at_once : Error → Delay
at_once e = record { wait = 0; err = some e }

-- The request of an annotation is new.
abbrev pub is_new : String → String → Bool
is_new requested handled = not (str_eq requested "") && not (str_eq requested handled)

module _ {W : Type 0} (r : VeleroOpsReconciler W) where
  -- After the reservation was stored.
  unfoldable pub trigger_backup : Step W Delay
  trigger_backup = do
    m ← get_marker
    created ← ask (λ a. triggered_backup a.1) (r.ops.trigger_velero_backup m.name r.cell)
    elim created.1 [
      | some e ↦ (do
        modify (with_backup (λ st. record st { phase = "Failed" }))
        set_cond r backup_completed condition_false trigger_failed
        pure (delay_ok 0))
      | none ↦ (do
        modify (with_backup (λ st. record st { backup_name = created.0 }))
        set_cond r backup_completed condition_unknown in_progress
        pure (delay_ok requeue_interval))
    ]

  -- The request is consumed before it is acted on.
  unfoldable pub start_backup : String → Step W Delay
  start_backup requested = do
    modify (
        with_backup
          (λ st. record { last_handled_requested_at = requested; backup_name = ""; phase = "New" }))
    err ← store_status r
    elim err [ some e ↦ pure (at_once e) | none ↦ trigger_backup ]

  unfoldable pub follow_backup : Step W Delay
  follow_backup = do
    m ← get_marker
    if str_eq m.status.backup.backup_name "" || is_terminal_backup_phase m.status.backup.phase
        then pure (delay_ok 0)
        else (do
          phase ←
              ask (λ a. read_backup_phase a.1)
                (r.ops.get_velero_backup_phase m.status.backup.backup_name r.cell)
          elim phase.1 [
            | some e ↦ pure (delay_failed e)
            | none ↦ (do
              modify (with_backup (λ st. record st { phase = phase.0 }))
              if str_eq phase.0 "Completed"
                  then (do set_cond r backup_completed condition_true completed; pure (delay_ok 0))
                  else (if is_terminal_backup_phase phase.0
                      then (do
                        set_cond r backup_completed condition_false failure
                        pure (delay_ok 0))
                      else pure (delay_ok requeue_interval)))
          ])

  unfoldable pub reconcile_backup : Step W Delay
  reconcile_backup = do
    m ← get_marker
    if is_new m.backup_requested_at m.status.backup.last_handled_requested_at
        then start_backup m.backup_requested_at
        else follow_backup
