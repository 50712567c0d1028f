-- ===== src/Marker/Reconcile.antt =====
-- Reconcile of internal/controller/veleroops_controller.go.
use vcluster_manager.Prelude.{ℕ, none, some, if◌then◌else◌, ltb, ◌==◌, is_some}
use vcluster_manager.Text.{codes}
use vcluster_manager.Kube.{accepted, condition_false, namespace_mismatch}
use vcluster_manager.Names.{marker_misplaced}
use vcluster_manager.Integrations.{Delay, delay_ok, join_errors}
use vcluster_manager.Marker.{
  VeleroOpsReconciler, Step, ◌>>=◌, ◌>>◌, pure, get_marker, set_cond, store_status,
}
use vcluster_manager.Marker.Backup.{at_once, reconcile_backup}
use vcluster_manager.Marker.Restore.{reconcile_restore}

unfoldable pub soonest : ℕ → ℕ → ℕ
soonest a b = if a == 0 then b else (if b == 0 then a else (if ltb a b then a else b))

-- The result of the two paths, once the status is stored.
abbrev conclude : Delay → Delay → Delay
conclude restore backup = elim (join_errors restore.err backup.err) [
  | some e ↦ at_once e
  | none ↦ delay_ok (soonest restore.wait backup.wait)
]

module _ {W : Type 0} (r : VeleroOpsReconciler W) where
  -- refuseMarker, and the write of the status.
  unfoldable pub refuse_marker : Step W Delay
  refuse_marker = do
    set_cond r accepted condition_false namespace_mismatch
    err ← store_status r
    pure (record { wait = 0; err = err })

  unfoldable pub act_on_orders : Step W Delay
  act_on_orders = do
    restore ← reconcile_restore r
    backup ← reconcile_backup r
    err ← store_status r
    elim err [ some e ↦ pure (at_once e) | none ↦ pure (conclude restore backup) ]

  -- From the marker that was read on.
  unfoldable pub reconcile_marker : Step W Delay
  reconcile_marker = do
    m ← get_marker
    if is_some (marker_misplaced (codes m.name) (codes m.namespace))
        then refuse_marker
        else act_on_orders
