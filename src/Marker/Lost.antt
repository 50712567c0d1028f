-- ===== src/Marker/Lost.antt =====
-- What becomes of a backup request whose reservation could not be stored.
use vcluster_manager.Prelude.{◌≡◌, ◌∙◌, refl, true, false, some, any, arith, str_eq}
use vcluster_manager.VCluster.{Error}
use vcluster_manager.Integrations.{delay_ok}
use vcluster_manager.Marker.{Marker, VeleroOpsReconciler, MarkerRun, with_backup}
use vcluster_manager.Marker.Backup.{is_new, start_backup, follow_backup, reconcile_backup}
use vcluster_manager.Marker.Reservation.{triggers, str_eq_refl}

-- The marker with its backup request named as handled.
abbrev pub reserved : Marker → Marker
reserved m =
    with_backup
      (λ st. record {
        last_handled_requested_at = m.backup_requested_at;
        backup_name = "";
        phase = "New";
      })
      m

module _ {W : Type 0} (r : VeleroOpsReconciler W) where
  unstored :
      (s : MarkerRun W) (e : Error)
      → is_new s.marker.backup_requested_at s.marker.status.backup.last_handled_requested_at ≡ true
      → (r.ops.update_status (reserved s.marker) s.world).0 ≡ (reserved s.marker, some e)
      → ((reconcile_backup r s).1.marker ≡ reserved s.marker)
        × (any triggers (reconcile_backup r s).1.calls ≡ any triggers s.calls)
  unfolding reconcile_backup start_backup
  unstored s e h f = (grind arith, grind arith)

  idle_when_handled :
      (t : MarkerRun W)
      → is_new t.marker.backup_requested_at t.marker.status.backup.last_handled_requested_at ≡ false
      → str_eq t.marker.status.backup.backup_name "" ≡ true
      → reconcile_backup r t ≡ (delay_ok 0, t)
  unfolding reconcile_backup follow_backup
  idle_when_handled t h n = ground arith

  idle_when_reserved :
      (m : Marker) (t : MarkerRun W)
      → t.marker ≡ reserved m
      → reconcile_backup r t ≡ (delay_ok 0, t)
  idle_when_reserved m t e =
      let again : str_eq m.backup_requested_at m.backup_requested_at ≡ true =
        str_eq_refl m.backup_requested_at in
      idle_when_handled t (rw e (ground (arith, again))) (rw e refl)

  -- A new backup request whose reservation fails to be stored, the marker in memory being as it
  -- was written, triggers no backup, but stays named as handled in memory; and over the marker as
  -- it then stands, which the last write of the pass may store, the backup step makes no call,
  -- changes nothing and asks for no other pass: the request is lost.
  unstored_request_lost :
      (s t : MarkerRun W) (e : Error)
      → is_new s.marker.backup_requested_at s.marker.status.backup.last_handled_requested_at ≡ true
      → (r.ops.update_status (reserved s.marker) s.world).0 ≡ (reserved s.marker, some e)
      → t.marker ≡ (reconcile_backup r s).1.marker
      → (any triggers (reconcile_backup r s).1.calls ≡ any triggers s.calls)
        × (reconcile_backup r t ≡ (delay_ok 0, t))
  unstored_request_lost s t e h f same =
      let first = unstored s e h f in (first.1, idle_when_reserved s.marker t (same ∙ first.0))
