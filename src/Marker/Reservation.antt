-- ===== src/Marker/Reservation.antt =====
-- Orders are carried out at most once: a request is stored as handled before it is acted on, and a
-- restore that is running or aimed elsewhere starts nothing.
use vcluster_manager.Prelude.{
  ◌≡◌, ap, String, Bool, true, false, ◌&&◌, none, List, [], ◌∷◌, any, arith, str_eq, eq_iff,
  is_some,
}
use vcluster_manager.Text.{codes}
use vcluster_manager.Names.{marker_misplaced}
use vcluster_manager.Marker.{
  Marker, VeleroRestoreStatusView, VeleroOpsReconciler, MarkerRun, MarkerCall, stored,
  triggered_backup, created_restore,
}
use vcluster_manager.Marker.Backup.{
  is_new, trigger_backup, start_backup, follow_backup, reconcile_backup,
}
use vcluster_manager.Marker.Restore.{
  is_restoring, is_foreign, record_restore_failure, create_restore, reserve_restore, start_restore,
  repair, recover_interrupted, conclude_restore, await_resume, track_restore, follow_restore,
  reconcile_restore,
}
use vcluster_manager.Marker.Reconcile.{reconcile_marker, act_on_orders, refuse_marker}

-- The last call stored with success a marker that names its backup request as handled.
abbrev pub reserves_backup : List MarkerCall → Bool
reserves_backup (stored m none ∷ _) =
    str_eq m.status.backup.last_handled_requested_at m.backup_requested_at
reserves_backup _ = false

abbrev pub reserves_restore : List MarkerCall → Bool
reserves_restore (stored m none ∷ _) =
    str_eq m.status.restore.last_handled_requested_at m.restore_requested_at
reserves_restore _ = false

-- Every order that a log shows was carried out right after it was stored as handled.
abbrev pub is_reserved_log : List MarkerCall → Bool
is_reserved_log [] = true
is_reserved_log (triggered_backup _ ∷ cs) = reserves_backup cs && is_reserved_log cs
is_reserved_log (created_restore _ ∷ cs) = reserves_restore cs && is_reserved_log cs
is_reserved_log (_ ∷ cs) = is_reserved_log cs

abbrev pub triggers : MarkerCall → Bool
triggers (triggered_backup _) = true
triggers _ = false

abbrev pub restores : MarkerCall → Bool
restores (created_restore _) = true
restores _ = false

-- Any call but the writes of the marker's own status.
abbrev pub acts : MarkerCall → Bool
acts (stored _ _) = false
acts _ = true

pub str_eq_refl : (s : String) → str_eq s s ≡ true
str_eq_refl s = ground (arith, eq_iff s s)

module _ {W : Type 0} (r : VeleroOpsReconciler W) where
  trigger-is_reserved_log :
      (s : MarkerRun W)
      → reserves_backup s.calls ≡ true
      → is_reserved_log s.calls ≡ true
      → is_reserved_log (trigger_backup r s).1.calls ≡ true
  unfolding trigger_backup
  trigger-is_reserved_log s q h = ground arith

  start_backup-is_reserved_log :
      (s : MarkerRun W)
      → is_reserved_log s.calls ≡ true
      → is_reserved_log (start_backup r s.marker.backup_requested_at s).1.calls ≡ true
  unfolding start_backup
  start_backup-is_reserved_log s h =
      grind (arith, trigger-is_reserved_log, str_eq_refl s.marker.backup_requested_at)

  follow_backup-is_reserved_log :
      (s : MarkerRun W) → is_reserved_log (follow_backup r s).1.calls ≡ is_reserved_log s.calls
  unfolding follow_backup
  follow_backup-is_reserved_log s = ground arith

  backup-is_reserved_log :
      (s : MarkerRun W)
      → is_reserved_log s.calls ≡ true
      → is_reserved_log (reconcile_backup r s).1.calls ≡ true
  unfolding reconcile_backup
  backup-is_reserved_log s h =
      ground (arith, start_backup-is_reserved_log s, follow_backup-is_reserved_log s)

  create-is_reserved_log :
      (m : Marker) (s : MarkerRun W)
      → reserves_restore s.calls ≡ true
      → is_reserved_log s.calls ≡ true
      → is_reserved_log (create_restore r m s).1.calls ≡ true
  unfolding create_restore record_restore_failure
  create-is_reserved_log m s q h = ground arith

  reserve-is_reserved_log :
      (s : MarkerRun W)
      → is_reserved_log s.calls ≡ true
      → is_reserved_log (reserve_restore r s.marker s).1.calls ≡ true
  unfolding reserve_restore
  reserve-is_reserved_log s h =
      grind (arith, create-is_reserved_log, str_eq_refl s.marker.restore_requested_at)

  start_restore-is_reserved_log :
      (s : MarkerRun W)
      → is_reserved_log s.calls ≡ true
      → is_reserved_log (start_restore r s).1.calls ≡ true
  unfolding start_restore
  start_restore-is_reserved_log s h = ground (arith, reserve-is_reserved_log s)

  recover-is_reserved_log :
      (s : MarkerRun W)
      → is_reserved_log (recover_interrupted r s).1.calls ≡ is_reserved_log s.calls
  unfolding recover_interrupted repair
  recover-is_reserved_log s = ground arith

  track-calls :
      (view : VeleroRestoreStatusView) (s : MarkerRun W)
      → (track_restore r view s).1.calls ≡ s.calls
  unfolding track_restore await_resume conclude_restore
  track-calls view s = ground arith

  track-is_reserved_log :
      (view : VeleroRestoreStatusView) (s : MarkerRun W)
      → is_reserved_log (track_restore r view s).1.calls ≡ is_reserved_log s.calls
  track-is_reserved_log view s = ap is_reserved_log (track-calls view s)

  track-restores :
      (view : VeleroRestoreStatusView) (s : MarkerRun W)
      → any restores (track_restore r view s).1.calls ≡ any restores s.calls
  track-restores view s = ap (any restores) (track-calls view s)

  follow_restore-is_reserved_log :
      (s : MarkerRun W) → is_reserved_log (follow_restore r s).1.calls ≡ is_reserved_log s.calls
  unfolding follow_restore
  follow_restore-is_reserved_log s = grind (arith, track-is_reserved_log)

  follow-restores :
      (s : MarkerRun W) → any restores (follow_restore r s).1.calls ≡ any restores s.calls
  unfolding follow_restore
  follow-restores s = grind (arith, track-restores)

  recover-restores :
      (s : MarkerRun W) → any restores (recover_interrupted r s).1.calls ≡ any restores s.calls
  unfolding recover_interrupted repair
  recover-restores s = ground arith

  restore-is_reserved_log :
      (s : MarkerRun W)
      → is_reserved_log s.calls ≡ true
      → is_reserved_log (reconcile_restore r s).1.calls ≡ true
  unfolding reconcile_restore
  restore-is_reserved_log s h = ground (
    arith,
    start_restore-is_reserved_log s,
    recover-is_reserved_log s,
    follow_restore-is_reserved_log s,
  )

  -- In every pass over a marker, whatever the cluster answers, a backup is triggered or a restore
  -- created only right after a successful write of the status that names its request as handled.
  -- The pass starts from a log where this holds, as it does of the empty one.
  pub reserved_before_acting :
      (s : MarkerRun W)
      → is_reserved_log s.calls ≡ true
      → is_reserved_log (reconcile_marker r s).1.calls ≡ true
  unfolding reconcile_marker refuse_marker act_on_orders
  reserved_before_acting s h =
      let a = (reconcile_restore r s).1 in
      ground (arith, restore-is_reserved_log s, backup-is_reserved_log a)

  -- A request that is handled already, or no request at all, triggers no backup and creates no
  -- restore.
  handled_not_repeated :
      (s : MarkerRun W)
      → is_new s.marker.backup_requested_at s.marker.status.backup.last_handled_requested_at ≡ false
      → is_new s.marker.restore_requested_at s.marker.status.restore.last_handled_requested_at
        ≡ false
      → (any triggers (reconcile_backup r s).1.calls ≡ any triggers s.calls)
        × (any restores (reconcile_restore r s).1.calls ≡ any restores s.calls)
  unfolding reconcile_backup follow_backup reconcile_restore
  handled_not_repeated s h k = (ground arith, ground (arith, follow-restores s, recover-restores s))

  follow-handled :
      (s : MarkerRun W)
      → (follow_restore r s).1.marker.status.restore.last_handled_requested_at
        ≡ s.marker.status.restore.last_handled_requested_at
  unfolding follow_restore track_restore await_resume conclude_restore
  follow-handled s = ground arith

  start_deferred :
      (s : MarkerRun W)
      → is_restoring s.marker ≡ true
      → ((start_restore r s).1.calls ≡ s.calls)
        × ((start_restore r s).1.marker.status.restore ≡ s.marker.status.restore)
  unfolding start_restore
  start_deferred s h = (ground arith, ground arith)

  restoring_named :
      (m : Marker) → is_restoring m ≡ true → str_eq m.status.restore.restore_name "" ≡ false
  unfolding is_restoring
  restoring_named m h = ground arith

  -- While a restore runs, no other is created, and a request that came in meanwhile is not marked
  -- as handled: it is deferred, not dropped.
  running_restore_defers :
      (s : MarkerRun W)
      → is_restoring s.marker ≡ true
      → (any restores (reconcile_restore r s).1.calls ≡ any restores s.calls)
        × ((reconcile_restore r s).1.marker.status.restore.last_handled_requested_at
            ≡ s.marker.status.restore.last_handled_requested_at)
  unfolding reconcile_restore
  running_restore_defers s h =
      let deferred = start_deferred s h in
      let named = restoring_named s.marker h in
      let same_calls = ap (any restores) deferred.0 in
      let same_handled = ap (λ st. st.last_handled_requested_at) deferred.1 in
      (
        ground (arith, same_calls, named, follow-restores s),
        ground (arith, same_handled, named, follow-handled s),
      )

  start_foreign :
      (s : MarkerRun W)
      → is_foreign s.marker ≡ true
      → any restores (start_restore r s).1.calls ≡ any restores s.calls
  unfolding start_restore
  start_foreign s h = ground arith

  -- A marker whose target is another vcluster creates no restore.
  foreign_target_refused :
      (s : MarkerRun W)
      → is_foreign s.marker ≡ true
      → any restores (reconcile_restore r s).1.calls ≡ any restores s.calls
  unfolding reconcile_restore
  foreign_target_refused s h =
      ground (arith, start_foreign s h, follow-restores s, recover-restores s)

  -- A marker that is not in the namespace of its vcluster makes a pass write its status and do
  -- nothing else.
  misplaced_marker_inert :
      (s : MarkerRun W)
      → is_some (marker_misplaced (codes s.marker.name) (codes s.marker.namespace)) ≡ true
      → any acts (reconcile_marker r s).1.calls ≡ any acts s.calls
  unfolding reconcile_marker refuse_marker
  misplaced_marker_inert s h = ground arith
