-- ===== src/Marker/Recovery.antt =====
-- An interrupted restore, and the bound on how long a settled one is followed.
use vcluster_manager.Prelude.{
  ℕ, ◌+◌, ◌≤◌, ◌≡◌, ◌⊎◌, Bool, true, false, not, ◌&&◌, none, some, any, arith, str_eq,
}
use vcluster_manager.Marker.{
  VeleroOpsReconciler, VeleroRestoreStatusView, MarkerRun, MarkerCall, aborted_restore,
  inspected_interrupted, is_terminal_restore_phase,
}
use vcluster_manager.Integrations.{delay_ok}
use vcluster_manager.Marker.Restore.{
  start_restore, reserve_restore, create_restore, record_restore_failure, repair,
  recover_interrupted, conclude_restore, await_resume, track_restore, follow_restore,
  reconcile_restore,
}

abbrev pub aborts : MarkerCall → Bool
aborts (aborted_restore _) = true
aborts _ = false

-- The cluster was asked, and shows the volume there and no restore on its way.
abbrev pub saw_intact : MarkerCall → Bool
saw_intact (inspected_interrupted view none) =
    not view.volume_gone && str_eq view.active_restore_name ""
saw_intact _ = false

module _ {W : Type 0} (r : VeleroOpsReconciler W) where
  track-aborts :
      (view : VeleroRestoreStatusView) (s : MarkerRun W)
      → any aborts (track_restore r view s).1.calls ≡ any aborts s.calls
  unfolding track_restore await_resume conclude_restore
  track-aborts view s = ground arith

  follow-aborts : (s : MarkerRun W) → any aborts (follow_restore r s).1.calls ≡ any aborts s.calls
  unfolding follow_restore
  follow-aborts s = grind (arith, track-aborts)

  start-aborts : (s : MarkerRun W) → any aborts (start_restore r s).1.calls ≡ any aborts s.calls
  unfolding start_restore reserve_restore create_restore record_restore_failure
  start-aborts s = ground arith

  recover_intact :
      (s : MarkerRun W)
      → any aborts s.calls ≡ false
      → any aborts (recover_interrupted r s).1.calls ≡ true
      → any saw_intact (recover_interrupted r s).1.calls ≡ true
  unfolding recover_interrupted repair
  recover_intact s q h = ground arith

  -- Flux is given back to a vcluster whose restore was interrupted only in a pass that saw its
  -- volume intact and no restore on its way (the log before holds no such call): an emptied
  -- vcluster stays suspended.
  pub abort_if_intact :
      (s : MarkerRun W)
      → any aborts s.calls ≡ false
      → any aborts (reconcile_restore r s).1.calls ≡ true
      → any saw_intact (reconcile_restore r s).1.calls ≡ true
  unfolding reconcile_restore
  abort_if_intact s q h = ground (arith, follow-aborts s, start-aborts s, recover_intact s)

  -- A settled restore is polled again, with no error, only within two hours of when it was first
  -- seen settled; that time, once it is written, is kept.
  settled_polling_bounded :
      (view : VeleroRestoreStatusView) (s : MarkerRun W) (t : ℕ)
      → s.marker.status.restore.first_terminal_at ≡ some t
      → is_terminal_restore_phase view.phase ≡ true
      → ((track_restore r view s).1.marker.status.restore.first_terminal_at ≡ some t)
        × (((track_restore r view s).0 ≡ delay_ok 0) ⊎ (s.now ≤ t + 7200))
        × (((track_restore r view s).0 ≡ delay_ok 0)
            ⊎ ((track_restore r view s).1.marker.status.restore.resume_pending ≡ true))
  unfolding track_restore await_resume conclude_restore
  settled_polling_bounded view s t f h = (ground arith, ground arith, ground arith)
