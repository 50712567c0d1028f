-- ===== src/Marker/Restore.antt =====
-- reconcileRestore of internal/controller/veleroops_controller.go, with startRestore,
-- recoverInterrupted, recordRestoreFailure and followRestore.
use vcluster_manager.Prelude.{
  ℕ, Bool, true, false, not, ◌&&◌, ◌||◌, Option, none, some, if◌then◌else◌, str_eq,
}
use vcluster_manager.Kube.{
  accepted, restore_in_progress, restore_rejected_busy, flux_resume_pending, restore_needs_retry,
  condition_true, condition_false, already_running, target_outside_marker, requested, adopted,
  interrupted, volume_gone_no_restore, abort_failed, aborted, interrupted_before_point_of_no_return,
  stage_failed, volume_gone, forbidden, in_progress, resume_gave_up, resume_pending, resume_failed,
  resumed, volume_destroyed, completed, failure,
}
use vcluster_manager.Integrations.{Delay, delay_ok, delay_failed}
use vcluster_manager.Deletion.Steps.{requeue_interval, since_exceeds}
use vcluster_manager.Marker.{
  RestoreError, volume_gone_error, stage_error, forbidden_error, other_error, Marker,
  InterruptedRestoreView, VeleroRestoreStatusView, VeleroOpsReconciler, Step, ◌>>=◌, ◌>>◌, pure,
  ask, get_marker, get_now, modify, with_restore, set_cond, remove_cond, store_status,
  created_restore, inspected_interrupted, read_restore, aborted_restore, is_terminal_restore_phase,
}
use vcluster_manager.Marker.Backup.{at_once, is_new}

-- v1alpha1.ResumeGiveUpAfter: two hours.
abbrev pub resume_give_up_after : ℕ
resume_give_up_after = 7200

abbrev or_now : ℕ → Option ℕ → ℕ
or_now now none = now
or_now now (some t) = t

-- A restore has a name and is not settled.
unfoldable pub is_restoring : Marker → Bool
is_restoring m =
    not (str_eq m.status.restore.restore_name "")
    && not (is_terminal_restore_phase m.status.restore.phase)

-- The target that is asked for is another vcluster than the marker's.
unfoldable pub is_foreign : Marker → Bool
is_foreign m = not (str_eq m.restore_target "") && not (str_eq m.restore_target m.name)

module _ {W : Type 0} (r : VeleroOpsReconciler W) where
  abbrev needs_retry : RestoreError → Step W (Unit {0})
  needs_retry volume_gone_error = do
    modify (with_restore (λ st. record st { volume_destroyed = true }))
    set_cond r restore_needs_retry condition_true volume_gone
  needs_retry stage_error = set_cond r restore_needs_retry condition_true stage_failed
  needs_retry forbidden_error = set_cond r restore_in_progress condition_false forbidden
  needs_retry other_error = pure tt

  unfoldable pub record_restore_failure : RestoreError → Step W Delay
  record_restore_failure e = do
    modify (with_restore (λ st. record st { phase = "Failed" }))
    set_cond r restore_in_progress condition_false stage_failed
    needs_retry e
    pure (delay_ok 0)

  -- After the reservation was stored; `m` is the marker as it was before.
  unfoldable pub create_restore : Marker → Step W Delay
  create_restore m = do
    view ←
        ask (λ a. created_restore a.1)
          (r.ops.create_velero_restore_unwatched m.name r.cell m.restore_from_backup
            m.restore_target)
    elim view.1 [
      | some e ↦ record_restore_failure e
      | none ↦ (do
        modify (
            with_restore (λ st. record st {
              restore_name = view.0.restore_name;
              phase = view.0.phase;
              in_place = view.0.in_place;
            }))
        pure (delay_ok requeue_interval))
    ]

  -- The request is reserved before anything destructive.
  unfoldable pub reserve_restore : Marker → Step W Delay
  reserve_restore m = do
    modify (
        with_restore (λ _. record {
          last_handled_requested_at = m.restore_requested_at;
          restore_name = "";
          from_backup = m.restore_from_backup;
          target = m.restore_target;
          in_place = str_eq m.restore_target "" || str_eq m.restore_target m.name;
          phase = "New";
          first_terminal_at = none;
          resume_pending = false;
          resume_failed = false;
          resume_error = "";
          volume_destroyed = false;
        }))
    remove_cond r restore_rejected_busy
    remove_cond r restore_needs_retry
    set_cond r restore_in_progress condition_true requested
    err ← store_status r
    elim err [ some e ↦ pure (at_once e) | none ↦ create_restore m ]

  unfoldable pub start_restore : Step W Delay
  start_restore = do
    m ← get_marker
    if is_restoring m
        then (do
          set_cond r restore_rejected_busy condition_true already_running
          pure (delay_ok requeue_interval))
        else (if is_foreign m
            then (do
              set_cond r accepted condition_false target_outside_marker
              modify (
                  with_restore
                    (λ st. record st { last_handled_requested_at = m.restore_requested_at }))
              pure (delay_ok 0))
            else reserve_restore m)

  -- The switch on what the cluster says of an interrupted sequence.
  unfoldable pub repair : InterruptedRestoreView → Step W Delay
  repair view = do
    m ← get_marker
    if not (str_eq view.active_restore_name "")
        then (do
          modify (
              with_restore (λ st. record st {
                restore_name = view.active_restore_name;
                phase = view.active_restore_phase;
              }))
          set_cond r restore_in_progress condition_true adopted
          pure (delay_ok requeue_interval))
        else (if view.volume_gone
            then (do
              modify (with_restore (λ st. record st { volume_destroyed = true; phase = "Failed" }))
              set_cond r restore_in_progress condition_false interrupted
              set_cond r restore_needs_retry condition_true volume_gone_no_restore
              pure (delay_ok 0))
            else (do
              err ← ask aborted_restore (r.ops.abort_in_place_restore m.name r.cell)
              elim err [
                | some e ↦ (do
                  set_cond r restore_needs_retry condition_true abort_failed
                  pure (delay_failed e))
                | none ↦ (do
                  modify (with_restore (λ st. record st { phase = "Failed" }))
                  set_cond r restore_in_progress condition_false aborted
                  set_cond r restore_needs_retry condition_true
                      interrupted_before_point_of_no_return
                  pure (delay_ok 0))
              ]))

  unfoldable pub recover_interrupted : Step W Delay
  recover_interrupted = do
    m ← get_marker
    view ←
        ask (λ a. inspected_interrupted a.0 a.1) (r.ops.inspect_interrupted_restore m.name r.cell)
    elim view.1 [ some e ↦ pure (delay_failed e) | none ↦ repair view.0 ]

  -- The restore is settled, and the view says nothing of a resume to come.
  unfoldable pub conclude_restore : VeleroRestoreStatusView → Step W Delay
  conclude_restore view = do
    set_cond r flux_resume_pending (if view.resume_failed then condition_true else condition_false)
        (if view.resume_failed then resume_failed else resumed)
    set_cond r restore_in_progress condition_false
        (if str_eq view.phase "Completed" then completed else failure)
    if view.volume_destroyed
        then (do set_cond r restore_needs_retry condition_true volume_destroyed; pure (delay_ok 0))
        else pure (delay_ok 0)

  -- The restore is settled: Flux may still have to come back, within a bound.
  unfoldable pub await_resume : VeleroRestoreStatusView → Step W Delay
  await_resume view = do
    now ← get_now
    modify (
        with_restore
          (λ st. record st { first_terminal_at = some (or_now now st.first_terminal_at) }))
    m ← get_marker
    if view.resume_pending
        then (if since_exceeds now (or_now now m.status.restore.first_terminal_at)
              resume_give_up_after
            then (do
              modify (
                  with_restore (λ st. record st {
                    resume_failed = true;
                    resume_pending = false;
                    resume_error = "Flux toujours pas repris après 2h0m0s";
                  }))
              set_cond r flux_resume_pending condition_true resume_gave_up
              pure (delay_ok 0))
            else (do
              set_cond r flux_resume_pending condition_true resume_pending
              pure (delay_ok requeue_interval)))
        else conclude_restore view

  -- What was read of the restore is written down.
  unfoldable pub track_restore : VeleroRestoreStatusView → Step W Delay
  track_restore view = do
    modify (
        with_restore (λ st. record st {
          phase = view.phase;
          resume_pending = view.resume_pending;
          resume_failed = view.resume_failed;
          resume_error = view.resume_error;
          volume_destroyed = view.volume_destroyed;
        }))
    if not (is_terminal_restore_phase view.phase)
        then (do
          set_cond r restore_in_progress condition_true in_progress
          pure (delay_ok requeue_interval))
        else await_resume view

  unfoldable pub follow_restore : Step W Delay
  follow_restore = do
    m ← get_marker
    let st = m.status.restore
    if is_terminal_restore_phase st.phase && not st.resume_pending then pure (delay_ok 0) else (do
      view ←
          ask (λ a. read_restore a.0 a.1)
            (r.ops.get_velero_restore_status m.name st.restore_name r.cell st.in_place)
      elim view.1 [ some e ↦ pure (delay_failed e) | none ↦ track_restore view.0 ])

  unfoldable pub reconcile_restore : Step W Delay
  reconcile_restore = do
    m ← get_marker
    let st = m.status.restore
    if is_new m.restore_requested_at st.last_handled_requested_at
        then start_restore
        else (if not (str_eq st.restore_name "")
            then follow_restore
            else (if not (str_eq st.last_handled_requested_at "") && str_eq st.phase "New"
                then recover_interrupted
                else pure (delay_ok 0)))
