-- ===== src/Deletion/Steps.antt =====
-- The steps of vcluster_finalizer.go before the destruction: the protection of the spec, the
-- Rancher teardown and the backup.
use vcluster_manager.Prelude.{
  ℕ, ◌-◌, String, Bool, true, false, not, Option, none, some, List, [], ◌∷◌, ◌&&◌, ◌||◌, ltb, ◌==◌,
  if◌then◌else◌, any, str_eq,
}
use vcluster_manager.Text.{codes, lower_all, trim_space, same_text}
use vcluster_manager.Kube.{
  Condition, ConditionType, ready, rancher_paired, deletion_protected, backup_completed,
  ConditionStatus, condition_true, condition_false, condition_unknown, same_status, Reason,
  protection_lifted, deletion_protection_blocked, no_rancher_client, unpair_timed_out,
  unpair_unconfirmed, unpair_failed, unpairing, cleanup_timed_out, cleanup_running, cleanup_failed,
  unpaired_cleanup_unobserved, nothing_to_back_up, backup_overridden, backup_unknown, completed,
  in_progress, backup_failed, backup_timed_out, backup_trigger_failed,
}
use vcluster_manager.VCluster.{
  VCluster, blocked, rancher_unpairing, backup_pending, with_stage, with_message, still_protected,
  backup_blocked,
}
use vcluster_manager.Reconciler.{
  Reconciler, Exec, Outcome, step_done, step_wait, step_failed, inspected_rancher, unpaired,
  saw_namespace, inspected_backup, triggered_backup, audited_override, ◌>>=◌, ◌>>◌, pure, ask,
  get_vc, get_now, modify, note, set_vcluster_cond, find_cond,
}
use vcluster_manager.Reconciler.Answers.{CleanupJobState, RancherTeardownState, DeletionBackupState}

-- time.Minute is 60.
abbrev pub rancher_teardown_give_up_after : ℕ
rancher_teardown_give_up_after = 600

abbrev pub backup_give_up_after : ℕ
backup_give_up_after = 7200

abbrev pub deletion_step_requeue : ℕ
deletion_step_requeue = 30

abbrev pub requeue_interval : ℕ
requeue_interval = 10

-- time.Since(t) > after: `-` stops at 0, and a span below zero exceeds no bound either.
abbrev pub since_exceeds : ℕ → ℕ → ℕ → Bool
since_exceeds now t after = ltb after (now - t)

-- The time itself, or the second one where it is zero.
abbrev pub or_else_time : ℕ → ℕ → ℕ
or_else_time t d = if t == 0 then d else t

abbrev overdue_since : ℕ → ConditionStatus → ℕ → Option Condition → Bool
overdue_since now st after none = false
overdue_since now st after (some c) =
    same_status c.status st
    && not (c.last_transition_time == 0)
    && since_exceeds now c.last_transition_time after

abbrev pub is_in_progress : Reason → Bool
is_in_progress in_progress = true
is_in_progress _ = false

abbrev has_progress_reason : Option Condition → Bool
has_progress_reason none = false
has_progress_reason (some c) = is_in_progress c.reason

-- The words that leave the requirement of a backup in place.
abbrev refusing_words : List String
refusing_words = "" ∷ "false" ∷ "no" ∷ "non" ∷ "0" ∷ "off" ∷ []

unfoldable pub override_disarms : String → Bool
unfolding codes lower_all trim_space same_text
override_disarms v =
    not (any (λ w. same_text (lower_all (trim_space (codes v))) (codes w)) refusing_words)

abbrev pub decided_by : String → String
decided_by v = if str_eq v "true" then "anonyme" else v

module _ {W Q O : Type 0} (r : Reconciler W Q O) where
  unfoldable pub overdue : ℕ → VCluster → ConditionType → ConditionStatus → ℕ → Bool
  overdue now vc t st after = overdue_since now st after (find_cond r t vc)

  -- condHasReason(vc, CondVClusterBackupCompleted, reasonBackupProgress)
  unfoldable pub backup_launched : VCluster → Bool
  backup_launched vc = has_progress_reason (find_cond r backup_completed vc)

  unfoldable pub check_deletion_protection : Exec W Outcome
  check_deletion_protection = do
    vc ← get_vc
    if not vc.spec.deletion_protection
        then (do
          set_vcluster_cond r deletion_protected condition_false protection_lifted
          pure step_done)
        else (do
          modify (with_stage blocked)
          modify (with_message still_protected)
          set_vcluster_cond r deletion_protected condition_true deletion_protection_blocked
          set_vcluster_cond r ready condition_false deletion_protection_blocked
          pure (step_wait 0))

  -- Rancher still knows the cluster, or did not answer.
  unfoldable pub insist_on_unpairing : RancherTeardownState → Exec W Outcome
  insist_on_unpairing st = do
    vc ← get_vc
    now ← get_now
    if overdue now vc rancher_paired condition_true rancher_teardown_give_up_after
        then (do
          set_vcluster_cond r rancher_paired condition_unknown
              (if st.lookup_failed then unpair_unconfirmed else unpair_timed_out)
          pure step_done)
        else (do
          err ← ask unpaired (r.ops.unpair_for_deletion vc.name r.cell)
          elim err [
            | some e ↦ (do
              set_vcluster_cond r rancher_paired condition_true unpair_failed
              pure (step_failed deletion_step_requeue e))
            | none ↦ (do
              set_vcluster_cond r rancher_paired condition_true unpairing
              pure (step_wait deletion_step_requeue))
          ])

  -- Unpaired: the clean-up job is waited for as long as it is seen to run.
  unfoldable pub follow_cleanup : CleanupJobState → Exec W Outcome
  follow_cleanup job = do
    vc ← get_vc
    now ← get_now
    if job.found && not job.done && not job.failed
        then (if since_exceeds now (or_else_time job.started_at vc.deletion_timestamp)
              rancher_teardown_give_up_after
            then (do
              set_vcluster_cond r rancher_paired condition_false cleanup_timed_out
              pure step_done)
            else (do
              set_vcluster_cond r rancher_paired condition_false cleanup_running
              pure (step_wait deletion_step_requeue)))
        else (do
          set_vcluster_cond r rancher_paired condition_false (
              if job.failed
              then cleanup_failed
              else (if not job.observable then unpaired_cleanup_unobserved else Reason.unpaired))
          pure step_done)

  unfoldable pub reconcile_rancher_teardown : Exec W Outcome
  reconcile_rancher_teardown = do
    vc ← get_vc
    st ← ask inspected_rancher (r.ops.inspect_rancher_teardown vc.name r.cell)
    if st.not_configured
        then (do
          set_vcluster_cond r rancher_paired condition_unknown no_rancher_client
          pure step_done)
        else (if not st.enabled then pure step_done else (do
          modify (with_stage rancher_unpairing)
          if st.lookup_failed || st.still_known
              then insist_on_unpairing st
              else follow_cleanup st.cleanup))

  -- `blocked`, the closure of reconcileDeletionBackup.
  unfoldable pub block_on_backup : Reason → Exec W Outcome
  block_on_backup why = do
    modify (with_message (backup_blocked why))
    set_vcluster_cond r backup_completed condition_false why
    pure (step_wait 0)

  unfoldable pub launch_backup : Exec W Outcome
  launch_backup = do
    vc ← get_vc
    err ← ask triggered_backup (r.ops.trigger_velero_backup vc.name r.cell)
    elim err [
      | some e ↦ block_on_backup backup_trigger_failed
      | none ↦ (do
        set_vcluster_cond r backup_completed condition_unknown in_progress
        pure (step_wait requeue_interval))
    ]

  -- The switch on what Velero shows.
  unfoldable pub act_on_backup : Bool → DeletionBackupState → Exec W Outcome
  act_on_backup launched st = do
    vc ← get_vc
    now ← get_now
    if st.completed
        then (do set_vcluster_cond r backup_completed condition_true completed; pure step_done)
        else (if st.failed
            then block_on_backup backup_failed
            else (if st.found
                then (if since_exceeds now (or_else_time st.started_at vc.deletion_timestamp)
                      backup_give_up_after
                    then block_on_backup backup_timed_out
                    else (do
                      set_vcluster_cond r backup_completed condition_unknown in_progress
                      pure (step_wait requeue_interval)))
                else (if launched
                    then (if overdue now vc backup_completed condition_unknown backup_give_up_after
                        then block_on_backup backup_timed_out
                        else pure (step_wait requeue_interval))
                    else launch_backup)))

  unfoldable pub require_backup : Exec W Outcome
  require_backup = do
    vc ← get_vc
    let launched = backup_launched vc
    answer ←
        ask (λ a. inspected_backup a.0 a.1)
          (r.ops.inspect_deletion_backup vc.name r.cell vc.deletion_timestamp)
    elim answer.1 [
      | some e ↦
          (if launched then pure (step_failed requeue_interval e) else (do
            set_vcluster_cond r backup_completed condition_unknown backup_unknown
            pure (step_failed requeue_interval e)))
      | none ↦ act_on_backup launched answer.0
    ]

  unfoldable pub reconcile_deletion_backup : Exec W Outcome
  reconcile_deletion_backup = do
    modify (with_stage backup_pending)
    vc ← get_vc
    st ← ask saw_namespace (r.ops.host_namespace_state vc.name r.cell)
    if st.known && not st.exists
        then (do
          set_vcluster_cond r backup_completed condition_true nothing_to_back_up
          pure step_done)
        else (if override_disarms vc.backup_override
            then (do
              note (audited_override (decided_by vc.backup_override))
              set_vcluster_cond r backup_completed condition_false backup_overridden
              pure step_done)
            else require_backup)
