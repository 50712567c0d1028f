-- ===== src/Deletion/Covered.antt =====
-- What the steps of a deletion add to the log: a completed backup that is the deletion's own, and the
-- audit of an override where the annotation waives the backup.
use vcluster_manager.Prelude.{
  ℕ, ◌≡◌, ◌∙◌, String, Bool, true, false, not, ◌&&◌, ◌||◌, none, some, List, [], ◌∷◌, any, arith,
  ltb, leb,
}
use vcluster_manager.VCluster.{deleting, with_phase}
use vcluster_manager.Reconciler.{
  Reconciler, Run, Call, Outcome, saw_namespace, audited_override, inspected_backup,
}
use vcluster_manager.Reconciler.Answers.{
  RancherTeardownState, CleanupJobState, DeletionBackupState, NamespaceState,
}
use vcluster_manager.Deletion.Steps.{
  insist_on_unpairing, follow_cleanup, block_on_backup, launch_backup, act_on_backup,
  require_backup, check_deletion_protection, reconcile_rancher_teardown, reconcile_deletion_backup,
}
use vcluster_manager.Deletion.Final.{
  reconcile_final_teardown_and_namespace_removal, tear_down, remove_namespace, conclude_removal,
  deletion_done,
}
use vcluster_manager.Deletion.Sequence.{
  run_steps, run_deletion_sequence, reconcile_deletion, finish_deletion, release, deletion_or_empty,
}
use vcluster_manager.Deletion.Trace.{destroys, waives}
use vcluster_manager.Deletion.Safety.Steps.{disarming-waives}

-- A completed backup took place, at a time that could be read, at or after the deletion.
abbrev pub is_own_backup : ℕ → DeletionBackupState → Bool
is_own_backup since st = leb since st.started_at && ltb 0 st.started_at

abbrev pub is_covered : ℕ → String → Call → Bool
is_covered since given (audited_override _) = waives given
is_covered since given (inspected_backup st none) = not st.completed || is_own_backup since st
is_covered since given _ = true

abbrev pub all_covered : ℕ → String → List Call → Bool
all_covered since given [] = true
all_covered since given (c ∷ cs) = is_covered since given c && all_covered since given cs

-- The answers that allow a destruction, a backup counting if it is the deletion's own.
abbrev pub backs : ℕ → String → Call → Bool
backs since given (saw_namespace st) = st.known && not st.exists
backs since given (audited_override _) = waives given
backs since given (inspected_backup st none) = st.completed && is_own_backup since st
backs since given _ = false

-- Every destroying call of a log has such an answer before it.
abbrev pub is_backed : ℕ → String → List Call → Bool
is_backed since given [] = true
is_backed since given (c ∷ cs) =
    (not (destroys c) || any (backs since given) cs) && is_backed since given cs

module _ {W Q O : Type 0} (r : Reconciler W Q O) (since : ℕ) (given : String) where
  check-all_covered :
      (s : Run W)
      → all_covered since given (check_deletion_protection r s).1.calls
        ≡ all_covered since given s.calls
  unfolding check_deletion_protection
  check-all_covered s = ground arith

  check_same_time :
      (s : Run W)
      → (check_deletion_protection r s).1.vc.deletion_timestamp ≡ s.vc.deletion_timestamp
  unfolding check_deletion_protection
  check_same_time s = ground arith

  insist-all_covered :
      (st : RancherTeardownState) (s : Run W)
      → all_covered since given (insist_on_unpairing r st s).1.calls
        ≡ all_covered since given s.calls
  unfolding insist_on_unpairing
  insist-all_covered st s = ground arith

  cleanup-all_covered :
      (job : CleanupJobState) (s : Run W)
      → all_covered since given (follow_cleanup r job s).1.calls ≡ all_covered since given s.calls
  unfolding follow_cleanup
  cleanup-all_covered job s = ground arith

  rancher-all_covered :
      (s : Run W)
      → all_covered since given (reconcile_rancher_teardown r s).1.calls
        ≡ all_covered since given s.calls
  unfolding reconcile_rancher_teardown
  rancher-all_covered s = grind (arith, insist-all_covered, cleanup-all_covered)

  rancher_same_time :
      (s : Run W)
      → (reconcile_rancher_teardown r s).1.vc.deletion_timestamp ≡ s.vc.deletion_timestamp
  unfolding reconcile_rancher_teardown insist_on_unpairing follow_cleanup
  rancher_same_time s = ground arith

  check_same_override :
      (s : Run W) → (check_deletion_protection r s).1.vc.backup_override ≡ s.vc.backup_override
  unfolding check_deletion_protection
  check_same_override s = ground arith

  rancher_same_override :
      (s : Run W) → (reconcile_rancher_teardown r s).1.vc.backup_override ≡ s.vc.backup_override
  unfolding reconcile_rancher_teardown insist_on_unpairing follow_cleanup
  rancher_same_override s = ground arith

  launch-all_covered :
      (s : Run W)
      → all_covered since given (launch_backup r s).1.calls ≡ all_covered since given s.calls
  unfolding launch_backup block_on_backup
  launch-all_covered s = ground arith

  act-all_covered :
      (launched : Bool) (st : DeletionBackupState) (s : Run W)
      → all_covered since given (act_on_backup r launched st s).1.calls
        ≡ all_covered since given s.calls
  unfolding act_on_backup block_on_backup
  act-all_covered launched st s = ground (arith, launch-all_covered s)

  conclude-all_covered :
      (ws : List String) (st : NamespaceState) (s : Run W)
      → all_covered since given (conclude_removal r ws st s).1.calls
        ≡ all_covered since given s.calls
  unfolding conclude_removal deletion_done
  conclude-all_covered ws st s = ground arith

  remove-all_covered :
      (ws : List String) (s : Run W)
      → all_covered since given (remove_namespace r ws s).1.calls ≡ all_covered since given s.calls
  unfolding remove_namespace
  remove-all_covered ws s = grind (arith, conclude-all_covered)

  tear_down-all_covered :
      (s : Run W)
      → all_covered since given (tear_down r s).1.calls ≡ all_covered since given s.calls
  unfolding tear_down
  tear_down-all_covered s = grind (arith, remove-all_covered)

  final-all_covered :
      (s : Run W)
      → all_covered since given (reconcile_final_teardown_and_namespace_removal r s).1.calls
        ≡ all_covered since given s.calls
  unfolding reconcile_final_teardown_and_namespace_removal
  final-all_covered s = grind (arith, tear_down-all_covered)

  finish-all_covered :
      (o : Outcome) (s : Run W)
      → all_covered since given (finish_deletion r o s).1.calls ≡ all_covered since given s.calls
  unfolding finish_deletion release
  finish-all_covered o s = ground arith

  -- What is asked of the search for a backup.
  abbrev pub FindsOwn : Type 0
  FindsOwn =
      (name env : String) (w : W)
      → is_covered since given (
          inspected_backup (r.ops.inspect_deletion_backup name env since w).0.0
            (r.ops.inspect_deletion_backup name env since w).0.1)
        ≡ true

  backup-all_covered :
      FindsOwn
      → (s : Run W) → s.vc.deletion_timestamp ≡ since
      → s.vc.backup_override ≡ given
      → all_covered since given s.calls ≡ true
      → all_covered since given (reconcile_deletion_backup r s).1.calls ≡ true
  unfolding reconcile_deletion_backup require_backup
  backup-all_covered own s t v h =
      let w = (r.ops.host_namespace_state s.vc.name r.cell s.world).1 in
      let answer = own s.vc.name r.cell w in
      grind (arith, act-all_covered, answer, v, disarming-waives given)

  sequence-all_covered :
      FindsOwn
      → (s : Run W) → s.vc.deletion_timestamp ≡ since
      → s.vc.backup_override ≡ given
      → all_covered since given s.calls ≡ true
      → all_covered since given (run_deletion_sequence r s).1.calls ≡ true
  unfolding run_deletion_sequence run_steps
  sequence-all_covered own s t v h =
      let a = (check_deletion_protection r s).1 in
      let b = (reconcile_rancher_teardown r a).1 in
      let c = (reconcile_deletion_backup r b).1 in
      let time : b.vc.deletion_timestamp ≡ since = rancher_same_time a ∙ check_same_time s ∙ t in
      let same : b.vc.backup_override ≡ given =
        rancher_same_override a ∙ check_same_override s ∙ v in
      let before : all_covered since given b.calls ≡ true =
        rancher-all_covered a ∙ check-all_covered s ∙ h in
      let backed = backup-all_covered own b time same before in
      ground
        (arith, before, backed, check-all_covered s, rancher-all_covered a, final-all_covered c)

  pub reconcile-all_covered :
      FindsOwn
      → (s : Run W) → s.vc.deletion_timestamp ≡ since
      → s.vc.backup_override ≡ given
      → all_covered since given s.calls ≡ true
      → all_covered since given (reconcile_deletion r s).1.calls ≡ true
  unfolding reconcile_deletion
  reconcile-all_covered own s t v h =
      let u = record s {
        vc = with_phase deleting (record s.vc {
          status = record s.vc.status { deletion = some (deletion_or_empty s.vc.status.deletion) };
        });
      } in
      let ran = sequence-all_covered own u t v h in grind (arith, ran, finish-all_covered)
