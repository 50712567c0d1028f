-- ===== src/Deletion/BackupOnce.antt =====
-- A backup that is under way is not launched a second time.
use vcluster_manager.Prelude.{◌≡◌, true, String, List, any, arith}
use vcluster_manager.Kube.{type_index}
use vcluster_manager.Reconciler.{Reconciler, Run}
use vcluster_manager.Reconciler.Answers.{
  NamespaceState, RancherTeardownState, CleanupJobState, DeletionBackupState,
}
use vcluster_manager.Deletion.Steps.{
  insist_on_unpairing, follow_cleanup, block_on_backup, act_on_backup, require_backup,
  check_deletion_protection, reconcile_rancher_teardown, reconcile_deletion_backup, backup_launched,
}
use vcluster_manager.Deletion.Final.{
  reconcile_final_teardown_and_namespace_removal, tear_down, remove_namespace, conclude_removal,
  deletion_done,
}
use vcluster_manager.Deletion.Sequence.{run_steps, run_deletion_sequence}
use vcluster_manager.Deletion.Trace.{triggers}

module _ {W Q O : Type 0} (r : Reconciler W Q O) where
  check-launched :
      (s : Run W)
      → (backup_launched r (check_deletion_protection r s).1.vc ≡ backup_launched r s.vc)
        × (any triggers (check_deletion_protection r s).1.calls ≡ any triggers s.calls)
  unfolding check_deletion_protection backup_launched type_index
  check-launched s = grind (arith, r.api.find-set)

  insist-launched :
      (s : Run W) (st : RancherTeardownState)
      → (backup_launched r (insist_on_unpairing r st s).1.vc ≡ backup_launched r s.vc)
        × (any triggers (insist_on_unpairing r st s).1.calls ≡ any triggers s.calls)
  unfolding insist_on_unpairing backup_launched type_index
  insist-launched s st = grind (arith, r.api.find-set)

  cleanup-launched :
      (s : Run W) (job : CleanupJobState)
      → (backup_launched r (follow_cleanup r job s).1.vc ≡ backup_launched r s.vc)
        × (any triggers (follow_cleanup r job s).1.calls ≡ any triggers s.calls)
  unfolding follow_cleanup backup_launched type_index
  cleanup-launched s job = grind (arith, r.api.find-set)

  insist-triggers :
      (s : Run W) (st : RancherTeardownState)
      → any triggers (insist_on_unpairing r st s).1.calls ≡ any triggers s.calls
  insist-triggers s st = (insist-launched s st).1

  cleanup-triggers :
      (s : Run W) (job : CleanupJobState)
      → any triggers (follow_cleanup r job s).1.calls ≡ any triggers s.calls
  cleanup-triggers s job = (cleanup-launched s job).1

  rancher-triggers :
      (s : Run W) → any triggers (reconcile_rancher_teardown r s).1.calls ≡ any triggers s.calls
  unfolding reconcile_rancher_teardown
  rancher-triggers s = grind (arith, insist-triggers, cleanup-triggers)

  rancher-launched :
      (s : Run W) → backup_launched r (reconcile_rancher_teardown r s).1.vc ≡ backup_launched r s.vc
  unfolding reconcile_rancher_teardown backup_launched type_index
  rancher-launched s = grind (arith, r.api.find-set, insist-launched, cleanup-launched)

  act-triggers :
      (s : Run W) (st : DeletionBackupState)
      → any triggers (act_on_backup r true st s).1.calls ≡ any triggers s.calls
  unfolding act_on_backup block_on_backup
  act-triggers s st = ground arith

  require-triggers :
      (s : Run W)
      → backup_launched r s.vc ≡ true
      → any triggers (require_backup r s).1.calls ≡ any triggers s.calls
  unfolding require_backup
  require-triggers s h = grind (arith, act-triggers)

  backup-triggers :
      (s : Run W)
      → backup_launched r s.vc ≡ true
      → any triggers (reconcile_deletion_backup r s).1.calls ≡ any triggers s.calls
  unfolding reconcile_deletion_backup backup_launched
  backup-triggers s h = grind (arith, require-triggers)

  conclude-triggers :
      (s : Run W) (ws : List String) (st : NamespaceState)
      → any triggers (conclude_removal r ws st s).1.calls ≡ any triggers s.calls
  unfolding conclude_removal deletion_done
  conclude-triggers s ws st = ground arith

  remove-triggers :
      (s : Run W) (ws : List String)
      → any triggers (remove_namespace r ws s).1.calls ≡ any triggers s.calls
  unfolding remove_namespace
  remove-triggers s ws = grind (arith, conclude-triggers)

  tear_down-triggers : (s : Run W) → any triggers (tear_down r s).1.calls ≡ any triggers s.calls
  unfolding tear_down
  tear_down-triggers s = grind (arith, remove-triggers)

  final-triggers :
      (s : Run W)
      → any triggers (reconcile_final_teardown_and_namespace_removal r s).1.calls
        ≡ any triggers s.calls
  unfolding reconcile_final_teardown_and_namespace_removal
  final-triggers s = grind (arith, tear_down-triggers)

  -- While the BackupCompleted condition says that a backup is in progress, the sequence asks for
  -- no backup.
  pub no_second_backup :
      (s : Run W)
      → backup_launched r s.vc ≡ true
      → any triggers (run_deletion_sequence r s).1.calls ≡ any triggers s.calls
  unfolding run_deletion_sequence run_steps
  no_second_backup s h =
      let a = (check_deletion_protection r s).1 in
      let b = (reconcile_rancher_teardown r a).1 in
      let c = (reconcile_deletion_backup r b).1 in
      ground (
        arith,
        check-launched s,
        rancher-launched a,
        rancher-triggers a,
        backup-triggers b,
        final-triggers c,
      )
