-- ===== src/Deletion/BackupRecorded.antt =====
-- A backup that was launched is recorded in the conditions, so that the next pass does not launch
-- another.
use vcluster_manager.Prelude.{◌≡◌, Bool, true, false, String, List, any, arith}
use vcluster_manager.Kube.{type_index}
use vcluster_manager.Reconciler.{Reconciler, Run}
use vcluster_manager.Reconciler.Answers.{
  NamespaceState, RancherTeardownState, CleanupJobState, DeletionBackupState,
}
use vcluster_manager.Deletion.Steps.{
  insist_on_unpairing, follow_cleanup, block_on_backup, launch_backup, act_on_backup,
  require_backup, check_deletion_protection, reconcile_rancher_teardown, reconcile_deletion_backup,
  backup_launched,
}
use vcluster_manager.Deletion.Final.{
  reconcile_final_teardown_and_namespace_removal, tear_down, remove_namespace, conclude_removal,
  deletion_done,
}
use vcluster_manager.Deletion.Sequence.{run_steps, run_deletion_sequence}
use vcluster_manager.Deletion.BackupOnce.{no_second_backup}
use vcluster_manager.Deletion.Trace.{triggers, triggers_ok}

module _ {W Q O : Type 0} (r : Reconciler W Q O) where
  check-triggers_ok :
      (s : Run W)
      → any triggers_ok (check_deletion_protection r s).1.calls ≡ any triggers_ok s.calls
  unfolding check_deletion_protection
  check-triggers_ok s = ground arith

  insist-triggers_ok :
      (s : Run W) (st : RancherTeardownState)
      → any triggers_ok (insist_on_unpairing r st s).1.calls ≡ any triggers_ok s.calls
  unfolding insist_on_unpairing
  insist-triggers_ok s st = ground arith

  cleanup-triggers_ok :
      (s : Run W) (job : CleanupJobState)
      → any triggers_ok (follow_cleanup r job s).1.calls ≡ any triggers_ok s.calls
  unfolding follow_cleanup
  cleanup-triggers_ok s job = ground arith

  rancher-triggers_ok :
      (s : Run W)
      → any triggers_ok (reconcile_rancher_teardown r s).1.calls ≡ any triggers_ok s.calls
  unfolding reconcile_rancher_teardown
  rancher-triggers_ok s = grind (arith, insist-triggers_ok, cleanup-triggers_ok)

  launch_recorded :
      (s : Run W)
      → any triggers_ok s.calls ≡ false
      → any triggers_ok (launch_backup r s).1.calls ≡ true
      → (backup_launched r (launch_backup r s).1.vc ≡ true) × ((launch_backup r s).0.done ≡ false)
  unfolding launch_backup block_on_backup backup_launched type_index
  launch_recorded s q h = grind (arith, r.api.find-set)

  act_recorded :
      (s : Run W) (launched : Bool) (st : DeletionBackupState)
      → any triggers_ok s.calls ≡ false
      → any triggers_ok (act_on_backup r launched st s).1.calls ≡ true
      → (backup_launched r (act_on_backup r launched st s).1.vc ≡ true)
        × ((act_on_backup r launched st s).0.done ≡ false)
  unfolding act_on_backup block_on_backup
  act_recorded s launched st q h = ground (arith, launch_recorded s)

  act_recorded_launched :
      (s : Run W) (launched : Bool) (st : DeletionBackupState)
      → any triggers_ok s.calls ≡ false
      → any triggers_ok (act_on_backup r launched st s).1.calls ≡ true
      → backup_launched r (act_on_backup r launched st s).1.vc ≡ true
  act_recorded_launched s launched st q h = (act_recorded s launched st q h).0

  act_done_quiet :
      (s : Run W) (launched : Bool) (st : DeletionBackupState)
      → (act_on_backup r launched st s).0.done ≡ true
      → any triggers_ok (act_on_backup r launched st s).1.calls ≡ any triggers_ok s.calls
  unfolding act_on_backup block_on_backup launch_backup
  act_done_quiet s launched st h = ground arith

  require_recorded :
      (s : Run W)
      → any triggers_ok s.calls ≡ false
      → any triggers_ok (require_backup r s).1.calls ≡ true
      → backup_launched r (require_backup r s).1.vc ≡ true
  unfolding require_backup
  require_recorded s q h = grind (arith, act_recorded_launched)

  require_done_quiet :
      (s : Run W)
      → (require_backup r s).0.done ≡ true
      → any triggers_ok (require_backup r s).1.calls ≡ any triggers_ok s.calls
  unfolding require_backup
  require_done_quiet s h = grind (arith, act_done_quiet)

  backup_recorded :
      (s : Run W)
      → any triggers_ok s.calls ≡ false
      → any triggers_ok (reconcile_deletion_backup r s).1.calls ≡ true
      → backup_launched r (reconcile_deletion_backup r s).1.vc ≡ true
  unfolding reconcile_deletion_backup
  backup_recorded s q h = grind (arith, require_recorded)

  backup_done_quiet :
      (s : Run W)
      → (reconcile_deletion_backup r s).0.done ≡ true
      → any triggers_ok (reconcile_deletion_backup r s).1.calls ≡ any triggers_ok s.calls
  unfolding reconcile_deletion_backup
  backup_done_quiet s h = grind (arith, require_done_quiet)

  conclude-triggers_ok :
      (s : Run W) (ws : List String) (st : NamespaceState)
      → any triggers_ok (conclude_removal r ws st s).1.calls ≡ any triggers_ok s.calls
  unfolding conclude_removal deletion_done
  conclude-triggers_ok s ws st = ground arith

  remove-triggers_ok :
      (s : Run W) (ws : List String)
      → any triggers_ok (remove_namespace r ws s).1.calls ≡ any triggers_ok s.calls
  unfolding remove_namespace
  remove-triggers_ok s ws = grind (arith, conclude-triggers_ok)

  tear_down-triggers_ok :
      (s : Run W) → any triggers_ok (tear_down r s).1.calls ≡ any triggers_ok s.calls
  unfolding tear_down
  tear_down-triggers_ok s = grind (arith, remove-triggers_ok)

  final-triggers_ok :
      (s : Run W)
      → any triggers_ok (reconcile_final_teardown_and_namespace_removal r s).1.calls
        ≡ any triggers_ok s.calls
  unfolding reconcile_final_teardown_and_namespace_removal
  final-triggers_ok s = grind (arith, tear_down-triggers_ok)

  sequence_recorded :
      (s : Run W)
      → any triggers_ok s.calls ≡ false
      → any triggers_ok (run_deletion_sequence r s).1.calls ≡ true
      → backup_launched r (run_deletion_sequence r s).1.vc ≡ true
  unfolding run_deletion_sequence run_steps
  sequence_recorded s q h =
      let a = (check_deletion_protection r s).1 in
      let b = (reconcile_rancher_teardown r a).1 in
      let c = (reconcile_deletion_backup r b).1 in
      ground (
        arith,
        check-triggers_ok s,
        rancher-triggers_ok a,
        backup_recorded b,
        backup_done_quiet b,
        final-triggers_ok c,
      )

  -- After a sequence that launched a backup with success, its first in the log, the next sequence
  -- over the object as it was left (at any time, whatever the world has become) asks for no
  -- backup.
  pub one_backup_over_two_passes :
      (s t : Run W)
      → any triggers_ok s.calls ≡ false
      → any triggers_ok (run_deletion_sequence r s).1.calls ≡ true
      → t.vc ≡ (run_deletion_sequence r s).1.vc
      → any triggers (run_deletion_sequence r t).1.calls ≡ any triggers t.calls
  one_backup_over_two_passes s t q h e = no_second_backup r t (rw e (sequence_recorded s q h))
