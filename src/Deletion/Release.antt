-- ===== src/Deletion/Release.antt =====
-- When the finalizer goes: only after a concluded removal, and only after the status was stored.
use vcluster_manager.Prelude.{◌≡◌, Bool, true, false, some, String, List, any, arith}
use vcluster_manager.Reconciler.{Reconciler, Run, Outcome}
use vcluster_manager.Reconciler.Answers.{
  NamespaceState, RancherTeardownState, CleanupJobState, DeletionBackupState,
}
use vcluster_manager.Deletion.Steps.{
  insist_on_unpairing, follow_cleanup, block_on_backup, launch_backup, act_on_backup,
  require_backup, check_deletion_protection, reconcile_rancher_teardown, reconcile_deletion_backup,
}
use vcluster_manager.Deletion.Final.{
  reconcile_final_teardown_and_namespace_removal, tear_down, remove_namespace, conclude_removal,
  deletion_done,
}
use vcluster_manager.Deletion.Sequence.{
  run_steps, run_deletion_sequence, reconcile_deletion, finish_deletion, release,
}
use vcluster_manager.Deletion.Trace.{last_seen, concludes, writes_object, status_stored_first}

module _ {W Q O : Type 0} (r : Reconciler W Q O) where
  conclude_done :
      (s : Run W) (ws : List String) (st : NamespaceState)
      → last_seen s.calls ≡ some st
      → (conclude_removal r ws st s).0.done ≡ true
      → concludes (conclude_removal r ws st s).1 ≡ true
  unfolding conclude_removal deletion_done concludes
  conclude_done s ws st e h = ground arith

  remove_done :
      (s : Run W) (ws : List String)
      → (remove_namespace r ws s).0.done ≡ true
      → concludes (remove_namespace r ws s).1 ≡ true
  unfolding remove_namespace
  remove_done s ws h = grind (arith, conclude_done)

  tear_down_done : (s : Run W) → (tear_down r s).0.done ≡ true → concludes (tear_down r s).1 ≡ true
  unfolding tear_down
  tear_down_done s h = grind (arith, remove_done)

  final_done :
      (s : Run W)
      → (reconcile_final_teardown_and_namespace_removal r s).0.done ≡ true
      → concludes (reconcile_final_teardown_and_namespace_removal r s).1 ≡ true
  unfolding reconcile_final_teardown_and_namespace_removal
  final_done s h = grind (arith, tear_down_done)

  sequence_done :
      (s : Run W)
      → (run_deletion_sequence r s).0.done ≡ true
      → concludes (run_deletion_sequence r s).1 ≡ true
  unfolding run_deletion_sequence run_steps
  sequence_done s h = grind (arith, final_done)

  insist-writes :
      (s : Run W) (st : RancherTeardownState)
      → any writes_object (insist_on_unpairing r st s).1.calls ≡ any writes_object s.calls
  unfolding insist_on_unpairing
  insist-writes s st = ground arith

  cleanup-writes :
      (s : Run W) (job : CleanupJobState)
      → any writes_object (follow_cleanup r job s).1.calls ≡ any writes_object s.calls
  unfolding follow_cleanup
  cleanup-writes s job = ground arith

  act-writes :
      (s : Run W) (launched : Bool) (st : DeletionBackupState)
      → any writes_object (act_on_backup r launched st s).1.calls ≡ any writes_object s.calls
  unfolding act_on_backup launch_backup block_on_backup
  act-writes s launched st = ground arith

  require-writes :
      (s : Run W) → any writes_object (require_backup r s).1.calls ≡ any writes_object s.calls
  unfolding require_backup
  require-writes s = grind (arith, act-writes)

  conclude-writes :
      (s : Run W) (ws : List String) (st : NamespaceState)
      → any writes_object (conclude_removal r ws st s).1.calls ≡ any writes_object s.calls
  unfolding conclude_removal deletion_done
  conclude-writes s ws st = ground arith

  remove-writes :
      (s : Run W) (ws : List String)
      → any writes_object (remove_namespace r ws s).1.calls ≡ any writes_object s.calls
  unfolding remove_namespace
  remove-writes s ws = grind (arith, conclude-writes)

  tear_down-writes :
      (s : Run W) → any writes_object (tear_down r s).1.calls ≡ any writes_object s.calls
  unfolding tear_down
  tear_down-writes s = grind (arith, remove-writes)

  check-writes :
      (s : Run W)
      → any writes_object (check_deletion_protection r s).1.calls ≡ any writes_object s.calls
  unfolding check_deletion_protection
  check-writes s = ground arith

  rancher-writes :
      (s : Run W)
      → any writes_object (reconcile_rancher_teardown r s).1.calls ≡ any writes_object s.calls
  unfolding reconcile_rancher_teardown
  rancher-writes s = grind (arith, insist-writes, cleanup-writes)

  backup-writes :
      (s : Run W)
      → any writes_object (reconcile_deletion_backup r s).1.calls ≡ any writes_object s.calls
  unfolding reconcile_deletion_backup
  backup-writes s = grind (arith, require-writes)

  final-writes :
      (s : Run W)
      → any writes_object (reconcile_final_teardown_and_namespace_removal r s).1.calls
        ≡ any writes_object s.calls
  unfolding reconcile_final_teardown_and_namespace_removal
  final-writes s = grind (arith, tear_down-writes)

  sequence-writes :
      (s : Run W)
      → any writes_object (run_deletion_sequence r s).1.calls ≡ any writes_object s.calls
  unfolding run_deletion_sequence run_steps
  sequence-writes s = grind (arith, check-writes, rancher-writes, backup-writes, final-writes)

  -- What follows a sequence that is over.
  finish_writes :
      (s : Run W) (o : Outcome)
      → any writes_object s.calls ≡ false
      → any writes_object (finish_deletion r o s).1.calls ≡ true
      → (o.done ≡ true)
        × (concludes (finish_deletion r o s).1 ≡ concludes s)
        × (status_stored_first (finish_deletion r o s).1.calls ≡ true)
  unfolding finish_deletion release concludes
  finish_writes s o q h = ground arith

  -- A pass over an object that is being deleted, with no write of the object in its log before,
  -- writes the object itself (it takes the finalizer off) only if the host namespace was last seen
  -- gone, or terminating for more than ten minutes; and it has stored the status just before.
  pub released_after_conclusion :
      (s : Run W)
      → any writes_object s.calls ≡ false
      → any writes_object (reconcile_deletion r s).1.calls ≡ true
      → (concludes (reconcile_deletion r s).1 ≡ true)
        × (status_stored_first (reconcile_deletion r s).1.calls ≡ true)
  unfolding reconcile_deletion
  released_after_conclusion s q h = grind (arith, sequence_done, sequence-writes, finish_writes)
