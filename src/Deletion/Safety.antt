-- ===== src/Deletion/Safety.antt =====
-- No destruction without a backup or a named waiver, and none under the spec's protection.
pub mod Steps
use vcluster_manager.Prelude.{
  ℕ, ◌≡◌, refl, ◌⊎◌, inl, inr, Bool, true, false, not, Option, none, some, String, List, [], ◌∷◌,
  any, arith,
}
use vcluster_manager.Reconciler.{Reconciler, Run, Outcome, step_wait}
use vcluster_manager.Reconciler.Answers.{NamespaceState}
use vcluster_manager.Deletion.Steps.{
  check_deletion_protection, reconcile_rancher_teardown, reconcile_deletion_backup,
}
use vcluster_manager.Deletion.Final.{
  reconcile_final_teardown_and_namespace_removal, tear_down, remove_namespace, conclude_removal,
  deletion_done,
}
use vcluster_manager.Deletion.Sequence.{
  run_steps, run_deletion_sequence, reconcile_deletion, finish_deletion, release, pass_requeue,
}
use vcluster_manager.Deletion.Trace.{destroys, authorises, is_safe, writes_object}
use Steps.{check-is_safe, rancher-is_safe, backup-is_safe, backup-authorises}

module _ {W Q O : Type 0} (r : Reconciler W Q O) where
  conclude-is_safe :
      (s : Run W) (ws : List String) (st : NamespaceState)
      → is_safe (conclude_removal r ws st s).1.calls ≡ is_safe s.calls
  unfolding conclude_removal deletion_done
  conclude-is_safe s ws st = ground arith

  remove-is_safe :
      (s : Run W) (ws : List String)
      → any authorises s.calls ≡ true
      → is_safe s.calls ≡ true
      → is_safe (remove_namespace r ws s).1.calls ≡ true
  unfolding remove_namespace
  remove-is_safe s ws a h = grind (arith, conclude-is_safe)

  tear_down-is_safe :
      (s : Run W)
      → any authorises s.calls ≡ true
      → is_safe s.calls ≡ true
      → is_safe (tear_down r s).1.calls ≡ true
  unfolding tear_down
  tear_down-is_safe s a h = grind (arith, remove-is_safe)

  final-is_safe :
      (s : Run W)
      → any authorises s.calls ≡ true
      → is_safe s.calls ≡ true
      → is_safe (reconcile_final_teardown_and_namespace_removal r s).1.calls ≡ true
  unfolding reconcile_final_teardown_and_namespace_removal
  final-is_safe s a h = grind (arith, tear_down-is_safe)

  sequence-is_safe :
      (s : Run W) → is_safe s.calls ≡ true → is_safe (run_deletion_sequence r s).1.calls ≡ true
  unfolding run_deletion_sequence run_steps
  sequence-is_safe s h =
      grind
        (arith, check-is_safe, rancher-is_safe, backup-is_safe, backup-authorises, final-is_safe)

  finish-is_safe :
      (s : Run W) (o : Outcome) → is_safe (finish_deletion r o s).1.calls ≡ is_safe s.calls
  unfolding finish_deletion release
  finish-is_safe s o = ground arith

  -- In a pass over an object that is being deleted, every call that destroys something (the
  -- removal of the namespace's protection, the teardown, the deletion of the namespace) comes
  -- after an answer that allows it: the namespace does not exist, an annotation was audited whose text, case
  -- and blanks around it aside, is not empty, false, no, non, 0 or off, or Velero showed a completed
  -- backup. The pass starts from a log where this holds, as it does of the empty one.
  pub no_destruction_without_backup :
      (s : Run W) → is_safe s.calls ≡ true → is_safe (reconcile_deletion r s).1.calls ≡ true
  unfolding reconcile_deletion
  no_destruction_without_backup s h = grind (arith, sequence-is_safe, finish-is_safe)

  sequence_of_protected :
      (s : Run W)
      → s.vc.spec.deletion_protection ≡ true
      → ((run_deletion_sequence r s).1.calls ≡ s.calls)
        × ((run_deletion_sequence r s).1.world ≡ s.world)
        × ((run_deletion_sequence r s).0 ≡ step_wait 0)
  unfolding run_deletion_sequence run_steps check_deletion_protection
  sequence_of_protected s h = ground arith

  finish-step_wait :
      (s : Run W)
      → (any destroys (finish_deletion r (step_wait 0) s).1.calls ≡ any destroys s.calls)
        × (any writes_object (finish_deletion r (step_wait 0) s).1.calls
            ≡ any writes_object s.calls)
        × ((finish_deletion r (step_wait 0) s).0.requeue_after ≡ 0)
  unfolding finish_deletion
  finish-step_wait s = ground arith

  -- While spec.deletionProtection is set, a pass over an object that is being deleted destroys
  -- nothing and writes the object itself never, so the finalizer stays; it asks for no requeue.
  pub protected_stays :
      (s : Run W)
      → s.vc.spec.deletion_protection ≡ true
      → (any destroys (reconcile_deletion r s).1.calls ≡ any destroys s.calls)
        × (any writes_object (reconcile_deletion r s).1.calls ≡ any writes_object s.calls)
        × ((reconcile_deletion r s).0.requeue_after ≡ 0)
  unfolding reconcile_deletion
  protected_stays s h = grind (arith, sequence_of_protected, finish-step_wait)
