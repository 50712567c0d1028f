-- ===== src/Deletion/Sequence.antt =====
-- The sequence of vcluster_finalizer.go: ensureFinalizer, runDeletionSequence over the list of
-- steps, and reconcileDeletion, which releases the object when the sequence is over.
use vcluster_manager.Prelude.{
  ℕ, String, false, not, Option, none, some, List, [], ◌∷◌, ◌||◌, if◌then◌else◌, is_some,
}
use vcluster_manager.VCluster.{Error, VCluster, DeletionStatus, no_deletion, deleting, with_phase}
use vcluster_manager.Reconciler.{
  Reconciler, Exec, Outcome, step_done, updated, updated_status, ◌>>=◌, ◌>>◌, pure, ask, get_vc,
  modify,
}
use vcluster_manager.Deletion.Steps.{
  check_deletion_protection, reconcile_rancher_teardown, reconcile_deletion_backup,
}
use vcluster_manager.Deletion.Final.{reconcile_final_teardown_and_namespace_removal}

-- VClusterFinalizer
abbrev pub vcluster_finalizer : String
vcluster_finalizer = "vcluster.rebuild-it.fr/finalizer"

-- ctrl.Result with the error beside it.
pub record PassResult : Type 0 where
  pub requeue_after : ℕ
  pub err : Option Error

abbrev pub pass_ok : PassResult
pass_ok = record { requeue_after = 0; err = none }

abbrev pub pass_requeue : ℕ → PassResult
pass_requeue d = record { requeue_after = d; err = none }

abbrev pub pass_failed : Error → PassResult
pass_failed e = record { requeue_after = 0; err = some e }

abbrev pub deletion_or_empty : Option DeletionStatus → DeletionStatus
deletion_or_empty none = no_deletion
deletion_or_empty (some d) = d

-- The loop over the steps: it stops at the first that fails or is not done.
unfoldable pub run_steps : {W : Type 0} → List (Exec W Outcome) → Exec W Outcome
run_steps [] = pure step_done
run_steps (step ∷ steps) = do
  o ← step
  if is_some o.err || not o.done then pure (record o { done = false }) else run_steps steps

module _ {W Q O : Type 0} (r : Reconciler W Q O) where
  abbrev write : (VCluster → VCluster) → Exec W (Option Error)
  write f = do
    modify f
    vc ← get_vc
    answer ← ask (λ a. updated vc a.1) (r.ops.update vc)
    modify (λ _. answer.0)
    pure answer.1

  abbrev pub write_status : Exec W (Option Error)
  write_status = do
    vc ← get_vc
    answer ← ask (λ a. updated_status vc a.1) (r.ops.update_status vc)
    modify (λ _. answer.0)
    pure answer.1

  unfoldable pub ensure_finalizer : Exec W (Option Error)
  ensure_finalizer = do
    vc ← get_vc
    if r.api.contains_finalizer vcluster_finalizer vc.finalizers
        then pure none
        else write
            (λ vc. record vc { finalizers = r.api.add_finalizer vcluster_finalizer vc.finalizers })

  -- controllerutil.RemoveFinalizer, then r.Update
  unfoldable pub release : Exec W PassResult
  release = do
    err ←
        write
          (λ vc. record vc { finalizers = r.api.remove_finalizer vcluster_finalizer vc.finalizers })
    elim err [ some e ↦ pure (pass_failed e) | none ↦ pure pass_ok ]

  unfoldable pub run_deletion_sequence : Exec W Outcome
  run_deletion_sequence = run_steps (
      check_deletion_protection r
      ∷ reconcile_rancher_teardown r
      ∷ reconcile_deletion_backup r
      ∷ reconcile_final_teardown_and_namespace_removal r
      ∷ [])

  -- What follows the sequence: the status first, then the finalizer.
  unfoldable pub finish_deletion : Outcome → Exec W PassResult
  finish_deletion o = do
    stored ← write_status
    elim stored [
      | some e ↦ pure (pass_failed e)
      | none ↦ elim o.err [
        | some e ↦ pure (pass_failed e)
        | none ↦ if not o.done then pure (pass_requeue o.requeue) else release
      ]
    ]

  unfoldable pub reconcile_deletion : Exec W PassResult
  reconcile_deletion = do
    vc ← get_vc
    if not (r.api.contains_finalizer vcluster_finalizer vc.finalizers) then pure pass_ok else (do
      modify (λ vc. record vc {
        status = record vc.status { deletion = some (deletion_or_empty vc.status.deletion) };
      })
      modify (with_phase deleting)
      o ← run_deletion_sequence
      finish_deletion o)
