-- ===== src/Lifecycle/Pass.antt =====
-- A whole pass: what a misplaced object gets, what comes before an application, and that the
-- status is stored last.
use vcluster_manager.Prelude.{
  ℕ, ◌≡◌, ◌≢◌, ◌⊎◌, Bool, true, false, Option, none, String, List, ◌∷◌, arith, any, is_some,
}
use vcluster_manager.VCluster.{Error}
use vcluster_manager.Reconciler.{Reconciler, Run, Call, applied, rendered, updated, updated_status}
use vcluster_manager.Names.{vcluster_misplaced}
use vcluster_manager.Budget.{
  QuantityApi, admitted, check_resource_budget, check_quota, conclude_budget, refuse_budget,
}
use vcluster_manager.Deletion.Sequence.{vcluster_finalizer, release, ensure_finalizer}
use vcluster_manager.Lifecycle.{
  vclusters_namespace, reconcile_object, refuse_misplaced, reconcile_all, reconcile_live,
  admit_and_provision, after_refusal, reconcile_observed_state,
}

-- A call of the service, or of the client for another object: all but the writes of the object.
abbrev pub serves : Call → Bool
serves (updated _ _) = false
serves (updated_status _ _) = false
serves _ = true

-- An object is applied, or rendered to be.
abbrev pub provisions : Call → Bool
provisions (applied _) = true
provisions (rendered _) = true
provisions _ = false

-- The last call stored the status.
abbrev pub ends_with_status : List Call → Bool
ends_with_status (updated_status _ _ ∷ _) = true
ends_with_status _ = false

module _ {W Q O : Type 0} (r : Reconciler W Q O) (qs : QuantityApi Q)
    (parse_time : String → Option ℕ) (error_text : Error → String) where
  -- For an object that the guard refuses, no call of the service is made: the pass writes the
  -- object itself, its status or its finalizers, and nothing else.
  misplaced_unserved :
      (s : Run W)
      → is_some (vcluster_misplaced s.vc (vclusters_namespace r)) ≡ true
      → any serves (reconcile_object r qs parse_time error_text s).1.calls ≡ any serves s.calls
  unfolding reconcile_object refuse_misplaced release
  misplaced_unserved s h = ground arith

  refusal-provisions :
      (s : Run W)
      → any provisions (after_refusal r qs parse_time error_text s).1.calls ≡ any provisions s.calls
  unfolding after_refusal reconcile_observed_state
  refusal-provisions s = ground arith

  budget-provisions :
      (s : Run W) → any provisions (check_resource_budget qs r s).1.calls ≡ any provisions s.calls
  unfolding check_resource_budget check_quota conclude_budget refuse_budget
  budget-provisions s = ground arith

  -- Nothing is rendered or applied in a pass, where the log before holds none of that, unless the
  -- budget admitted the vcluster in it.
  provisioned_if_admitted :
      (s : Run W)
      → any provisions s.calls ≡ false
      → any provisions (admit_and_provision r qs parse_time error_text s).1.calls ≡ true
      → (check_resource_budget qs r s).0 ≡ admitted
  unfolding admit_and_provision
  provisioned_if_admitted s q h = grind (arith, budget-provisions, refusal-provisions)

  -- The live pass, where the finalizer stands, stores the status as its last call, whatever the
  -- steps returned, and it has no error only if the steps have none.
  status_stored_last :
      (s : Run W)
      → r.api.contains_finalizer vcluster_finalizer s.vc.finalizers ≡ true
      → (ends_with_status (reconcile_live r qs parse_time error_text s).1.calls ≡ true)
        × (((reconcile_live r qs parse_time error_text s).0.err ≢ none)
            ⊎ ((reconcile_all r qs parse_time error_text (record s {
              vc = record s.vc {
                status = record s.vc.status { observed_generation = s.vc.generation };
              };
            })).0.err
                ≡ none))
  unfolding reconcile_live ensure_finalizer
  status_stored_last s h = (ground arith, ground arith)
