-- ===== src/Deletion/RancherSkipped.antt =====
-- A vcluster that was paired with Rancher while it lived: what the deletion makes of the condition
-- that the observation has left.
use vcluster_manager.Prelude.{ℕ, ◌+◌, ◌<◌, ◌≡◌, ◌∙◌, true, false, Option, none, String, any, arith}
use vcluster_manager.Kube.{type_index, rancher_paired}
use vcluster_manager.VCluster.{VCluster}
use vcluster_manager.Reconciler.{Reconciler, Run, find_cond}
use vcluster_manager.Reconciler.Answers.{RancherTeardownState, VClusterObservation, paired_state}
use vcluster_manager.Deletion.Steps.{insist_on_unpairing, reconcile_rancher_teardown, overdue}
use vcluster_manager.Status.Observe.{
  apply_observation, apply_verdicts, apply_versions, apply_integrations, refine_argocd_ready,
  rancher_paired_from,
}
use vcluster_manager.Deletion.RancherBound.{
  IsStuck, unpairs, rancher_anchor, says_paired, asked, step_insists,
}

module _ {W Q O : Type 0} (r : Reconciler W Q O) where
  observed-rancher_anchor :
      (parse_time : String → Option ℕ) (t : ℕ) (obs : VClusterObservation) (vc : VCluster)
      → obs.err ≡ none
      → obs.rancher_state ≡ paired_state
      → says_paired r vc ≡ false
      → rancher_anchor r (apply_observation r.api parse_time t obs vc) ≡ t
  unfolding apply_observation apply_verdicts apply_versions apply_integrations refine_argocd_ready
      rancher_paired_from rancher_anchor says_paired type_index
  observed-rancher_anchor parse_time t obs vc e p a = grind (arith, r.api.find-set)

  same-rancher_anchor :
      (v w : VCluster)
      → find_cond r rancher_paired v ≡ find_cond r rancher_paired w
      → rancher_anchor r v ≡ rancher_anchor r w
  unfolding rancher_anchor
  same-rancher_anchor v w e = rw e

  insist_silent :
      (s : Run W) (st : RancherTeardownState) (t : ℕ)
      → rancher_anchor r s.vc ≡ t
      → t + 600 < s.now
      → 0 < t
      → ((insist_on_unpairing r st s).0.done ≡ true)
        × (any unpairs (insist_on_unpairing r st s).1.calls ≡ any unpairs s.calls)
  unfolding insist_on_unpairing rancher_anchor overdue
  insist_silent s st t a n p = ground arith

  module _ (stuck : IsStuck r) where
    teardown_silent :
        (s : Run W) (t : ℕ)
        → rancher_anchor r s.vc ≡ t
        → t + 600 < s.now
        → 0 < t
        → ((reconcile_rancher_teardown r s).0.done ≡ true)
          × (any unpairs (reconcile_rancher_teardown r s).1.calls ≡ any unpairs s.calls)
    unfolding asked rancher_anchor
    teardown_silent s t a n p = rw (step_insists r stuck s) (
        insist_silent (asked r stuck s) (r.ops.inspect_rancher_teardown s.vc.name r.cell s.world).0
          t a n p)

    -- A vcluster that was seen paired for the first time more than ten minutes ago, and whose
    -- RancherPaired condition is as that observation left it, is not unpaired when it is deleted: with
    -- Rancher still knowing it, the Rancher step is over at once and asks for no unpairing.
    pub long_paired_not_unpaired :
        (parse_time : String → Option ℕ) (t : ℕ) (obs : VClusterObservation) (vc : VCluster)
        (s : Run W)
        → obs.err ≡ none
        → obs.rancher_state ≡ paired_state
        → says_paired r vc ≡ false
        → find_cond r rancher_paired s.vc
          ≡ find_cond r rancher_paired (apply_observation r.api parse_time t obs vc)
        → t + 600 < s.now
        → 0 < t
        → ((reconcile_rancher_teardown r s).0.done ≡ true)
          × (any unpairs (reconcile_rancher_teardown r s).1.calls ≡ any unpairs s.calls)
    long_paired_not_unpaired parse_time t obs vc s e p a same n q =
        teardown_silent s t
          (same-rancher_anchor s.vc (apply_observation r.api parse_time t obs vc) same
            ∙ observed-rancher_anchor parse_time t obs vc e p a)
          n q
