-- ===== src/Tests/Rancher.antt =====
-- A Rancher that never lets go of the cluster.
use vcluster_manager.Prelude.{
  any, ◌<◌, ◌+◌, String, Option, none, ℕ, ◌≡◌, refl, true, false, [], ◌∷◌, arith,
}
use vcluster_manager.Prelude.Int.{ℤ}
use vcluster_manager.Kube.{rancher_paired, condition_true, unpairing, Condition, type_index}
use vcluster_manager.Kube.Store.{store, find}
use vcluster_manager.VCluster.{VCluster}
use vcluster_manager.Reconciler.{Ops, Run, find_cond}
use vcluster_manager.Deletion.Steps.{check_deletion_protection, reconcile_rancher_teardown}
use vcluster_manager.Deletion.RancherBound.{
  IsStuck, unpairs, rancher_anchor, says_paired, rounds, pass_at, rancher_gives_up,
  rancher_bound_restarts,
}
use vcluster_manager.Reconciler.Answers.{VClusterObservation, paired_state}
use vcluster_manager.Status.Observe.{
  apply_observation, apply_integrations, refine_argocd_ready, apply_versions, apply_verdicts,
}
use vcluster_manager.Deletion.RancherSkipped.{long_paired_not_unpaired}
use vcluster_manager.Tests.World.{calm, over, at, leaving, rancher_off, silent}

abbrev stubborn : Ops ℕ ℤ (Unit {0})
stubborn = record calm {
  inspect_rancher_teardown =
      λ n c w. (record rancher_off { enabled = true; still_known = true }, w);
}

always-IsStuck : IsStuck (over stubborn)
always-IsStuck = record { configured = λ n w. refl; enabled = λ n w. refl; held = λ n w. refl }

never_paired : says_paired (over stubborn) leaving ≡ false
unfolding says_paired store find
never_paired = refl

rancher_gives_up_example :
    (reconcile_rancher_teardown (over stubborn) (
      pass_at
        (over stubborn)
        1801
        9
        (rounds (over stubborn) ((1200, 0) ∷ (1500, 4) ∷ (1800, 7) ∷ []) leaving))).0.done
    ≡ true
rancher_gives_up_example =
    rancher_gives_up (over stubborn) always-IsStuck leaving 1200 0 ((1500, 4) ∷ (1800, 7) ∷ []) 1801
      9 never_paired (omega arith) (omega arith, (omega arith, tt)) (omega arith)

abbrev asked_at_1200 : Condition
asked_at_1200 = record {
  cond_type = rancher_paired;
  status = condition_true;
  reason = unpairing;
  observed_generation = 1;
  last_transition_time = 1200;
}

abbrev unpairing_since : VCluster
unpairing_since = record leaving {
  status = record leaving.status { conditions = asked_at_1200 ∷ [] };
}

since_1200 : rancher_anchor (over stubborn) unpairing_since ≡ 1200
unfolding rancher_anchor store find type_index
since_1200 = refl

rancher_bound_restarts_example :
    let first = reconcile_rancher_teardown (over stubborn) (at 1801 unpairing_since) in
    let second = reconcile_rancher_teardown (over stubborn) (at 1831 first.1.vc) in
    (first.0.done ≡ true)
    × (second.0.done ≡ false)
    × (any unpairs second.1.calls ≡ true)
    × (rancher_anchor (over stubborn) second.1.vc ≡ 1831)
rancher_bound_restarts_example =
    rancher_bound_restarts (over stubborn) always-IsStuck (at 1801 unpairing_since)
      (at 1831 (reconcile_rancher_teardown (over stubborn) (at 1801 unpairing_since)).1.vc) 1200
      since_1200 (omega arith) (omega arith) refl

-- A vcluster that Rancher shows paired at 1000, and that is deleted at 2000.
abbrev seen_paired : VClusterObservation
seen_paired = record silent {
  rancher_known = true;
  rancher_state = paired_state;
  rancher_paired = true;
}

abbrev no_time : String → Option ℕ
no_time s = none

abbrev once_paired : VCluster
once_paired = record leaving {
  status = (apply_observation store no_time 1000 seen_paired leaving).status;
}

-- Its deletion, as the step before has left it.
abbrev lifted : Run ℕ
lifted = (check_deletion_protection (over stubborn) (at 2000 once_paired)).1

same_pairing :
    find_cond (over stubborn) rancher_paired lifted.vc
    ≡ find_cond
        (over stubborn)
        rancher_paired
        (apply_observation (over stubborn).api no_time 1000 seen_paired leaving)
unfolding check_deletion_protection store find type_index apply_observation apply_integrations
    refine_argocd_ready apply_versions apply_verdicts
same_pairing = refl

lifted_at : 1000 + 600 < lifted.now
unfolding check_deletion_protection
lifted_at = omega arith

long_paired_not_unpaired_example :
    ((reconcile_rancher_teardown (over stubborn) lifted).0.done ≡ true)
    × (any unpairs (reconcile_rancher_teardown (over stubborn) lifted).1.calls
        ≡ any unpairs lifted.calls)
long_paired_not_unpaired_example =
    long_paired_not_unpaired (over stubborn) always-IsStuck no_time 1000 seen_paired leaving lifted
      refl refl never_paired same_pairing lifted_at (omega arith)
