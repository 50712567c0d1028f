-- ===== src/Tests/Observation.antt =====
-- Observations and aggregations on a concrete status.
use vcluster_manager.Prelude.{
  ℕ, String, ◌≡◌, ◌≢◌, ◌⊎◌, refl, true, false, Option, none, some, [], ◌∷◌, str_eq, arith,
}
use vcluster_manager.Kube.{
  Condition, ConditionType, ConditionStatus, Reason, condition_true, condition_false,
  condition_unknown, resources_provisioned, budget_ok, argocd_ready, applied, budget_exceeded,
  type_index,
}
use vcluster_manager.Kube.Store.{store, find}
use vcluster_manager.VCluster.{other, VCluster}
use vcluster_manager.Reconciler.Answers.{VClusterObservation}
use vcluster_manager.Status.Aggregate.{blocking_conditions, aggregate_vcluster_status}
use vcluster_manager.Status.Observe.{apply_observation, was_paired}
use vcluster_manager.Status.Ready.{status_of, ready_status, wanted_status, ready_status-aggregate}
use vcluster_manager.Status.Stale.{silent_sources_keep}
use vcluster_manager.Tests.World.{alive, silent}

abbrev cond : ConditionType → ConditionStatus → Reason → Condition
cond t st why = record {
  cond_type = t;
  status = st;
  reason = why;
  observed_generation = 1;
  last_transition_time = 900;
}

-- A vcluster that ran, over its budget, with ArgoCD unknown.
abbrev over_budget : VCluster
over_budget = record alive {
  status = record alive.status {
    chart_version = "0.19";
    conditions =
        cond resources_provisioned condition_true applied
        ∷ cond argocd_ready condition_unknown applied
        ∷ cond budget_ok condition_false budget_exceeded
        ∷ [];
  };
}

abbrev no_time : String → Option ℕ
no_time s = none

ready_status-aggregate_example :
    ready_status store (aggregate_vcluster_status store 1000 over_budget)
    ≡ some (wanted_status store over_budget)
ready_status-aggregate_example = ready_status-aggregate store 1000 over_budget

-- A vcluster that runs is Ready whatever the budget says.
wanted_over_budget : wanted_status store over_budget ≡ condition_true
unfolding wanted_status store find type_index blocking_conditions
wanted_over_budget = refl

abbrev no_client : VClusterObservation
no_client = record silent { err = some (other "no client") }

silent_sources_keep_example :
    let after = (apply_observation store no_time 1000 silent over_budget).status in
    ((silent.pod_count_known ≡ true) ⊎ (after.pod_count ≡ 0))
    × ((str_eq silent.chart_version "" ≡ false) ⊎ (after.chart_version ≡ "0.19"))
    × ((str_eq silent.k8s_version "" ≡ false) ⊎ (after.k8s_version ≡ ""))
    × ((silent.protection_known ≡ true) × (silent.cluster_timed_out ≡ false)
        ⊎ (after.protection_enabled ≡ false))
    × ((silent.rancher_known ≡ true) ⊎ (was_paired after.rancher ≡ false))
    × ((silent.backups_known ≡ true) ⊎ (after.last_backup ≡ none))
silent_sources_keep_example = silent_sources_keep store no_time 1000 silent over_budget

argocd_unknown :
    status_of (store.find_status_condition argocd_ready over_budget.status.conditions)
    ≢ some condition_true
unfolding store find type_index
argocd_unknown h = ground arith
