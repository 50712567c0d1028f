-- ===== src/Status/Aggregate.antt =====
-- The Ready condition and the phase: blockingConditions, aggregateVClusterStatus, phaseFor and
-- observeInterval of vcluster_status.go.
use vcluster_manager.Prelude.{
  ℕ, String, Bool, true, false, not, ◌&&◌, ◌||◌, Option, none, some, List, [], ◌∷◌, ◌++◌,
  if◌then◌else◌, is_some, str_eq,
}
use vcluster_manager.Kube.{
  KubeApi, Condition, ConditionType, ConditionStatus, condition_true, condition_false,
  condition_unknown, Reason, ready, resources_provisioned, vault_configured, budget_ok,
  argocd_ready, not_met, unknown, not_observed_yet, all_checks_passed, same_status,
}
use vcluster_manager.VCluster.{
  VCluster, ArgoCdSpec, Phase, phase_ready, failed, provisioning, degraded, with_phase,
}
use vcluster_manager.Reconciler.{with_condition}
use vcluster_manager.Reconciler.Answers.{
  VClusterObservation, BackupInfo, RancherState, pairing_state, cleaning_state,
}

abbrev argocd_enabled : Option ArgoCdSpec → Bool
argocd_enabled none = false
argocd_enabled (some a) = a.enabled

-- The types that Ready aggregates, in the order in which they win.
unfoldable pub blocking_conditions : VCluster → List ConditionType
blocking_conditions vc =
    (if str_eq vc.status.chart_version "" then budget_ok ∷ [] else [])
    ++ (resources_provisioned ∷ vault_configured ∷ [])
    ++ (if argocd_enabled vc.spec.argocd then argocd_ready ∷ [] else [])

abbrev pub has_status : ConditionStatus → Option Condition → Bool
has_status st none = false
has_status st (some c) = same_status c.status st

abbrev pub observe_interval_moving : ℕ
observe_interval_moving = 30

abbrev pub observe_interval_settled : ℕ
observe_interval_settled = 300

unfoldable pub is_settled_backup_phase : String → Bool
is_settled_backup_phase phase = not (
    str_eq phase "InProgress"
    || str_eq phase "New"
    || str_eq phase "Uploading"
    || str_eq phase "WaitingForPluginOperations"
    || str_eq phase "Finalizing"
    || str_eq phase "")

abbrev pub is_moving : RancherState → Bool
is_moving pairing_state = true
is_moving cleaning_state = true
is_moving _ = false

abbrev pub is_ready_phase : Phase → Bool
is_ready_phase phase_ready = true
is_ready_phase _ = false

abbrev pub backup_moving : Option BackupInfo → Bool
backup_moving none = false
backup_moving (some b) = not (is_settled_backup_phase b.phase)

unfoldable pub observe_interval : VCluster → VClusterObservation → ℕ
observe_interval vc obs =
    if not (is_ready_phase vc.status.phase)
    then observe_interval_moving
    else (if is_moving obs.rancher_state || backup_moving obs.last_backup
        then observe_interval_moving
        else observe_interval_settled)

module _ (api : KubeApi) (now : ℕ) where
  -- The first of the types whose condition has the status; a type with no condition is passed
  -- over. firstFalseBlocking is this at ConditionFalse.
  unfoldable pub first_with : ConditionStatus → VCluster → List ConditionType → Option ConditionType
  first_with st vc [] = none
  first_with st vc (t ∷ ts) =
      let rest = first_with st vc ts in
      if has_status st (api.find_status_condition t vc.status.conditions) then some t else rest

  unfoldable pub first_false_blocking : VCluster → Option ConditionType
  first_false_blocking vc = first_with condition_false vc (blocking_conditions vc)

  -- phaseFor, for a Ready that is not True; where it is True the phase is Ready.
  unfoldable pub phase_for : VCluster → ConditionStatus → Phase
  phase_for vc condition_true = phase_ready
  phase_for vc _ =
      if has_status condition_false (api.find_status_condition budget_ok vc.status.conditions)
        && str_eq vc.status.chart_version ""
      then failed
      else (if str_eq vc.status.chart_version "" then provisioning else degraded)

  -- setVClusterCond on Ready, then the phase that goes with it.
  unfoldable pub conclude : ConditionStatus → Reason → VCluster → VCluster
  conclude st why vc =
      let vc' = with_condition api now ready st why vc in with_phase (phase_for vc' st) vc'

  abbrev on_unknown : VCluster → Option ConditionType → VCluster
  on_unknown vc (some t) = conclude condition_unknown (unknown t) vc
  on_unknown vc none = conclude condition_true all_checks_passed vc

  abbrev on_false : VCluster → Option ConditionType → VCluster
  on_false vc (some t) = conclude condition_false (not_met t) vc
  on_false vc none =
      if not (is_some (api.find_status_condition resources_provisioned vc.status.conditions))
      then conclude condition_unknown not_observed_yet vc
      else on_unknown vc (first_with condition_unknown vc (blocking_conditions vc))

  unfoldable pub aggregate_vcluster_status : VCluster → VCluster
  aggregate_vcluster_status vc = on_false vc (first_false_blocking vc)
