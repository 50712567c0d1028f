-- ===== src/Status/Ready.antt =====
-- What Ready and the phase say, against a description that does not follow the code's order.
use vcluster_manager.Prelude.{
  ℕ, ◌≡◌, refl, Bool, not, ◌||◌, Option, none, some, List, [], ◌∷◌, arith, if◌then◌else◌, is_some,
  any, str_eq,
}
use vcluster_manager.Kube.{
  KubeApi, Condition, ConditionType, ConditionStatus, condition_true, condition_false,
  condition_unknown, Reason, ready, resources_provisioned, budget_ok, type_index,
}
use vcluster_manager.VCluster.{VCluster, phase_ready, failed, provisioning, degraded}
use vcluster_manager.Status.Aggregate.{
  blocking_conditions, has_status, first_with, first_false_blocking, phase_for, conclude,
  aggregate_vcluster_status,
}

abbrev pub status_of : Option Condition → Option ConditionStatus
status_of none = none
status_of (some c) = some c.status

module _ (api : KubeApi) where
  -- A condition of one of the types has the status.
  abbrev some_with : ConditionStatus → VCluster → List ConditionType → Bool
  some_with st vc ts =
      any (λ t. has_status st (api.find_status_condition t vc.status.conditions)) ts

  -- The status of the Ready condition.
  unfoldable pub ready_status : VCluster → Option ConditionStatus
  ready_status vc = status_of (api.find_status_condition ready vc.status.conditions)

  -- What Ready is to be: False if a blocking condition is False, else Unknown if nothing was
  -- observed or a blocking condition is Unknown, else True.
  unfoldable pub wanted_status : VCluster → ConditionStatus
  wanted_status vc =
      if some_with condition_false vc (blocking_conditions vc)
      then condition_false
      else (if not (is_some (api.find_status_condition resources_provisioned vc.status.conditions))
            || some_with condition_unknown vc (blocking_conditions vc)
          then condition_unknown
          else condition_true)

  first-is_some :
      (now : ℕ) (st : ConditionStatus) (vc : VCluster) (ts : List ConditionType)
      → is_some (first_with api now st vc ts) ≡ some_with st vc ts
  unfolding first_with
  first-is_some now st vc [] = refl
  first-is_some now st vc (t ∷ ts) = ground (arith, first-is_some now st vc ts)

  conclude-ready_status :
      (now : ℕ) (st : ConditionStatus) (why : Reason) (vc : VCluster)
      → ready_status (conclude api now st why vc) ≡ some st
  unfolding conclude ready_status type_index
  conclude-ready_status now st why vc = grind (arith, api.find-set)

  -- The phase is that of the conditions before: Ready itself is not read for it.
  conclude-phase :
      (now : ℕ) (st : ConditionStatus) (why : Reason) (vc : VCluster)
      → (conclude api now st why vc).status.phase ≡ phase_for api now vc st
  unfolding conclude phase_for type_index
  conclude-phase now condition_true why vc = refl
  conclude-phase now _ why vc = grind (arith, api.find-set)

  -- Aggregation sets Ready to False if a blocking condition is False, whatever else is unknown;
  -- otherwise to Unknown if ResourcesProvisioned is missing or a blocking condition is Unknown;
  -- otherwise to True.
  pub ready_status-aggregate :
      (now : ℕ) (vc : VCluster)
      → ready_status (aggregate_vcluster_status api now vc) ≡ some (wanted_status vc)
  unfolding aggregate_vcluster_status first_false_blocking wanted_status
  ready_status-aggregate now vc = grind (
    arith,
    conclude-ready_status,
    first-is_some now condition_false vc (blocking_conditions vc),
    first-is_some now condition_unknown vc (blocking_conditions vc),
  )

  -- The phase after aggregation: Ready exactly if Ready is True; otherwise Failed if the budget
  -- refused a vcluster that never ran, Provisioning if it never ran, Degraded if it did.
  phase-aggregate :
      (now : ℕ) (vc : VCluster)
      → (aggregate_vcluster_status api now vc).status.phase ≡ elim (wanted_status vc) [
        | condition_true ↦ phase_ready
        | _ ↦
            if not (str_eq vc.status.chart_version "")
            then degraded
            else (if has_status condition_false
                  (api.find_status_condition budget_ok vc.status.conditions)
                then failed
                else provisioning)
      ]
  unfolding aggregate_vcluster_status first_false_blocking wanted_status phase_for
  phase-aggregate now vc = grind (
    arith,
    conclude-phase,
    first-is_some now condition_false vc (blocking_conditions vc),
    first-is_some now condition_unknown vc (blocking_conditions vc),
  )
