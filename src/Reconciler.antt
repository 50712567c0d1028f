-- ===== src/Reconciler.antt =====
-- VClusterReconciler of internal/controller/vcluster_controller.go: its fields, the service and
-- the client that it calls, and one pass over an object as a function of the state of the world.
-- A call takes the world and gives its answer with the world after it, so nothing is assumed of
-- what the cluster does between two calls; the calls are logged, the latest first. The clock is
-- read once for a pass.
pub mod Answers
use vcluster_manager.Prelude.{
  ℕ, zero, String, Bool, true, false, Option, none, some, List, [], ◌∷◌, if◌then◌else◌,
}
use vcluster_manager.Kube.{Condition, ConditionType, ConditionStatus, Reason, KubeApi}
use vcluster_manager.VCluster.{Error, Leftover, VCluster}
use Answers.{
  RancherTeardownState, DeletionBackupState, ProtectionState, NamespaceState, RancherLookup,
  VClusterObservation, BudgetUsage, EffectiveQuota, CreateRequest,
}

-- r.Get: the object, or NotFound, or another error.
pub data GetResult : Type 0 where
  got : VCluster → GetResult
  not_found : GetResult
  get_failed : Error → GetResult

-- VClusterServiceOps with the client and the budget reader. `W` is the world outside the process,
-- `Q` the type of quantities, `O` that of rendered objects.
pub record Ops (W Q O : Type 0) : Type 0 where
  pub suspend_vcluster : String → String → W → Option Error × W
  pub resume_vcluster : String → String → W → Option Error × W
  pub observe_vcluster : String → String → W → VClusterObservation × W
  pub render_vcluster_substitutions :
      CreateRequest → String → String → W → (List O × Option Error) × W
  pub inspect_rancher_teardown : String → String → W → RancherTeardownState × W
  pub unpair_for_deletion : String → String → W → Option Error × W
  pub inspect_deletion_backup : String → String → ℕ → W → (DeletionBackupState × Option Error) × W
  pub trigger_velero_backup : String → String → W → Option Error × W
  pub get_protection : String → String → W → ProtectionState × W
  pub set_protection : String → String → Bool → W → Option Error × W
  pub host_namespace_state : String → String → W → NamespaceState × W
  pub delete_host_namespace : String → String → W → Option Error × W
  pub teardown_vcluster : String → String → Bool → W → (List String × Option Error) × W
  pub effective_quotas : CreateRequest → String → W → (EffectiveQuota × Option Error) × W
  pub sum_vcluster_quotas : String → String → W → (BudgetUsage Q × Option Error) × W
  pub vault_auth_configured : String → String → W → (Bool × Option Error) × W
  pub vault_webhook_ready : String → String → W → (Bool × Option Error) × W
  pub configure_vault_auth : String → String → W → Option Error × W
  pub ensure_keycloak_client : String → String → W → Option Error × W
  pub get_rancher_status : String → String → W → RancherLookup × W
  pub pair_rancher : String → String → W → Option Error × W
  pub get : W → GetResult × W
  -- The object that the server answers replaces the one in memory.
  pub update : VCluster → W → (VCluster × Option Error) × W
  pub update_status : VCluster → W → (VCluster × Option Error) × W
  pub apply : O → W → Option Error × W

pub record BudgetLimits : Type 0 where
  pub cpu : String
  pub memory : String
  pub storage : String

pub record Reconciler (W Q O : Type 0) : Type 0 where
  pub api : KubeApi
  pub ops : Ops W Q O
  pub cell : String
  pub budget : BudgetLimits
  -- BudgetOps is not nil.
  pub has_budget_ops : Bool
  pub namespace : String
  pub grace_period : ℕ

pub data EventType : Type 0 where
  event_normal event_warning : EventType

-- One call with its answer.
pub data Call : Type 0 where
  suspended_vcluster resumed_vcluster : Option Error → Call
  observed : VClusterObservation → Call
  rendered applied : Option Error → Call
  inspected_rancher : RancherTeardownState → Call
  unpaired : Option Error → Call
  inspected_backup : DeletionBackupState → Option Error → Call
  triggered_backup : Option Error → Call
  audited_override : String → Call
  got_protection : ProtectionState → Call
  set_protection : Bool → Option Error → Call
  saw_namespace : NamespaceState → Call
  deleted_namespace : Option Error → Call
  tore_down : Bool → List String → Option Error → Call
  resolved_quotas summed_quotas : Option Error → Call
  checked_vault checked_webhook : Bool → Option Error → Call
  configured_vault ensured_keycloak : Option Error → Call
  looked_up_rancher : RancherLookup → Call
  paired_rancher : Option Error → Call
  updated updated_status : VCluster → Option Error → Call
  recorded_event : EventType → List Leftover → Call

-- A pass under way.
pub record Run (W : Type 0) : Type 0 where
  pub now : ℕ
  pub vc : VCluster
  pub world : W
  pub calls : List Call

-- What a step returns: (bool, time.Duration, error).
pub record Outcome : Type 0 where
  pub done : Bool
  pub requeue : ℕ
  pub err : Option Error

abbrev pub step_done : Outcome
step_done = record { done = true; requeue = 0; err = none }

abbrev pub step_wait : ℕ → Outcome
step_wait d = record { done = false; requeue = d; err = none }

abbrev pub step_failed : ℕ → Error → Outcome
step_failed d e = record { done = false; requeue = d; err = some e }

abbrev pub Exec : Type 0 → Type 0 → Type 0
Exec W A = Run W → A × Run W

infixl 10 ◌>>=◌ ◌>>◌
abbrev pub ◌>>=◌ : {W A B : Type 0} → Exec W A → (A → Exec W B) → Exec W B
◌>>=◌ m f s = let (a, s') = m s in f a s'

abbrev pub ◌>>◌ : {W B : Type 0} → Exec W (Unit {0}) → Exec W B → Exec W B
◌>>◌ m k s = k (m s).1

module _ {W A : Type 0} where
  abbrev pub pure : A → Exec W A
  pure a s = (a, s)

  -- A call: `log` is the entry for its answer.
  abbrev pub ask : (A → Call) → (W → A × W) → Exec W A
  ask log f s =
      ((f s.world).0, record s { world = (f s.world).1; calls = log (f s.world).0 ∷ s.calls })

module _ {W : Type 0} where
  abbrev pub get_vc : Exec W VCluster
  get_vc s = (s.vc, s)

  abbrev pub get_now : Exec W ℕ
  get_now s = (s.now, s)

  abbrev pub modify : (VCluster → VCluster) → Exec W (Unit {0})
  modify f s = (tt, record s { vc = f s.vc })

  -- An audit line or an event: a call with no answer.
  abbrev pub note : Call → Exec W (Unit {0})
  note c s = (tt, record s { calls = c ∷ s.calls })

-- setVClusterCond
abbrev pub with_condition :
    KubeApi → ℕ → ConditionType → ConditionStatus → Reason → VCluster → VCluster
with_condition api now t st why vc = record vc {
  status = record vc.status {
    conditions =
        api.set_status_condition now
          (record {
            cond_type = t;
            status = st;
            reason = why;
            observed_generation = vc.generation;
            last_transition_time = 0;
          })
          vc.status.conditions;
  };
}

module _ {W Q O : Type 0} (r : Reconciler W Q O) where
  abbrev pub set_vcluster_cond : ConditionType → ConditionStatus → Reason → Exec W (Unit {0})
  set_vcluster_cond t st why s = (tt, record s { vc = with_condition r.api s.now t st why s.vc })

  abbrev pub find_cond : ConditionType → VCluster → Option Condition
  find_cond t vc = r.api.find_status_condition t vc.status.conditions
