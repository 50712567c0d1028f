-- ===== src/Kube.antt =====
-- Status conditions and finalizers of a custom resource: the vocabulary of
-- api/v1alpha1/vcluster_types.go and of the controller, and the functions of Kubernetes'
-- apimachinery and controller-runtime that the controller calls, as a parameter with their
-- documented behaviour. Messages of conditions are prose for a reader and are not modelled.
pub mod Store
use vcluster_manager.Prelude.{
  ℕ, zero, String, ◌≡◌, Bool, true, false, Option, none, some, List, ◌==◌, if◌then◌else◌,
}

-- The constants Cond… of api/v1alpha1.
pub data ConditionType : Type 0 where
  ready resources_provisioned budget_ok argocd_ready vault_configured : ConditionType
  rancher_paired deletion_protected backup_completed namespace_removed accepted : ConditionType
  restore_in_progress restore_rejected_busy flux_resume_pending restore_needs_retry : ConditionType

-- metav1.ConditionStatus.
pub data ConditionStatus : Type 0 where
  condition_true condition_false condition_unknown : ConditionStatus

-- The reasons that the controllers write.
pub data Reason : Type 0 where
  protection_lifted deletion_protection_blocked : Reason
  no_rancher_client unpair_timed_out unpair_unconfirmed unpair_failed unpairing : Reason
  cleanup_timed_out cleanup_running cleanup_failed unpaired_cleanup_unobserved unpaired : Reason
  nothing_to_back_up backup_overridden backup_unknown completed in_progress : Reason
  backup_failed backup_timed_out backup_trigger_failed : Reason
  protection_unknown protection_removal_failed teardown_failed namespace_deletion_forbidden : Reason
  namespace_gone namespace_state_unknown removal_unconfirmed namespace_terminating deleted : Reason
  namespace_mismatch suspend_failed suspended resume_failed resuming : Reason
  no_quota_requested no_budget_configured invalid_quantity budget_exceeded within_budget : Reason
  type_not_implemented invalid_name render_failed apply_failed applied : Reason
  vault_not_configured vault_unreachable configured webhook_unreadable : Reason
  waiting_for_webhook setup_failed : Reason
  argocd_disabled keycloak_not_configured keycloak_client_failed keycloak_client_ready : Reason
  keycloak_and_kustomization_ready argocd_kustomization_not_ready : Reason
  argocd_kustomization_not_readable : Reason
  no_cluster_client read_timed_out healthy not_ready not_readable : Reason
  not_observed lookup_failed disabled paired manually_paired pairing cleaning not_paired : Reason
  spec_only namespace_diverges in_sync not_observed_yet all_checks_passed : Reason
  not_met unknown : ConditionType → Reason
  -- The reasons that the marker's controller adds.
  trigger_failed failure already_running target_outside_marker requested adopted : Reason
  interrupted volume_gone_no_restore abort_failed aborted : Reason
  interrupted_before_point_of_no_return stage_failed volume_gone forbidden : Reason
  resume_gave_up resume_pending resumed volume_destroyed : Reason

-- metav1.Condition without its message.
pub record Condition : Type 0 where
  pub cond_type : ConditionType
  pub status : ConditionStatus
  pub reason : Reason
  pub observed_generation : ℕ
  pub last_transition_time : ℕ

-- A number for each condition type, to compare them by.
unfoldable pub type_index : ConditionType → ℕ
type_index ready = 0
type_index resources_provisioned = 1
type_index budget_ok = 2
type_index argocd_ready = 3
type_index vault_configured = 4
type_index rancher_paired = 5
type_index deletion_protected = 6
type_index backup_completed = 7
type_index namespace_removed = 8
type_index accepted = 9
type_index restore_in_progress = 10
type_index restore_rejected_busy = 11
type_index flux_resume_pending = 12
type_index restore_needs_retry = 13

-- The comparison of condition types.
abbrev pub same_type : ConditionType → ConditionType → Bool
same_type t u = type_index t == type_index u

-- The comparison of condition statuses.
abbrev pub same_status : ConditionStatus → ConditionStatus → Bool
same_status condition_true condition_true = true
same_status condition_false condition_false = true
same_status condition_unknown condition_unknown = true
same_status _ _ = false

-- When a condition that is set at `now` last changed status: the time carries over from the
-- condition that it replaces, unless the status differs.
abbrev pub transition_time : ℕ → ConditionStatus → Option Condition → ℕ
transition_time now s none = now
transition_time now s (some old) =
    if same_status old.status s then old.last_transition_time else now

-- The functions of k8s.io/apimachinery (meta.SetStatusCondition, meta.FindStatusCondition) and of
-- controller-runtime's controllerutil that the controllers call, with what is documented of them.
pub record KubeApi : Type 0 where
  pub set_status_condition : ℕ → Condition → List Condition → List Condition
  pub find_status_condition : ConditionType → List Condition → Option Condition
  pub remove_status_condition : ConditionType → List Condition → List Condition
  pub contains_finalizer : String → List String → Bool
  pub add_finalizer : String → List String → List String
  pub remove_finalizer : String → List String → List String
  pub find-set :
      (t : ConditionType) (now : ℕ) (c : Condition) (cs : List Condition)
      → find_status_condition t (set_status_condition now c cs) ≡ (
          if same_type t c.cond_type
          then some (record c {
            last_transition_time =
                transition_time now c.status (find_status_condition c.cond_type cs);
          })
          else find_status_condition t cs)
  pub find_type :
      (t : ConditionType) (cs : List Condition) (c : Condition)
      → find_status_condition t cs ≡ some c
      → c.cond_type ≡ t
  pub contains-add :
      (f : String) (fs : List String) → contains_finalizer f (add_finalizer f fs) ≡ true
  pub contains-remove :
      (f : String) (fs : List String) → contains_finalizer f (remove_finalizer f fs) ≡ false
