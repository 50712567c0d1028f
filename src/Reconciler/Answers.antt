-- ===== src/Reconciler/Answers.antt =====
-- What the service answers to the controller: the result types of internal/service that
-- internal/controller reads (vcluster_deletion.go, protection.go, vcluster_observe.go, rancher.go,
-- internal/models/budget.go).
use vcluster_manager.Prelude.{ℕ, String, Bool, Option, List}
use vcluster_manager.VCluster.{Error}

pub record CleanupJobState : Type 0 where
  pub observable : Bool
  pub found : Bool
  pub done : Bool
  pub failed : Bool
  pub started_at : ℕ
  pub detail : String

pub record RancherTeardownState : Type 0 where
  pub enabled : Bool
  pub not_configured : Bool
  pub lookup_failed : Bool
  pub still_known : Bool
  pub removing : Bool
  pub cleanup : CleanupJobState
  pub detail : String

pub record DeletionBackupState : Type 0 where
  pub found : Bool
  pub name : String
  pub phase : String
  pub started_at : ℕ
  pub completed : Bool
  pub failed : Bool

pub record ProtectionState : Type 0 where
  pub available : Bool
  pub protected : Bool
  pub detail : String

-- corev1.NamespaceCondition, with `holds` for the status ConditionTrue.
pub record NamespaceCondition : Type 0 where
  pub condition_type : String
  pub holds : Bool
  pub message : String

pub record NamespaceState : Type 0 where
  pub exists : Bool
  pub known : Bool
  pub deletion_timestamp : ℕ
  pub conditions : List NamespaceCondition

-- The words of service.RancherState…; `not_paired_state` is the empty text of the default case.
pub data RancherState : Type 0 where
  off paired_state pairing_state manually_paired_state cleaning_state unknown_state : RancherState
  not_paired_state : RancherState

-- service.RancherStatus, as the pairing step reads it.
pub record RancherLookup : Type 0 where
  pub enabled : Bool
  pub unknown : Bool
  pub paired : Bool
  pub pairing : Bool
  pub manually_paired : Bool
  pub cleaning : Bool

pub record BackupInfo : Type 0 where
  pub name : String
  pub phase : String
  pub completion_time : String

pub record VClusterObservation : Type 0 where
  pub err : Option Error
  pub cluster_timed_out : Bool
  pub helm_release : String
  pub kustomization : String
  pub chart_version : String
  pub k8s_version : String
  pub cpu_usage : String
  pub memory_usage : String
  pub storage_usage : String
  pub rancher_known : Bool
  pub rancher_state : RancherState
  pub rancher_paired : Bool
  pub protection_known : Bool
  pub protected : Bool
  pub backups_known : Bool
  pub last_backup : Option BackupInfo
  pub pod_count_known : Bool
  pub pod_count : ℕ
  pub argocd_kustomization : String

-- models.BudgetUsage, over the type of quantities.
pub record BudgetUsage (Q : Type 0) : Type 0 where
  pub cpu : Q
  pub memory : Q
  pub storage : Q

-- What EffectiveQuotas returns beside its error.
pub record EffectiveQuota : Type 0 where
  pub cpu : String
  pub memory : String
  pub storage : String
  pub enabled : Bool

-- models.CreateRequest, the fields that the controller fills.
pub record CreateRequest : Type 0 where
  pub name : String
  pub argocd : Bool
  pub argocd_version : String
  pub rbac_groups : List String
  pub velero_enabled : Bool
  pub velero_hour : String
  pub velero_ttl : List ℕ
  pub no_quotas : Bool
  pub cpu : String
  pub memory : String
  pub storage : String
  pub fluxcd_enabled : Bool
  pub fluxcd_repo_url : String
  pub fluxcd_branch : String
  pub fluxcd_path : String
