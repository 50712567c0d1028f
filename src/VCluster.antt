-- ===== src/VCluster.antt =====
-- The VCluster custom resource: api/v1alpha1/vcluster_types.go, with the errors that the
-- controllers handle. A time is a number of seconds, and the zero time is 0.
use vcluster_manager.Prelude.{ℕ, String, Bool, true, false, Option, none, some, List, ◌||◌}
use vcluster_manager.Kube.{Condition, Reason}

-- A Go error: the sentinels that the controllers look for with errors.Is, the two answers of the
-- API server that are told apart, any other error by its text, one that wraps another (%w), and
-- two joined by errors.Join.
pub data Error : Type 0 where
  vault_unset keycloak_unset not_found already_exists : Error
  other : String → Error
  wrap : String → Error → Error
  join : Error → Error → Error

-- errors.Is(err, service.ErrVaultNotConfigured)
unfoldable pub is_vault_unset : Error → Bool
is_vault_unset vault_unset = true
is_vault_unset keycloak_unset = false
is_vault_unset not_found = false
is_vault_unset already_exists = false
is_vault_unset (other s) = false
is_vault_unset (wrap s e) = is_vault_unset e
is_vault_unset (join d e) = is_vault_unset d || is_vault_unset e

-- errors.Is(err, service.ErrKeycloakNotConfigured)
unfoldable pub is_keycloak_unset : Error → Bool
is_keycloak_unset vault_unset = false
is_keycloak_unset keycloak_unset = true
is_keycloak_unset not_found = false
is_keycloak_unset already_exists = false
is_keycloak_unset (other s) = false
is_keycloak_unset (wrap s e) = is_keycloak_unset e
is_keycloak_unset (join d e) = is_keycloak_unset d || is_keycloak_unset e

pub record ArgoCdSpec : Type 0 where
  pub enabled : Bool
  pub version : String
  pub rbac_groups : List String

pub record VeleroSpec : Type 0 where
  pub enabled : Bool
  pub hour : String
  pub ttl : String

pub record QuotaSpec : Type 0 where
  pub enabled : Bool
  pub cpu : String
  pub memory : String
  pub storage : String

pub record FluxCdSpec : Type 0 where
  pub repo_url : String
  pub branch : String
  pub path : String

pub data VClusterType : Type 0 where
  vcluster capi : VClusterType

pub record VClusterSpec : Type 0 where
  pub vcluster_type : VClusterType
  pub owner : String
  pub deletion_protection : Bool
  pub suspend : Bool
  pub argocd : Option ArgoCdSpec
  pub velero : Option VeleroSpec
  pub quotas : Option QuotaSpec
  pub k8s_version : String
  pub fluxcd : Option FluxCdSpec

-- `no_phase` is the empty string of an object that was never reconciled.
pub data Phase : Type 0 where
  no_phase pending provisioning phase_ready degraded phase_suspended deleting failed : Phase

pub record ResourceUsage : Type 0 where
  pub cpu : String
  pub memory : String
  pub storage : String

pub record RancherStatus : Type 0 where
  pub state : String
  pub paired : Bool

pub record VaultStatus : Type 0 where
  pub status : String
  pub message : String

pub record LastBackup : Type 0 where
  pub name : String
  pub phase : String
  pub completed_at : Option ℕ

-- The steps that `status.deletion.stage` names.
pub data Stage : Type 0 where
  no_stage blocked rancher_unpairing backup_pending protection_removal destroying : Stage

-- What deletionDone reports as left behind: a warning of the teardown, or the namespace with what
-- the API server says retains it.
pub data Leftover : Type 0 where
  warning : String → Leftover
  namespace_left : List String → Leftover

-- The sentences that `status.deletion.message` can hold, by what they say.
pub data DeletionMessage : Type 0 where
  no_message asleep still_protected : DeletionMessage
  backup_blocked : Reason → DeletionMessage
  protection_unreadable : String → DeletionMessage
  sequence_done : List Leftover → DeletionMessage

pub record DeletionStatus : Type 0 where
  pub grace_period_ends_at : Option ℕ
  pub stage : Stage
  pub message : DeletionMessage

abbrev pub no_deletion : DeletionStatus
no_deletion = record { grace_period_ends_at = none; stage = no_stage; message = no_message }

pub record VClusterStatus : Type 0 where
  pub observed_generation : ℕ
  pub phase : Phase
  pub conditions : List Condition
  pub chart_version : String
  pub k8s_version : String
  pub pod_count : ℕ
  pub resource_usage : Option ResourceUsage
  pub protection_enabled : Bool
  pub rancher : Option RancherStatus
  pub vault : Option VaultStatus
  pub last_backup : Option LastBackup
  pub deletion : Option DeletionStatus

-- The object. The two annotations are those of vcluster_deletion.go, with the empty text for one
-- that is absent, as a lookup in Go's map gives it; a deletion timestamp of 0 is none.
pub record VCluster : Type 0 where
  pub name : String
  pub namespace : String
  pub generation : ℕ
  pub finalizers : List String
  pub deletion_timestamp : ℕ
  pub backup_override : String
  pub delete_app_manifests_repo : String
  pub spec : VClusterSpec
  pub status : VClusterStatus

-- The status of the object with its deletion block changed. Go's pointer is not nil where the
-- controller writes through it, which `reconcile_deletion` sees to; on nil this writes nothing.
abbrev pub map_deletion :
    (DeletionStatus → DeletionStatus) → Option DeletionStatus → Option DeletionStatus
map_deletion f none = none
map_deletion f (some d) = some (f d)

abbrev pub with_deletion : (DeletionStatus → DeletionStatus) → VCluster → VCluster
with_deletion f vc = record vc {
  status = record vc.status { deletion = map_deletion f vc.status.deletion };
}

abbrev pub with_stage : Stage → VCluster → VCluster
with_stage s = with_deletion (λ d. record d { stage = s })

abbrev pub with_message : DeletionMessage → VCluster → VCluster
with_message m = with_deletion (λ d. record d { message = m })

abbrev pub with_phase : Phase → VCluster → VCluster
with_phase p vc = record vc { status = record vc.status { phase = p } }
