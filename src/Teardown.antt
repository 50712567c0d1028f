-- ===== src/Teardown.antt =====
-- The service behind the deletion and the pairing of a vcluster: what internal/service
-- (vcluster_deletion.go, rancher.go, vcluster_lifecycle.go, protection.go) calls of the clients of the
-- host cluster, Rancher, Keycloak, Vault and GitLab, which are interfaces, and what a request keeps.
-- Calls are logged, the latest first, those of the host cluster with the environment of the client.
-- The audit is output only.
pub mod Rancher
pub mod Unpairing
pub mod Final
pub mod Laws
use vcluster_manager.Prelude.{
  ℕ, String, Bool, true, false, Option, none, some, List, [], ◌∷◌, ◌&&◌, ◌||◌, str_eq,
  if◌then◌else◌, any, not,
}
use vcluster_manager.VCluster.{Error}
use vcluster_manager.Choice.{VeleroBackupInfo}
use vcluster_manager.Reconciler.Answers.{NamespaceState}
use vcluster_manager.Cluster.{Result}
use vcluster_manager.Registry.{Registry}
use vcluster_manager.Gitops.{CommitAction}

-- rancher.ClusterInfo
pub record ClusterInfo : Type 0 where
  pub id : String
  pub state : String

-- rancher.Client: a lookup gives no cluster where there is none.
pub record RancherClient (W : Type 0) : Type 0 where
  pub find_cluster_by_name : String → W → Result (Option ClusterInfo) × W
  pub delete_cluster : String → W → Option Error × W
  pub import_cluster : String → W → Result (String × String) × W
  pub download_manifest : String → W → Result String × W
  pub wait_for_cluster_active : String → W → Option Error × W

-- kubernetes.VClusterJobState
pub record JobState : Type 0 where
  pub found : Bool
  pub complete : Bool
  pub failed : Bool
  pub started_at : ℕ
  pub detail : String

-- kubernetes.StatusClient, as these services call it.
pub record HostClient (W : Type 0) : Type 0 where
  pub has_rancher_agents : String → W → Bool × W
  pub cleanup_job_state : String → W → Result JobState × W
  pub apply_manifest : String → String → W → Option Error × W
  pub wait_for_cleanup_job : String → W → Option Error × W
  pub list_velero_backups : String → String → W → Result (List VeleroBackupInfo) × W
  pub cleanup_namespace : String → W → Option Error × W
  pub delete_host_namespace : String → W → Option Error × W
  pub host_namespace_state : String → W → NamespaceState × W
  pub get_namespace_protection : String → W → Result Bool × W
  pub set_namespace_protection : String → Bool → W → Option Error × W
  pub set_flux_suspend : String → Bool → W → Option Error × W
  pub scale_workloads : String → ℕ → W → Option Error × W

-- service.Service with the parts of its configuration that are read here.
pub record Office (W : Type 0) : Type 0 where
  pub k8s_for_env : String → Option (HostClient W)
  pub rancher : Option (RancherClient W)
  pub rancher_enabled_for_env : String → Bool
  pub delete_argocd_clients : Option (String → W → Option Error × W)
  pub disable_auth : Option (String → W → Option Error × W)
  pub delete_project : Option (String → W → Option Error × W)
  pub velero_namespace : String
  pub rancher_cleanup_manifest : String
  pub parse_time : String → Option ℕ
  pub error_text : Error → String

-- One call with its answer.
pub data Deed : Type 0 where
  looked_up_cluster : String → Result (Option ClusterInfo) → Deed
  removed_cluster : String → Option Error → Deed
  imported_cluster : String → Deed
  downloaded_manifest : String → Deed
  waited_for_cluster : String → Deed
  saw_agents : String → String → Bool → Deed
  read_job : String → String → Deed
  applied_manifest : String → String → Option Error → Deed
  waited_for_job : String → String → Deed
  listed_backups : String → String → Result (List VeleroBackupInfo) → Deed
  cleaned_namespace : String → Option Error → Deed
  deleted_clients : String → Option Error → Deed
  disabled_auth : String → Option Error → Deed
  deleted_project : String → Option Error → Deed
  deleted_host_namespace : String → String → Option Error → Deed
  read_namespace : String → String → Deed
  read_protection : String → String → Result Bool → Deed
  wrote_protection : String → String → Bool → Option Error → Deed
  set_suspended : String → String → Bool → Option Error → Deed
  scaled : String → String → ℕ → Option Error → Deed
  committed : String → List CommitAction → Option Error → Deed
  asked_merge : String → String → Deed
  created_repo : String → Option Error → Deed
  created_clients : String → String → Option Error → Deed

-- A request under way: the time, the world, the lists that the configuration keeps, and the log.
pub record OfficeRun (W : Type 0) : Type 0 where
  pub now : ℕ
  pub world : W
  pub registry : Registry
  pub deeds : List Deed

-- What a service refuses with; namespace cleanup wraps the client's error.
pub data OfficeError : Type 0 where
  forbidden_request invalid_vcluster_name k8s_unavailable rancher_not_configured : OfficeError
  rancher_not_enabled cleaning_in_progress rancher_k8s_prod_unavailable already_paired : OfficeError
  manual_pairing : OfficeError
  already_in_rancher : String → OfficeError
  rancher_lookup_failed : Error → OfficeError
  rancher_delete_failed : Error → OfficeError
  client_failed : Error → OfficeError

-- A value, or a refusal.
pub data Ruling {ℓ} (A : Type ℓ) : Type ℓ where
  granted : A → Ruling A
  denied : OfficeError → Ruling A

abbrev pub Act : Type 0 → Type 0 → Type 0
Act W A = OfficeRun W → A × OfficeRun W

infixl 10 ◌>>=◌ ◌>>◌
abbrev pub ◌>>=◌ : {W A B : Type 0} → Act W A → (A → Act W B) → Act W B
◌>>=◌ m f s = let (a, s') = m s in f a s'

abbrev pub ◌>>◌ : {W A B : Type 0} → Act W A → Act W B → Act W B
◌>>◌ m k s = k (m s).1

module _ {W : Type 0} where
  abbrev pub pure : {A : Type 0} → A → Act W A
  pure a s = (a, s)

  abbrev pub ask : {A : Type 0} → (A → Deed) → (W → A × W) → Act W A
  ask log f s =
      ((f s.world).0, record s { world = (f s.world).1; deeds = log (f s.world).0 ∷ s.deeds })

  -- A change of the lists that the configuration keeps.
  abbrev pub tell : (Registry → Registry) → Act W (Unit {0})
  tell f s = (tt, record s { registry = f s.registry })

  abbrev pub at : Act W ℕ
  at s = (s.now, s)
