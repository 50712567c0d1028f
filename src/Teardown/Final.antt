-- ===== src/Teardown/Final.antt =====
-- The last steps of a deletion, sleep and protection: internal/service/vcluster_deletion.go,
-- vcluster_lifecycle.go and protection.go.
use Prim.Native.String.{◌++◌ as append}
use vcluster_manager.Prelude.{
  ℕ, String, Bool, true, false, not, Option, none, some, List, [], ◌∷◌, ◌++◌, if◌then◌else◌,
}
use vcluster_manager.VCluster.{Error, wrap}
use vcluster_manager.Reconciler.Answers.{DeletionBackupState, NamespaceState, ProtectionState}
use vcluster_manager.Choice.{pick_deletion_backup}
use vcluster_manager.Cluster.{returned, raised}
use vcluster_manager.Velero.{Actor, env_or_default, valid_vcluster_name}
use vcluster_manager.Teardown.{
  HostClient, Office, OfficeError, forbidden_request, invalid_vcluster_name, k8s_unavailable,
  client_failed, Ruling, granted, denied, Deed, listed_backups, cleaned_namespace, deleted_clients,
  disabled_auth, deleted_project, deleted_host_namespace, read_namespace, read_protection,
  wrote_protection, set_suspended, scaled, Act, ◌>>=◌, pure, ask,
}

-- An admin, a name that is valid and a client, or the first refusal.
unfoldable pub admit : {W : Type 0} → Office W → Actor → String → String → Ruling (HostClient W)
admit o actor name env =
    if not actor.is_admin
    then denied forbidden_request
    else (if not (valid_vcluster_name name)
        then denied invalid_vcluster_name
        else elim (o.k8s_for_env (env_or_default env)) [
          | none ↦ denied k8s_unavailable
          | some k ↦ granted k
        ])

abbrev refusal : Option Error → Option OfficeError
refusal none = none
refusal (some e) = some (client_failed e)

module _ {W : Type 0} (o : Office W) where
  -- One external system of TeardownVCluster: a client that is absent and an error are warnings.
  unfoldable pub retire :
      String
      → String
      → (Option Error → Deed)
      → Option (W → Option Error × W)
      → List String
      → Act W (List String)
  retire what trouble log client warnings = elim client [
    | none ↦
        pure (
          warnings
          ++ append what " : non traité, ce processus n'a pas le client correspondant" ∷ [])
    | some f ↦ (do
      err ← ask log f
      elim err [
        | none ↦ pure warnings
        | some e ↦ pure (warnings ++ append (append trouble " : ") (o.error_text e) ∷ [])
      ])
  ]

  abbrev on : String → Option (String → W → Option Error × W) → Option (W → Option Error × W)
  on arg none = none
  on arg (some f) = some (f arg)

  -- The systems outside the cluster, in their order.
  unfoldable pub retire_all : String → String → Bool → Act W (List String)
  retire_all name env delete_repo = do
    after_keycloak ←
        retire "clients OIDC Keycloak" "clients OIDC Keycloak pas supprimés" (deleted_clients name)
          (on name o.delete_argocd_clients) []
    let path = append (append (append "kubernetes-vcluster-" name) "-") env
    after_vault ←
        retire "backend d'auth Vault" "backend d'auth Vault pas désactivé" (disabled_auth path)
          (on path o.disable_auth) after_keycloak
    if delete_repo
        then retire "dépôt app-manifests (suppression demandée par annotation)"
            "dépôt app-manifests pas supprimé" (deleted_project name) (on name o.delete_project)
            after_vault
        else pure after_vault

  -- The warnings, or the error of what has to succeed.
  unfoldable pub teardown_vcluster : Actor → String → String → Bool → Act W (Ruling (List String))
  teardown_vcluster actor name env delete_repo = elim (admit o actor name env) [
    | denied e ↦ pure (denied e)
    | granted k ↦ (do
      err ← ask (cleaned_namespace name) (k.cleanup_namespace name)
      elim err [
        | some e ↦ pure (denied (client_failed (wrap "nettoyage du namespace" e)))
        | none ↦ (do
          warnings ← retire_all name (env_or_default env) delete_repo
          pure (granted warnings))
      ])
  ]

  unfoldable pub delete_host_namespace : Actor → String → String → Act W (Option OfficeError)
  delete_host_namespace actor name env = elim (admit o actor name env) [
    | denied e ↦ pure (some e)
    | granted k ↦ (do
      err ← ask (deleted_host_namespace (env_or_default env) name) (k.delete_host_namespace name)
      pure (refusal err))
  ]

  abbrev unknown_namespace : NamespaceState
  unknown_namespace = record {
    exists = false;
    known = false;
    deletion_timestamp = 0;
    conditions = [];
  }

  unfoldable pub host_namespace_state : String → String → Act W NamespaceState
  host_namespace_state name env =
      if not (valid_vcluster_name name)
      then pure unknown_namespace
      else elim (o.k8s_for_env (env_or_default env)) [
        | none ↦ pure unknown_namespace
        | some k ↦ ask (λ _. read_namespace (env_or_default env) name) (k.host_namespace_state name)
      ]

  unfoldable pub inspect_deletion_backup : String → String → ℕ → Act W (Ruling DeletionBackupState)
  inspect_deletion_backup name env since =
      if not (valid_vcluster_name name)
      then pure (denied invalid_vcluster_name)
      else elim (o.k8s_for_env (env_or_default env)) [
        | none ↦ pure (denied k8s_unavailable)
        | some k ↦ (do
          backups ←
              ask (listed_backups (env_or_default env) name)
                (k.list_velero_backups name o.velero_namespace)
          elim backups [
            | raised e ↦ pure (denied (client_failed e))
            | returned bs ↦ pure (granted (pick_deletion_backup o.parse_time bs since))
          ])
      ]

  unfoldable pub get_protection : String → String → Act W ProtectionState
  get_protection name env = elim (o.k8s_for_env (env_or_default env)) [
    | none ↦ pure (record {
      available = false;
      protected = false;
      detail = append "aucun client Kubernetes pour la cell " (env_or_default env);
    })
    | some k ↦ (do
      answer ← ask (read_protection (env_or_default env) name) (k.get_namespace_protection name)
      elim answer [
        | raised e ↦ pure (record { available = false; protected = false; detail = o.error_text e })
        | returned p ↦ pure (record { available = true; protected = p; detail = "" })
      ])
  ]

  unfoldable pub set_protection : Actor → String → String → Bool → Act W (Ruling ProtectionState)
  set_protection actor name env enabled =
      if not actor.is_admin
      then pure (denied forbidden_request)
      else elim (o.k8s_for_env (env_or_default env)) [
        | none ↦ pure (denied k8s_unavailable)
        | some k ↦ (do
          err ←
              ask (wrote_protection (env_or_default env) name enabled)
                (k.set_namespace_protection name enabled)
          elim err [
            | some e ↦ pure (denied (client_failed e))
            | none ↦ pure (granted (record { available = true; protected = enabled; detail = "" }))
          ])
      ]

  -- Flux first, then the replicas.
  unfoldable pub suspend_vcluster : Actor → String → String → Act W (Option OfficeError)
  suspend_vcluster actor name env = elim (admit o actor name env) [
    | denied e ↦ pure (some e)
    | granted k ↦ (do
      err ← ask (set_suspended (env_or_default env) name true) (k.set_flux_suspend name true)
      elim err [
        | some e ↦ pure (some (client_failed e))
        | none ↦ (do
          down ← ask (scaled (env_or_default env) name 0) (k.scale_workloads name 0)
          pure (refusal down))
      ])
  ]

  unfoldable pub resume_vcluster : Actor → String → String → Act W (Option OfficeError)
  resume_vcluster actor name env = elim (admit o actor name env) [
    | denied e ↦ pure (some e)
    | granted k ↦ (do
      err ← ask (set_suspended (env_or_default env) name false) (k.set_flux_suspend name false)
      pure (refusal err))
  ]
