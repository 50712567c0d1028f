-- ===== src/Fluxprod/Delete.antt =====
-- Delete and PerformDeletion of internal/service/vcluster.go. The notification is output only.
use Prim.Native.String.{◌++◌ as append}
use vcluster_manager.Prelude.{
  String, Bool, true, false, not, ◌&&◌, ◌||◌, Option, none, some, is_some, ◌++◌, map, str_eq,
  if◌then◌else◌,
}
use vcluster_manager.Cluster.{returned, raised}
use vcluster_manager.Registry.{is_cleaning, add_cleaning, add_deleting}
use vcluster_manager.Velero.{Actor, env_or_default}
use vcluster_manager.Gitops.{source_branch}
use vcluster_manager.Teardown.{
  ClusterInfo, RancherClient, HostClient, looked_up_cluster, removed_cluster, cleaned_namespace,
  deleted_clients, disabled_auth, deleted_project, read_protection, wrote_protection, Act, ◌>>=◌,
  ◌>>◌, pure, ask, tell, at,
}
use vcluster_manager.Fluxprod.{
  Workshop, forbidden, cleaning_in, unpair_failed, Reply, accepted, rejected, look, vcluster_path,
  delete_action, files_of, is_empty, kustomization_action, commit_to, commit_prod_mr_actions,
  is_pending_prod,
}

-- What is to go.
pub record Scope : Type 0 where
  pub preprod : Bool
  pub prod : Bool
  pub gitlab : Bool
  pub keycloak : Bool

pub record DeleteInput : Type 0 where
  pub env : String
  pub delete_counterpart : Bool
  pub delete_gitlab : Bool

-- Whether the deletion waits for a cleanup of Rancher, and in which environment.
pub record DeleteResult : Type 0 where
  pub name : String
  pub env : String
  pub going : Scope
  pub is_async : Bool
  pub cleaning_env : String

abbrev pub goes_in : Scope → String → Bool
goes_in g e = if str_eq e "preprod" then g.preprod else (if str_eq e "prod" then g.prod else true)

-- Whether the removal of preprod lets the rest go on.
pub data Progress : Type 0 where
  goes_on stops : Progress

abbrev nothing : {W : Type 0} → Act W (Unit {0})
nothing = pure tt

module _ {W : Type 0} (o : Workshop W) where
  -- The protection goes only where it was read.
  unfoldable pub lift_protection : HostClient W → String → String → Act W (Unit {0})
  lift_protection k name e = do
    protected ← ask (read_protection e name) (k.get_namespace_protection name)
    elim protected [
      | raised _ ↦ nothing
      | returned false ↦ nothing
      | returned true ↦ (do
        err ← ask (wrote_protection e name false) (k.set_namespace_protection name false)
        nothing)
    ]

  unfoldable pub release_namespace : Scope → String → String → Act W (Unit {0})
  release_namespace g name e = if not (goes_in g e) then nothing else elim (o.k8s_for_env e) [
    | none ↦ nothing
    | some k ↦ (do
      lift_protection k name e
      err ← ask (cleaned_namespace name) (k.cleanup_namespace name)
      nothing)
  ]

  -- 1. The files of preprod.
  unfoldable pub remove_preprod : Scope → String → Act W Progress
  remove_preprod g name =
      if g.preprod
      then (do
        files ←
            look (o.gitlab.list_files source_branch (vcluster_path o.clusters_path "preprod" name))
        kust ← kustomization_action o source_branch "preprod" name false
        let actions = map delete_action (files_of files) ++ kust
        if is_empty actions then pure goes_on else (do
          err ← commit_to o source_branch actions
          elim err [
            | some e ↦ pure stops
            | none ↦ (do now ← at; tell (add_deleting name "preprod" now ""); pure goes_on)
          ]))
      else pure goes_on

  -- 2. The files of prod: a commit while they are pending, a merge request once they are deployed.
  unfoldable pub remove_prod : Scope → String → Act W (Unit {0})
  remove_prod g name =
      if g.prod
      then (do
        files ← look (o.gitlab.list_files source_branch (vcluster_path o.clusters_path "prod" name))
        if is_empty (files_of files) then nothing else (do
          pending ← is_pending_prod o name
          kust ← kustomization_action o "prod" "preprod" name false
          let actions = map delete_action (files_of files) ++ kust
          if pending then (do err ← commit_to o source_branch actions; nothing) else (do
            url ← commit_prod_mr_actions o actions
            elim url [
              | raised e ↦ nothing
              | returned u ↦ (do now ← at; tell (add_deleting name "prod" now u))
            ])))
      else nothing

  unfoldable pub disable_backend : Bool → String → Act W (Unit {0})
  disable_backend wanted path = elim o.disable_auth [
    | none ↦ nothing
    | some f ↦ if wanted then (do err ← ask (disabled_auth path) (f path); nothing) else nothing
  ]

  unfoldable pub remove_clients : Scope → String → Act W (Unit {0})
  remove_clients g name = elim o.keycloak [
    | none ↦ nothing
    | some k ↦
        if g.keycloak
        then (do err ← ask (deleted_clients name) (k.delete_argocd_clients name); nothing)
        else nothing
  ]

  -- The systems outside the cluster.
  unfoldable pub remove_outside : Scope → String → Act W (Unit {0})
  remove_outside g name = do
    if g.gitlab
        then (do err ← ask (deleted_project name) (o.gitlab.delete_project name); nothing)
        else nothing
    remove_clients g name
    disable_backend g.preprod (append (append "kubernetes-vcluster-" name) "-preprod")
    disable_backend g.prod (append (append "kubernetes-vcluster-" name) "-prod")

  unfoldable pub perform_deletion : Scope → String → Act W (Unit {0})
  perform_deletion g name = do
    release_namespace g name "preprod"
    release_namespace g name "prod"
    progress ← remove_preprod g name
    elim progress [ stops ↦ nothing | goes_on ↦ (do remove_prod g name; remove_outside g name) ]

  -- A cluster that Rancher still has is unpaired, and the deletion waits for the cleanup.
  unfoldable pub unpair_and_wait :
      RancherClient W
      → Scope
      → String
      → String
      → String
      → ClusterInfo
      → Act W (Option (Reply DeleteResult))
  unpair_and_wait rc g name env e info = do
    err ← ask (removed_cluster info.id) (rc.delete_cluster info.id)
    elim err [
      | some err' ↦ pure (some (rejected (unpair_failed err')))
      | none ↦ (do
        now ← at
        tell (add_cleaning name e now g.preprod g.prod g.gitlab g.keycloak)
        pure (
            some (
              accepted
                (record { name = name; env = env; going = g; is_async = true; cleaning_env = e }))))
    ]

  -- One environment of the loop: nothing where the loop goes on.
  unfoldable pub unpair_in :
      RancherClient W → Scope → String → String → String → Act W (Option (Reply DeleteResult))
  unpair_in rc g name env e =
      if not (goes_in g e && o.rancher_enabled_for_env e) then pure none else (λ s.
        (let (cleaning, registry) = is_cleaning name e s.now s.registry in
          (if cleaning then pure (some (rejected (cleaning_in e))) else (do
            found ← ask (looked_up_cluster name) (rc.find_cluster_by_name name)
            elim found [
              | raised _ ↦ pure none
              | returned none ↦ pure none
              | returned (some info) ↦ unpair_and_wait rc g name env e info
            ]))
            (record s { registry = registry })))

  unfoldable pub unpair_first : Scope → String → String → Act W (Option (Reply DeleteResult))
  unpair_first g name env = elim o.rancher [
    | none ↦ pure none
    | some rc ↦ (do
      in_preprod ← unpair_in rc g name env "preprod"
      elim in_preprod [ some reply ↦ pure (some reply) | none ↦ unpair_in rc g name env "prod" ])
  ]

  abbrev pub scope_of : DeleteInput → Scope
  scope_of input = record {
    preprod =
        str_eq (env_or_default input.env) "preprod"
        || str_eq (env_or_default input.env) "prod" && input.delete_counterpart;
    prod =
        str_eq (env_or_default input.env) "prod"
        || str_eq (env_or_default input.env) "preprod" && input.delete_counterpart;
    gitlab = input.delete_gitlab;
    keycloak = is_some o.keycloak;
  }

  unfoldable pub delete_vcluster : Actor → String → DeleteInput → Act W (Reply DeleteResult)
  delete_vcluster actor name input = if not actor.is_admin then pure (rejected forbidden) else (do
    deferred ← unpair_first (scope_of input) name (env_or_default input.env)
    elim deferred [
      | some reply ↦ pure reply
      | none ↦ (do
        perform_deletion (scope_of input) name
        pure (
            accepted (record {
              name = name;
              env = env_or_default input.env;
              going = scope_of input;
              is_async = false;
              cleaning_env = "";
            })))
    ])
