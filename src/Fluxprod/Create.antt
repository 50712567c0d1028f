-- ===== src/Fluxprod/Create.antt =====
-- Create of internal/service/vcluster.go: the checks, then the files of the environments, the
-- repository of the applications and the clients of Keycloak.
use vcluster_manager.Prelude.{
  ℕ, String, Bool, true, false, ◌||◌, Option, none, some, List, [], ◌∷◌, ◌++◌, map, str_eq,
  if◌then◌else◌, is_some,
}
use vcluster_manager.Text.{codes}
use vcluster_manager.Names.{valid_name}
use vcluster_manager.VCluster.{Error}
use vcluster_manager.Reconciler.Answers.{CreateRequest}
use vcluster_manager.Budget.{QuantityApi}
use vcluster_manager.Floor.{
  FloorCheck, sufficient, unreadable_quota as unreadable, below_floor, validate_quota_fits_options,
}
use vcluster_manager.Policy.{validate_rbac_groups}
use vcluster_manager.Velero.{Actor}
use vcluster_manager.Cluster.{returned, raised}
use vcluster_manager.Gitops.{source_branch}
use vcluster_manager.Teardown.{created_repo, created_clients, Act, ◌>>=◌, pure, ask}
use vcluster_manager.Fluxprod.{
  Workshop, Refusal, forbidden, invalid_name, generator_unavailable, unreadable_quota,
  quota_below_floor, invalid_rbac_group, invalid_field, already_exists_in, commit_failed, Reply,
  accepted, rejected, create_action, kustomization_action, commit_to, commit_prod_mr_actions,
  exists,
}
use vcluster_manager.Fluxprod.Fields.{
  validate_quantity, validate_flux_repo_url, validate_branch_or_path, validate_velero_hour,
}

-- What a creation reports of what did not go through; the sentences are prose.
pub data Warning : Type 0 where
  merge_request_failed repo_failed keycloak_failed : Error → Warning
  keycloak_not_configured : Warning

pub record CreateResult : Type 0 where
  pub name : String
  pub scope : String
  pub warnings : List Warning
  pub vault_setup_envs : List String

abbrev pub scope_or_both : String → String
scope_or_both scope = if str_eq scope "" then "both" else scope

-- The first check that fails.
abbrev pub first_failure : List (Bool × Refusal) → Option Refusal
first_failure [] = none
first_failure ((ok, refusal) ∷ checks) =
    let rest = first_failure checks in if ok then rest else some refusal

abbrev pub refused_group : List ℕ → Option (List ℕ) → Bool × Refusal
refused_group _ none = (true, invalid_rbac_group [])
refused_group _ (some g) = (false, invalid_rbac_group g)

-- The checks before anything is read.
abbrev pub request_checks : Actor → CreateRequest → List (Bool × Refusal)
request_checks actor req =
    (actor.is_admin, forbidden)
    ∷ (valid_name (codes req.name), invalid_name)
    ∷ refused_group [] (validate_rbac_groups (map codes req.rbac_groups))
    ∷ (validate_quantity (codes req.cpu), invalid_field "cpu")
    ∷ (validate_quantity (codes req.memory), invalid_field "memory")
    ∷ (validate_quantity (codes req.storage), invalid_field "storage")
    ∷ (validate_flux_repo_url (codes req.fluxcd_repo_url), invalid_field "fluxcd_repo_url")
    ∷ (validate_branch_or_path (codes req.fluxcd_branch), invalid_field "fluxcd_branch")
    ∷ (validate_branch_or_path (codes req.fluxcd_path), invalid_field "fluxcd_path")
    ∷ (validate_velero_hour (codes req.velero_hour), invalid_field "velero_hour")
    ∷ []

unfoldable pub check_request : Actor → CreateRequest → Option Refusal
check_request actor req = first_failure (request_checks actor req)

abbrev pub checked_env : String → String
checked_env scope = if str_eq scope "prod" then "prod" else "preprod"

abbrev floor_refusal : FloorCheck → Option Refusal
floor_refusal sufficient = none
floor_refusal unreadable = some unreadable_quota
floor_refusal below_floor = some quota_below_floor

abbrev pub wants_preprod : String → Bool
wants_preprod scope = str_eq scope "preprod" || str_eq scope "both"

abbrev pub wants_prod : String → Bool
wants_prod scope = str_eq scope "prod" || str_eq scope "both"

abbrev envs_of : String → List String
envs_of scope =
    (if wants_preprod scope then "preprod" ∷ [] else [])
    ++ (if wants_prod scope then "prod" ∷ [] else [])

module _ {W Q : Type 0} (o : Workshop W) (qs : QuantityApi Q) (must_parse : String → Q) where
  -- The quotas that the generator would write, against the floor.
  unfoldable pub check_floor_of : CreateRequest → String → Option Refusal
  check_floor_of req scope = elim (o.effective_quotas req (checked_env scope)) [
    | none ↦ some generator_unavailable
    | some q ↦ floor_refusal (validate_quota_fits_options qs must_parse req q.cpu q.memory)
  ]

module _ {W : Type 0} (o : Workshop W) where
  -- 1. The files of preprod: an error ends the creation.
  unfoldable pub declare_preprod : CreateRequest → String → Act W (Option Error)
  declare_preprod req scope =
      if wants_preprod scope
      then (do
        kust ← kustomization_action o source_branch "preprod" req.name true
        commit_to o source_branch
            (map create_action (o.generator.generate_vcluster req "preprod") ++ kust))
      else pure none

  -- 2. The files of prod, with their merge request.
  unfoldable pub declare_prod : CreateRequest → String → Act W (List Warning)
  declare_prod req scope =
      if wants_prod scope
      then (do
        kust ← kustomization_action o "prod" "preprod" req.name true
        url ←
            commit_prod_mr_actions o
              (map create_action (o.generator.generate_vcluster req "prod") ++ kust)
        elim url [ raised e ↦ pure (merge_request_failed e ∷ []) | returned _ ↦ pure [] ])
      else pure []

  -- 3. The repository of the applications.
  unfoldable pub declare_repo : CreateRequest → Act W (List Warning)
  declare_repo req =
      if req.argocd
      then (do
        err ← ask (created_repo req.name) (o.gitlab.create_app_manifests_repo req.name)
        elim err [ some e ↦ pure (repo_failed e ∷ []) | none ↦ pure [] ])
      else pure []

  -- 4. The clients of Keycloak.
  unfoldable pub declare_clients : CreateRequest → String → Act W (List Warning)
  declare_clients req scope =
      if req.argocd
      then elim o.keycloak [
        | none ↦ pure (keycloak_not_configured ∷ [])
        | some k ↦ (do
          err ← ask (created_clients req.name scope) (k.create_argocd_clients req.name scope)
          elim err [ some e ↦ pure (keycloak_failed e ∷ []) | none ↦ pure [] ])
      ]
      else pure []

  unfoldable pub declare : CreateRequest → String → Act W (Reply CreateResult)
  declare req scope = do
    err ← declare_preprod req scope
    elim err [
      | some e ↦ pure (rejected (commit_failed e))
      | none ↦ (do
        of_prod ← declare_prod req scope
        of_repo ← declare_repo req
        of_clients ← declare_clients req scope
        pure (
            accepted (record {
              name = req.name;
              scope = scope;
              warnings = of_prod ++ of_repo ++ of_clients;
              vault_setup_envs = if is_some o.disable_auth then envs_of scope else [];
            })))
    ]

  -- The name must be free.
  unfoldable pub declare_new : CreateRequest → String → Act W (Reply CreateResult)
  declare_new req scope = do
    taken ← exists o (checked_env scope) req.name
    if taken then pure (rejected (already_exists_in (checked_env scope))) else declare req scope

module _ {W Q : Type 0} (o : Workshop W) (qs : QuantityApi Q) (must_parse : String → Q) where
  unfoldable pub create_vcluster : Actor → CreateRequest → String → Act W (Reply CreateResult)
  create_vcluster actor req scope = elim (check_request actor req) [
    | some e ↦ pure (rejected e)
    | none ↦ elim (check_floor_of o qs must_parse req (scope_or_both scope)) [
      | some e ↦ pure (rejected e)
      | none ↦ declare_new o req (scope_or_both scope)
    ]
  ]
