-- ===== src/Fluxprod/Form.antt =====
-- The form of the settings: its checks (internal/service/settings.go) and what it has generated, with
-- GenerateUpdatedValues of internal/gitops/generator.go.
use vcluster_manager.Prelude.{
  ℕ, String, Bool, false, not, ◌&&◌, Option, List, [], ◌∷◌, ◌++◌, map, str_eq, if◌then◌else◌,
}
use vcluster_manager.Text.{codes}
use vcluster_manager.Names.{valid_name}
use vcluster_manager.Reconciler.Answers.{CreateRequest}
use vcluster_manager.Policy.{validate_rbac_groups}
use vcluster_manager.Velero.{Actor}
use vcluster_manager.Cluster.{Result, returned, raised}
use vcluster_manager.Gitops.{CommitAction, GeneratedFile}
use vcluster_manager.Fluxprod.{
  ParsedVCluster, Generator, Refusal, forbidden, invalid_name, invalid_field, update_action,
  is_empty,
}
use vcluster_manager.Fluxprod.Fields.{
  validate_quantity, validate_flux_repo_url, validate_branch_or_path, validate_velero_hour,
  validate_version,
}
use vcluster_manager.Fluxprod.Create.{first_failure, refused_group}

-- UpdateSettingsInput
pub record SettingsInput : Type 0 where
  pub velero_enabled : Bool
  pub velero_hour : String
  pub velero_ttl : List ℕ
  pub cpu : String
  pub memory : String
  pub storage : String
  pub no_quotas : Bool
  pub rbac_groups : List String
  pub k8s_version : String
  pub argocd_version : String
  pub fluxcd_enabled : Bool
  pub fluxcd_repo_url : String
  pub fluxcd_branch : String
  pub fluxcd_path : String
  pub argocd_toggle : String
  pub fluxcd_toggle : String
  pub delete_repo : Bool

-- What was changed, with the merge request of a plain update of prod.
pub data SettingsResult : Type 0 where
  argocd_changed fluxcd_changed : SettingsResult
  updated : String → SettingsResult

-- The checks before anything is read.
abbrev pub settings_checks : Actor → String → SettingsInput → List (Bool × Refusal)
settings_checks actor name input =
    (actor.is_admin, forbidden)
    ∷ (valid_name (codes name), invalid_name)
    ∷ (validate_quantity (codes input.cpu), invalid_field "cpu")
    ∷ (validate_quantity (codes input.memory), invalid_field "memory")
    ∷ (validate_quantity (codes input.storage), invalid_field "storage")
    ∷ (validate_version (codes input.k8s_version), invalid_field "k8s_version")
    ∷ (validate_version (codes input.argocd_version), invalid_field "argocd_version")
    ∷ (validate_flux_repo_url (codes input.fluxcd_repo_url), invalid_field "fluxcd_repo_url")
    ∷ (validate_branch_or_path (codes input.fluxcd_branch), invalid_field "fluxcd_branch")
    ∷ (validate_branch_or_path (codes input.fluxcd_path), invalid_field "fluxcd_path")
    ∷ (validate_velero_hour (codes input.velero_hour), invalid_field "velero_hour")
    ∷ refused_group [] (validate_rbac_groups (map codes input.rbac_groups))
    ∷ []

unfoldable pub check_settings : Actor → String → SettingsInput → Option Refusal
check_settings actor name input = first_failure (settings_checks actor name input)

-- firstNonEmpty
abbrev first_non_empty : String → String → String
first_non_empty a b = if str_eq a "" then b else a

-- The request of a full reconfiguration, its ArgoCD and Flux aside.
abbrev reconfigured : String → SettingsInput → CreateRequest
reconfigured name input = record {
  name = name;
  argocd = false;
  argocd_version = input.argocd_version;
  rbac_groups = input.rbac_groups;
  velero_enabled = input.velero_enabled;
  velero_hour = input.velero_hour;
  velero_ttl = input.velero_ttl;
  no_quotas = input.no_quotas;
  cpu = input.cpu;
  memory = input.memory;
  storage = input.storage;
  fluxcd_enabled = false;
  fluxcd_repo_url = input.fluxcd_repo_url;
  fluxcd_branch = input.fluxcd_branch;
  fluxcd_path = input.fluxcd_path;
}

unfoldable pub argocd_request : String → SettingsInput → Bool → ParsedVCluster → CreateRequest
argocd_request name input on vc = record (reconfigured name input) {
  argocd = on;
  fluxcd_enabled = vc.flux_enabled;
  fluxcd_repo_url = first_non_empty input.fluxcd_repo_url vc.flux_repo_url;
  fluxcd_branch = first_non_empty input.fluxcd_branch vc.flux_branch;
  fluxcd_path = first_non_empty input.fluxcd_path vc.flux_path;
}

unfoldable pub fluxcd_request : String → SettingsInput → Bool → ParsedVCluster → CreateRequest
fluxcd_request name input on vc = record (reconfigured name input) {
  argocd = vc.argocd;
  fluxcd_enabled = on;
}

-- The request that GenerateUpdatedValues renders: the fields that it copies.
unfoldable pub values_request : String → SettingsInput → CreateRequest
values_request name input = record {
  name = name;
  argocd = false;
  argocd_version = "";
  rbac_groups = [];
  velero_enabled = input.velero_enabled;
  velero_hour = input.velero_hour;
  velero_ttl = [];
  no_quotas = input.no_quotas;
  cpu = input.cpu;
  memory = input.memory;
  storage = input.storage;
  fluxcd_enabled = input.fluxcd_enabled;
  fluxcd_repo_url = input.fluxcd_repo_url;
  fluxcd_branch = input.fluxcd_branch;
  fluxcd_path = input.fluxcd_path;
}

-- The files of a plain update that hang on what the vcluster has.
abbrev overlays :
    Generator → String → String → SettingsInput → Result ParsedVCluster → List GeneratedFile
overlays g name env input (raised _) = []
overlays g name env input (returned vc) =
    (if vc.argocd
      then (if is_empty input.rbac_groups then [] else g.rbac_file name env input.rbac_groups ∷ [])
        ++ g.argocd_overlay name env input.argocd_version ∷ []
      else [])
    ++ (if vc.flux_enabled && not (str_eq input.fluxcd_repo_url "")
        then g.flux_overlay name env input.fluxcd_repo_url input.fluxcd_branch input.fluxcd_path
          ∷ []
        else [])

unfoldable pub update_actions :
    Generator → String → String → SettingsInput → Result ParsedVCluster → List CommitAction
unfolding values_request
update_actions g name env input vc =
    map update_action (
      g.values_file (values_request name input) env input.k8s_version
      ∷ overlays g name env input vc)
