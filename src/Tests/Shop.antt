-- ===== src/Tests/Shop.antt =====
-- Requests that declare and remove a vcluster, over a repository that takes every commit.
use vcluster_manager.Prelude.{ℕ, ◌+◌, ◌≡◌, refl, true, false, none, some, [], ◌∷◌, any, str_eq}
use vcluster_manager.Prelude.Int.{pos}
use vcluster_manager.Text.{codes, same_text}
use vcluster_manager.Names.{
  valid_name, is_reserved, matches_name_regex, all_name_chars, is_name_char, is_letter, trim_prefix,
}
use vcluster_manager.VCluster.{other}
use vcluster_manager.Reconciler.Answers.{CreateRequest}
use vcluster_manager.Provision.{empty_request}
use vcluster_manager.Floor.{validate_quota_fits_options}
use vcluster_manager.Policy.{validate_rbac_groups}
use vcluster_manager.Velero.{Actor, env_or_default}
use vcluster_manager.Cluster.{returned, raised}
use vcluster_manager.Registry.{is_cleaning, keep_if, is_cleaning_of}
use vcluster_manager.Gitops.{GeneratedFile}
use vcluster_manager.Teardown.{RancherClient, HostClient, OfficeRun}
use vcluster_manager.Fluxprod.{
  Workshop, accepted, kustomization_action, commit_to, commit_prod_mr_actions, exists,
}
use vcluster_manager.Fluxprod.Fields.{
  is_quantity, after_some, validate_quantity, validate_flux_repo_url, validate_branch_or_path,
  validate_velero_hour,
}
use vcluster_manager.Fluxprod.Create.{
  check_request, check_floor_of, declare_preprod, declare_prod, declare_repo, declare_clients,
  declare, declare_new, create_vcluster,
}
use vcluster_manager.Fluxprod.Delete.{
  DeleteInput, DeleteResult, unpair_and_wait, unpair_in, unpair_first, delete_vcluster,
}
use vcluster_manager.Fluxprod.Form.{SettingsInput}
use vcluster_manager.Fluxprod.Settings.{update_settings}
use vcluster_manager.Fluxprod.Branch.{
  is_elsewhere, creates, deletes, updates, serve_all, writes_to_preprod_only,
}
use vcluster_manager.Fluxprod.Retention.{retention_ignored}
use vcluster_manager.Fluxprod.Checked.{is_change, IsSound, create_fields, created_after_checks}
use vcluster_manager.Fluxprod.Deleting.{removes, cleans, any_name_cleaned, deferred_removes_nothing}
use vcluster_manager.Tests.World.{whole}

-- Rancher knows every cluster.
abbrev rancher : RancherClient ℕ
rancher = record {
  find_cluster_by_name = λ name w. (returned (some (record { id = "c-1"; state = "active" })), w);
  delete_cluster = λ id w. (none, w);
  import_cluster = λ name w. (returned ("c-1", "https://rancher/c-1"), w);
  download_manifest = λ url w. (returned "manifest", w);
  wait_for_cluster_active = λ id w. (none, w);
}

abbrev host : HostClient ℕ
host = record {
  has_rancher_agents = λ name w. (false, w);
  cleanup_job_state = λ name w. (raised (other "unread"), w);
  apply_manifest = λ name text w. (none, w);
  wait_for_cleanup_job = λ name w. (none, w);
  list_velero_backups = λ name ns w. (returned [], w);
  cleanup_namespace = λ name w. (none, w);
  delete_host_namespace = λ name w. (none, w);
  host_namespace_state = λ name w.
      (record { exists = false; known = true; deletion_timestamp = 0; conditions = [] }, w);
  get_namespace_protection = λ name w. (returned true, w);
  set_namespace_protection = λ name enabled w. (none, w);
  set_flux_suspend = λ name suspend w. (none, w);
  scale_workloads = λ name n w. (none, w);
}

abbrev some_file : GeneratedFile
some_file = record { path = codes "clusters/preprod/vclusters/demo/values.yaml"; content = [] }

-- Listings fail, so that every name is free.
abbrev shop : Workshop ℕ
shop = record {
  gitlab = record {
    list_files = λ branch path w. (raised (other "unreachable"), w);
    get_file = λ branch path w. (raised (other "unreachable"), w);
    commit = λ branch actions w. (none, w + 1);
    get_or_create_merge_request = λ source target w. (returned "https://gitlab/mr/1", w);
    create_app_manifests_repo = λ name w. (none, w);
    app_manifests_repo_exists = λ name w. (false, w);
    delete_project = λ name w. (none, w);
  };
  generator = record {
    generate_vcluster = λ req env. some_file ∷ [];
    values_file = λ req env version. some_file;
    rbac_file = λ name env groups. some_file;
    argocd_overlay = λ name env version. some_file;
    flux_overlay = λ name env url branch path. some_file;
  };
  parse_vcluster = λ env name w. (raised (other "unreachable"), w);
  parser_branch = "preprod";
  effective_quotas =
      λ req env. some (record { cpu = ""; memory = ""; storage = ""; enabled = true });
  k8s_for_env = λ env. some host;
  rancher = none;
  rancher_enabled_for_env = λ env. true;
  keycloak = none;
  disable_auth = none;
  clusters_path = codes "clusters";
}

abbrev morning : OfficeRun ℕ
morning = record {
  now = 100;
  world = 0;
  registry = record { cleaning = []; deleting = []; failures = [] };
  deeds = [];
}

abbrev root : Actor
root = record { username = "root"; is_admin = true }

abbrev small : CreateRequest
small = record (empty_request "demo") { cpu = "8"; no_quotas = true }

abbrev from_preprod : DeleteInput
from_preprod = record { env = "preprod"; delete_counterpart = false; delete_gitlab = false }

abbrev form : SettingsInput
form = record {
  velero_enabled = true;
  velero_hour = "03:00";
  velero_ttl = [];
  cpu = "";
  memory = "";
  storage = "";
  no_quotas = false;
  rbac_groups = [];
  k8s_version = "";
  argocd_version = "";
  fluxcd_enabled = false;
  fluxcd_repo_url = "";
  fluxcd_branch = "";
  fluxcd_path = "";
  argocd_toggle = "";
  fluxcd_toggle = "";
  delete_repo = false;
}

writes_to_preprod_only_example :
    any is_elsewhere
      (serve_all shop whole
        (λ s. pos 1)
        (creates root small "both"
          ∷ updates root "demo" "prod" form
          ∷ deletes root "demo" from_preprod
          ∷ [])
        morning).deeds
    ≡ false
writes_to_preprod_only_example =
    writes_to_preprod_only shop whole (λ s. pos 1)
      (creates root small "both"
        ∷ updates root "demo" "prod" form
        ∷ deletes root "demo" from_preprod
        ∷ [])
      morning

created :
    any is_change (create_vcluster shop whole (λ s. pos 1) root small "both" morning).1.deeds ≡ true
unfolding create_vcluster check_request valid_name is_reserved matches_name_regex is_letter
    all_name_chars is_name_char validate_rbac_groups validate_quantity validate_flux_repo_url
    validate_branch_or_path validate_velero_hour is_quantity after_some check_floor_of
    validate_quota_fits_options declare_new exists declare declare_preprod declare_prod declare_repo
    declare_clients commit_to commit_prod_mr_actions kustomization_action codes trim_prefix
    same_text
created = refl

created_after_checks_example : IsSound true "demo" [] (create_fields small)
created_after_checks_example =
    created_after_checks shop whole (λ s. pos 1) root small "both" morning refl created

retention_ignored_example :
    update_settings shop root "demo" "preprod"
      (record form { velero_ttl = codes "720h0m0s" })
      morning
    ≡ update_settings shop root "demo" "preprod" form morning
retention_ignored_example =
    retention_ignored shop root "demo" "preprod" form (codes "720h0m0s") morning refl refl

preprod_default : str_eq (env_or_default "preprod") "preprod" ≡ true
unfolding env_or_default
preprod_default = refl

-- The name of the operator's own namespace.
any_name_cleaned_example :
    any (cleans "manager") (delete_vcluster shop root "manager" from_preprod morning).1.deeds ≡ true
any_name_cleaned_example =
    any_name_cleaned shop host root "manager" from_preprod morning refl refl preprod_default refl

abbrev paired_shop : Workshop ℕ
paired_shop = record shop { rancher = some rancher }

abbrev awaited : DeleteResult
awaited = record {
  name = "demo";
  env = "preprod";
  going = record { preprod = true; prod = false; gitlab = false; keycloak = false };
  is_async = true;
  cleaning_env = "preprod";
}

deferred : (delete_vcluster paired_shop root "demo" from_preprod morning).0 ≡ accepted awaited
unfolding delete_vcluster unpair_first unpair_in env_or_default is_cleaning keep_if unpair_and_wait
deferred = refl

deferred_removes_nothing_example :
    (any removes (delete_vcluster paired_shop root "demo" from_preprod morning).1.deeds ≡ false)
    × (any
          (is_cleaning_of "demo" "preprod")
          (delete_vcluster paired_shop root "demo" from_preprod morning).1.registry.cleaning
        ≡ true)
deferred_removes_nothing_example =
    deferred_removes_nothing paired_shop root "demo" from_preprod awaited morning deferred refl
