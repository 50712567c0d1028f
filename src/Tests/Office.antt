-- ===== src/Tests/Office.antt =====
-- The services of the deletion over clients with fixed answers (internal/service/rancher.go,
-- vcluster_deletion.go, internal/config/cleaning.go).
use vcluster_manager.Prelude.{
  if◌then◌else◌, str_eq, ℕ, ◌≡◌, ◌+◌, ◌≤◌, arith, refl, true, false, none, some, [], ◌∷◌, any,
}
use vcluster_manager.VCluster.{other}
use vcluster_manager.Text.{codes, same_text}
use vcluster_manager.Names.{
  valid_name, is_reserved, matches_name_regex, all_name_chars, is_name_char, is_letter, trim_prefix,
}
use vcluster_manager.Cluster.{returned}
use vcluster_manager.Registry.{Registry, is_cleaning, add_cleaning, remove_cleaning, keep_if}
use vcluster_manager.Registry.Laws.{cleaning_tracked}
use vcluster_manager.Velero.{Actor, env_or_default, valid_vcluster_name}
use vcluster_manager.Teardown.{RancherClient, HostClient, Office, OfficeRun}
use vcluster_manager.Teardown.Rancher.{pair_rancher}
use vcluster_manager.Teardown.Unpairing.{unpair_for_deletion, unpair_cluster, drop_cleanup_job}
use vcluster_manager.Teardown.Final.{teardown_vcluster}
use vcluster_manager.Teardown.Laws.{
  applies_manifest, is_accounted, teardown_accounted, pairs_through_prod,
}
use vcluster_manager.Prelude.Int.{ℤ}
use vcluster_manager.Reconciler.{Ops}
use vcluster_manager.Teardown.Final.{inspect_deletion_backup}
use vcluster_manager.Kube.{type_index}
use vcluster_manager.Kube.Store.{store, find, put, without}
use vcluster_manager.Text.{lower_all, trim_space}
use vcluster_manager.Marker.{is_terminal_backup_phase}
use vcluster_manager.Choice.{
  pick_deletion_backup, collect, consider, latest, best_of, time_of, parse_velero_time,
}
use vcluster_manager.Deletion.Trace.{destroys}
use vcluster_manager.Deletion.Steps.{
  override_disarms, backup_launched, check_deletion_protection, reconcile_rancher_teardown,
  act_on_backup, require_backup, reconcile_deletion_backup,
}
use vcluster_manager.Deletion.Final.{
  conclude_removal, remove_namespace, tear_down, reconcile_final_teardown_and_namespace_removal,
}
use vcluster_manager.Deletion.Sequence.{
  run_steps, release, run_deletion_sequence, finish_deletion, reconcile_deletion,
}
use vcluster_manager.Deletion.Covered.{is_backed}
use vcluster_manager.Deletion.Backed.{backup_answer, destruction_backed}
use vcluster_manager.Tests.World.{calm, over, at, leaving}

-- Rancher without the cluster.
abbrev rancher : RancherClient ℕ
rancher = record {
  find_cluster_by_name = λ name w. (returned none, w);
  delete_cluster = λ id w. (none, w);
  import_cluster = λ name w. (returned ("c-1", "https://rancher/c-1"), w);
  download_manifest = λ url w. (returned "manifest", w);
  wait_for_cluster_active = λ id w. (none, w);
}

abbrev host : HostClient ℕ
host = record {
  has_rancher_agents = λ name w. (false, w);
  cleanup_job_state = λ name w. (
    returned
        (record { found = true; complete = true; failed = false; started_at = 5; detail = "" }),
    w,
  );
  apply_manifest = λ name text w. (none, w);
  wait_for_cleanup_job = λ name w. (none, w);
  list_velero_backups = λ name ns w. (returned [], w);
  cleanup_namespace = λ name w. (none, w);
  delete_host_namespace = λ name w. (none, w);
  host_namespace_state = λ name w.
      (record { exists = false; known = true; deletion_timestamp = 0; conditions = [] }, w);
  get_namespace_protection = λ name w. (returned false, w);
  set_namespace_protection = λ name enabled w. (none, w);
  set_flux_suspend = λ name suspend w. (none, w);
  scale_workloads = λ name n w. (none, w);
}

-- Vault fails, and there is no client for GitLab.
abbrev office : Office ℕ
office = record {
  k8s_for_env = λ env. some host;
  rancher = some rancher;
  rancher_enabled_for_env = λ env. true;
  delete_argocd_clients = some (λ name w. (none, w));
  disable_auth = some (λ path w. (some (other "sealed"), w));
  delete_project = none;
  velero_namespace = "velero";
  rancher_cleanup_manifest = "cleanup";
  parse_time = λ text. none;
  error_text = λ e. "error";
}

abbrev nothing_listed : Registry
nothing_listed = record { cleaning = []; deleting = []; failures = [] }

abbrev quiet_run : OfficeRun ℕ
quiet_run = record { now = 100; world = 0; registry = nothing_listed; deeds = [] }

abbrev root : Actor
root = record { username = "root"; is_admin = true }

teardown_accounted_example :
    let (result, s) = teardown_vcluster office root "demo" "prod" true quiet_run in
    is_accounted office true result s.deeds ≡ true
teardown_accounted_example = teardown_accounted office root "demo" "prod" true quiet_run refl

unpaired : (unpair_for_deletion office root "demo" "prod" quiet_run).0 ≡ none
unfolding unpair_for_deletion unpair_cluster drop_cleanup_job valid_vcluster_name valid_name
    is_reserved matches_name_regex all_name_chars is_name_char is_letter trim_prefix codes same_text
    env_or_default
unpaired = refl

-- The client of preprod would take every manifest, and there is none for prod.
abbrev preprod_office : Office ℕ
preprod_office = record office {
  k8s_for_env = λ env. if str_eq env "prod" then none else some host;
}

pairs_through_prod_example :
    any applies_manifest (pair_rancher preprod_office root "demo" "preprod" quiet_run).1.deeds
    ≡ false
pairs_through_prod_example =
    pairs_through_prod preprod_office root "demo" "preprod" quiet_run (λ k e n text w. absurd cc)

within_the_hour : 200 ≤ 100 + 3600
within_the_hour = ground arith

cleaning_tracked_example :
    ((is_cleaning "demo" "prod" 200
        (add_cleaning "demo" "prod" 100 false false false false nothing_listed)).0
      ≡ true)
    × ((is_cleaning "demo" "prod" 200 (
          remove_cleaning "demo" "prod"
            (add_cleaning "demo" "prod" 100 false false false false nothing_listed))).0
        ≡ false)
cleaning_tracked_example =
    cleaning_tracked "demo" "prod" 100 200 false false false false nothing_listed refl
      within_the_hour

-- A cleaning from two hours ago.
abbrev stale : Registry
stale = record nothing_listed {
  cleaning =
      record {
        name = "demo";
        env = "prod";
        started_at = some 0;
        delete_preprod = false;
        delete_prod = false;
        delete_gitlab = false;
        delete_keycloak = false;
      }
      ∷ [];
}

hidden : (is_cleaning "demo" "prod" 7200 stale).0 ≡ false
unfolding is_cleaning keep_if
hidden = refl

-- The office with a backup of noon, the second 1500, in Velero's list.
abbrev backed_office : Office ℕ
backed_office = record office {
  k8s_for_env = λ env. some (record host {
    list_velero_backups = λ name ns w. (
      returned (
          record { name = "last"; phase = "Completed"; start_time = "noon"; completion_time = "" }
          ∷ []),
      w,
    );
  });
  parse_time = λ text. some 1500;
}

abbrev seen : ℕ → OfficeRun ℕ
seen w = record quiet_run { world = w }

abbrev served : Ops ℕ ℤ (Unit {0})
served = record calm {
  inspect_deletion_backup = λ name env since w.
      (backup_answer (inspect_deletion_backup backed_office name env since (seen w)).0, w);
}

-- That pass does destroy the namespace.
destroyed_once_served :
    any destroys (reconcile_deletion (over served) (at 1200 leaving)).1.calls ≡ true
unfolding reconcile_deletion run_deletion_sequence run_steps finish_deletion release
    check_deletion_protection reconcile_rancher_teardown reconcile_deletion_backup override_disarms
    require_backup act_on_backup backup_launched tear_down remove_namespace conclude_removal
    reconcile_final_teardown_and_namespace_removal store find put without codes lower_all trim_space
    same_text type_index inspect_deletion_backup valid_vcluster_name valid_name is_reserved
    matches_name_regex all_name_chars is_name_char is_letter trim_prefix env_or_default
    pick_deletion_backup collect consider latest best_of time_of parse_velero_time
    is_terminal_backup_phase
destroyed_once_served = refl

destruction_backed_example :
    is_backed 1000 "" (reconcile_deletion (over served) (at 1200 leaving)).1.calls ≡ true
destruction_backed_example =
    destruction_backed (over served) backed_office seen (λ name env since w. refl) (at 1200 leaving)
      refl
