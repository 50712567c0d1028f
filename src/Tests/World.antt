-- ===== src/Tests/World.antt =====
-- A world that holds nothing and answers always the same, and an object to run the controllers
-- of internal/controller on.
use vcluster_manager.Prelude.{
  ℕ, suc, String, true, false, Option, none, some, [], ◌∷◌, refl, if◌then◌else◌, str_eq,
}
use vcluster_manager.Prelude.Int.{ℤ, pos, ◌+ℤ◌, ltb_ℤ}
use vcluster_manager.Kube.Store.{store}
use vcluster_manager.VCluster.{VCluster, VClusterSpec, VClusterStatus, vcluster, pending}
use vcluster_manager.Reconciler.{Reconciler, Ops, Run, got}
use vcluster_manager.Reconciler.Answers.{
  RancherTeardownState, DeletionBackupState, NamespaceState, RancherLookup, VClusterObservation,
  CleanupJobState, off,
}
use vcluster_manager.Budget.{QuantityApi}
use vcluster_manager.Deletion.Sequence.{vcluster_finalizer}

abbrev pub spec : VClusterSpec
spec = record {
  vcluster_type = vcluster;
  owner = "team";
  deletion_protection = false;
  suspend = false;
  argocd = none;
  velero = none;
  quotas = none;
  k8s_version = "";
  fluxcd = none;
}

abbrev pub status : VClusterStatus
status = record {
  observed_generation = 1;
  phase = pending;
  conditions = [];
  chart_version = "";
  k8s_version = "";
  pod_count = 0;
  resource_usage = none;
  protection_enabled = false;
  rancher = none;
  vault = none;
  last_backup = none;
  deletion = none;
}

-- An object that is alive.
abbrev pub alive : VCluster
alive = record {
  name = "demo";
  namespace = "vcluster-manager";
  generation = 1;
  finalizers = vcluster_finalizer ∷ [];
  deletion_timestamp = 0;
  backup_override = "";
  delete_app_manifests_repo = "";
  spec = spec;
  status = status;
}

-- The object once its deletion was asked for.
abbrev pub leaving : VCluster
leaving = record alive { deletion_timestamp = 1000 }

abbrev pub no_job : CleanupJobState
no_job = record {
  observable = true;
  found = false;
  done = false;
  failed = false;
  started_at = 0;
  detail = "";
}

abbrev pub rancher_off : RancherTeardownState
rancher_off = record {
  enabled = false;
  not_configured = false;
  lookup_failed = false;
  still_known = false;
  removing = false;
  cleanup = no_job;
  detail = "";
}

abbrev pub no_backup : DeletionBackupState
no_backup = record {
  found = false;
  name = "";
  phase = "";
  started_at = 0;
  completed = false;
  failed = false;
}

abbrev pub standing : NamespaceState
standing = record { exists = true; known = true; deletion_timestamp = 0; conditions = [] }

abbrev pub going : NamespaceState
going = record { exists = true; known = true; deletion_timestamp = 1500; conditions = [] }

abbrev pub gone : NamespaceState
gone = record { exists = false; known = true; deletion_timestamp = 0; conditions = [] }

abbrev pub unpaired : RancherLookup
unpaired = record {
  enabled = true;
  unknown = false;
  paired = false;
  pairing = false;
  manually_paired = false;
  cleaning = false;
}

abbrev pub silent : VClusterObservation
silent = record {
  err = none;
  cluster_timed_out = false;
  helm_release = "";
  kustomization = "";
  chart_version = "";
  k8s_version = "";
  cpu_usage = "";
  memory_usage = "";
  storage_usage = "";
  rancher_known = false;
  rancher_state = off;
  rancher_paired = false;
  protection_known = false;
  protected = false;
  backups_known = false;
  last_backup = none;
  pod_count_known = false;
  pod_count = 0;
  argocd_kustomization = "";
}

-- Every call succeeds; the world counts the calls that change something.
abbrev pub calm : Ops ℕ ℤ (Unit {0})
calm = record {
  suspend_vcluster = λ n c w. (none, suc w);
  resume_vcluster = λ n c w. (none, suc w);
  observe_vcluster = λ n c w. (silent, w);
  render_vcluster_substitutions = λ q c v w. (([], none), w);
  inspect_rancher_teardown = λ n c w. (rancher_off, w);
  unpair_for_deletion = λ n c w. (none, suc w);
  inspect_deletion_backup = λ n c t w. ((no_backup, none), w);
  trigger_velero_backup = λ n c w. (none, suc w);
  get_protection = λ n c w. (record { available = true; protected = true; detail = "" }, w);
  set_protection = λ n c b w. (none, suc w);
  host_namespace_state = λ n c w. (standing, w);
  delete_host_namespace = λ n c w. (none, suc w);
  teardown_vcluster = λ n c b w. (([], none), suc w);
  effective_quotas =
      λ q c w. ((record { cpu = "2"; memory = ""; storage = ""; enabled = true }, none), w);
  sum_vcluster_quotas =
      λ c n w. ((record { cpu = pos 3; memory = pos 0; storage = pos 0 }, none), w);
  vault_auth_configured = λ n c w. ((false, none), w);
  vault_webhook_ready = λ n c w. ((true, none), w);
  configure_vault_auth = λ n c w. (none, suc w);
  ensure_keycloak_client = λ n c w. (none, suc w);
  get_rancher_status = λ n c w. (unpaired, w);
  pair_rancher = λ n c w. (none, suc w);
  get = λ w. (got alive, w);
  update = λ vc w. ((vc, none), suc w);
  update_status = λ vc w. ((vc, none), suc w);
  apply = λ o w. (none, suc w);
}

abbrev pub over : Ops ℕ ℤ (Unit {0}) → Reconciler ℕ ℤ (Unit {0})
over ops = record {
  api = store;
  ops = ops;
  cell = "east";
  budget = record { cpu = "8"; memory = ""; storage = "" };
  has_budget_ops = true;
  namespace = "";
  grace_period = 0;
}

abbrev pub at : ℕ → VCluster → Run ℕ
at now vc = record { now = now; vc = vc; world = 0; calls = [] }

abbrev parse_digit : String → Option ℤ
parse_digit s = if str_eq s "2" then some (pos 2) else (if str_eq s "8" then some (pos 8) else none)

-- Quantities of one digit.
unfoldable pub whole : QuantityApi ℤ
whole = record {
  parse_quantity = parse_digit;
  zero_quantity = pos 0;
  add = λ a b. a +ℤ b;
  exceeds = λ a b. ltb_ℤ b a;
  amount = λ a. a;
  amount-zero = refl;
  amount-add = λ a b. refl;
  exceeds-amount = λ a b. refl;
}
