-- ===== src/Status/Observe.antt =====
-- What an observation writes on the status: applyObservation of vcluster_status.go and the
-- functions that it calls.
use vcluster_manager.Prelude.{
  ℕ, String, Bool, true, false, not, ◌&&◌, ◌||◌, Option, none, some, if◌then◌else◌, is_some, str_eq,
}
use vcluster_manager.Kube.{
  KubeApi, Condition, ConditionStatus, condition_true, condition_false, condition_unknown, Reason,
  resources_provisioned, rancher_paired, deletion_protected, argocd_ready, no_cluster_client,
  read_timed_out, healthy, not_ready, not_readable, not_observed, lookup_failed, disabled, paired,
  manually_paired, pairing, cleaning, not_paired, spec_only, namespace_diverges, in_sync,
  keycloak_and_kustomization_ready, argocd_kustomization_not_ready,
  argocd_kustomization_not_readable,
}
use vcluster_manager.VCluster.{VCluster, RancherStatus, LastBackup}
use vcluster_manager.Reconciler.{with_condition}
use vcluster_manager.Reconciler.Answers.{
  VClusterObservation, BackupInfo, RancherState, off, paired_state, pairing_state,
  manually_paired_state, cleaning_state, unknown_state, not_paired_state,
}

-- A status and its reason.
abbrev pub Verdict : Type 0
Verdict = ConditionStatus × Reason

unfoldable pub explicitly_not_ready : String → Bool
explicitly_not_ready state =
    not (str_eq state "") && not (str_eq state "Ready") && not (str_eq state "Unknown")

unfoldable pub provisioned_from : VClusterObservation → Verdict
provisioned_from obs =
    if is_some obs.err
    then (condition_unknown, no_cluster_client)
    else (if obs.cluster_timed_out
        then (condition_unknown, read_timed_out)
        else (if str_eq obs.helm_release "Ready" && str_eq obs.kustomization "Ready"
            then (condition_true, healthy)
            else (if explicitly_not_ready obs.helm_release || explicitly_not_ready obs.kustomization
                then (condition_false, not_ready)
                else (condition_unknown, not_readable))))

abbrev rancher_verdict : RancherState → Verdict
rancher_verdict unknown_state = (condition_unknown, lookup_failed)
rancher_verdict off = (condition_false, disabled)
rancher_verdict paired_state = (condition_true, paired)
rancher_verdict manually_paired_state = (condition_true, manually_paired)
rancher_verdict pairing_state = (condition_false, pairing)
rancher_verdict cleaning_state = (condition_false, cleaning)
rancher_verdict not_paired_state = (condition_false, not_paired)

unfoldable pub rancher_paired_from : VClusterObservation → Verdict
rancher_paired_from obs =
    if is_some obs.err then (condition_unknown, not_observed) else rancher_verdict obs.rancher_state

abbrev xor : Bool → Bool → Bool
xor true b = not b
xor false b = b

unfoldable pub deletion_protected_from : VCluster → VClusterObservation → Verdict
deletion_protected_from vc obs =
    let want = vc.spec.deletion_protection in
    let status = if want then condition_true else condition_false in
    if not (not (is_some obs.err) && obs.protection_known && not obs.cluster_timed_out)
    then (status, spec_only)
    else (if xor obs.protected want then (status, namespace_diverges) else (status, in_sync))

-- The words of service.RancherState… as the status holds them.
abbrev pub rancher_word : RancherState → String
rancher_word off = "Off"
rancher_word paired_state = "Paired"
rancher_word pairing_state = "Pairing"
rancher_word manually_paired_state = "ManuallyPaired"
rancher_word cleaning_state = "Cleaning"
rancher_word unknown_state = "Unknown"
rancher_word not_paired_state = ""

abbrev pub was_paired : Option RancherStatus → Bool
was_paired none = false
was_paired (some s) = s.paired

abbrev is_true : Option Condition → Bool
is_true none = false
is_true (some c) = elim c.status [ condition_true ↦ true | _ ↦ false ]

-- The value that was read, or the one that stood if it is the empty text.
abbrev pub or_keep : String → String → String
or_keep read old = if str_eq read "" then old else read

-- `parse_time` is time.Parse for RFC 3339, with no time for a text that it refuses.
module _ (api : KubeApi) (parse_time : String → Option ℕ) (now : ℕ) where
  unfoldable pub refine_argocd_ready : VClusterObservation → VCluster → VCluster
  refine_argocd_ready obs vc =
      if not (is_true (api.find_status_condition argocd_ready vc.status.conditions))
      then vc
      else (if str_eq obs.argocd_kustomization "Ready"
          then with_condition api now argocd_ready condition_true keycloak_and_kustomization_ready
              vc
          else (if explicitly_not_ready obs.argocd_kustomization
              then with_condition api now argocd_ready condition_false
                  argocd_kustomization_not_ready vc
              else with_condition api now argocd_ready condition_unknown
                  argocd_kustomization_not_readable vc))

  -- parseBackupTime: the empty text is no time.
  unfoldable pub parse_backup_time : String → Option ℕ
  parse_backup_time s = if str_eq s "" then none else parse_time s

  abbrev last_backup_of : Option BackupInfo → Option LastBackup
  last_backup_of none = none
  last_backup_of (some b) = some (record {
    name = b.name;
    phase = b.phase;
    completed_at = parse_backup_time b.completion_time;
  })

  -- The fields before refineArgoCDReady.
  unfoldable pub apply_versions : VClusterObservation → VCluster → VCluster
  apply_versions obs vc = record vc {
    status = record vc.status {
      chart_version = or_keep obs.chart_version vc.status.chart_version;
      k8s_version = or_keep obs.k8s_version vc.status.k8s_version;
      resource_usage =
          if not (str_eq obs.cpu_usage "")
            || not (str_eq obs.memory_usage "")
            || not (str_eq obs.storage_usage "")
          then some (record {
            cpu = obs.cpu_usage;
            memory = obs.memory_usage;
            storage = obs.storage_usage;
          })
          else vc.status.resource_usage;
      pod_count = if obs.pod_count_known then obs.pod_count else vc.status.pod_count;
    };
  }

  -- The fields after it.
  unfoldable pub apply_integrations : VClusterObservation → VCluster → VCluster
  apply_integrations obs vc = record vc {
    status = record vc.status {
      protection_enabled =
          if obs.protection_known && not obs.cluster_timed_out
          then obs.protected
          else vc.status.protection_enabled;
      rancher = some (record {
        state = rancher_word obs.rancher_state;
        paired = if obs.rancher_known then obs.rancher_paired else was_paired vc.status.rancher;
      });
      last_backup =
          if obs.backups_known then last_backup_of obs.last_backup else vc.status.last_backup;
    };
  }

  -- The three conditions that are written whatever was read.
  unfoldable pub apply_verdicts : VClusterObservation → VCluster → VCluster
  apply_verdicts obs vc =
      let p = provisioned_from obs in
      let q = rancher_paired_from obs in
      let d = deletion_protected_from vc obs in
      with_condition api now deletion_protected d.0 d.1 (
        with_condition api now rancher_paired q.0 q.1
          (with_condition api now resources_provisioned p.0 p.1 vc))

  unfoldable pub apply_observation : VClusterObservation → VCluster → VCluster
  apply_observation obs vc =
      if is_some obs.err
      then apply_verdicts obs vc
      else apply_integrations obs
          (refine_argocd_ready obs (apply_versions obs (apply_verdicts obs vc)))
