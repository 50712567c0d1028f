-- ===== src/Status/Stale.antt =====
-- A read that failed makes the status stale and empties nothing.
use vcluster_manager.Prelude.{
  ℕ, String, ◌≡◌, ◌≢◌, ◌⊎◌, refl, true, false, Option, some, arith, str_eq,
}
use vcluster_manager.Kube.{
  KubeApi, condition_true, condition_unknown, argocd_ready, resources_provisioned, rancher_paired,
  type_index,
}
use vcluster_manager.VCluster.{VCluster, Error}
use vcluster_manager.Reconciler.Answers.{VClusterObservation}
use vcluster_manager.Status.Observe.{
  apply_observation, apply_verdicts, apply_versions, apply_integrations, refine_argocd_ready,
  provisioned_from, rancher_paired_from, was_paired,
}
use vcluster_manager.Status.Ready.{status_of}

-- The status without its conditions and its phase.
abbrev pub SameValues : VCluster → VCluster → Type 0
SameValues v w =
    (v.status.chart_version ≡ w.status.chart_version)
    × (v.status.k8s_version ≡ w.status.k8s_version)
    × (v.status.pod_count ≡ w.status.pod_count)
    × (v.status.resource_usage ≡ w.status.resource_usage)
    × (v.status.protection_enabled ≡ w.status.protection_enabled)
    × (v.status.rancher ≡ w.status.rancher)
    × (v.status.vault ≡ w.status.vault)
    × (v.status.last_backup ≡ w.status.last_backup)
    × (v.status.deletion ≡ w.status.deletion)

module _ (api : KubeApi) (parse_time : String → Option ℕ) (now : ℕ) where
  verdicts-same :
      (obs : VClusterObservation) (vc : VCluster)
      → SameValues (apply_verdicts api parse_time now obs vc) vc
  unfolding apply_verdicts
  verdicts-same obs vc = (refl, refl, refl, refl, refl, refl, refl, refl, refl)

  refine-same :
      (obs : VClusterObservation) (vc : VCluster)
      → SameValues (refine_argocd_ready api parse_time now obs vc) vc
  unfolding refine_argocd_ready
  refine-same obs vc = ground arith

  -- With no client for the cell, nothing but conditions changes; Provisioned and RancherPaired
  -- become Unknown.
  nothing_read :
      (obs : VClusterObservation) (vc : VCluster) (e : Error)
      → obs.err ≡ some e
      → (SameValues (apply_observation api parse_time now obs vc) vc)
        × (status_of (
              api.find_status_condition resources_provisioned
                (apply_observation api parse_time now obs vc).status.conditions)
            ≡ some condition_unknown)
        × (status_of (
              api.find_status_condition rancher_paired
                (apply_observation api parse_time now obs vc).status.conditions)
            ≡ some condition_unknown)
  unfolding apply_observation apply_verdicts provisioned_from rancher_paired_from type_index
  nothing_read obs vc e h = (ground arith, grind (arith, api.find-set), grind (arith, api.find-set))

  -- A chart version, once it was read, is never cleared by an observation.
  chart_version_stays :
      (obs : VClusterObservation) (vc : VCluster)
      → str_eq vc.status.chart_version "" ≡ false
      → str_eq (apply_observation api parse_time now obs vc).status.chart_version "" ≡ false
  unfolding apply_observation apply_verdicts apply_versions apply_integrations refine_argocd_ready
  chart_version_stays obs vc h = ground arith

  -- For each value of the status, its own source answered or the value is as it was: the pod
  -- count, the versions, the namespace's protection, the Rancher pairing and the last backup.
  pub silent_sources_keep :
      (obs : VClusterObservation) (vc : VCluster)
      → let after = (apply_observation api parse_time now obs vc).status in
        ((obs.pod_count_known ≡ true) ⊎ (after.pod_count ≡ vc.status.pod_count))
        × ((str_eq obs.chart_version "" ≡ false) ⊎ (after.chart_version ≡ vc.status.chart_version))
        × ((str_eq obs.k8s_version "" ≡ false) ⊎ (after.k8s_version ≡ vc.status.k8s_version))
        × ((obs.protection_known ≡ true) × (obs.cluster_timed_out ≡ false)
            ⊎ (after.protection_enabled ≡ vc.status.protection_enabled))
        × ((obs.rancher_known ≡ true) ⊎ (was_paired after.rancher ≡ was_paired vc.status.rancher))
        × ((obs.backups_known ≡ true) ⊎ (after.last_backup ≡ vc.status.last_backup))
  unfolding apply_observation apply_verdicts apply_versions apply_integrations refine_argocd_ready
  silent_sources_keep obs vc =
      (ground arith, ground arith, ground arith, ground arith, ground arith, ground arith)

  -- An observation never raises ArgoCDReady: a condition that is not True stays as it was.
  argocd_not_raised :
      (obs : VClusterObservation) (vc : VCluster)
      → status_of (api.find_status_condition argocd_ready vc.status.conditions)
        ≢ some condition_true
      → api.find_status_condition argocd_ready
          (apply_observation api parse_time now obs vc).status.conditions
        ≡ api.find_status_condition argocd_ready vc.status.conditions
  unfolding apply_observation apply_verdicts apply_versions apply_integrations refine_argocd_ready
      type_index
  argocd_not_raised obs vc h = grind (arith, api.find-set)
