-- ===== src/Tests/Velero.antt =====
-- Restores over a concrete cluster (internal/service/velero.go, internal/kubernetes/velero.go).
use vcluster_manager.Prelude.{◌≡◌, refl, true, false, none, some, [], any}
use vcluster_manager.VCluster.{other, wrap}
use vcluster_manager.Marker.{VeleroRestoreStatusView, is_terminal_restore_phase}
use vcluster_manager.Cluster.{
  stateful_set, kustomization, suspend_patch, persistent_volume_claim, returned, Dynamic,
  is_not_found, reason_for_error, host_name, etcd_name, VClusterTopology,
}
use vcluster_manager.Cluster.Workloads.{
  external_etcd, embedded_etcd, control_plane_gvr, detect_vcluster_topology, set_flux_suspend,
  workload_selector, wait_for_pods_gone_by_selector, etcd_selector, delete_workloads,
  quiesce_topology, quiesce_vcluster_for_in_place_restore,
}
use vcluster_manager.Cluster.Velero.{
  active_restores_of, list_active_velero_restores, get_restore_status,
}
use vcluster_manager.Cluster.Topology.{is_absent}
use vcluster_manager.Velero.{ServiceRun, status_client, done, refused, restore_stage_failed}
use vcluster_manager.Velero.Restore.{create_velero_restore, run_restore}
use vcluster_manager.Velero.Interrupted.{resumes}
use vcluster_manager.Velero.Protocol.{promises, stage_of, restore_keeps_protocol}
use vcluster_manager.Velero.Settled.{
  is_settled, is_recorded, has_resumed, watcher_settles, poll_tells_truth,
}
use vcluster_manager.Velero.Follow.{
  watch_restore, inspect_restore, poll_restore, poll_resume, find_state, status_view,
  velero_resume_result, resolve_velero_resume,
}
use vcluster_manager.Velero.Interrupted.{quiesced_read_as_lost, half_suspended_stays}
use vcluster_manager.Tests.Cluster.{
  object, Store, cluster, quiet, external, service, at, admin, client,
}

abbrev start : ServiceRun Store
start = at external

restore_keeps_protocol_example :
    let (result, s) =
      create_velero_restore (service client "") admin "demo" "" "nightly" "" false start in
    promises result (stage_of "demo" s.calls) ≡ true
restore_keeps_protocol_example =
    restore_keeps_protocol (service client "") admin "demo" "" "nightly" "" false start refl

watcher_settles_example :
    is_settled 3 "demo" "r" (watch_restore (service client "") client 3 false "demo" "r" start).1
    ≡ true
watcher_settles_example = watcher_settles (service client "") client 3 "demo" "r" start refl

abbrev topology : VClusterTopology
topology = record {
  control_plane_kind = "Deployment";
  etcd_stateful_set = "vcluster-demo-etcd";
  pvc_name = "data-vcluster-demo-etcd-0";
}

abbrev quiesced_store : Store
quiesced_store = (quiesce_vcluster_for_in_place_restore (cluster none) 60 "demo" external).1

quiesces :
    (quiesce_vcluster_for_in_place_restore (cluster none) 60 "demo" external).0 ≡ returned topology
unfolding quiesce_vcluster_for_in_place_restore quiesce_topology detect_vcluster_topology host_name
    etcd_name is_not_found reason_for_error external_etcd embedded_etcd workload_selector
    etcd_selector delete_workloads wait_for_pods_gone_by_selector control_plane_gvr
quiesces = refl

no_embedded_volume :
    is_absent
      ((cluster none).get persistent_volume_claim
        (host_name "demo")
        (embedded_etcd "demo").pvc_name
        external).0
    ≡ true
unfolding is_not_found reason_for_error embedded_etcd
no_embedded_volume = refl

no_etcd :
    is_absent
      ((cluster none).get stateful_set (host_name "demo") "vcluster-demo-etcd" quiesced_store).0
    ≡ true
unfolding quiesce_vcluster_for_in_place_restore quiesce_topology detect_vcluster_topology host_name
    etcd_name is_not_found reason_for_error external_etcd embedded_etcd workload_selector
    etcd_selector delete_workloads wait_for_pods_gone_by_selector control_plane_gvr
no_etcd = refl

none_active :
    (v : Store) → (list_active_velero_restores (cluster none) "demo" "velero" v).0 ≡ returned []
unfolding list_active_velero_restores active_restores_of
none_active v = refl

quiesced_read_as_lost_example :
    ((inspect_restore (service client "") client "demo" (at quiesced_store)).0
      ≡ done (record { volume_gone = true; active_restore_name = ""; active_restore_phase = "" }))
    × (((cluster none).get persistent_volume_claim
          (host_name "demo")
          "data-vcluster-demo-etcd-0"
          quiesced_store).0
        ≡ ((cluster none).get persistent_volume_claim
            (host_name "demo")
            "data-vcluster-demo-etcd-0"
            external).0)
quiesced_read_as_lost_example =
    quiesced_read_as_lost (service client "") (cluster none) quiet "demo" topology external
      (at quiesced_store) quiesces refl no_embedded_volume refl no_etcd none_active

-- The Kustomization refuses.
abbrev torn : Dynamic Store
torn = cluster (some (other "conflict"))

half_suspended_stays_example :
    let (result, s) =
      run_restore
        (service (status_client torn) "")
        (status_client torn)
        "demo"
        "nightly"
        ""
        false
        start in
    (result
      ≡ refused (
          restore_stage_failed
            (wrap "suspension de Flux" (wrap "patching kustomization" (other "conflict")))))
    × (any resumes s.calls ≡ false)
    × (s.world
        ≡ (torn.patch kustomization "flux-system" "tenant-demo" (suspend_patch true) external).1)
half_suspended_stays_example =
    half_suspended_stays (service (status_client torn) "") torn "demo" "nightly" false start
      (object "nightly") external external (other "conflict") refl refl refl refl

abbrev polled_view : VeleroRestoreStatusView
polled_view = record {
  phase = "Completed";
  resume_pending = false;
  resume_failed = false;
  resume_error = "";
  volume_destroyed = false;
}

polled : (poll_restore (service client "") client "demo" "r" true start).0 ≡ done polled_view
unfolding poll_restore poll_resume velero_resume_result resolve_velero_resume find_state status_view
    get_restore_status set_flux_suspend is_terminal_restore_phase
polled = refl

terminal : is_terminal_restore_phase "Completed" ≡ true
unfolding is_terminal_restore_phase
terminal = refl

poll_tells_truth_example :
    (has_resumed "demo" (poll_restore (service client "") client "demo" "r" true start).1.calls
      ≡ true)
    × (is_recorded (
          find_state "r"
            (poll_restore (service client "") client "demo" "r" true start).1.resume_states)
        ≡ true)
unfolding find_state
poll_tells_truth_example =
    poll_tells_truth (service client "") client "demo" "r" start polled_view polled terminal refl
      refl
