-- ===== src/Cluster/Workloads.antt =====
-- The workloads and the volume of a vcluster in internal/kubernetes/velero.go.
use Prim.Native.String.{◌++◌ as append}
use vcluster_manager.Prelude.{
  ℕ, zero, suc, String, Bool, true, false, Option, none, some, List, [], ◌∷◌, if◌then◌else◌, str_eq,
}
use vcluster_manager.VCluster.{Error, other, wrap}
use vcluster_manager.Cluster.{
  Gvr, stateful_set, deployment, pod, persistent_volume_claim, helm_release, kustomization,
  Unstructured, suspend_patch, replicas_patch, Result, returned, raised, Io, ◌>>=◌, ◌>>◌, pure,
  Dynamic, is_not_found, host_name, etcd_name, VClusterTopology,
}

-- The topology where the etcd StatefulSet is there: `found` tells what a StatefulSet that has the
-- name of the control plane answers.
unfoldable pub external_etcd : String → Result Unstructured → VClusterTopology
unfolding etcd_name
external_etcd name found = record {
  control_plane_kind = elim found [ returned _ ↦ "StatefulSet" | raised _ ↦ "Deployment" ];
  etcd_stateful_set = etcd_name name;
  pvc_name = append (append "data-" (etcd_name name)) "-0";
}

unfoldable pub embedded_etcd : String → VClusterTopology
embedded_etcd name = record {
  control_plane_kind = "StatefulSet";
  etcd_stateful_set = "";
  pvc_name = append (append "data-vcluster-" name) "-0";
}

unfoldable pub control_plane_gvr : VClusterTopology → Gvr
control_plane_gvr topo =
    if str_eq topo.control_plane_kind "Deployment" then deployment else stateful_set

-- An error that IsNotFound is no error.
abbrev pub unless_missing : String → Option Error → Option Error
unless_missing what none = none
unless_missing what (some e) = if is_not_found e then none else some (wrap what e)

abbrev pub wrap_error : String → Option Error → Option Error
wrap_error what none = none
wrap_error what (some e) = some (wrap what e)

module _ {W : Type 0} (c : Dynamic W) where
  unfoldable pub detect_vcluster_topology : String → Io W (Result VClusterTopology)
  detect_vcluster_topology name = do
    etcd ← c.get stateful_set (host_name name) (etcd_name name)
    elim etcd [
      | returned _ ↦ (do
        plane ← c.get stateful_set (host_name name) (host_name name)
        pure (returned (external_etcd name plane)))
      | raised e ↦ pure (
          if is_not_found e
          then returned (embedded_etcd name)
          else raised (wrap "checking etcd statefulset" e))
    ]

  -- No label: nothing to wait for.
  unfoldable pub workload_selector : Gvr → String → String → Io W (Result (List (String × String)))
  workload_selector gvr ns workload = do
    obj ← c.get gvr ns workload
    elim obj [
      | returned o ↦ pure (returned o.match_labels)
      | raised e ↦ pure (if is_not_found e then returned [] else raised (wrap "getting workload" e))
    ]

  -- The loop of waitForPodsGoneBySelector: `polls` more polls before the deadline, or the end of
  -- the context, is what the select takes.
  unfoldable pub poll_pods : ℕ → String → List (String × String) → Io W (Option Error)
  poll_pods zero ns selector = do
    pods ← c.list pod ns selector
    elim pods [
      | raised e ↦ pure (some (wrap "listing pods" e))
      | returned [] ↦ pure none
      | returned (_ ∷ _) ↦ pure (some (other "pods still there"))
    ]
  poll_pods (suc polls) ns selector = do
    pods ← c.list pod ns selector
    elim pods [
      | raised e ↦ pure (some (wrap "listing pods" e))
      | returned [] ↦ pure none
      | returned (_ ∷ _) ↦ poll_pods polls ns selector
    ]

  unfoldable pub wait_for_pods_gone_by_selector :
      ℕ → String → List (String × String) → Io W (Option Error)
  wait_for_pods_gone_by_selector polls ns [] = pure none
  wait_for_pods_gone_by_selector polls ns (l ∷ ls) = poll_pods polls ns (l ∷ ls)

  unfoldable pub wait_for_workload_pods_gone : ℕ → Gvr → String → String → Io W (Option Error)
  wait_for_workload_pods_gone polls gvr ns workload = do
    selector ← workload_selector gvr ns workload
    elim selector [
      | raised e ↦ pure (some e)
      | returned labels ↦ wait_for_pods_gone_by_selector polls ns labels
    ]

  unfoldable pub wait_for_vcluster_pods_gone : ℕ → String → Io W (Option Error)
  wait_for_vcluster_pods_gone polls name = do
    topo ← detect_vcluster_topology name
    elim topo [
      | raised e ↦ pure (some (wrap "detecting vcluster topology" e))
      | returned t ↦ (do
        plane ←
            wait_for_workload_pods_gone polls (control_plane_gvr t) (host_name name)
              (host_name name)
        elim plane [
          | some e ↦ pure (some (wrap "waiting for control-plane pod(s)" e))
          | none ↦
              (if str_eq t.etcd_stateful_set "" then pure none else (do
                etcd ←
                    wait_for_workload_pods_gone polls stateful_set (host_name name)
                      t.etcd_stateful_set
                pure (wrap_error "waiting for etcd pod(s)" etcd)))
        ])
    ]

  -- The selector of the etcd pods, nothing where etcd is embedded.
  unfoldable pub etcd_selector : String → VClusterTopology → Io W (Result (List (String × String)))
  etcd_selector name topo =
      if str_eq topo.etcd_stateful_set ""
      then pure (returned [])
      else workload_selector stateful_set (host_name name) topo.etcd_stateful_set

  -- Both deletions; a workload that is gone is no failure.
  unfoldable pub delete_workloads : String → VClusterTopology → Io W (Option Error)
  delete_workloads name topo = do
    plane ← c.delete (control_plane_gvr topo) (host_name name) (host_name name)
    elim (unless_missing "deleting control plane" plane) [
      | some e ↦ pure (some e)
      | none ↦
          (if str_eq topo.etcd_stateful_set "" then pure none else (do
            etcd ← c.delete stateful_set (host_name name) topo.etcd_stateful_set
            pure (unless_missing "deleting etcd statefulset" etcd)))
    ]

  -- What QuiesceVClusterForInPlaceRestore does of the topology that it detected. A wait that fails
  -- is logged and no more.
  unfoldable pub quiesce_topology : ℕ → String → VClusterTopology → Io W (Result VClusterTopology)
  quiesce_topology polls name topo = do
    plane ← workload_selector (control_plane_gvr topo) (host_name name) (host_name name)
    elim plane [
      | raised e ↦ pure (raised (wrap "reading control-plane selector" e))
      | returned plane_labels ↦ (do
        etcd ← etcd_selector name topo
        elim etcd [
          | raised e ↦ pure (raised (wrap "reading etcd statefulset selector" e))
          | returned etcd_labels ↦ (do
            err ← delete_workloads name topo
            elim err [
              | some e ↦ pure (raised e)
              | none ↦ (do
                wait_for_pods_gone_by_selector polls (host_name name) plane_labels
                wait_for_pods_gone_by_selector polls (host_name name) etcd_labels
                pure (returned topo))
            ])
        ])
    ]

  unfoldable pub quiesce_vcluster_for_in_place_restore : ℕ → String → Io W (Result VClusterTopology)
  quiesce_vcluster_for_in_place_restore polls name = do
    topo ← detect_vcluster_topology name
    elim topo [
      | raised e ↦ pure (raised (wrap "detecting vcluster topology" e))
      | returned t ↦ quiesce_topology polls name t
    ]

  -- The HelmRelease, then the Kustomization.
  unfoldable pub set_flux_suspend : String → Bool → Io W (Option Error)
  set_flux_suspend name suspend = do
    release ← c.patch helm_release (host_name name) (host_name name) (suspend_patch suspend)
    elim release [
      | some e ↦ pure (some (wrap "patching helmrelease" e))
      | none ↦ (do
        tenant ← c.patch kustomization "flux-system" (append "tenant-" name) (suspend_patch suspend)
        pure (wrap_error "patching kustomization" tenant))
    ]

  unfoldable pub scale_vcluster_workloads : String → ℕ → Io W (Option Error)
  scale_vcluster_workloads name replicas = do
    topo ← detect_vcluster_topology name
    elim topo [
      | raised e ↦ pure (some (wrap "detecting vcluster topology" e))
      | returned t ↦ (do
        plane ←
            c.patch (control_plane_gvr t) (host_name name) (host_name name)
              (replicas_patch replicas)
        elim plane [
          | some e ↦ pure (some (wrap "scaling control plane" e))
          | none ↦
              (if str_eq t.etcd_stateful_set "" then pure none else (do
                etcd ←
                    c.patch stateful_set (host_name name) t.etcd_stateful_set
                      (replicas_patch replicas)
                pure (wrap_error "scaling statefulset" etcd)))
        ])
    ]

  -- Whether the volume is there, and whether it is being deleted.
  unfoldable pub get_vcluster_pvc_state : String → Io W (Result (Bool × Bool))
  get_vcluster_pvc_state name = do
    topo ← detect_vcluster_topology name
    elim topo [
      | raised e ↦ pure (raised (wrap "detecting vcluster topology" e))
      | returned t ↦ (do
        pvc ← c.get persistent_volume_claim (host_name name) t.pvc_name
        elim pvc [
          | returned o ↦ pure (returned (true, o.is_deleting))
          | raised e ↦
              pure
                (if is_not_found e then returned (false, false) else raised (wrap "reading PVC" e))
        ])
    ]

  unfoldable pub delete_vcluster_pvc_named : String → String → Io W (Option Error)
  delete_vcluster_pvc_named name pvc = do
    gone ← c.delete persistent_volume_claim (host_name name) pvc
    pure (wrap_error "deleting PVC" gone)

  unfoldable pub delete_vcluster_pvc : String → Io W (Option Error)
  delete_vcluster_pvc name = do
    topo ← detect_vcluster_topology name
    elim topo [
      | raised e ↦ pure (some (wrap "detecting vcluster topology" e))
      | returned t ↦ delete_vcluster_pvc_named name t.pvc_name
    ]

  -- The loop over the pods, which counts the ones it deleted.
  unfoldable pub delete_pods : String → List Unstructured → ℕ → Io W (ℕ × Option Error)
  delete_pods ns [] deleted = pure (deleted, none)
  delete_pods ns (p ∷ ps) deleted = do
    err ← c.delete pod ns p.name
    elim err [
      | none ↦ delete_pods ns ps (suc deleted)
      | some e ↦ elim (is_not_found e) [
        | true ↦ delete_pods ns ps deleted
        | false ↦ pure (deleted, some (wrap "deleting dns pod" e))
      ]
    ]

  unfoldable pub restart_vcluster_dns : String → Io W (ℕ × Option Error)
  restart_vcluster_dns name = do
    pods ←
        c.list pod (host_name name)
          (("k8s-app", "vcluster-kube-dns") ∷ ("vcluster.loft.sh/managed-by", name) ∷ [])
    elim pods [
      | raised e ↦ pure (zero, some (wrap "listing vcluster dns pods" e))
      | returned ps ↦ delete_pods (host_name name) ps 0
    ]
