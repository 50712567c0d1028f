-- ===== src/Cluster/Orders.antt =====
-- The marker of a vcluster as the application posts and reads it: RequestVeleroOps and
-- GetVeleroOpsRestoreState of internal/kubernetes/velero.go.
use vcluster_manager.Prelude.{String, true, false, Option, none, some, List, if◌then◌else◌}
use vcluster_manager.VCluster.{Error, wrap}
use vcluster_manager.Marker.{RestoreOpsStatus}
use vcluster_manager.Cluster.{
  velero_ops, marker_manifest, annotations_patch, Result, returned, raised, Io, ◌>>=◌, pure,
  Dynamic, is_not_found, is_already_exists, host_name,
}
use vcluster_manager.Cluster.Workloads.{wrap_error}

module _ {W : Type 0} (c : Dynamic W) where
  -- After a patch that found no marker.
  unfoldable pub create_marker : String → List (String × String) → Io W (Option Error)
  create_marker name annotations = do
    created ← c.create velero_ops (host_name name) (marker_manifest name annotations)
    elim created [
      | returned _ ↦ pure none
      | raised e ↦ elim (is_already_exists e) [
        | false ↦ pure (some (wrap "creating the marker" e))
        | true ↦ (do
          again ← c.patch velero_ops (host_name name) name (annotations_patch annotations)
          pure (wrap_error "annotating the marker after a concurrent create" again))
      ]
    ]

  unfoldable pub request_velero_ops : String → List (String × String) → Io W (Option Error)
  request_velero_ops name annotations = do
    err ← c.patch velero_ops (host_name name) name (annotations_patch annotations)
    elim err [
      | none ↦ pure none
      | some e ↦ elim (is_not_found e) [
        | false ↦ pure (some (wrap "annotating the marker" e))
        | true ↦ create_marker name annotations
      ]
    ]

  -- No state where there is no marker.
  unfoldable pub get_velero_ops_restore_state : String → Io W (Result (Option RestoreOpsStatus))
  get_velero_ops_restore_state name = do
    obj ← c.get velero_ops (host_name name) name
    elim obj [
      | returned o ↦ pure (returned (some o.restore))
      | raised e ↦
          pure (if is_not_found e then returned none else raised (wrap "reading the marker" e))
    ]
