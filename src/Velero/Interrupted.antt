-- ===== src/Velero/Interrupted.antt =====
-- Sequences that stop halfway, from the service of internal/service/velero.go down to the calls of
-- internal/kubernetes/velero.go.
use Prim.Native.String.{◌++◌ as append}
use vcluster_manager.Prelude.{
  ◌≡◌, refl, sym, String, Bool, true, false, none, some, [], any, arith, str_eq,
}
use vcluster_manager.VCluster.{Error, wrap}
use vcluster_manager.Cluster.{
  returned, Dynamic, Unstructured, velero_backup, helm_release, kustomization,
  persistent_volume_claim, stateful_set, suspend_patch, host_name, VClusterTopology,
}
use vcluster_manager.Cluster.Workloads.{
  quiesce_vcluster_for_in_place_restore, embedded_etcd, set_flux_suspend,
}
use vcluster_manager.Cluster.Velero.{list_active_velero_restores, get_backup_phase}
use vcluster_manager.Cluster.Topology.{QuietServer, is_absent, quiesced_volume_unseen}
use vcluster_manager.Velero.{
  restore_stage_failed, done, refused, Service, ServiceCall, suspended, ServiceRun, status_client,
}
use vcluster_manager.Velero.Restore.{suspend_and_delete, stage_volume, run_restore}
use vcluster_manager.Velero.Follow.{inspect_restore, interrupted_view}

-- Flux is asked to go on.
abbrev pub resumes : ServiceCall → Bool
resumes (suspended _ false _) = true
resumes _ = false

module _ {W : Type 0} (svc : Service W) (c : Dynamic W) where
  -- Where the HelmRelease takes the suspension and the Kustomization does not, the restore of a
  -- completed backup fails with the error for a failed stage and makes no attempt to resume Flux. The
  -- refused patch of the Kustomization is its last call of the API server, so the HelmRelease stays
  -- as its own patch left it.
  pub half_suspended_stays :
      (name backup : String) (o : Bool) (s : ServiceRun W) (b : Unstructured) (w1 w2 : W)
      (e : Error)
      → c.get velero_backup svc.velero_namespace backup s.world ≡ (returned b, w1)
      → str_eq b.phase "Completed" ≡ true
      → c.patch helm_release (host_name name) (host_name name) (suspend_patch true) w1 ≡ (none, w2)
      → (c.patch kustomization "flux-system" (append "tenant-" name) (suspend_patch true) w2).0
        ≡ some e
      → (let (result, s') = run_restore svc (status_client c) name backup "" o s in
          (result
            ≡ refused (
                restore_stage_failed (wrap "suspension de Flux" (wrap "patching kustomization" e))))
          × (any resumes s'.calls ≡ any resumes s.calls)
          × (s'.world
              ≡ (c.patch kustomization "flux-system"
                  (append "tenant-" name)
                  (suspend_patch true)
                  w2).1))
  unfolding run_restore stage_volume suspend_and_delete get_backup_phase set_flux_suspend
  half_suspended_stays name backup o s b w1 w2 e g p h k =
      let empty : str_eq "" "" ≡ true = refl in
      (ground (arith, empty, g, h), ground (arith, empty, g, h), ground (arith, empty, g, h, k))

  -- A sequence that stopped after it quiesced a vcluster with an external etcd, and before it deleted
  -- the volume, is inspected as one that lost it: over an API server that no one else writes to,
  -- once the StatefulSet of the etcd is gone, with no volume named as for an embedded etcd and no
  -- restore that runs, the view says that the
  -- volume is gone, though the volume that the topology named answers as before the quiescing.
  pub quiesced_read_as_lost :
      QuietServer c
      → (name : String) (t : VClusterTopology) (w : W) (s : ServiceRun W)
      → (quiesce_vcluster_for_in_place_restore c 60 name w).0 ≡ returned t
      → str_eq t.etcd_stateful_set "" ≡ false
      → is_absent (c.get persistent_volume_claim (host_name name) (embedded_etcd name).pvc_name w).0
        ≡ true
      → s.world ≡ (quiesce_vcluster_for_in_place_restore c 60 name w).1
      → is_absent (c.get stateful_set (host_name name) t.etcd_stateful_set s.world).0 ≡ true
      → ((v : W) → (list_active_velero_restores c name svc.velero_namespace v).0 ≡ returned [])
      → ((inspect_restore svc (status_client c) name s).0
          ≡ done
              (record { volume_gone = true; active_restore_name = ""; active_restore_phase = "" }))
        × ((c.get persistent_volume_claim (host_name name) t.pvc_name s.world).0
            ≡ (c.get persistent_volume_claim (host_name name) t.pvc_name w).0)
  unfolding inspect_restore interrupted_view
  quiesced_read_as_lost q name t w s h x gone at removed idle =
      let unseen = quiesced_volume_unseen c q 60 name t w h x gone (rw (sym at) removed) in
      (grind (arith, unseen, at, idle), rw at unseen.1)
