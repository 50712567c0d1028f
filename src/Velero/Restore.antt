-- ===== src/Velero/Restore.antt =====
-- createVeleroRestore and AbortInPlaceRestore of internal/service/velero.go.
use vcluster_manager.Prelude.{
  String, Bool, true, false, not, ◌&&◌, ◌||◌, Option, none, some, if◌then◌else◌, str_eq,
}
use vcluster_manager.VCluster.{Error, wrap}
use vcluster_manager.Marker.{VeleroRestoreView}
use vcluster_manager.Cluster.{returned, raised, VClusterTopology, is_not_found, host_name}
use vcluster_manager.Velero.{
  StatusClient, Actor, VeleroError, forbidden_request, backup_name_required, invalid_backup_name,
  invalid_vcluster_name, cross_vcluster_restore_unsupported, k8s_unavailable, backup_lookup_failed,
  backup_not_restorable, restore_stage_failed, restore_stage_failed_volume_gone, client_failed,
  Outcome, done, refused, read_phase, suspended, quiesced, deleted_pvc, submitted_restore, watched,
  Service, Serve, ◌>>=◌, ◌>>◌, pure, ask, note, env_or_default, valid_backup_name,
  valid_vcluster_name,
}

-- The target is the vcluster itself.
abbrev pub is_in_place : String → String → Bool
is_in_place name target = str_eq target "" || str_eq target name

-- The guards of createVeleroRestore, in their order.
unfoldable pub refuse_restore : Actor → String → String → String → Option VeleroError
refuse_restore actor name backup target =
    if not actor.is_admin
    then some forbidden_request
    else (if str_eq backup ""
        then some backup_name_required
        else (if not (valid_backup_name backup)
            then some invalid_backup_name
            else (if not (str_eq target "") && not (valid_vcluster_name target)
                then some invalid_vcluster_name
                else (if not (str_eq target "") && not (str_eq target name)
                    then some cross_vcluster_restore_unsupported
                    else none))))

module _ {W : Type 0} (svc : Service W) (k : StatusClient W) where
  -- abortInPlaceRestore: best effort.
  unfoldable pub resume_after_abort : String → Serve W (Option Error)
  resume_after_abort name = ask (suspended name false) (k.suspend_flux name false)

  -- Deletes the volume of the topology that the quiescing found. A volume that is gone already is
  -- past the point of no return, not a failure.
  unfoldable pub delete_volume : String → VClusterTopology → Serve W (Option VeleroError)
  delete_volume name topo = do
    err ← ask (deleted_pvc name topo.pvc_name) (k.delete_pvc_named name topo.pvc_name)
    elim err [
      | none ↦ pure none
      | some e ↦ elim (is_not_found e) [
        | true ↦ pure none
        | false ↦ (do
          resume_after_abort name
          pure (some (restore_stage_failed (wrap "suppression du volume" e))))
      ]
    ]

  unfoldable pub quiesce_and_delete : String → Serve W (Option VeleroError)
  quiesce_and_delete name = do
    topo ← ask (quiesced name) (k.quiesce name)
    elim topo [
      | raised e ↦ (do
        resume_after_abort name
        pure (some (restore_stage_failed (wrap "suppression du plan de contrôle" e))))
      | returned t ↦ delete_volume name t
    ]

  unfoldable pub suspend_and_delete : String → Serve W (Option VeleroError)
  suspend_and_delete name = do
    err ← ask (suspended name true) (k.suspend_flux name true)
    elim err [
      | some e ↦ pure (some (restore_stage_failed (wrap "suspension de Flux" e)))
      | none ↦ quiesce_and_delete name
    ]

  -- The destructive half of an in-place restore; no error means that the volume is gone.
  unfoldable pub stage_volume : String → String → Serve W (Option VeleroError)
  stage_volume name backup = do
    phase ← ask (read_phase backup) (k.backup_phase backup svc.velero_namespace)
    elim phase [
      | raised e ↦ pure (some (backup_lookup_failed e))
      | returned p ↦
          (if not (str_eq p "Completed")
            then pure (some (backup_not_restorable p))
            else suspend_and_delete name)
    ]

  -- What a Restore that could not be created leads to.
  unfoldable pub submission_failed :
      String → Bool → Bool → Error → Serve W (Outcome VeleroRestoreView)
  submission_failed name in_place pvc_deleted e =
      if in_place
      then (if pvc_deleted
          then pure (refused (restore_stage_failed_volume_gone (wrap "création du restore" e)))
          else (do
            resume_after_abort name
            pure (refused (restore_stage_failed (wrap "création du restore" e)))))
      else pure (refused (restore_stage_failed (wrap "création du restore" e)))

  unfoldable pub submit_restore :
      String → String → Bool → Bool → Bool → Serve W (Outcome VeleroRestoreView)
  submit_restore name backup in_place pvc_deleted caller_owns_follow_up = do
    created ←
        ask (submitted_restore backup (host_name name) (host_name name))
          (k.create_restore backup (host_name name) (host_name name) svc.velero_namespace)
    elim created [
      | raised e ↦ submission_failed name in_place pvc_deleted e
      | returned restore ↦ (do
        if in_place && not caller_owns_follow_up then note (watched name restore) else pure tt
        pure (done (record { restore_name = restore; phase = "New"; in_place = in_place })))
    ]

  -- The body after the guards.
  unfoldable pub run_restore : String → String → String → Bool → Serve W (Outcome VeleroRestoreView)
  run_restore name backup target caller_owns_follow_up =
      if is_in_place name target
      then (do
        err ← stage_volume name backup
        elim err [
          | some e ↦ pure (refused e)
          | none ↦ submit_restore name backup true true caller_owns_follow_up
        ])
      else submit_restore name backup false false caller_owns_follow_up

module _ {W : Type 0} (svc : Service W) where
  unfoldable pub create_velero_restore :
      Actor → String → String → String → String → Bool → Serve W (Outcome VeleroRestoreView)
  create_velero_restore actor name env backup target caller_owns_follow_up =
      elim (refuse_restore actor name backup target) [
        | some e ↦ pure (refused e)
        | none ↦ elim (svc.k8s_for_env (env_or_default env)) [
          | none ↦ pure (refused k8s_unavailable)
          | some k ↦ run_restore svc k name backup target caller_owns_follow_up
        ]
      ]

  unfoldable pub abort_in_place_restore : Actor → String → String → Serve W (Option VeleroError)
  abort_in_place_restore actor name env =
      if not actor.is_admin
      then pure (some forbidden_request)
      else (if not (valid_vcluster_name name)
          then pure (some invalid_vcluster_name)
          else elim (svc.k8s_for_env (env_or_default env)) [
            | none ↦ pure (some k8s_unavailable)
            | some k ↦ (do
              err ← ask (suspended name false) (k.suspend_flux name false)
              elim err [ none ↦ pure none | some e ↦ pure (some (client_failed e)) ])
          ])
