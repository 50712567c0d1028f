-- ===== src/Velero/Request.antt =====
-- The orders that internal/service/velero.go posts for the operator, and the choice between them
-- and the direct path.
use vcluster_manager.Prelude.{
  String, Bool, false, not, ◌&&◌, Option, none, some, List, [], ◌∷◌, if◌then◌else◌, str_eq,
}
use vcluster_manager.Marker.{VeleroRestoreView}
use vcluster_manager.Cluster.{returned, raised}
use vcluster_manager.Velero.{
  StatusClient, Actor, VeleroError, forbidden_request, backup_name_required, invalid_backup_name,
  invalid_vcluster_name, k8s_unavailable, client_failed, Outcome, done, refused, posted_order,
  submitted_backup, deleted_backup, Service, Serve, ◌>>=◌, pure, ask, env_or_default,
  valid_backup_name, valid_vcluster_name,
}
use vcluster_manager.Velero.Restore.{is_in_place, create_velero_restore}

pub record VeleroRestoreRequested : Type 0 where
  pub requested_at : String
  pub from_backup : String
  pub target : String
  pub name : String
  pub in_place : Bool

pub record VeleroBackupAck : Type 0 where
  pub backup_name : String
  pub requested_at : String
  pub name : String

-- The annotations of api/v1alpha1.
abbrev pub ann_backup_requested_at : String
ann_backup_requested_at = "backup.vcluster.rebuild-it.fr/requestedAt"

abbrev pub ann_restore_requested_at : String
ann_restore_requested_at = "restore.vcluster.rebuild-it.fr/requestedAt"

abbrev pub ann_restore_from_backup : String
ann_restore_from_backup = "restore.vcluster.rebuild-it.fr/from-backup"

abbrev pub ann_restore_target : String
ann_restore_target = "restore.vcluster.rebuild-it.fr/target"

abbrev pub ann_restore_requested_by : String
ann_restore_requested_by = "restore.vcluster.rebuild-it.fr/requested-by"

-- The guards of RequestVeleroRestore, in their order.
unfoldable pub refuse_order : Actor → String → String → String → Option VeleroError
refuse_order actor name backup target =
    if not actor.is_admin
    then some forbidden_request
    else (if str_eq backup ""
        then some backup_name_required
        else (if not (valid_backup_name backup)
            then some invalid_backup_name
            else (if not (valid_vcluster_name name)
                then some invalid_vcluster_name
                else (if not (str_eq target "") && not (valid_vcluster_name target)
                    then some invalid_vcluster_name
                    else none))))

-- The vcluster whose marker takes the order: the target's, for another target.
unfoldable pub marker_vcluster : String → String → String
marker_vcluster name target =
    if not (str_eq target "") && not (str_eq target name) then target else name

unfoldable pub restore_annotations : String → String → String → String → List (String × String)
restore_annotations nonce backup target username =
    (ann_restore_requested_at, nonce)
    ∷ (ann_restore_from_backup, backup)
    ∷ (ann_restore_target, target)
    ∷ (ann_restore_requested_by, username)
    ∷ []

module _ {W : Type 0} (svc : Service W) where
  abbrev nonce : Serve W String
  nonce s =
      ((svc.new_request_nonce s.world).0, record s { world = (svc.new_request_nonce s.world).1 })

  unfoldable pub post_restore :
      StatusClient W → Actor → String → String → String → Serve W (Outcome VeleroRestoreRequested)
  post_restore k actor name backup target = do
    at ← nonce
    let annotations = restore_annotations at backup target actor.username
    let marker = marker_vcluster name target
    err ← ask (posted_order marker annotations) (k.request_ops marker annotations)
    elim err [
      | some e ↦ pure (refused (client_failed e))
      | none ↦ pure (
          done (record {
            requested_at = at;
            from_backup = backup;
            target = target;
            name = marker;
            in_place = is_in_place name target;
          }))
    ]

  unfoldable pub request_velero_restore :
      Actor → String → String → String → String → Serve W (Outcome VeleroRestoreRequested)
  request_velero_restore actor name env backup target =
      elim (refuse_order actor name backup target) [
        | some e ↦ pure (refused e)
        | none ↦ elim (svc.k8s_for_env (env_or_default env)) [
          | none ↦ pure (refused k8s_unavailable)
          | some k ↦ post_restore k actor name backup target
        ]
      ]

  -- The restore of a posted order has no name yet.
  unfoldable pub start_velero_restore :
      Actor → String → String → String → String → Serve W (Outcome VeleroRestoreView)
  start_velero_restore actor name env backup target =
      if not (str_eq svc.velero_trigger_mode "annotation")
      then create_velero_restore svc actor name env backup target false
      else (do
        req ← request_velero_restore actor name env backup target
        elim req [
          | refused e ↦ pure (refused e)
          | done r ↦
              pure (done (record { restore_name = ""; phase = "New"; in_place = r.in_place }))
        ])

  unfoldable pub request_velero_backup : Actor → String → String → Serve W (Outcome VeleroBackupAck)
  request_velero_backup actor name env =
      if not actor.is_admin
      then pure (refused forbidden_request)
      else (if not (valid_vcluster_name name)
          then pure (refused invalid_vcluster_name)
          else elim (svc.k8s_for_env (env_or_default env)) [
            | none ↦ pure (refused k8s_unavailable)
            | some k ↦ (do
              at ← nonce
              let annotations = (ann_backup_requested_at, at) ∷ []
              err ← ask (posted_order name annotations) (k.request_ops name annotations)
              elim err [
                | some e ↦ pure (refused (client_failed e))
                | none ↦ pure (done (record { backup_name = ""; requested_at = at; name = name }))
              ])
          ])

  unfoldable pub trigger_backup_of : Actor → String → String → Serve W (Outcome VeleroBackupAck)
  trigger_backup_of actor name env =
      if not actor.is_admin
      then pure (refused forbidden_request)
      else (if not (valid_vcluster_name name)
          then pure (refused invalid_vcluster_name)
          else elim (svc.k8s_for_env (env_or_default env)) [
            | none ↦ pure (refused k8s_unavailable)
            | some k ↦ (do
              created ←
                  ask (submitted_backup name)
                    (k.create_backup name svc.velero_namespace svc.velero_default_ttl "")
              elim created [
                | raised e ↦ pure (refused (client_failed e))
                | returned b ↦
                    pure (done (record { backup_name = b; requested_at = ""; name = name }))
              ])
          ])

  unfoldable pub start_velero_backup : Actor → String → String → Serve W (Outcome VeleroBackupAck)
  start_velero_backup actor name env =
      if str_eq svc.velero_trigger_mode "annotation"
      then request_velero_backup actor name env
      else trigger_backup_of actor name env

  unfoldable pub delete_backup_of : Actor → String → String → Serve W (Outcome String)
  delete_backup_of actor backup env =
      if not actor.is_admin
      then pure (refused forbidden_request)
      else (if not (valid_backup_name backup)
          then pure (refused invalid_backup_name)
          else elim (svc.k8s_for_env (env_or_default env)) [
            | none ↦ pure (refused k8s_unavailable)
            | some k ↦ (do
              err ← ask (deleted_backup backup) (k.delete_backup backup svc.velero_namespace)
              elim err [ none ↦ pure (done backup) | some e ↦ pure (refused (client_failed e)) ])
          ])
