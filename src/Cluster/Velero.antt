-- ===== src/Cluster/Velero.antt =====
-- Velero's objects in internal/kubernetes/velero.go: backups and restores.
use Prim.Native.String.{◌++◌ as append, len, slice}
use vcluster_manager.Prelude.{
  String, Bool, ◌||◌, Option, none, some, List, [], ◌∷◌, if◌then◌else◌, str_eq, any, ltb,
}
use vcluster_manager.VCluster.{Error, wrap}
use vcluster_manager.Marker.{is_terminal_restore_phase}
use vcluster_manager.Choice.{VeleroBackupInfo}
use vcluster_manager.Cluster.{
  velero_backup, velero_restore, delete_backup_request, Unstructured, restore_manifest,
  backup_manifest, delete_manifest, Result, returned, raised, Io, ◌>>=◌, pure, Dynamic, host_name,
}

-- models.VeleroRestoreInfo
pub record VeleroRestoreInfo : Type 0 where
  pub name : String
  pub phase : String

-- No name is longer than 63 bytes.
unfoldable pub truncate_name : String → String
truncate_name name = if ltb 63 (len name) then slice name 0 63 else name

-- A backup of the namespace, or of every one.
unfoldable pub covers : String → List String → Bool
covers ns included = any (λ n. str_eq n ns || str_eq n "*") included

unfoldable pub backup_info : Unstructured → VeleroBackupInfo
backup_info o = record {
  name = o.name;
  phase = o.phase;
  start_time = o.start_timestamp;
  completion_time = o.completion_timestamp;
}

-- The loop of ListVeleroBackups.
unfoldable pub backups_of : String → List Unstructured → List VeleroBackupInfo
unfolding covers backup_info
backups_of ns [] = []
backups_of ns (o ∷ os) =
    let rest = backups_of ns os in
    if covers ns o.included_namespaces then backup_info o ∷ rest else rest

-- The loop of ListActiveVeleroRestores.
unfoldable pub active_restores_of : String → List Unstructured → List VeleroRestoreInfo
active_restores_of ns [] = []
active_restores_of ns (o ∷ os) =
    let rest = active_restores_of ns os in
    if is_terminal_restore_phase o.phase
    then rest
    else (if any (λ n. str_eq n ns) o.included_namespaces
        then record { name = o.name; phase = o.phase } ∷ rest
        else rest)

-- The namespaceMapping of a Restore, where there is one.
unfoldable pub namespace_mapping : String → String → Option (String × String)
namespace_mapping source target =
    if str_eq target "" || str_eq target source then none else some (source, target)

module _ {W : Type 0} (c : Dynamic W) where
  unfoldable pub list_velero_backups : String → String → Io W (Result (List VeleroBackupInfo))
  list_velero_backups name velero_namespace = do
    items ← c.list velero_backup velero_namespace []
    elim items [
      | raised e ↦ pure (raised (wrap "listing velero backups" e))
      | returned os ↦ pure (returned (backups_of (host_name name) os))
    ]

  unfoldable pub list_active_velero_restores :
      String → String → Io W (Result (List VeleroRestoreInfo))
  list_active_velero_restores name velero_namespace = do
    items ← c.list velero_restore velero_namespace []
    elim items [
      | raised e ↦ pure (raised (wrap "listing velero restores" e))
      | returned os ↦ pure (returned (active_restores_of (host_name name) os))
    ]

  unfoldable pub get_backup_phase : String → String → Io W (Result String)
  get_backup_phase backup velero_namespace = do
    obj ← c.get velero_backup velero_namespace backup
    elim obj [ raised e ↦ pure (raised e) | returned o ↦ pure (returned o.phase) ]

  -- An absent phase is that of a new restore.
  unfoldable pub get_restore_status : String → String → Io W (Result String)
  get_restore_status restore velero_namespace = do
    obj ← c.get velero_restore velero_namespace restore
    elim obj [
      | raised e ↦ pure (raised (wrap "getting restore" e))
      | returned o ↦ pure (returned (if str_eq o.phase "" then "New" else o.phase))
    ]

  unfoldable pub create_restore_object : String → String → String → String → Io W (Result String)
  create_restore_object backup source target velero_namespace = do
    ms ← c.millis
    created ← c.create velero_restore velero_namespace (
        restore_manifest (truncate_name (append (append (append "vm-" backup) "-") ms)) backup
          (source ∷ []) (namespace_mapping source target))
    elim created [
      | raised e ↦ pure (raised (wrap "creating restore" e))
      | returned name ↦ pure (returned name)
    ]

  unfoldable pub create_velero_backup : String → String → String → String → Io W (Result String)
  create_velero_backup name velero_namespace ttl location = do
    ms ← c.millis
    created ← c.create velero_backup velero_namespace (
        backup_manifest (truncate_name (append (append (append "manual-" name) "-") ms))
          (host_name name ∷ []) (if str_eq location "" then "default" else location)
          (if str_eq ttl "" then "720h0m0s" else ttl))
    elim created [
      | raised e ↦ pure (raised (wrap "creating backup" e))
      | returned backup ↦ pure (returned backup)
    ]

  unfoldable pub delete_velero_backup : String → String → Io W (Option Error)
  delete_velero_backup backup velero_namespace = do
    ms ← c.millis
    created ←
        c.create delete_backup_request velero_namespace
          (delete_manifest (truncate_name (append (append backup "-delete-") ms)) backup)
    elim created [
      | raised e ↦ pure (some (wrap "creating delete backup request" e))
      | returned _ ↦ pure none
    ]
