-- ===== src/Velero.antt =====
-- The service of backups and restores, internal/service/velero.go: what it calls of the client of
-- the host cluster, what a request keeps, and its refusals. Calls are logged, the latest first. The
-- texts of errors and the audit are output only.
pub mod Restore
pub mod Request
pub mod Follow
pub mod Operator
pub mod Settled
pub mod Crossing
pub mod Protocol
pub mod Interrupted
use vcluster_manager.Prelude.{
  ℕ, String, Bool, true, false, not, ◌&&◌, ◌||◌, Option, none, some, List, [], ◌∷◌, if◌then◌else◌,
  str_eq, leb, ◌==◌,
}
use vcluster_manager.VCluster.{Error}
use vcluster_manager.Text.{codes}
use vcluster_manager.Names.{valid_name}
use vcluster_manager.Choice.{VeleroBackupInfo}
use vcluster_manager.Marker.{RestoreOpsStatus}
use vcluster_manager.Cluster.{Result, VClusterTopology, Dynamic}
use vcluster_manager.Cluster.Workloads.{
  quiesce_vcluster_for_in_place_restore, set_flux_suspend, get_vcluster_pvc_state,
  delete_vcluster_pvc_named, restart_vcluster_dns,
}
use vcluster_manager.Cluster.Velero.{
  VeleroRestoreInfo, list_velero_backups, list_active_velero_restores, get_backup_phase,
  get_restore_status, create_restore_object, create_velero_backup, delete_velero_backup,
}
use vcluster_manager.Cluster.Orders.{request_velero_ops, get_velero_ops_restore_state}

-- kubernetes.StatusClient, as the service of Velero calls it.
pub record StatusClient (W : Type 0) : Type 0 where
  pub backup_phase : String → String → W → Result String × W
  pub suspend_flux : String → Bool → W → Option Error × W
  pub quiesce : String → W → Result VClusterTopology × W
  pub delete_pvc_named : String → String → W → Option Error × W
  pub create_restore : String → String → String → String → W → Result String × W
  pub restore_status : String → String → W → Result String × W
  pub restart_dns : String → W → (ℕ × Option Error) × W
  pub request_ops : String → List (String × String) → W → Option Error × W
  pub ops_restore_state : String → W → Result (Option RestoreOpsStatus) × W
  pub pvc_state : String → W → Result (Bool × Bool) × W
  pub active_restores : String → String → W → Result (List VeleroRestoreInfo) × W
  pub list_backups : String → String → W → Result (List VeleroBackupInfo) × W
  pub create_backup : String → String → String → String → W → Result String × W
  pub delete_backup : String → String → W → Option Error × W

-- The client of internal/kubernetes/velero.go; a wait for pods polls 60 times in its 30 seconds.
abbrev pub status_client : {W : Type 0} → Dynamic W → StatusClient W
status_client c = record {
  backup_phase = get_backup_phase c;
  suspend_flux = set_flux_suspend c;
  quiesce = quiesce_vcluster_for_in_place_restore c 60;
  delete_pvc_named = delete_vcluster_pvc_named c;
  create_restore = create_restore_object c;
  restore_status = get_restore_status c;
  restart_dns = restart_vcluster_dns c;
  request_ops = request_velero_ops c;
  ops_restore_state = get_velero_ops_restore_state c;
  pvc_state = get_vcluster_pvc_state c;
  active_restores = list_active_velero_restores c;
  list_backups = list_velero_backups c;
  create_backup = create_velero_backup c;
  delete_backup = delete_velero_backup c;
}

-- models.Actor
pub record Actor : Type 0 where
  pub username : String
  pub is_admin : Bool

-- The sentinels of the service, with the error that a stage wraps; any other error of the client.
pub data VeleroError : Type 0 where
  forbidden_request backup_name_required invalid_backup_name invalid_vcluster_name : VeleroError
  cross_vcluster_restore_unsupported k8s_unavailable : VeleroError
  backup_lookup_failed : Error → VeleroError
  backup_not_restorable : String → VeleroError
  restore_stage_failed : Error → VeleroError
  restore_stage_failed_volume_gone : Error → VeleroError
  client_failed : Error → VeleroError

-- A value, or an error of the service.
pub data Outcome {ℓ} (A : Type ℓ) : Type ℓ where
  done : A → Outcome A
  refused : VeleroError → Outcome A

-- One call with its answer.
pub data ServiceCall : Type 0 where
  read_phase : String → Result String → ServiceCall
  suspended : String → Bool → Option Error → ServiceCall
  quiesced : String → Result VClusterTopology → ServiceCall
  deleted_pvc : String → String → Option Error → ServiceCall
  submitted_restore : String → String → String → Result String → ServiceCall
  watched : String → String → ServiceCall
  read_restore_status : String → Result String → ServiceCall
  restarted_dns : String → ServiceCall
  posted_order : String → List (String × String) → Option Error → ServiceCall
  read_ops_state : String → ServiceCall
  read_pvc_state : String → ServiceCall
  read_active_restores : String → ServiceCall
  listed_backups : String → ServiceCall
  submitted_backup : String → Result String → ServiceCall
  deleted_backup : String → Option Error → ServiceCall

-- How the resume of Flux ended after a restore.
pub record VeleroResumeState : Type 0 where
  pub failed_to_resume : Bool
  pub err_msg : String

-- A request under way: the world, the map veleroResumeStates, the latest entry first, and the log.
pub record ServiceRun (W : Type 0) : Type 0 where
  pub world : W
  pub resume_states : List (String × VeleroResumeState)
  pub calls : List ServiceCall

-- service.Service, as far as Velero is concerned. The nonce of a request is a reading of the clock.
pub record Service (W : Type 0) : Type 0 where
  pub k8s_for_env : String → Option (StatusClient W)
  pub velero_namespace : String
  pub velero_trigger_mode : String
  pub velero_default_ttl : String
  pub new_request_nonce : W → String × W
  pub error_text : Error → String

abbrev pub Serve : Type 0 → Type 0 → Type 0
Serve W A = ServiceRun W → A × ServiceRun W

infixl 10 ◌>>=◌ ◌>>◌
abbrev pub ◌>>=◌ : {W A B : Type 0} → Serve W A → (A → Serve W B) → Serve W B
◌>>=◌ m f s = let (a, s') = m s in f a s'

abbrev pub ◌>>◌ : {W A B : Type 0} → Serve W A → Serve W B → Serve W B
◌>>◌ m k s = k (m s).1

module _ {W : Type 0} where
  abbrev pub pure : {A : Type 0} → A → Serve W A
  pure a s = (a, s)

  abbrev pub ask : {A : Type 0} → (A → ServiceCall) → (W → A × W) → Serve W A
  ask log f s =
      ((f s.world).0, record s { world = (f s.world).1; calls = log (f s.world).0 ∷ s.calls })

  -- What the service does aside from calls, for the log.
  abbrev pub note : ServiceCall → Serve W (Unit {0})
  note call s = (tt, record s { calls = call ∷ s.calls })

unfoldable pub env_or_default : String → String
env_or_default env = if str_eq env "" then "preprod" else env

unfoldable pub is_backup_char : ℕ → Bool
is_backup_char c = leb b'a' c && leb c b'z' || leb b'0' c && leb c b'9'

unfoldable pub all_backup_chars : List ℕ → Bool
unfolding is_backup_char
all_backup_chars [] = true
all_backup_chars (c ∷ cs) = (is_backup_char c || c == b'.' || c == b'-') && all_backup_chars cs

-- backupNameRegex: ^[a-z0-9][a-z0-9.-]*$
unfoldable pub matches_backup_regex : List ℕ → Bool
unfolding is_backup_char
matches_backup_regex [] = false
matches_backup_regex (c ∷ cs) = is_backup_char c && all_backup_chars cs

unfoldable pub valid_backup_name : String → Bool
valid_backup_name backup = matches_backup_regex (codes backup)

unfoldable pub valid_vcluster_name : String → Bool
valid_vcluster_name name = valid_name (codes name)
