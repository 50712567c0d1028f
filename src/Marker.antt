-- ===== src/Marker.antt =====
-- The marker VClusterVeleroOps, which carries the orders for backups and restores of one vcluster:
-- api/v1alpha1/vclusterveleroops_types.go, the seam of internal/veleroops/ops.go, and what a pass
-- of internal/controller/veleroops_controller.go keeps. A call takes the world and gives its
-- answer with the world after it; calls are logged, the latest first.
pub mod Backup
pub mod Restore
pub mod Reconcile
pub mod Reservation
pub mod Recovery
pub mod Lost
use vcluster_manager.Prelude.{
  ℕ, String, Bool, true, false, Option, none, some, List, [], ◌∷◌, ◌||◌, str_eq,
}
use vcluster_manager.Kube.{Condition, ConditionType, ConditionStatus, Reason, KubeApi}
use vcluster_manager.VCluster.{Error}

pub record BackupOpsStatus : Type 0 where
  pub last_handled_requested_at : String
  pub backup_name : String
  pub phase : String

pub record RestoreOpsStatus : Type 0 where
  pub last_handled_requested_at : String
  pub restore_name : String
  pub from_backup : String
  pub target : String
  pub in_place : Bool
  pub phase : String
  pub first_terminal_at : Option ℕ
  pub resume_pending : Bool
  pub resume_failed : Bool
  pub resume_error : String
  pub volume_destroyed : Bool

pub record MarkerStatus : Type 0 where
  pub backup : BackupOpsStatus
  pub restore : RestoreOpsStatus
  pub conditions : List Condition

-- The annotations that the controller reads are fields, "" for an absent one.
pub record Marker : Type 0 where
  pub name : String
  pub namespace : String
  pub backup_requested_at : String
  pub restore_requested_at : String
  pub restore_from_backup : String
  pub restore_target : String
  pub status : MarkerStatus

-- What CreateVeleroRestoreUnwatched fails with, by the first of the controller's sentinels that
-- errors.Is finds in it.
pub data RestoreError : Type 0 where
  volume_gone_error stage_error forbidden_error other_error : RestoreError

pub record VeleroRestoreView : Type 0 where
  pub restore_name : String
  pub phase : String
  pub in_place : Bool

pub record InterruptedRestoreView : Type 0 where
  pub volume_gone : Bool
  pub active_restore_name : String
  pub active_restore_phase : String

pub record VeleroRestoreStatusView : Type 0 where
  pub phase : String
  pub resume_pending : Bool
  pub resume_failed : Bool
  pub resume_error : String
  pub volume_destroyed : Bool

-- veleroops.Ops, with the write of the status subresource.
pub record MarkerOps (W : Type 0) : Type 0 where
  pub trigger_velero_backup : String → String → W → (String × Option Error) × W
  pub get_velero_backup_phase : String → String → W → (String × Option Error) × W
  pub create_velero_restore_unwatched :
      String → String → String → String → W → (VeleroRestoreView × Option RestoreError) × W
  pub inspect_interrupted_restore :
      String → String → W → (InterruptedRestoreView × Option Error) × W
  pub get_velero_restore_status :
      String → String → String → Bool → W → (VeleroRestoreStatusView × Option Error) × W
  pub abort_in_place_restore : String → String → W → Option Error × W
  -- The object that the server answers replaces the one in memory.
  pub update_status : Marker → W → (Marker × Option Error) × W

pub record VeleroOpsReconciler (W : Type 0) : Type 0 where
  pub api : KubeApi
  pub ops : MarkerOps W
  pub cell : String

-- One call with its answer.
pub data MarkerCall : Type 0 where
  stored : Marker → Option Error → MarkerCall
  triggered_backup : Option Error → MarkerCall
  read_backup_phase : Option Error → MarkerCall
  created_restore : Option RestoreError → MarkerCall
  inspected_interrupted : InterruptedRestoreView → Option Error → MarkerCall
  read_restore : VeleroRestoreStatusView → Option Error → MarkerCall
  aborted_restore : Option Error → MarkerCall

-- A pass under way.
pub record MarkerRun (W : Type 0) : Type 0 where
  pub now : ℕ
  pub marker : Marker
  pub world : W
  pub calls : List MarkerCall

abbrev pub Step : Type 0 → Type 0 → Type 0
Step W A = MarkerRun W → A × MarkerRun W

infixl 10 ◌>>=◌ ◌>>◌
abbrev pub ◌>>=◌ : {W A B : Type 0} → Step W A → (A → Step W B) → Step W B
◌>>=◌ m f s = let (a, s') = m s in f a s'

abbrev pub ◌>>◌ : {W B : Type 0} → Step W (Unit {0}) → Step W B → Step W B
◌>>◌ m k s = k (m s).1

module _ {W : Type 0} where
  abbrev pub pure : {A : Type 0} → A → Step W A
  pure a s = (a, s)

  -- A call: `log` is the entry for its answer.
  abbrev pub ask : {A : Type 0} → (A → MarkerCall) → (W → A × W) → Step W A
  ask log f s =
      ((f s.world).0, record s { world = (f s.world).1; calls = log (f s.world).0 ∷ s.calls })

  abbrev pub get_marker : Step W Marker
  get_marker s = (s.marker, s)

  abbrev pub get_now : Step W ℕ
  get_now s = (s.now, s)

  abbrev pub modify : (Marker → Marker) → Step W (Unit {0})
  modify f s = (tt, record s { marker = f s.marker })

abbrev pub with_backup : (BackupOpsStatus → BackupOpsStatus) → Marker → Marker
with_backup f m = record m { status = record m.status { backup = f m.status.backup } }

abbrev pub with_restore : (RestoreOpsStatus → RestoreOpsStatus) → Marker → Marker
with_restore f m = record m { status = record m.status { restore = f m.status.restore } }

-- service.IsTerminalBackupPhase
unfoldable pub is_terminal_backup_phase : String → Bool
is_terminal_backup_phase phase =
    str_eq phase "Completed"
    || str_eq phase "Failed"
    || str_eq phase "PartiallyFailed"
    || str_eq phase "FailedValidation"
    || str_eq phase "Deleting"

-- service.IsTerminalRestorePhase
unfoldable pub is_terminal_restore_phase : String → Bool
is_terminal_restore_phase phase =
    str_eq phase "Completed" || str_eq phase "Failed" || str_eq phase "PartiallyFailed"

module _ {W : Type 0} (r : VeleroOpsReconciler W) where
  -- setCond; the generation of a marker, which has no spec, is not observed.
  abbrev pub set_cond : ConditionType → ConditionStatus → Reason → Step W (Unit {0})
  set_cond t st why s = (
    tt,
    record s {
      marker = record s.marker {
        status = record s.marker.status {
          conditions =
              r.api.set_status_condition s.now
                (record {
                  cond_type = t;
                  status = st;
                  reason = why;
                  observed_generation = 0;
                  last_transition_time = 0;
                })
                s.marker.status.conditions;
        };
      };
    },
  )

  abbrev pub remove_cond : ConditionType → Step W (Unit {0})
  remove_cond t = modify (λ m. record m {
    status = record m.status { conditions = r.api.remove_status_condition t m.status.conditions };
  })

  -- r.Status().Update
  abbrev pub store_status : Step W (Option Error)
  store_status s =
      let answer = r.ops.update_status s.marker s.world in
      (
        answer.0.1,
        record s {
          marker = answer.0.0;
          world = answer.1;
          calls = stored s.marker answer.0.1 ∷ s.calls;
        },
      )
