-- ===== src/Choice.antt =====
-- Which Velero backup counts for a deletion: pickDeletionBackup of
-- internal/service/vcluster_deletion.go. Times are seconds, 0 is the zero time; time.Parse is a
-- parameter.
pub mod Laws
use vcluster_manager.Prelude.{
  ℕ, String, Bool, true, false, not, ◌&&◌, ◌||◌, Option, none, some, List, [], ◌∷◌, if◌then◌else◌,
  ltb, ◌==◌, str_eq,
}
use vcluster_manager.Reconciler.Answers.{DeletionBackupState}
use vcluster_manager.Marker.{is_terminal_backup_phase}
use vcluster_manager.Deletion.Steps.{or_else_time}

-- models.VeleroBackupInfo, the fields that are read.
pub record VeleroBackupInfo : Type 0 where
  pub name : String
  pub phase : String
  pub start_time : String
  pub completion_time : String

abbrev or_zero : Option ℕ → ℕ
or_zero none = 0
or_zero (some t) = t

-- The three candidates of the loop.
pub record Candidates : Type 0 where
  pub running : Option DeletionBackupState
  pub completed : Option DeletionBackupState
  pub failed : Option DeletionBackupState

-- The new state where there was none, or where it started after the one there was.
unfoldable pub latest : DeletionBackupState → Option DeletionBackupState → DeletionBackupState
latest st none = st
latest st (some old) = if ltb old.started_at st.started_at then st else old

abbrev pub seen : VeleroBackupInfo → ℕ → DeletionBackupState
seen b t = record {
  found = true;
  name = b.name;
  phase = b.phase;
  started_at = t;
  completed = false;
  failed = false;
}

-- A settled backup that belongs to this deletion.
abbrev pub settle : VeleroBackupInfo → ℕ → Candidates → Candidates
settle b t cs =
    if str_eq b.phase "Completed"
    then record cs {
      completed = some (latest (record (seen b t) { completed = true }) cs.completed);
    }
    else record cs { failed = some (latest (record (seen b t) { failed = true }) cs.failed) }

-- The switch at the end: what runs, else what is completed, else what failed.
unfoldable pub best_of : Candidates → DeletionBackupState
best_of cs = elim cs.running [
  | some st ↦ st
  | none ↦ elim cs.completed [
    | some st ↦ st
    | none ↦ elim cs.failed [
      | some st ↦ st
      | none ↦ record {
        found = false;
        name = "";
        phase = "";
        started_at = 0;
        completed = false;
        failed = false;
      }
    ]
  ]
]

module _ (parse_time : String → Option ℕ) where
  unfoldable pub parse_velero_time : String → ℕ
  parse_velero_time s = if str_eq s "" then 0 else or_zero (parse_time s)

  -- When a settled backup took place: its start, or its end where the start cannot be read.
  unfoldable pub time_of : VeleroBackupInfo → ℕ
  time_of b = or_else_time (parse_velero_time b.start_time) (parse_velero_time b.completion_time)

  unfoldable pub consider : ℕ → VeleroBackupInfo → Candidates → Candidates
  consider since b cs =
      if not (is_terminal_backup_phase b.phase)
      then record cs {
        running = some (latest (seen b (parse_velero_time b.start_time)) cs.running);
      }
      else (if time_of b == 0 || ltb (time_of b) since then cs else settle b (time_of b) cs)

  unfoldable pub collect : ℕ → List VeleroBackupInfo → Candidates → Candidates
  collect since [] cs = cs
  collect since (b ∷ bs) cs = collect since bs (consider since b cs)

  unfoldable pub pick_deletion_backup : List VeleroBackupInfo → ℕ → DeletionBackupState
  pick_deletion_backup backups since =
      best_of (collect since backups (record { running = none; completed = none; failed = none }))
