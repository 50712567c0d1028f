-- ===== src/Tests/Provision.antt =====
-- Provisioning with two objects, and the choice among Velero backups.
use vcluster_manager.Prelude.{
  ℕ, ◌≡◌, refl, true, not, ◌&&◌, String, Option, none, some, List, [], ◌∷◌, any, str_eq,
  if◌then◌else◌,
}
use vcluster_manager.Prelude.Int.{ℤ}
use vcluster_manager.Text.{codes, same_text}
use vcluster_manager.Names.{
  valid_name, is_reserved, matches_name_regex, all_name_chars, is_name_char, is_letter, trim_prefix,
}
use vcluster_manager.Reconciler.{Ops}
use vcluster_manager.Provision.{provisioned, reconcile_provisioning, apply_all}
use vcluster_manager.Marker.{is_terminal_backup_phase}
use vcluster_manager.Choice.{
  VeleroBackupInfo, latest, best_of, parse_velero_time, time_of, consider, collect,
  pick_deletion_backup,
}
use vcluster_manager.Choice.Laws.{is_running, is_own_completed, completed_exactly}
use vcluster_manager.Tests.World.{calm, over, at, alive}

abbrev two_objects : Ops ℕ ℤ (Unit {0})
two_objects = record calm { render_vcluster_substitutions = λ q c v w. ((tt ∷ tt ∷ [], none), w) }

both_applied : (reconcile_provisioning (over two_objects) (at 1000 alive)).0 ≡ provisioned
unfolding reconcile_provisioning apply_all valid_name is_reserved matches_name_regex all_name_chars
    is_name_char is_letter trim_prefix codes same_text
both_applied = refl

abbrev backup : String → String → String → VeleroBackupInfo
backup name phase start = record {
  name = name;
  phase = phase;
  start_time = start;
  completion_time = "";
}

-- Last night's backup, and one of the deletion at 1000.
abbrev backups : List VeleroBackupInfo
backups = backup "nightly" "Completed" "t500" ∷ backup "final" "Completed" "t1200" ∷ []

abbrev clock : String → Option ℕ
clock s = if str_eq s "t500" then some 500 else (if str_eq s "t1200" then some 1200 else none)

final_picked : (pick_deletion_backup clock backups 1000).completed ≡ true
unfolding pick_deletion_backup best_of collect consider latest time_of parse_velero_time
    is_terminal_backup_phase
final_picked = refl

completed_exactly_example :
    (pick_deletion_backup clock backups 1000).completed
    ≡ not (any (is_running clock) backups) && any (is_own_completed clock 1000) backups
completed_exactly_example = completed_exactly clock backups 1000
