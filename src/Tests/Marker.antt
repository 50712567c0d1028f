-- ===== src/Tests/Marker.antt =====
-- Passes over a concrete marker (internal/controller/veleroops_controller.go).
use vcluster_manager.Prelude.{ℕ, suc, ◌≡◌, refl, true, false, none, some, [], any, is_some}
use vcluster_manager.VCluster.{other}
use vcluster_manager.Text.{codes, same_text}
use vcluster_manager.Names.{
  marker_misplaced, vcluster_namespace, valid_name, is_reserved, matches_name_regex, all_name_chars,
  is_name_char, is_letter, trim_prefix,
}
use vcluster_manager.Kube.Store.{store}
use vcluster_manager.Marker.{
  Marker, MarkerOps, VeleroOpsReconciler, MarkerRun, RestoreOpsStatus, VeleroRestoreStatusView,
  is_terminal_restore_phase,
}
use vcluster_manager.Marker.Restore.{
  is_restoring, is_foreign, repair, recover_interrupted, reconcile_restore,
}
use vcluster_manager.Marker.Reconcile.{reconcile_marker}
use vcluster_manager.Marker.Reservation.{is_reserved_log, reserved_before_acting}
use vcluster_manager.Marker.Recovery.{aborts, saw_intact, abort_if_intact}

abbrev idle_restore : RestoreOpsStatus
idle_restore = record {
  last_handled_requested_at = "";
  restore_name = "";
  from_backup = "";
  target = "";
  in_place = false;
  phase = "";
  first_terminal_at = none;
  resume_pending = false;
  resume_failed = false;
  resume_error = "";
  volume_destroyed = false;
}

-- A new request for each of the two.
abbrev ordered : Marker
ordered = record {
  name = "demo";
  namespace = "vcluster-demo";
  backup_requested_at = "noon";
  restore_requested_at = "noon";
  restore_from_backup = "nightly";
  restore_target = "";
  status = record {
    backup = record { last_handled_requested_at = ""; backup_name = ""; phase = "" };
    restore = idle_restore;
    conditions = [];
  };
}

abbrev pending_view : VeleroRestoreStatusView
pending_view = record {
  phase = "Completed";
  resume_pending = true;
  resume_failed = false;
  resume_error = "";
  volume_destroyed = false;
}

abbrev quiet : MarkerOps ℕ
quiet = record {
  trigger_velero_backup = λ n c w. (("b1", none), suc w);
  get_velero_backup_phase = λ b c w. (("InProgress", none), w);
  create_velero_restore_unwatched =
      λ n c b t w. ((record { restore_name = "r1"; phase = "New"; in_place = true }, none), suc w);
  inspect_interrupted_restore = λ n c w. (
    (record { volume_gone = false; active_restore_name = ""; active_restore_phase = "" }, none),
    w,
  );
  get_velero_restore_status = λ n r c p w. ((pending_view, none), w);
  abort_in_place_restore = λ n c w. (none, suc w);
  update_status = λ m w. ((m, none), suc w);
}

abbrev operator : VeleroOpsReconciler ℕ
operator = record { api = store; ops = quiet; cell = "east" }

abbrev on : ℕ → Marker → MarkerRun ℕ
on now m = record { now = now; marker = m; world = 0; calls = [] }

reserved_before_acting_example :
    is_reserved_log (reconcile_marker operator (on 1000 ordered)).1.calls ≡ true
reserved_before_acting_example = reserved_before_acting operator (on 1000 ordered) refl

-- A restore that runs, with the backup request handled and a later restore request.
abbrev restoring : Marker
restoring = record ordered {
  status = record ordered.status {
    backup = record { last_handled_requested_at = "noon"; backup_name = ""; phase = "" };
    restore = record idle_restore {
      last_handled_requested_at = "dawn";
      restore_name = "r0";
      phase = "InProgress";
    };
  };
}

-- A restore that was reserved and interrupted.
abbrev cut_short : Marker
cut_short = record restoring {
  status = record restoring.status {
    restore = record idle_restore { last_handled_requested_at = "noon"; phase = "New" };
  };
}

restoring_runs : is_restoring restoring ≡ true
unfolding is_restoring is_terminal_restore_phase
restoring_runs = refl

abbrev aimed_elsewhere : Marker
aimed_elsewhere = record ordered { restore_target = "other" }

elsewhere_foreign : is_foreign aimed_elsewhere ≡ true
unfolding is_foreign
elsewhere_foreign = refl

abbrev stray : Marker
stray = record ordered { namespace = "vcluster-other" }

stray_misplaced : is_some (marker_misplaced (codes "demo") (codes "vcluster-other")) ≡ true
unfolding marker_misplaced vcluster_namespace valid_name is_reserved matches_name_regex
    all_name_chars is_name_char is_letter trim_prefix codes same_text
stray_misplaced = refl

aborted_here : any aborts (reconcile_restore operator (on 1000 cut_short)).1.calls ≡ true
unfolding reconcile_restore recover_interrupted repair
aborted_here = refl

abort_if_intact_example :
    any saw_intact (reconcile_restore operator (on 1000 cut_short)).1.calls ≡ true
abort_if_intact_example = abort_if_intact operator (on 1000 cut_short) refl aborted_here

abbrev settled : Marker
settled = record restoring {
  status = record restoring.status {
    restore = record restoring.status.restore {
      phase = "Completed";
      first_terminal_at = some 1000;
      resume_pending = true;
    };
  };
}

view_terminal : is_terminal_restore_phase pending_view.phase ≡ true
unfolding is_terminal_restore_phase
view_terminal = refl

-- A server that refuses every write.
abbrev deaf : VeleroOpsReconciler ℕ
deaf = record operator {
  ops = record quiet { update_status = λ m w. ((m, some (other "conflict")), w) };
}
