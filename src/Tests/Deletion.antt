-- ===== src/Tests/Deletion.antt =====
-- Deletion passes on a concrete object (internal/controller/vcluster_finalizer.go).
use vcluster_manager.Prelude.{ℕ, ◌≡◌, refl, true, false, none, [], ◌∷◌, any}
use vcluster_manager.Prelude.Int.{ℤ}
use vcluster_manager.Kube.{Condition, backup_completed, condition_unknown, in_progress, type_index}
use vcluster_manager.Kube.Store.{store, find, put, without}
use vcluster_manager.VCluster.{VCluster}
use vcluster_manager.Reconciler.{Ops}
use vcluster_manager.Text.{codes, lower_all, trim_space, same_text}
use vcluster_manager.Deletion.Steps.{
  override_disarms, backup_launched, check_deletion_protection, reconcile_rancher_teardown,
  launch_backup, act_on_backup, require_backup, reconcile_deletion_backup,
}
use vcluster_manager.Deletion.Final.{
  deletion_done, conclude_removal, remove_namespace, tear_down,
  reconcile_final_teardown_and_namespace_removal,
}
use vcluster_manager.Deletion.Sequence.{
  run_steps, release, run_deletion_sequence, finish_deletion, reconcile_deletion,
}
use vcluster_manager.Deletion.Trace.{
  destroys, is_safe, writes_object, concludes, status_stored_first, triggers, triggers_ok,
}
use vcluster_manager.Deletion.Safety.{no_destruction_without_backup, protected_stays}
use vcluster_manager.Deletion.Release.{released_after_conclusion}
use vcluster_manager.Deletion.BackupRecorded.{one_backup_over_two_passes}
use vcluster_manager.Tests.World.{calm, over, at, leaving, no_backup, gone}

-- Velero shows a completed backup, and the namespace stands.
abbrev backed_up : Ops ℕ ℤ (Unit {0})
backed_up = record calm {
  inspect_deletion_backup =
      λ n c t w. ((record no_backup { found = true; completed = true }, none), w);
}

abbrev protected : VCluster
protected = record leaving { spec = record leaving.spec { deletion_protection = true } }

-- There is no namespace any more.
abbrev emptied : Ops ℕ ℤ (Unit {0})
emptied = record calm { host_namespace_state = λ n c w. (gone, w) }

abbrev backing_up : Condition
backing_up = record {
  cond_type = backup_completed;
  status = condition_unknown;
  reason = in_progress;
  observed_generation = 1;
  last_transition_time = 1100;
}

-- A backup was launched by an earlier pass.
abbrev waiting : VCluster
waiting = record leaving { status = record leaving.status { conditions = backing_up ∷ [] } }

no_destruction_without_backup_example :
    is_safe (reconcile_deletion (over backed_up) (at 1200 leaving)).1.calls ≡ true
no_destruction_without_backup_example =
    no_destruction_without_backup (over backed_up) (at 1200 leaving) refl

-- That pass does destroy the namespace.
destroyed_once_backed_up :
    any destroys (reconcile_deletion (over backed_up) (at 1200 leaving)).1.calls ≡ true
unfolding reconcile_deletion run_deletion_sequence run_steps finish_deletion release
    check_deletion_protection reconcile_rancher_teardown reconcile_deletion_backup override_disarms
    require_backup act_on_backup backup_launched tear_down remove_namespace conclude_removal
    reconcile_final_teardown_and_namespace_removal store find put without codes lower_all trim_space
    same_text type_index
destroyed_once_backed_up = refl

protected_stays_example :
    (any destroys (reconcile_deletion (over backed_up) (at 1200 protected)).1.calls ≡ false)
    × (any writes_object (reconcile_deletion (over backed_up) (at 1200 protected)).1.calls ≡ false)
    × ((reconcile_deletion (over backed_up) (at 1200 protected)).0.requeue_after ≡ 0)
protected_stays_example = protected_stays (over backed_up) (at 1200 protected) refl

released_once_emptied :
    any writes_object (reconcile_deletion (over emptied) (at 1200 leaving)).1.calls ≡ true
unfolding reconcile_deletion run_deletion_sequence run_steps finish_deletion release
    check_deletion_protection reconcile_rancher_teardown reconcile_deletion_backup tear_down
    remove_namespace conclude_removal deletion_done reconcile_final_teardown_and_namespace_removal
    store find put without type_index
released_once_emptied = refl

released_after_conclusion_example :
    (concludes (reconcile_deletion (over emptied) (at 1200 leaving)).1 ≡ true)
    × (status_stored_first (reconcile_deletion (over emptied) (at 1200 leaving)).1.calls ≡ true)
released_after_conclusion_example =
    released_after_conclusion (over emptied) (at 1200 leaving) refl released_once_emptied

waiting-launched : backup_launched (over calm) waiting ≡ true
unfolding backup_launched store find type_index
waiting-launched = refl

first_pass_launches :
    any triggers_ok (run_deletion_sequence (over calm) (at 1200 leaving)).1.calls ≡ true
unfolding run_deletion_sequence run_steps check_deletion_protection reconcile_rancher_teardown
    reconcile_deletion_backup override_disarms require_backup act_on_backup backup_launched
    launch_backup store find put codes lower_all trim_space same_text type_index
first_pass_launches = refl

one_backup_over_two_passes_example :
    any triggers
      (run_deletion_sequence
        (over calm)
        (at 1210 (run_deletion_sequence (over calm) (at 1200 leaving)).1.vc)).1.calls
    ≡ false
one_backup_over_two_passes_example =
    one_backup_over_two_passes (over calm) (at 1200 leaving)
      (at 1210 (run_deletion_sequence (over calm) (at 1200 leaving)).1.vc) refl first_pass_launches
      refl
