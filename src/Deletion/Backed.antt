-- ===== src/Deletion/Backed.antt =====
-- The deletion sequence over the service's own search for a backup: the finalizer of
-- internal/controller/vcluster_finalizer.go with InspectDeletionBackup of
-- internal/service/vcluster_deletion.go.
use vcluster_manager.Prelude.{
  ℕ, ◌≡◌, ap, ◌∙◌, refl, String, true, false, Option, none, some, List, [], ◌∷◌, any, arith,
}
use vcluster_manager.VCluster.{Error, other}
use vcluster_manager.Choice.Laws.{completed_after_deletion}
use vcluster_manager.Reconciler.{Reconciler, Run, Call, inspected_backup}
use vcluster_manager.Reconciler.Answers.{DeletionBackupState}
use vcluster_manager.Deletion.Sequence.{reconcile_deletion}
use vcluster_manager.Deletion.Trace.{authorises, is_safe}
use vcluster_manager.Deletion.Safety.{no_destruction_without_backup}
use vcluster_manager.Teardown.{Office, OfficeRun, Ruling, granted, denied}
use vcluster_manager.Teardown.Final.{inspect_deletion_backup}
use vcluster_manager.Deletion.Covered.{
  is_covered, all_covered, backs, is_backed, FindsOwn, reconcile-all_covered,
}

-- The service's answer as the controller takes it.
abbrev pub backup_answer : Ruling DeletionBackupState → DeletionBackupState × Option Error
backup_answer (granted st) = (st, none)
backup_answer (denied _) = (
  record {
    found = false;
    name = "";
    phase = "";
    started_at = 0;
    completed = false;
    failed = false;
  },
  some (other "backup"),
)

backs_one :
    (since : ℕ) (given : String) (c : Call)
    → is_covered since given c ≡ true
    → authorises c ≡ true
    → backs since given c ≡ true
backs_one since given c h a = ground arith

backs_if_covered :
    (since : ℕ) (given : String) (cs : List Call)
    → all_covered since given cs ≡ true
    → any authorises cs ≡ true
    → any (backs since given) cs ≡ true
backs_if_covered since given [] h a = ground arith
backs_if_covered since given (c ∷ cs) h a =
    grind (arith, backs_if_covered since given cs, backs_one since given c)

safe-is_backed :
    (since : ℕ) (given : String) (cs : List Call)
    → is_safe cs ≡ true
    → all_covered since given cs ≡ true
    → is_backed since given cs ≡ true
safe-is_backed since given [] h k = refl
safe-is_backed since given (c ∷ cs) h k =
    grind (arith, safe-is_backed since given cs, backs_if_covered since given cs)

module _ {W V Q O : Type 0} (r : Reconciler W Q O) (o : Office V) (seen : W → OfficeRun V) where
  service-is_covered :
      (name env : String) (since : ℕ) (given : String) (w : OfficeRun V)
      → (let answer = backup_answer (inspect_deletion_backup o name env since w).0 in
          is_covered since given (inspected_backup answer.0 answer.1) ≡ true)
  unfolding inspect_deletion_backup
  service-is_covered name env since given w = grind (arith, completed_after_deletion)

  -- Where the controller's search for a backup answers as the service's does on what it sees of the
  -- world, every call of a pass over an object that is being deleted that destroys something comes
  -- after an answer of that pass that shows no host namespace, after the audit of an override,
  -- the annotation of the object being a text that does not leave the backup required (one other than
  -- empty, false, no, non, 0 and off, case and blanks around it aside), or after the answer of a completed
  -- backup that took place at or after the deletion of the object: no earlier
  -- backup is enough. The pass starts from an empty log.
  pub destruction_backed :
      ((name env : String) (since : ℕ) (w : W)
        → (r.ops.inspect_deletion_backup name env since w).0
          ≡ backup_answer (inspect_deletion_backup o name env since (seen w)).0)
      → (s : Run W) → s.calls ≡ []
      → is_backed s.vc.deletion_timestamp s.vc.backup_override (reconcile_deletion r s).1.calls
        ≡ true
  destruction_backed served s h =
      let since = s.vc.deletion_timestamp in
      let given = s.vc.backup_override in
      let own : FindsOwn r since given = λ name env w.
        ap (λ a. is_covered since given (inspected_backup a.0 a.1)) (served name env since w)
        ∙ service-is_covered name env since given (seen w) in
      safe-is_backed since given (reconcile_deletion r s).1.calls
        (no_destruction_without_backup r s (rw h refl))
        (reconcile-all_covered r since given own s refl refl (rw h refl))
