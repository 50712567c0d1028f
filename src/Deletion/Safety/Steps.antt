-- ===== src/Deletion/Safety/Steps.antt =====
-- The steps before the destruction destroy nothing, and the backup step ends only after an answer
-- that allows it.
use vcluster_manager.Prelude.{
  ◌≡◌, ◌∙◌, refl, sym, String, Bool, true, false, any, arith, str_eq, Bool-cases, inl, inr,
}
use vcluster_manager.Text.{codes, lower_all, trim_space, same_text}
use vcluster_manager.Reconciler.{Reconciler, Run}
use vcluster_manager.Reconciler.Answers.{RancherTeardownState, CleanupJobState, DeletionBackupState}
use vcluster_manager.Deletion.Steps.{
  insist_on_unpairing, follow_cleanup, block_on_backup, launch_backup, act_on_backup,
  require_backup, check_deletion_protection, reconcile_rancher_teardown, reconcile_deletion_backup,
  override_disarms, decided_by,
}
use vcluster_manager.Deletion.Trace.{waives, authorises, is_safe}

anonymous-waives : waives "anonyme" ≡ true
unfolding waives codes lower_all trim_space same_text
anonymous-waives = refl

pub disarming-waives : (text : String) → override_disarms text ≡ waives text
unfolding override_disarms waives codes
disarming-waives text = ground arith

-- What is audited of an annotation that disarms the requirement waives it.
waived : (text : String) → override_disarms text ≡ true → waives (decided_by text) ≡ true
waived text h = elim (Bool-cases (str_eq text "true")) [
  | inl e ↦ rw e anonymous-waives
  | inr e ↦ rw e (sym (disarming-waives text) ∙ h)
]

module _ {W Q O : Type 0} (r : Reconciler W Q O) (s : Run W) where
  pub check-is_safe : is_safe (check_deletion_protection r s).1.calls ≡ is_safe s.calls
  unfolding check_deletion_protection
  check-is_safe = ground arith

  insist-is_safe :
      (st : RancherTeardownState) → is_safe (insist_on_unpairing r st s).1.calls ≡ is_safe s.calls
  unfolding insist_on_unpairing
  insist-is_safe st = ground arith

  cleanup-is_safe :
      (job : CleanupJobState) → is_safe (follow_cleanup r job s).1.calls ≡ is_safe s.calls
  unfolding follow_cleanup
  cleanup-is_safe job = ground arith

  launch-is_safe : is_safe (launch_backup r s).1.calls ≡ is_safe s.calls
  unfolding launch_backup block_on_backup
  launch-is_safe = ground arith

  launch-authorises : any authorises (launch_backup r s).1.calls ≡ any authorises s.calls
  unfolding launch_backup block_on_backup
  launch-authorises = ground arith

  launch-not_done : (launch_backup r s).0.done ≡ false
  unfolding launch_backup block_on_backup
  launch-not_done = ground arith

module _ {W Q O : Type 0} (r : Reconciler W Q O) where
  pub rancher-is_safe :
      (s : Run W) → is_safe (reconcile_rancher_teardown r s).1.calls ≡ is_safe s.calls
  unfolding reconcile_rancher_teardown
  rancher-is_safe s = grind (arith, insist-is_safe, cleanup-is_safe)

  act-is_safe :
      (s : Run W) (launched : Bool) (st : DeletionBackupState)
      → is_safe (act_on_backup r launched st s).1.calls ≡ is_safe s.calls
  unfolding act_on_backup block_on_backup
  act-is_safe s launched st = ground (arith, launch-is_safe r s)

  act-authorises :
      (s : Run W) (launched : Bool) (st : DeletionBackupState)
      → any authorises (act_on_backup r launched st s).1.calls ≡ any authorises s.calls
  unfolding act_on_backup block_on_backup
  act-authorises s launched st = ground (arith, launch-authorises r s)

  act-done :
      (s : Run W) (launched : Bool) (st : DeletionBackupState)
      → (act_on_backup r launched st s).0.done ≡ true
      → st.completed ≡ true
  unfolding act_on_backup block_on_backup
  act-done s launched st h = ground (arith, launch-not_done r s)

  require-is_safe : (s : Run W) → is_safe (require_backup r s).1.calls ≡ is_safe s.calls
  unfolding require_backup
  require-is_safe s = grind (arith, act-is_safe)

  require-authorises :
      (s : Run W)
      → (require_backup r s).0.done ≡ true
      → any authorises (require_backup r s).1.calls ≡ true
  unfolding require_backup
  require-authorises s h = grind (arith, act-authorises, act-done)

  pub backup-is_safe :
      (s : Run W) → is_safe (reconcile_deletion_backup r s).1.calls ≡ is_safe s.calls
  unfolding reconcile_deletion_backup
  backup-is_safe s = grind (arith, require-is_safe)

  pub backup-authorises :
      (s : Run W)
      → (reconcile_deletion_backup r s).0.done ≡ true
      → any authorises (reconcile_deletion_backup r s).1.calls ≡ true
  unfolding reconcile_deletion_backup
  backup-authorises s h = grind (arith, require-authorises, waived)
