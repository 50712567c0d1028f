-- ===== src/Lifecycle/Suspend.antt =====
-- The reversible sleep: when the window is set, kept and dropped, and what a sleeping vcluster is
-- spared.
use vcluster_manager.Prelude.{ℕ, ◌+◌, ◌≡◌, ◌≢◌, true, false, Option, none, some, String, ◌∷◌, arith}
use vcluster_manager.VCluster.{Error, VCluster, DeletionStatus, phase_suspended, pending}
use vcluster_manager.Reconciler.{Reconciler, Run, suspended_vcluster}
use vcluster_manager.Budget.{QuantityApi}
use vcluster_manager.Integrations.{delay_ok}
use vcluster_manager.Lifecycle.{
  grace_period, fall_asleep, wake_up, reconcile_suspend, reconcile_all, is_suspended,
}

abbrev end_of : Option DeletionStatus → Option ℕ
end_of none = none
end_of (some d) = d.grace_period_ends_at

-- The end of the window that the object holds.
abbrev pub window : VCluster → Option ℕ
window vc = end_of vc.status.deletion

module _ {W Q O : Type 0} (r : Reconciler W Q O) where
  -- Falling asleep, where the service succeeds: the phase is Suspended, and the window is the one
  -- that the object holds, or ends one grace period from now where it holds none.
  asleep_window :
      (s : Run W) (ends : Option ℕ)
      → s.vc.spec.suspend ≡ true
      → is_suspended s.vc.status.phase ≡ false
      → (r.ops.suspend_vcluster s.vc.name r.cell s.world).0 ≡ none
      → window s.vc ≡ ends
      → ((reconcile_suspend r s).0 ≡ none)
        × ((reconcile_suspend r s).1.vc.status.phase ≡ phase_suspended)
        × (window (reconcile_suspend r s).1.vc
            ≡ elim ends [ none ↦ some (s.now + grace_period r) | some t ↦ some t ])
  unfolding reconcile_suspend fall_asleep
  asleep_window s ends h p ok e = ground arith

  -- A sleep whose status was not stored starts its window anew: from one stored object that holds
  -- no window, passes at different times give windows that end at different times.
  lost_write_moves_window :
      (s t : Run W)
      → s.vc.spec.suspend ≡ true
      → is_suspended s.vc.status.phase ≡ false
      → window s.vc ≡ none
      → t.vc ≡ s.vc
      → (r.ops.suspend_vcluster s.vc.name r.cell s.world).0 ≡ none
      → (r.ops.suspend_vcluster s.vc.name r.cell t.world).0 ≡ none
      → s.now ≢ t.now
      → window (reconcile_suspend r s).1.vc ≢ window (reconcile_suspend r t).1.vc
  lost_write_moves_window s t h p none_yet same ok ok' later =
      let first = (asleep_window s none h p ok none_yet).2 in
      let second =
        (asleep_window t none (rw same h) (rw same p) (rw same ok') (rw same none_yet)).2 in
      λ moved. later (ground (arith, first, second, moved))

  -- Waking up, where the service succeeds, drops the deletion block with its window, and the
  -- vcluster is pending.
  pub awake_drops_window :
      (s : Run W)
      → s.vc.spec.suspend ≡ false
      → is_suspended s.vc.status.phase ≡ true
      → (r.ops.resume_vcluster s.vc.name r.cell s.world).0 ≡ none
      → ((reconcile_suspend r s).0 ≡ none)
        × ((reconcile_suspend r s).1.vc.status.phase ≡ pending)
        × ((reconcile_suspend r s).1.vc.status.deletion ≡ none)
  unfolding reconcile_suspend wake_up
  awake_drops_window s h p ok = ground arith

  -- A vcluster that is to sleep and sleeps is left alone: no call is made and nothing changes.
  pub sleeper_untouched :
      (qs : QuantityApi Q) (parse_time : String → Option ℕ) (error_text : Error → String)
      (s : Run W)
      → s.vc.spec.suspend ≡ true
      → is_suspended s.vc.status.phase ≡ true
      → reconcile_all r qs parse_time error_text s ≡ (delay_ok 0, s)
  unfolding reconcile_all reconcile_suspend
  sleeper_untouched qs parse_time error_text s h p = ground arith

  -- A sleep that the service refuses changes neither the phase nor the deletion block, and its
  -- error is the result of the pass; nothing is provisioned.
  refused_sleep :
      (qs : QuantityApi Q) (parse_time : String → Option ℕ) (error_text : Error → String)
      (s : Run W) (e : Error)
      → s.vc.spec.suspend ≡ true
      → is_suspended s.vc.status.phase ≡ false
      → (r.ops.suspend_vcluster s.vc.name r.cell s.world).0 ≡ some e
      → let (d, s') = reconcile_all r qs parse_time error_text s in
        (d.err ≡ some e)
        × (s'.vc.status.phase ≡ s.vc.status.phase)
        × (s'.vc.status.deletion ≡ s.vc.status.deletion)
        × (s'.calls ≡ suspended_vcluster (some e) ∷ s.calls)
  unfolding reconcile_all reconcile_suspend fall_asleep
  refused_sleep qs parse_time error_text s e h p refused = ground arith
