-- ===== src/Lifecycle.antt =====
-- The life of a VCluster: Reconcile, reconcileAll and reconcileSuspend of
-- internal/controller/vcluster_controller.go, and reconcileObservedState of vcluster_status.go.
pub mod Suspend
pub mod Pass
use vcluster_manager.Prelude.{
  ℕ, ◌+◌, String, Bool, true, false, not, ◌&&◌, ◌||◌, Option, none, some, List, [], ◌∷◌,
  if◌then◌else◌, ltb, ◌==◌, str_eq, is_some,
}
use vcluster_manager.Text.{codes}
use vcluster_manager.Kube.{
  ready, accepted, condition_true, condition_false, Reason, suspend_failed, suspended,
  resume_failed, resuming, namespace_mismatch,
}
use vcluster_manager.VCluster.{
  Error, VCluster, DeletionStatus, no_deletion, asleep, Phase, phase_suspended, pending, with_phase,
}
use vcluster_manager.Reconciler.{
  Reconciler, Run, Call, Exec, GetResult, got, not_found, get_failed, suspended_vcluster,
  resumed_vcluster, observed, ◌>>=◌, ◌>>◌, pure, ask, get_vc, get_now, modify, set_vcluster_cond,
}
use vcluster_manager.Names.{Misplacement, vcluster_misplaced}
use vcluster_manager.Provision.{
  Provisioned, provisioned, not_provisioned, provision_error, reconcile_provisioning,
}
use vcluster_manager.Budget.{
  QuantityApi, Admission, admitted, refused, not_known, check_resource_budget,
}
use vcluster_manager.Integrations.{Delay, delay_ok, reconcile_integrations}
use vcluster_manager.Status.Observe.{apply_observation}
use vcluster_manager.Status.Aggregate.{aggregate_vcluster_status, observe_interval}
use vcluster_manager.Deletion.Sequence.{
  PassResult, pass_ok, pass_requeue, pass_failed, ensure_finalizer, reconcile_deletion,
  write_status, release, vcluster_finalizer, deletion_or_empty,
}

-- DefaultGracePeriod: seven days.
abbrev pub default_grace_period : ℕ
default_grace_period = 604800

abbrev pub budget_retry_interval : ℕ
budget_retry_interval = 300

abbrev pub is_suspended : Phase → Bool
is_suspended phase_suspended = true
is_suspended _ = false

-- The end of the window: the one that stands, or one grace period from now.
abbrev or_end : ℕ → Option ℕ → Option ℕ
or_end new none = some new
or_end new (some old) = some old

-- What falling asleep writes in `status.deletion`.
abbrev open_window : ℕ → DeletionStatus → DeletionStatus
open_window ends d = record d {
  grace_period_ends_at = or_end ends d.grace_period_ends_at;
  message = asleep;
}

module _ {W Q O : Type 0} (r : Reconciler W Q O) where
  unfoldable pub grace_period : ℕ
  grace_period = if ltb 0 r.grace_period then r.grace_period else default_grace_period

  abbrev pub vclusters_namespace : String
  vclusters_namespace = if str_eq r.namespace "" then "vcluster-manager" else r.namespace

  unfoldable pub fall_asleep : Exec W (Option Error)
  fall_asleep = do
    vc ← get_vc
    now ← get_now
    err ← ask suspended_vcluster (r.ops.suspend_vcluster vc.name r.cell)
    elim err [
      | some e ↦ (do set_vcluster_cond r ready condition_false suspend_failed; pure (some e))
      | none ↦ (do
        modify (λ vc. record vc {
          status = record vc.status {
            deletion =
                some (open_window (now + grace_period) (deletion_or_empty vc.status.deletion));
          };
        })
        modify (with_phase phase_suspended)
        set_vcluster_cond r ready condition_false suspended
        pure none)
    ]

  unfoldable pub wake_up : Exec W (Option Error)
  wake_up = do
    vc ← get_vc
    err ← ask resumed_vcluster (r.ops.resume_vcluster vc.name r.cell)
    elim err [
      | some e ↦ (do set_vcluster_cond r ready condition_false resume_failed; pure (some e))
      | none ↦ (do
        modify (λ vc. record vc { status = record vc.status { deletion = none } })
        modify (with_phase pending)
        set_vcluster_cond r ready condition_false resuming
        pure none)
    ]

  unfoldable pub reconcile_suspend : Exec W (Option Error)
  reconcile_suspend = do
    vc ← get_vc
    let is_asleep = is_suspended vc.status.phase
    if vc.spec.suspend && not is_asleep
        then fall_asleep
        else (if not vc.spec.suspend && is_asleep then wake_up else pure none)

-- `parse_time` is time.Parse for RFC 3339, `error_text` the text of an error.
module _ {W Q O : Type 0} (r : Reconciler W Q O) (qs : QuantityApi Q)
    (parse_time : String → Option ℕ) (error_text : Error → String) where
  unfoldable pub reconcile_observed_state : Exec W ℕ
  reconcile_observed_state = do
    vc ← get_vc
    now ← get_now
    obs ← ask observed (r.ops.observe_vcluster vc.name r.cell)
    modify (apply_observation r.api parse_time now obs)
    modify (aggregate_vcluster_status r.api now)
    vc' ← get_vc
    pure (observe_interval vc' obs)

  aggregate : Exec W (Unit {0})
  aggregate = do now ← get_now; modify (aggregate_vcluster_status r.api now)

  -- A vcluster that the budget refuses: observed if it ever ran, else asked again later.
  unfoldable pub after_refusal : Exec W Delay
  unfolding aggregate
  after_refusal = do
    vc ← get_vc
    if not (str_eq vc.status.chart_version "")
        then (do wait ← reconcile_observed_state; pure (delay_ok wait))
        else (do aggregate; pure (delay_ok budget_retry_interval))

  -- Integrations, then observation; the shorter delay of the two.
  unfoldable pub integrate_and_observe : Exec W Delay
  integrate_and_observe = do
    d ← reconcile_integrations r error_text
    elim d.err [
      | some e ↦ pure (record { wait = 0; err = some e })
      | none ↦ (do
        observe ← reconcile_observed_state
        pure (
            delay_ok
              (if ltb 0 d.wait && (observe == 0 || ltb d.wait observe) then d.wait else observe)))
    ]

  unfoldable pub provision_and_observe : Exec W Delay
  unfolding aggregate
  provision_and_observe = do
    p ← reconcile_provisioning r
    elim p [
      | provision_error e ↦ pure (record { wait = 0; err = some e })
      | not_provisioned ↦ (do aggregate; pure (delay_ok 0))
      | provisioned ↦ integrate_and_observe
    ]

  unfoldable pub admit_and_provision : Exec W Delay
  admit_and_provision = do
    within ← check_resource_budget qs r
    elim within [
      | not_known e ↦ pure (record { wait = 0; err = some e })
      | refused ↦ after_refusal
      | admitted ↦ provision_and_observe
    ]

  unfoldable pub reconcile_all : Exec W Delay
  reconcile_all = do
    err ← reconcile_suspend r
    elim err [
      | some e ↦ pure (record { wait = 0; err = some e })
      | none ↦ (do
        vc ← get_vc
        if is_suspended vc.status.phase then pure (delay_ok 0) else admit_and_provision)
    ]

  -- A misplaced object: it may go if it is going, else it is told why it is refused.
  unfoldable pub refuse_misplaced : Exec W PassResult
  refuse_misplaced = do
    vc ← get_vc
    if not (vc.deletion_timestamp == 0) && r.api.contains_finalizer vcluster_finalizer vc.finalizers
        then release r
        else (do
          set_vcluster_cond r accepted condition_false namespace_mismatch
          stored ← write_status r
          pure (record { requeue_after = 0; err = stored }))

  abbrev conclude_pass : Delay → Option Error → PassResult
  conclude_pass d (some e) = elim d.err [ some e' ↦ pass_failed e' | none ↦ pass_failed e ]
  conclude_pass d none = elim d.err [ some e' ↦ pass_failed e' | none ↦ pass_requeue d.wait ]

  -- The live path: finalizer, observed generation, steps; the status is stored on every path.
  unfoldable pub reconcile_live : Exec W PassResult
  reconcile_live = do
    err ← ensure_finalizer r
    elim err [
      | some e ↦ pure (pass_failed e)
      | none ↦ (do
        modify
            (λ vc. record vc { status = record vc.status { observed_generation = vc.generation } })
        d ← reconcile_all
        stored ← write_status r
        pure (conclude_pass d stored))
    ]

  -- Reconcile, from the object that was read on.
  unfoldable pub reconcile_object : Exec W PassResult
  reconcile_object = do
    vc ← get_vc
    if is_some (vcluster_misplaced vc (vclusters_namespace r))
        then refuse_misplaced
        else (if not (vc.deletion_timestamp == 0) then reconcile_deletion r else reconcile_live)

  abbrev read_state : ℕ → W → VCluster → Run W
  read_state now w vc = record { now = now; vc = vc; world = w; calls = [] }

  -- Reconcile: r.Get, and nothing to do where the object is gone (client.IgnoreNotFound).
  unfoldable pub reconcile : ℕ → W → PassResult × List Call
  reconcile now w = elim (r.ops.get w).0 [
    | not_found ↦ (pass_ok, [])
    | get_failed e ↦ (pass_failed e, [])
    | got vc ↦ let (o, s) = reconcile_object (read_state now (r.ops.get w).1 vc) in (o, s.calls)
  ]
