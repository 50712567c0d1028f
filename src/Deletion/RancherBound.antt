-- ===== src/Deletion/RancherBound.antt =====
-- How long an unreachable or stubborn Rancher holds a deletion: the bound is anchored on the
-- transition time of the RancherPaired condition.
use vcluster_manager.Prelude.{
  ℕ, ◌+◌, ◌≤◌, ◌<◌, ◌≡◌, ◌∙◌, any, Bool, true, false, ◌||◌, Option, none, some, String, List, [],
  ◌∷◌, arith, if◌then◌else◌,
}
use vcluster_manager.Kube.{Condition, condition_true, same_status, rancher_paired, type_index}
use vcluster_manager.VCluster.{VCluster, with_stage, rancher_unpairing}
use vcluster_manager.Reconciler.{Reconciler, Run, Call, inspected_rancher, unpaired, find_cond}
use vcluster_manager.Reconciler.Answers.{RancherTeardownState}
use vcluster_manager.Deletion.Steps.{insist_on_unpairing, reconcile_rancher_teardown, overdue}

abbrev anchor_of : Option Condition → ℕ
anchor_of none = 0
anchor_of (some c) = if same_status c.status condition_true then c.last_transition_time else 0

abbrev holds_true : Option Condition → Bool
holds_true none = false
holds_true (some c) = same_status c.status condition_true

-- The unpairing was asked for.
abbrev pub unpairs : Call → Bool
unpairs (unpaired _) = true
unpairs _ = false

-- Rancher answers every look-up by "still known" or by a failure.
pub record IsStuck {W Q O : Type 0} (r : Reconciler W Q O) : Type 0 where
  pub configured :
      (name : String) (w : W)
      → (r.ops.inspect_rancher_teardown name r.cell w).0.not_configured ≡ false
  pub enabled :
      (name : String) (w : W) → (r.ops.inspect_rancher_teardown name r.cell w).0.enabled ≡ true
  pub held :
      (name : String) (w : W)
      → ((r.ops.inspect_rancher_teardown name r.cell w).0.lookup_failed
          || (r.ops.inspect_rancher_teardown name r.cell w).0.still_known)
        ≡ true

module _ {W Q O : Type 0} (r : Reconciler W Q O) where
  -- Since when the condition says that the cluster is paired; 0 when it does not.
  unfoldable pub rancher_anchor : VCluster → ℕ
  rancher_anchor vc = anchor_of (r.api.find_status_condition rancher_paired vc.status.conditions)

  -- The RancherPaired condition is there with status True.
  unfoldable pub says_paired : VCluster → Bool
  says_paired vc = holds_true (r.api.find_status_condition rancher_paired vc.status.conditions)

  abbrev pub pass_at : ℕ → W → VCluster → Run W
  pass_at now w vc = record { now = now; vc = vc; world = w; calls = [] }

  -- The Rancher step at a series of times, each in a world of its own.
  unfoldable pub rounds : List (ℕ × W) → VCluster → VCluster
  rounds [] vc = vc
  rounds ((now, w) ∷ rest) vc = rounds rest (reconcile_rancher_teardown r (pass_at now w vc)).1.vc

  abbrev pub AllAtMost : ℕ → List (ℕ × W) → Type 0
  AllAtMost limit [] = Unit
  AllAtMost limit ((now, w) ∷ rest) = (now ≤ limit) × AllAtMost limit rest

  insist_waits :
      (s : Run W) (st : RancherTeardownState) (t : ℕ)
      → rancher_anchor s.vc ≡ t
      → s.now ≤ t + 600
      → 0 < t
      → (rancher_anchor (insist_on_unpairing r st s).1.vc ≡ t)
        × ((insist_on_unpairing r st s).0.done ≡ false)
  unfolding insist_on_unpairing rancher_anchor overdue type_index
  insist_waits s st t a n p = grind (arith, r.api.find-set)

  insist_starts :
      (s : Run W) (st : RancherTeardownState)
      → says_paired s.vc ≡ false
      → (rancher_anchor (insist_on_unpairing r st s).1.vc ≡ s.now)
        × ((insist_on_unpairing r st s).0.done ≡ false)
        × (any unpairs (insist_on_unpairing r st s).1.calls ≡ true)
  unfolding insist_on_unpairing rancher_anchor says_paired overdue type_index
  insist_starts s st a = grind (arith, r.api.find-set)

  insist_gives_up :
      (s : Run W) (st : RancherTeardownState) (t : ℕ)
      → rancher_anchor s.vc ≡ t
      → t + 600 < s.now
      → 0 < t
      → (says_paired (insist_on_unpairing r st s).1.vc ≡ false)
        × ((insist_on_unpairing r st s).0.done ≡ true)
  unfolding insist_on_unpairing rancher_anchor says_paired overdue type_index
  insist_gives_up s st t a n p = grind (arith, r.api.find-set)

  module _ (stuck : IsStuck r) where
    -- With Rancher stuck, the step is the insistence.
    unfoldable pub asked : Run W → Run W
    asked s = record s {
      vc = with_stage rancher_unpairing s.vc;
      world = (r.ops.inspect_rancher_teardown s.vc.name r.cell s.world).1;
      calls =
          inspected_rancher (r.ops.inspect_rancher_teardown s.vc.name r.cell s.world).0 ∷ s.calls;
    }

    pub step_insists :
        (s : Run W)
        → reconcile_rancher_teardown r s
          ≡ insist_on_unpairing r
              (r.ops.inspect_rancher_teardown s.vc.name r.cell s.world).0
              (asked s)
    unfolding reconcile_rancher_teardown asked
    step_insists s = rw (
      stuck.configured s.vc.name s.world,
      stuck.enabled s.vc.name s.world,
      stuck.held s.vc.name s.world,
    )

    step_waits :
        (s : Run W) (t : ℕ)
        → rancher_anchor s.vc ≡ t
        → s.now ≤ t + 600
        → 0 < t
        → (rancher_anchor (reconcile_rancher_teardown r s).1.vc ≡ t)
          × ((reconcile_rancher_teardown r s).0.done ≡ false)
    unfolding asked rancher_anchor
    step_waits s t a n p =
        rw (step_insists s) (
          insist_waits (asked s) (r.ops.inspect_rancher_teardown s.vc.name r.cell s.world).0 t a n
            p)

    step_starts :
        (s : Run W)
        → says_paired s.vc ≡ false
        → (rancher_anchor (reconcile_rancher_teardown r s).1.vc ≡ s.now)
          × ((reconcile_rancher_teardown r s).0.done ≡ false)
          × (any unpairs (reconcile_rancher_teardown r s).1.calls ≡ true)
    unfolding asked says_paired
    step_starts s a =
        rw (step_insists s)
          (insist_starts (asked s) (r.ops.inspect_rancher_teardown s.vc.name r.cell s.world).0 a)

    step_gives_up :
        (s : Run W) (t : ℕ)
        → rancher_anchor s.vc ≡ t
        → t + 600 < s.now
        → 0 < t
        → (says_paired (reconcile_rancher_teardown r s).1.vc ≡ false)
          × ((reconcile_rancher_teardown r s).0.done ≡ true)
    unfolding asked rancher_anchor
    step_gives_up s t a n p = rw (step_insists s) (
        insist_gives_up (asked s) (r.ops.inspect_rancher_teardown s.vc.name r.cell s.world).0 t a n
          p)

    rounds-rancher_anchor :
        (polls : List (ℕ × W)) (vc : VCluster) (t : ℕ)
        → rancher_anchor vc ≡ t
        → 0 < t
        → AllAtMost (t + 600) polls
        → rancher_anchor (rounds polls vc) ≡ t
    unfolding rounds
    rounds-rancher_anchor [] vc t a p h = a
    rounds-rancher_anchor ((now, w) ∷ rest) vc t a p h =
        rounds-rancher_anchor rest (reconcile_rancher_teardown r (pass_at now w vc)).1.vc t
          (step_waits (pass_at now w vc) t a h.0 p).0 p h.1

    -- If Rancher goes on knowing the cluster, or not answering, and the condition does not say that
    -- the cluster is paired when the step first runs, the step is over at the first pass more than
    -- ten minutes after that one, whatever passes were made in between up to then.
    pub rancher_gives_up :
        (vc : VCluster) (start : ℕ) (w : W) (polls : List (ℕ × W)) (now : ℕ) (w' : W)
        → says_paired vc ≡ false
        → 0 < start
        → AllAtMost (start + 600) polls
        → start + 600 < now
        → (reconcile_rancher_teardown r (pass_at now w' (rounds ((start, w) ∷ polls) vc))).0.done
          ≡ true
    unfolding rounds
    rancher_gives_up vc start w polls now w' a p h n =
        (step_gives_up
          (pass_at now w' (rounds polls (reconcile_rancher_teardown r (pass_at start w vc)).1.vc))
          start
          (rounds-rancher_anchor polls (reconcile_rancher_teardown r (pass_at start w vc)).1.vc
            start (step_starts (pass_at start w vc) a).0 p h)
          n p).1

    same_condition :
        (v w : VCluster)
        → find_cond r rancher_paired v ≡ find_cond r rancher_paired w
        → says_paired v ≡ says_paired w
    unfolding says_paired
    same_condition v w e = rw e

    -- Once the Rancher step has given up, the next pass with Rancher still stuck and the condition
    -- RancherPaired as the step left it, whatever became of the rest of the object, is not over: it
    -- asks for the unpairing again, and the ten minutes run anew from that pass.
    pub rancher_bound_restarts :
        (s t : Run W) (start : ℕ)
        → rancher_anchor s.vc ≡ start
        → 0 < start
        → start + 600 < s.now
        → find_cond r rancher_paired t.vc
          ≡ find_cond r rancher_paired (reconcile_rancher_teardown r s).1.vc
        → ((reconcile_rancher_teardown r s).0.done ≡ true)
          × ((reconcile_rancher_teardown r t).0.done ≡ false)
          × (any unpairs (reconcile_rancher_teardown r t).1.calls ≡ true)
          × (rancher_anchor (reconcile_rancher_teardown r t).1.vc ≡ t.now)
    rancher_bound_restarts s t start a p n e =
        let over = step_gives_up s start a n p in
        let again =
          step_starts t (same_condition t.vc (reconcile_rancher_teardown r s).1.vc e ∙ over.0) in
        (over.1, again.1, again.2, again.0)
