-- ===== src/Provision/Laws.antt =====
-- What a provisioning that succeeds has done.
use vcluster_manager.Prelude.{ℕ, suc, ◌+◌, ◌≡◌, true, none, List, [], ◌∷◌, arith, length}
use vcluster_manager.Text.{codes}
use vcluster_manager.Names.{valid_name}
use vcluster_manager.Reconciler.{Reconciler, Run, Call}
use vcluster_manager.Provision.{
  provisioned, create_request_from_cr, provision_failed, refuse_spec, apply_all,
  reconcile_provisioning,
}

-- How many objects were applied with success.
abbrev pub applied_count : List Call → ℕ
applied_count [] = 0
applied_count (Call.applied none ∷ cs) = suc (applied_count cs)
applied_count (_ ∷ cs) = applied_count cs

module _ {W Q O : Type 0} (r : Reconciler W Q O) where
  apply_all-count :
      (os : List O) (s : Run W)
      → (apply_all r os s).0 ≡ provisioned
      → applied_count (apply_all r os s).1.calls ≡ applied_count s.calls + length os
  unfolding apply_all provision_failed
  apply_all-count [] s h = ground arith
  apply_all-count (o ∷ os) s h =
      let answer = r.ops.apply o s.world in
      let after = record s { world = answer.1; calls = Call.applied answer.0 ∷ s.calls } in
      ground (arith, apply_all-count os after)

  -- A vcluster is provisioned only under a valid name and once every object that was rendered
  -- for it has been applied with success.
  all_objects_applied :
      (s : Run W)
      → (reconcile_provisioning r s).0 ≡ provisioned
      → (valid_name (codes s.vc.name) ≡ true)
        × (applied_count (reconcile_provisioning r s).1.calls
            ≡ applied_count s.calls
              + length
                  (r.ops.render_vcluster_substitutions
                    (create_request_from_cr s.vc)
                    r.cell
                    s.vc.spec.k8s_version
                    s.world).0.0)
  unfolding reconcile_provisioning refuse_spec provision_failed
  all_objects_applied s h = (ground arith, grind (arith, apply_all-count))
