-- ===== src/Deletion/Final.antt =====
-- The last step of vcluster_finalizer.go, reconcileFinalTeardownAndNamespaceRemoval, and the
-- conclusion that it writes.
use vcluster_manager.Prelude.{
  ℕ, String, false, not, none, some, List, [], ◌∷◌, ◌++◌, map, ◌&&◌, ◌==◌, if◌then◌else◌, str_eq,
}
use vcluster_manager.Kube.{
  ready, namespace_removed, condition_true, condition_false, condition_unknown, protection_unknown,
  protection_removal_failed, teardown_failed, namespace_deletion_forbidden, namespace_gone,
  namespace_state_unknown, removal_unconfirmed, namespace_terminating, deleted,
}
use vcluster_manager.VCluster.{
  Leftover, warning, namespace_left, protection_removal, destroying, with_stage, with_message,
  protection_unreadable, sequence_done,
}
use vcluster_manager.Reconciler.{
  Reconciler, Call, Exec, Outcome, step_done, step_wait, step_failed, got_protection,
  set_protection, tore_down, saw_namespace, deleted_namespace, recorded_event, event_normal,
  event_warning, ◌>>=◌, ◌>>◌, pure, ask, get_vc, get_now, modify, note, set_vcluster_cond,
}
use vcluster_manager.Reconciler.Answers.{NamespaceCondition, NamespaceState}
use vcluster_manager.Deletion.Steps.{deletion_step_requeue, since_exceeds}

abbrev pub namespace_removal_give_up_after : ℕ
namespace_removal_give_up_after = 600

-- The causes that the API server reports; the sentence for none is left out.
unfoldable pub namespace_give_up_detail : List NamespaceCondition → List String
namespace_give_up_detail [] = []
namespace_give_up_detail (c ∷ cs) =
    let rest = namespace_give_up_detail cs in
    if not c.holds
    then rest
    else (if str_eq c.message "" then c.condition_type else c.message) ∷ rest

abbrev event_for : List Leftover → Call
event_for [] = recorded_event event_normal []
event_for (x ∷ xs) = recorded_event event_warning (x ∷ xs)

module _ {W Q O : Type 0} (r : Reconciler W Q O) where
  -- deletionDone: the warnings of the teardown, then what is left of the namespace.
  unfoldable pub deletion_done : List String → List Leftover → Exec W Outcome
  deletion_done warnings leftover = do
    let rests = map warning warnings ++ leftover
    modify (with_message (sequence_done rests))
    set_vcluster_cond r ready condition_false deleted
    note (event_for rests)
    pure step_done

  -- The switch on what was last seen of the namespace.
  unfoldable pub conclude_removal : List String → NamespaceState → Exec W Outcome
  conclude_removal warnings st = do
    now ← get_now
    if st.known && not st.exists
        then (do
          set_vcluster_cond r namespace_removed condition_true namespace_gone
          deletion_done warnings [])
        else (if not st.known
            then (do
              set_vcluster_cond r namespace_removed condition_false namespace_state_unknown
              pure (step_wait deletion_step_requeue))
            else (if not (st.deletion_timestamp == 0)
                  && since_exceeds now st.deletion_timestamp namespace_removal_give_up_after
                then (do
                  set_vcluster_cond r namespace_removed condition_unknown removal_unconfirmed
                  deletion_done warnings
                      (namespace_left (namespace_give_up_detail st.conditions) ∷ []))
                else (do
                  set_vcluster_cond r namespace_removed condition_false namespace_terminating
                  pure (step_wait deletion_step_requeue))))

  -- Stage Destroying: observe, delete what stands with no deletion timestamp, observe again.
  unfoldable pub remove_namespace : List String → Exec W Outcome
  remove_namespace warnings = do
    modify (with_stage destroying)
    vc ← get_vc
    st ← ask saw_namespace (r.ops.host_namespace_state vc.name r.cell)
    if st.known && st.exists && st.deletion_timestamp == 0
        then (do
          err ← ask deleted_namespace (r.ops.delete_host_namespace vc.name r.cell)
          elim err [
            | some e ↦ (do
              set_vcluster_cond r ready condition_false namespace_deletion_forbidden
              pure (step_failed deletion_step_requeue e))
            | none ↦ (do
              again ← ask saw_namespace (r.ops.host_namespace_state vc.name r.cell)
              conclude_removal warnings again)
          ])
        else conclude_removal warnings st

  -- From the lifted protection on: `status.protectionEnabled`, the teardown, the namespace.
  unfoldable pub tear_down : Exec W Outcome
  tear_down = do
    modify (λ vc. record vc { status = record vc.status { protection_enabled = false } })
    vc ← get_vc
    let with_repo = str_eq vc.delete_app_manifests_repo "true"
    answer ←
        ask (λ a. tore_down with_repo a.0 a.1) (r.ops.teardown_vcluster vc.name r.cell with_repo)
    elim answer.1 [
      | some e ↦ (do
        set_vcluster_cond r ready condition_false teardown_failed
        pure (step_failed deletion_step_requeue e))
      | none ↦ remove_namespace answer.0
    ]

  unfoldable pub reconcile_final_teardown_and_namespace_removal : Exec W Outcome
  reconcile_final_teardown_and_namespace_removal = do
    modify (with_stage protection_removal)
    vc ← get_vc
    p ← ask got_protection (r.ops.get_protection vc.name r.cell)
    if not p.available
        then (do
          modify (with_message (protection_unreadable p.detail))
          set_vcluster_cond r ready condition_false protection_unknown
          pure (step_wait deletion_step_requeue))
        else (if p.protected
            then (do
              err ← ask (set_protection false) (r.ops.set_protection vc.name r.cell false)
              elim err [
                | some e ↦ (do
                  set_vcluster_cond r ready condition_false protection_removal_failed
                  pure (step_failed deletion_step_requeue e))
                | none ↦ tear_down
              ])
            else tear_down)
