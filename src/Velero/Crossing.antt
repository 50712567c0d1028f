-- ===== src/Velero/Crossing.antt =====
-- A restore of one vcluster from the backup of another, through the order that is posted on a
-- marker: the request of internal/service/velero.go with the operator that carries it out.
use vcluster_manager.Prelude.{
  ◌≡◌, ap, ◌∙◌, refl, sym, String, Bool, true, false, Option, none, some, List, [], ◌∷◌, any, arith,
  str_eq, if◌then◌else◌,
}
use vcluster_manager.Kube.{KubeApi}
use vcluster_manager.VCluster.{Error}
use vcluster_manager.Integrations.{Delay}
use vcluster_manager.Marker.{
  Marker, VeleroOpsReconciler, MarkerRun, Step, ◌>>=◌, pure, store_status,
}
use vcluster_manager.Marker.Backup.{at_once}
use vcluster_manager.Marker.Reservation.{str_eq_refl}
use vcluster_manager.Marker.Restore.{
  is_restoring, is_foreign, create_restore, reserve_restore, start_restore, record_restore_failure,
}
use vcluster_manager.Cluster.{returned, VClusterTopology}
use vcluster_manager.Velero.{
  StatusClient, Actor, cross_vcluster_restore_unsupported, done, refused, ServiceCall, deleted_pvc,
  Service, ServiceRun, env_or_default,
}
use vcluster_manager.Velero.Restore.{
  refuse_restore, resume_after_abort, delete_volume, quiesce_and_delete, suspend_and_delete,
  stage_volume, submission_failed, submit_restore, run_restore, create_velero_restore,
}
use vcluster_manager.Velero.Request.{
  VeleroRestoreRequested, ann_restore_target, ann_restore_from_backup, restore_annotations,
  refuse_order, marker_vcluster, post_restore, request_velero_restore,
}
use vcluster_manager.Velero.Operator.{system_actor, operator_ops}

-- A deletion of the volume of a vcluster.
abbrev pub deletes_volume_of : String → ServiceCall → Bool
deletes_volume_of name (deleted_pvc n _ _) = str_eq n name
deletes_volume_of name _ = false

-- What a list of annotations says of a key; "" where it is absent.
abbrev pub annotation : String → List (String × String) → String
annotation key [] = ""
annotation key ((k, v) ∷ rest) =
    let later = annotation key rest in if str_eq k key then v else later

-- A client that posts: after an order went through, the marker of the vcluster that it was posted on
-- carries its annotations.
pub record Posts {W : Type 0} (k : StatusClient W) (marker_of : W → String → Marker) : Type 0 where
  pub carried :
      (n : String) (notes : List (String × String)) (w : W)
      → (k.request_ops n notes w).0 ≡ none
      → (let m = marker_of (k.request_ops n notes w).1 n in
          (m.name ≡ n)
          × (m.restore_target ≡ annotation ann_restore_target notes)
          × (m.restore_from_backup ≡ annotation ann_restore_from_backup notes))

module _ {W : Type 0} (svc : Service W) (k : StatusClient W) where
  order_of : Actor → String → String → ServiceRun W → List (String × String)
  order_of actor backup target s =
      restore_annotations (svc.new_request_nonce s.world).0 backup target actor.username

  -- A request to restore a vcluster into another posts the order on the marker of the target. It is
  -- one that the direct path refuses, and that the guards of the operator's call take for a restore
  -- of the target in place.
  posted_on_target :
      (actor : Actor) (name env backup target : String) (o : Bool) (s : ServiceRun W)
      (r : VeleroRestoreRequested)
      → str_eq target "" ≡ false
      → str_eq target name ≡ false
      → svc.k8s_for_env (env_or_default env) ≡ some k
      → (request_velero_restore svc actor name env backup target s).0 ≡ done r
      → (let notes = order_of actor backup target s in
          let w = (svc.new_request_nonce s.world).1 in
          ((k.request_ops target notes w).0 ≡ none)
          × ((request_velero_restore svc actor name env backup target s).1.world
              ≡ (k.request_ops target notes w).1)
          × ((create_velero_restore svc actor name env backup target o s).0
              ≡ refused cross_vcluster_restore_unsupported)
          × (refuse_restore system_actor target backup target ≡ none))
  unfolding order_of request_velero_restore post_restore create_velero_restore refuse_restore
      refuse_order marker_vcluster
  posted_on_target actor name env backup target o s r h d e q =
      (ground (arith, e), ground (arith, e), ground arith, ground (arith, str_eq_refl target))

  marker_posted :
      (marker_of : W → String → Marker) (actor : Actor) (name env backup target : String)
      (s : ServiceRun W) (r : VeleroRestoreRequested)
      → Posts k marker_of
      → str_eq target "" ≡ false
      → str_eq target name ≡ false
      → svc.k8s_for_env (env_or_default env) ≡ some k
      → (request_velero_restore svc actor name env backup target s).0 ≡ done r
      → (let m =
            marker_of (request_velero_restore svc actor name env backup target s).1.world target in
          (m.name ≡ target) × (m.restore_target ≡ target) × (m.restore_from_backup ≡ backup))
  unfolding order_of restore_annotations
  marker_posted marker_of actor name env backup target s r p h d e q =
      let posted = posted_on_target actor name env backup target true s r h d e q in
      let notes = order_of actor backup target s in
      let w = (svc.new_request_nonce s.world).1 in rw (posted.1) (p.carried target notes w posted.0)

-- A cluster whose answers let a restore of a vcluster from a backup go through.
pub record Obliging {W : Type 0} (svc : Service W) (k : StatusClient W) (name backup : String)
    : Type 0 where
  pub topology : VClusterTopology
  pub backup_completed :
      (w : W) → (k.backup_phase backup svc.velero_namespace w).0 ≡ returned "Completed"
  pub flux_suspends : (w : W) → (k.suspend_flux name true w).0 ≡ none
  pub quiesces : (w : W) → (k.quiesce name w).0 ≡ returned topology

module _ {W : Type 0} (svc : Service W) (k : StatusClient W) where
  submit-keeps :
      (name vcluster backup : String) (p d o : Bool) (s : ServiceRun W)
      → any (deletes_volume_of vcluster) (submit_restore svc k name backup p d o s).1.calls
        ≡ any (deletes_volume_of vcluster) s.calls
  unfolding submit_restore submission_failed resume_after_abort
  submit-keeps name vcluster backup p d o s = ground arith

  stage-deletes :
      (name backup : String) (s : ServiceRun W)
      → Obliging svc k name backup
      → any (deletes_volume_of name) (stage_volume svc k name backup s).1.calls ≡ true
  unfolding stage_volume suspend_and_delete quiesce_and_delete delete_volume resume_after_abort
  stage-deletes name backup s h =
      let completed : str_eq "Completed" "Completed" ≡ true = refl in
      let a = h.backup_completed s.world in
      let w1 = (k.backup_phase backup svc.velero_namespace s.world).1 in
      let b = h.flux_suspends w1 in
      let c = h.quiesces (k.suspend_flux name true w1).1 in
      ground (arith, completed, a, b, c, str_eq_refl name)

  run-deletes :
      (name backup : String) (o : Bool) (s : ServiceRun W)
      → Obliging svc k name backup
      → any (deletes_volume_of name) (run_restore svc k name backup name o s).1.calls ≡ true
  unfolding run_restore
  run-deletes name backup o s h =
      let staged = stage-deletes name backup s h in
      let kept = submit-keeps name name backup true true o (stage_volume svc k name backup s).1 in
      ground (arith, staged, kept, str_eq_refl name)

  create-deletes :
      (env name backup : String) (o : Bool) (s : ServiceRun W)
      → svc.k8s_for_env (env_or_default env) ≡ some k
      → refuse_restore system_actor name backup name ≡ none
      → Obliging svc k name backup
      → any
          (deletes_volume_of name)
          (create_velero_restore svc system_actor name env backup name o s).1.calls
        ≡ true
  unfolding create_velero_restore
  create-deletes env name backup o s e g h = ground (arith, e, g, run-deletes name backup o s h)

store-leads :
    {V : Type 0} (r : VeleroOpsReconciler V) (p : V → Bool) (f : Step V Delay) (t : MarkerRun V)
    → ((u : MarkerRun V) → p (f u).1.world ≡ true)
    → ((n : Marker) (v : V) → (r.ops.update_status n v).0.1 ≡ none)
    → p ((store_status r >>= λ e. elim e [ some x ↦ pure (at_once x) | none ↦ f ]) t).1.world ≡ true
store-leads r p f t h ok = rw (ok t.marker t.world) (h _)

-- A reservation that is stored leads to the creation of the restore.
reserve-leads :
    {V : Type 0} (r : VeleroOpsReconciler V) (p : V → Bool) (m : Marker) (t : MarkerRun V)
    → ((u : MarkerRun V) → p (create_restore r m u).1.world ≡ true)
    → ((n : Marker) (v : V) → (r.ops.update_status n v).0.1 ≡ none)
    → p (reserve_restore r m t).1.world ≡ true
unfolding reserve_restore
reserve-leads r p m t h ok = store-leads r p (create_restore r m) _ h ok

-- The operator of a cell over the service.
abbrev pub operator :
    {W : Type 0}
    → Service W
    → KubeApi
    → String
    → (Marker → ServiceRun W → (Marker × Option Error) × ServiceRun W)
    → VeleroOpsReconciler (ServiceRun W)
operator svc api cell update = record { api = api; ops = operator_ops svc update; cell = cell }

module _ {W : Type 0} (svc : Service W) (k : StatusClient W) (api : KubeApi) (cell : String)
    (update : Marker → ServiceRun W → (Marker × Option Error) × ServiceRun W) where
  create_restore-deletes :
      (m : Marker) (t : MarkerRun (ServiceRun W))
      → svc.k8s_for_env (env_or_default cell) ≡ some k
      → refuse_restore system_actor m.name m.restore_from_backup m.name ≡ none
      → Obliging svc k m.name m.restore_from_backup
      → m.restore_target ≡ m.name
      → any
          (deletes_volume_of m.name)
          (create_restore (operator svc api cell update) m t).1.world.calls
        ≡ true
  unfolding create_restore record_restore_failure operator_ops
  create_restore-deletes m t e g h same =
      let deleted = create-deletes svc k cell m.name m.restore_from_backup true t.world e g h in
      rw same (ground (arith, deleted))

  reserve-deletes :
      (t : MarkerRun (ServiceRun W))
      → svc.k8s_for_env (env_or_default cell) ≡ some k
      → refuse_restore system_actor t.marker.name t.marker.restore_from_backup t.marker.name ≡ none
      → Obliging svc k t.marker.name t.marker.restore_from_backup
      → t.marker.restore_target ≡ t.marker.name
      → ((m : Marker) (w : ServiceRun W) → (update m w).0.1 ≡ none)
      → any
          (deletes_volume_of t.marker.name)
          (reserve_restore (operator svc api cell update) t.marker t).1.world.calls
        ≡ true
  unfolding operator_ops
  reserve-deletes t e g h same ok =
      reserve-leads (operator svc api cell update)
        (λ w. any (deletes_volume_of t.marker.name) w.calls) t.marker t
        (λ u. create_restore-deletes t.marker u e g h same) ok

  start-deletes :
      (t : MarkerRun (ServiceRun W))
      → svc.k8s_for_env (env_or_default cell) ≡ some k
      → refuse_restore system_actor t.marker.name t.marker.restore_from_backup t.marker.name ≡ none
      → Obliging svc k t.marker.name t.marker.restore_from_backup
      → t.marker.restore_target ≡ t.marker.name
      → ((m : Marker) (w : ServiceRun W) → (update m w).0.1 ≡ none)
      → is_restoring t.marker ≡ false
      → any
          (deletes_volume_of t.marker.name)
          (start_restore (operator svc api cell update) t).1.world.calls
        ≡ true
  unfolding start_restore is_foreign
  start-deletes t e g h same ok idle =
      let own : str_eq t.marker.restore_target t.marker.name ≡ true =
        rw same (str_eq_refl t.marker.name) in
      ground (arith, own, reserve-deletes t e g h same ok)

  -- A request to restore a vcluster into another, which the direct path refuses, makes the operator
  -- delete the volume of the target: over the marker that the target has once the order is posted,
  -- where no restore runs there and the cell's cluster has the backup completed, suspends Flux,
  -- quiesces the target and stores the marker, the pass that starts the restore deletes the volume of
  -- that target with no other check.
  pub crossing_deletes_target :
      (marker_of : W → String → Marker) (actor : Actor) (name env backup target : String) (o : Bool)
      (s : ServiceRun W) (r : VeleroRestoreRequested) (t : MarkerRun (ServiceRun W))
      → Posts k marker_of
      → str_eq target "" ≡ false
      → str_eq target name ≡ false
      → svc.k8s_for_env (env_or_default env) ≡ some k
      → svc.k8s_for_env (env_or_default cell) ≡ some k
      → (request_velero_restore svc actor name env backup target s).0 ≡ done r
      → t.marker
        ≡ marker_of (request_velero_restore svc actor name env backup target s).1.world target
      → is_restoring t.marker ≡ false
      → Obliging svc k target backup
      → ((m : Marker) (w : ServiceRun W) → (update m w).0.1 ≡ none)
      → ((create_velero_restore svc actor name env backup target o s).0
          ≡ refused cross_vcluster_restore_unsupported)
        × (any
              (deletes_volume_of target)
              (start_restore (operator svc api cell update) t).1.world.calls
            ≡ true)
  crossing_deletes_target marker_of actor name env backup target o s r t p x d e e' q m idle h ok =
      let posted = posted_on_target svc k actor name env backup target o s r x d e q in
      let marked = marker_posted svc k marker_of actor name env backup target s r p x d e q in
      let named : t.marker.name ≡ target = ap (λ u. u.name) m ∙ marked.0 in
      let same : t.marker.restore_target ≡ target = ap (λ u. u.restore_target) m ∙ marked.1 in
      let from : t.marker.restore_from_backup ≡ backup =
        ap (λ u. u.restore_from_backup) m ∙ marked.2 in
      (
        posted.2,
        ap
              (λ n.
                any (deletes_volume_of n)
                  (start_restore (operator svc api cell update) t).1.world.calls)
              (sym named)
            ∙ start-deletes t e' (rw (named, from) posted.3) (rw (named, from) h) (same ∙ sym named)
                ok idle,
      )
