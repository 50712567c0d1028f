-- ===== src/Velero/Protocol.antt =====
-- The protocol of an in-place restore: what the calls of internal/service/velero.go make of a
-- vcluster, apart from how the code comes to make them.
use vcluster_manager.Prelude.{
  ◌≡◌, String, Bool, true, false, ◌&&◌, Option, none, some, List, [], ◌∷◌, if◌then◌else◌, arith,
  str_eq,
}
use vcluster_manager.Marker.{VeleroRestoreView}
use vcluster_manager.Marker.Reservation.{str_eq_refl}
use vcluster_manager.Cluster.{returned, raised, is_not_found}
use vcluster_manager.Velero.{
  StatusClient, Actor, restore_stage_failed, restore_stage_failed_volume_gone, Outcome, done,
  refused, ServiceCall, read_phase, suspended, quiesced, deleted_pvc, submitted_restore, watched,
  Service, ServiceRun,
}
use vcluster_manager.Velero.Restore.{
  is_in_place, refuse_restore, resume_after_abort, delete_volume, quiesce_and_delete,
  suspend_and_delete, stage_volume, submission_failed, submit_restore, run_restore,
  create_velero_restore,
}

-- A vcluster in a restore: as it was; as it was, its backup known to be complete; with Flux
-- suspended, or perhaps half suspended; quiesced, with the volume to delete; without a volume; with
-- Flux asked to go on again; with a restore that fills the volume.
pub data RestoreStage : Type 0 where
  untouched verified held half_held emptied let_go filling : RestoreStage
  down : String → RestoreStage

-- The deletion of a volume, which did or did not take it away.
abbrev emptied_if : Bool → String → RestoreStage
emptied_if true pvc = emptied
emptied_if false pvc = down pvc

-- What a call on a vcluster makes of a stage; none where the protocol does not allow it.
abbrev pub advance : String → ServiceCall → RestoreStage → Option RestoreStage
advance name (read_phase _ (returned p)) untouched =
    some (if str_eq p "Completed" then verified else untouched)
advance name (read_phase _ (raised _)) untouched = some untouched
advance name (suspended n true none) verified = if str_eq n name then some held else none
advance name (suspended n true (some _)) verified = if str_eq n name then some half_held else none
advance name (quiesced n (returned t)) held = if str_eq n name then some (down t.pvc_name) else none
advance name (quiesced n (raised _)) held = if str_eq n name then some held else none
advance name (deleted_pvc n pvc none) (down p) =
    if str_eq n name && str_eq pvc p then some emptied else none
advance name (deleted_pvc n pvc (some e)) (down p) =
    if str_eq n name && str_eq pvc p then some (emptied_if (is_not_found e) p) else none
advance name (suspended n false _) held = if str_eq n name then some let_go else none
advance name (suspended n false _) (down p) = if str_eq n name then some let_go else none
advance name (submitted_restore _ _ _ (returned _)) emptied = some filling
advance name (submitted_restore _ _ _ (raised _)) emptied = some emptied
advance name (watched n _) filling = if str_eq n name then some filling else none
advance name _ _ = none

abbrev and_then : Option RestoreStage → (RestoreStage → Option RestoreStage) → Option RestoreStage
and_then none f = none
and_then (some st) f = f st

-- The stage that a log reaches, the latest call first.
abbrev pub stage_of : String → List ServiceCall → Option RestoreStage
stage_of name [] = some untouched
stage_of name (c ∷ cs) = and_then (stage_of name cs) (advance name c)

-- The stage that an outcome promises: a restore under way; no volume; Flux let go, or a suspension
-- that failed; nothing touched, with an error that speaks of no stage.
abbrev pub promises : Outcome VeleroRestoreView → Option RestoreStage → Bool
promises (done _) (some filling) = true
promises (refused (restore_stage_failed_volume_gone _)) (some emptied) = true
promises (refused (restore_stage_failed _)) (some let_go) = true
promises (refused (restore_stage_failed _)) (some half_held) = true
promises (refused (restore_stage_failed_volume_gone _)) (some untouched) = false
promises (refused (restore_stage_failed _)) (some untouched) = false
promises (refused _) (some untouched) = true
promises _ _ = false

module _ {W : Type 0} (svc : Service W) where
  run_keeps_protocol :
      (k : StatusClient W) (name backup target : String) (o : Bool) (s : ServiceRun W)
      → is_in_place name target ≡ true
      → s.calls ≡ []
      → (let (result, s') = run_restore svc k name backup target o s in
          promises result (stage_of name s'.calls) ≡ true)
  unfolding run_restore submit_restore submission_failed stage_volume suspend_and_delete
      quiesce_and_delete delete_volume resume_after_abort
  run_keeps_protocol k name backup target o s p h = grind (arith, str_eq_refl)

  -- A restore keeps to the protocol, whatever the cluster answers: Flux is suspended only after the
  -- backup is known to be complete, the vcluster is quiesced only then, its volume, the one that the
  -- quiescing named, is deleted only then, Flux is never resumed without that volume, and a restore
  -- is submitted only without it. And the outcome tells the stage that was reached: a restore under
  -- way, a volume that is gone, a failed stage after which Flux was asked to go on or whose very
  -- suspension failed, or, with any other error, a vcluster that was not touched.
  pub restore_keeps_protocol :
      (actor : Actor) (name env backup target : String) (o : Bool) (s : ServiceRun W)
      → s.calls ≡ []
      → (let (result, s') = create_velero_restore svc actor name env backup target o s in
          promises result (stage_of name s'.calls) ≡ true)
  unfolding create_velero_restore refuse_restore
  restore_keeps_protocol actor name env backup target o s h = grind (arith, run_keeps_protocol)
