-- ===== src/Velero/Follow.antt =====
-- What follows a restore in internal/service/velero.go: the background watcher, the polls of its
-- status, and the reading of an interrupted sequence.
use vcluster_manager.Prelude.{
  ℕ, zero, suc, String, Bool, true, false, not, ◌&&◌, ◌||◌, Option, none, some, List, [], ◌∷◌,
  if◌then◌else◌, str_eq, is_some,
}
use vcluster_manager.VCluster.{Error}
use vcluster_manager.Marker.{
  InterruptedRestoreView, VeleroRestoreStatusView, RestoreOpsStatus, is_terminal_restore_phase,
}
use vcluster_manager.Cluster.{returned, raised}
use vcluster_manager.Cluster.Velero.{VeleroRestoreInfo}
use vcluster_manager.Velero.{
  StatusClient, invalid_vcluster_name, k8s_unavailable, backup_name_required, invalid_backup_name,
  client_failed, Outcome, done, refused, read_phase, suspended, read_restore_status, restarted_dns,
  read_ops_state, read_pvc_state, read_active_restores, VeleroResumeState, Service, Serve, ◌>>=◌,
  ◌>>◌, pure, ask, env_or_default, valid_backup_name, valid_vcluster_name,
}

unfoldable pub find_state : String → List (String × VeleroResumeState) → Option VeleroResumeState
find_state restore [] = none
find_state restore ((name, st) ∷ rest) =
    let later = find_state restore rest in if str_eq name restore then some st else later

abbrev pub settled_as : Bool → String → VeleroResumeState
settled_as failed msg = record { failed_to_resume = failed; err_msg = msg }

-- What a poll tells of the resume.
unfoldable pub status_view :
    String → Bool → Bool → Option VeleroResumeState → VeleroRestoreStatusView
status_view phase in_place pending none = record {
  phase = phase;
  resume_pending = pending;
  resume_failed = false;
  resume_error = "";
  volume_destroyed = in_place && str_eq phase "Failed";
}
status_view phase in_place pending (some st) = record {
  phase = phase;
  resume_pending = pending;
  resume_failed = st.failed_to_resume;
  resume_error = st.err_msg;
  volume_destroyed = in_place && str_eq phase "Failed";
}

unfoldable pub interrupted_view : Bool × Bool → List VeleroRestoreInfo → InterruptedRestoreView
interrupted_view (there, deleting) [] = record {
  volume_gone = not there || deleting;
  active_restore_name = "";
  active_restore_phase = "";
}
interrupted_view (there, deleting) (r ∷ _) = record {
  volume_gone = not there || deleting;
  active_restore_name = r.name;
  active_restore_phase = r.phase;
}

-- The status that the operator publishes; nothing yet is a new restore.
unfoldable pub ops_status_view : Option RestoreOpsStatus → VeleroRestoreStatusView
ops_status_view none = record {
  phase = "New";
  resume_pending = false;
  resume_failed = false;
  resume_error = "";
  volume_destroyed = false;
}
ops_status_view (some st) =
    if str_eq st.phase ""
    then record {
      phase = "New";
      resume_pending = false;
      resume_failed = false;
      resume_error = "";
      volume_destroyed = false;
    }
    else record {
      phase = st.phase;
      resume_pending = st.resume_pending;
      resume_failed = st.resume_failed;
      resume_error = st.resume_error;
      volume_destroyed = st.volume_destroyed;
    }

module _ {W : Type 0} where
  unfoldable pub velero_resume_result : String → Serve W (Option VeleroResumeState)
  velero_resume_result restore s = (find_state restore s.resume_states, s)

  unfoldable pub resolve_velero_resume : String → Bool → String → Serve W (Unit {0})
  resolve_velero_resume restore failed msg s =
      (tt, record s { resume_states = (restore, settled_as failed msg) ∷ s.resume_states })

abbrev err_text : (Error → String) → Option Error → String
err_text text none = ""
err_text text (some e) = text e

module _ {W : Type 0} (svc : Service W) (k : StatusClient W) where
  -- The deadline: a last attempt, and its outcome is final.
  unfoldable pub give_up : String → String → Serve W (Unit {0})
  give_up name restore = do
    err ← ask (suspended name false) (k.suspend_flux name false)
    resolve_velero_resume restore (is_some err) (err_text svc.error_text err)

  -- A tick after the restore ended: `retry` is the rest of the loop.
  unfoldable pub attempt_resume : String → String → Serve W (Unit {0}) → Serve W (Unit {0})
  attempt_resume name restore retry = do
    err ← ask (suspended name false) (k.suspend_flux name false)
    elim err [
      | some _ ↦ retry
      | none ↦ (do
        ask (λ _. restarted_dns name) (k.restart_dns name)
        resolve_velero_resume restore false "")
    ]

  -- The loop of resumeAfterInPlaceRestore: so many ticks are taken before the deadline, and the
  -- restore was seen to have ended or not.
  unfoldable pub watch_restore : ℕ → Bool → String → String → Serve W (Unit {0})
  watch_restore zero terminal_seen name restore = give_up name restore
  watch_restore (suc ticks) true name restore =
      attempt_resume name restore (watch_restore ticks true name restore)
  watch_restore (suc ticks) false name restore = do
    phase ← ask (read_restore_status restore) (k.restore_status restore svc.velero_namespace)
    elim phase [
      | raised _ ↦ watch_restore ticks false name restore
      | returned p ↦ elim (is_terminal_restore_phase p) [
        | false ↦ watch_restore ticks false name restore
        | true ↦ attempt_resume name restore (watch_restore ticks true name restore)
      ]
    ]

  -- A poll of an in-place restore that ended: what was settled, or an attempt of its own.
  unfoldable pub poll_resume : String → String → String → Serve W VeleroRestoreStatusView
  poll_resume name restore phase = do
    known ← velero_resume_result restore
    elim known [
      | some st ↦ pure (status_view phase true false (some st))
      | none ↦ (do
        err ← ask (suspended name false) (k.suspend_flux name false)
        elim err [
          | some _ ↦ pure (status_view phase true true none)
          | none ↦ (do
            resolve_velero_resume restore false ""
            pure (status_view phase true false none))
        ])
    ]

  unfoldable pub poll_restore : String → String → Bool → Serve W (Outcome VeleroRestoreStatusView)
  poll_restore name restore in_place = do
    phase ← ask (read_restore_status restore) (k.restore_status restore svc.velero_namespace)
    elim phase [
      | raised e ↦ pure (refused (client_failed e))
      | returned p ↦
          (if in_place && is_terminal_restore_phase p
            then (do view ← poll_resume name restore p; pure (done view))
            else pure (done (status_view p in_place false none)))
    ]

  unfoldable pub inspect_restore : String → Serve W (Outcome InterruptedRestoreView)
  inspect_restore name = do
    pvc ← ask (λ _. read_pvc_state name) (k.pvc_state name)
    elim pvc [
      | raised e ↦ pure (refused (client_failed e))
      | returned st ↦ (do
        active ← ask (λ _. read_active_restores name) (k.active_restores name svc.velero_namespace)
        elim active [
          | raised e ↦ pure (refused (client_failed e))
          | returned rs ↦ pure (done (interrupted_view st rs))
        ])
    ]

module _ {W : Type 0} (svc : Service W) where
  unfoldable pub restore_status_of :
      String → String → String → Bool → Serve W (Outcome VeleroRestoreStatusView)
  restore_status_of name restore env in_place = elim (svc.k8s_for_env (env_or_default env)) [
    | none ↦ pure (refused k8s_unavailable)
    | some k ↦ poll_restore svc k name restore in_place
  ]

  unfoldable pub interrupted_restore_of : String → String → Serve W (Outcome InterruptedRestoreView)
  interrupted_restore_of name env =
      if not (valid_vcluster_name name)
      then pure (refused invalid_vcluster_name)
      else elim (svc.k8s_for_env (env_or_default env)) [
        | none ↦ pure (refused k8s_unavailable)
        | some k ↦ inspect_restore svc k name
      ]

  unfoldable pub backup_phase_of : String → String → Serve W (Outcome String)
  backup_phase_of backup env =
      if str_eq backup ""
      then pure (refused backup_name_required)
      else (if not (valid_backup_name backup)
          then pure (refused invalid_backup_name)
          else elim (svc.k8s_for_env (env_or_default env)) [
            | none ↦ pure (refused k8s_unavailable)
            | some k ↦ (do
              phase ← ask (read_phase backup) (k.backup_phase backup svc.velero_namespace)
              elim phase [
                | raised e ↦ pure (refused (client_failed e))
                | returned p ↦ pure (done p)
              ])
          ])

  unfoldable pub ops_restore_status : String → String → Serve W (Outcome VeleroRestoreStatusView)
  ops_restore_status name env =
      if not (valid_vcluster_name name)
      then pure (refused invalid_vcluster_name)
      else elim (svc.k8s_for_env (env_or_default env)) [
        | none ↦ pure (refused k8s_unavailable)
        | some k ↦ (do
          state ← ask (λ _. read_ops_state name) (k.ops_restore_state name)
          elim state [
            | raised e ↦ pure (refused (client_failed e))
            | returned st ↦ pure (done (ops_status_view st))
          ])
      ]
