-- ===== src/Velero/Settled.antt =====
-- The end of the background watcher and of the polls: Flux goes on, or what keeps it is recorded.
use vcluster_manager.Prelude.{
  ℕ, zero, suc, ◌≡◌, String, Bool, true, false, not, ◌&&◌, ◌||◌, Option, none, some, List, [], ◌∷◌,
  ◌+◌, ◌==◌, arith, str_eq, if◌then◌else◌, refl, Option-cases, inl, inr,
}
use vcluster_manager.VCluster.{Error}
use vcluster_manager.Cluster.{returned}
use vcluster_manager.Marker.{VeleroRestoreStatusView, is_terminal_restore_phase}
use vcluster_manager.Marker.Reservation.{str_eq_refl}
use vcluster_manager.Velero.{
  StatusClient, ServiceCall, suspended, restarted_dns, read_restore_status, VeleroResumeState,
  Service, ServiceRun, Serve, done,
}
use vcluster_manager.Velero.Follow.{
  find_state, resolve_velero_resume, velero_resume_result, give_up, attempt_resume, watch_restore,
  status_view, poll_resume, poll_restore,
}

abbrev is_resume : ServiceCall → Bool
is_resume (suspended _ false _) = true
is_resume _ = false

-- The last call read the phase of a restore that ended.
abbrev just_ended : List ServiceCall → Bool
just_ended (read_restore_status _ (returned p) ∷ _) = is_terminal_restore_phase p
just_ended _ = false

-- How many ticks of the watcher a log tells of: one for each call, but that an attempt right after
-- the reading that saw the restore end belongs to the same tick.
abbrev pub ticks_of : List ServiceCall → ℕ
ticks_of [] = 0
ticks_of (c ∷ cs) =
    let before = ticks_of cs in if is_resume c && just_ended cs then before else suc before

-- Every tick before the deadline is over.
abbrev pub is_deadline : ℕ → List ServiceCall → Bool
is_deadline ticks cs = not (just_ended cs) && ticks_of cs == ticks

-- A run settled a restore at the deadline, after so many ticks, or before it. Before it, the last
-- call is the restart of the DNS right after a resume that succeeded, and the latest state says that
-- it did. At the deadline the last call is a resume, and the latest state says how it went.
abbrev pub is_settled_run :
    ℕ → String → String → List (String × VeleroResumeState) → List ServiceCall → Bool
is_settled_run ticks name restore ((r, st) ∷ _) (suspended n false none ∷ cs) =
    str_eq r restore && str_eq n name && not st.failed_to_resume && is_deadline ticks cs
is_settled_run ticks name restore ((r, st) ∷ _) (suspended n false (some _) ∷ cs) =
    str_eq r restore && str_eq n name && st.failed_to_resume && is_deadline ticks cs
is_settled_run ticks name restore ((r, st) ∷ _) (restarted_dns m ∷ suspended n false none ∷ _) =
    str_eq r restore && str_eq n name && str_eq m name && not st.failed_to_resume
is_settled_run _ _ _ _ _ = false

-- The resume is recorded as done.
abbrev pub is_recorded : Option VeleroResumeState → Bool
is_recorded none = false
is_recorded (some st) = not st.failed_to_resume

-- The last call is a resume of the vcluster that succeeded.
abbrev pub has_resumed : String → List ServiceCall → Bool
has_resumed name (suspended n false none ∷ _) = str_eq n name
has_resumed _ _ = false

abbrev pub is_settled : {W : Type 0} → ℕ → String → String → ServiceRun W → Bool
is_settled ticks name restore s = is_settled_run ticks name restore s.resume_states s.calls

module _ {W : Type 0} (svc : Service W) (k : StatusClient W) (ticks : ℕ)
    (name restore : String) where
  give_up-settles :
      (s : ServiceRun W)
      → is_deadline ticks s.calls ≡ true
      → is_settled ticks name restore (give_up svc k name restore s).1 ≡ true
  unfolding give_up resolve_velero_resume
  give_up-settles s d = ground (arith, d, str_eq_refl name, str_eq_refl restore)

  attempt-settles :
      (retry : Serve W (Unit {0})) (s : ServiceRun W)
      → ((e : Error) (t : ServiceRun W)
          → t.calls ≡ suspended name false (some e) ∷ s.calls
          → is_settled ticks name restore (retry t).1 ≡ true)
      → is_settled ticks name restore (attempt_resume svc k name restore retry s).1 ≡ true
  unfolding attempt_resume resolve_velero_resume
  attempt-settles retry s h = elim (Option-cases (k.suspend_flux name false s.world).0) [
    | inl e ↦ ground (arith, e, str_eq_refl name, str_eq_refl restore)
    | inr (x, e) ↦
        (let failed =
            h x
              (record s {
                world = (k.suspend_flux name false s.world).1;
                calls = suspended name false (some x) ∷ s.calls;
              })
              refl in
          ground (arith, e, failed))
  ]

  -- After the restore was seen to have ended.
  resuming-settles :
      (left : ℕ) (s : ServiceRun W)
      → just_ended s.calls ≡ false
      → ticks_of s.calls + left ≡ ticks
      → is_settled ticks name restore (watch_restore svc k left true name restore s).1 ≡ true
  unfolding watch_restore
  resuming-settles zero s j t = give_up-settles s (ground (arith, j, t))
  resuming-settles (suc n) s j t =
      attempt-settles (watch_restore svc k n true name restore) s
        (λ e u c. resuming-settles n u (rw c refl) (rw c (ground (arith, j, t))))

  -- The attempt in the tick that saw the end.
  ended-settles :
      (left : ℕ) (s : ServiceRun W)
      → just_ended s.calls ≡ true
      → ticks_of s.calls + left ≡ ticks
      → is_settled ticks name restore
          (attempt_resume svc k name restore (watch_restore svc k left true name restore) s).1
        ≡ true
  ended-settles left s j t =
      attempt-settles (watch_restore svc k left true name restore) s
        (λ e u c. resuming-settles left u (rw c refl) (rw c (ground (arith, j, t))))

  watching-settles :
      (left : ℕ) (s : ServiceRun W)
      → just_ended s.calls ≡ false
      → ticks_of s.calls + left ≡ ticks
      → is_settled ticks name restore (watch_restore svc k left false name restore s).1 ≡ true
  unfolding watch_restore
  watching-settles zero s j t = give_up-settles s (ground (arith, j, t))
  watching-settles (suc n) s j t =
      let answer = k.restore_status restore svc.velero_namespace s.world in
      let s' = record s {
        world = answer.1;
        calls = read_restore_status restore answer.0 ∷ s.calls;
      } in
      let count : ticks_of s'.calls + n ≡ ticks = ground (arith, t) in
      ground (arith, count, watching-settles n s', ended-settles n s')

module _ {W : Type 0} (svc : Service W) (k : StatusClient W) where
  -- However the restore and the attempts go, and whatever the ticks before the deadline, the watcher
  -- ends with the resume of Flux settled. Before the deadline: an attempt succeeded, the DNS of the
  -- vcluster was restarted right after it, and the state says so. Otherwise all the ticks are over,
  -- the attempt at the deadline is the last call, and the state says whether it succeeded or failed.
  -- The watcher starts with an empty log.
  pub watcher_settles :
      (ticks : ℕ) (name restore : String) (s : ServiceRun W)
      → s.calls ≡ []
      → is_settled ticks name restore (watch_restore svc k ticks false name restore s).1 ≡ true
  watcher_settles ticks name restore s h =
      watching-settles svc k ticks name restore ticks s (rw h refl) (rw h (ground arith))

  -- A poll of an in-place restore that ended never says that Flux is back when it is not known to
  -- be: where it tells of no resume that is pending or failed, the resume was recorded as done
  -- before the poll, or the poll's last call is a resume that succeeded; and it is recorded as done
  -- after the poll.
  pub poll_tells_truth :
      (name restore : String) (s : ServiceRun W) (view : VeleroRestoreStatusView)
      → (poll_restore svc k name restore true s).0 ≡ done view
      → is_terminal_restore_phase view.phase ≡ true
      → view.resume_pending ≡ false
      → view.resume_failed ≡ false
      → (is_recorded (find_state restore s.resume_states)
            || has_resumed name (poll_restore svc k name restore true s).1.calls
          ≡ true)
        × (is_recorded (find_state restore (poll_restore svc k name restore true s).1.resume_states)
            ≡ true)
  unfolding poll_restore poll_resume velero_resume_result resolve_velero_resume find_state
      status_view
  poll_tells_truth name restore s view h t p f =
      (ground (arith, str_eq_refl name), ground (arith, str_eq_refl restore))
