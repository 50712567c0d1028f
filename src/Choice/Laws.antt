-- ===== src/Choice/Laws.antt =====
-- What the chosen backup guarantees: none from before the deletion is taken for its own.
use vcluster_manager.Prelude.{
  ℕ, ◌≡◌, ◌≤◌, ◌<◌, refl, String, Bool, true, not, ◌&&◌, ◌||◌, Option, none, some, List, [], ◌∷◌,
  any, arith, ltb, leb, str_eq, is_some,
}
use vcluster_manager.Reconciler.Answers.{DeletionBackupState}
use vcluster_manager.Marker.{is_terminal_backup_phase}
use vcluster_manager.Choice.{
  VeleroBackupInfo, Candidates, latest, best_of, time_of, consider, collect, pick_deletion_backup,
}

-- A candidate is no completed backup, or one of the deletion.
abbrev is_own : ℕ → DeletionBackupState → Bool
is_own since st = not st.completed || leb since st.started_at && ltb 0 st.started_at

abbrev all_own : ℕ → Option DeletionBackupState → Bool
all_own since none = true
all_own since (some st) = is_own since st

abbrev own_candidates : ℕ → Candidates → Bool
own_candidates since cs =
    all_own since cs.running && all_own since cs.completed && all_own since cs.failed

module _ (parse_time : String → Option ℕ) where
  -- A backup of the list runs.
  abbrev pub is_running : VeleroBackupInfo → Bool
  is_running b = not (is_terminal_backup_phase b.phase)

  -- A backup of the list is completed, and took place at or after the time.
  abbrev pub is_own_completed : ℕ → VeleroBackupInfo → Bool
  is_own_completed since b =
      is_terminal_backup_phase b.phase
      && str_eq b.phase "Completed"
      && ltb 0 (time_of parse_time b)
      && leb since (time_of parse_time b)

  consider_own :
      (since : ℕ) (b : VeleroBackupInfo) (cs : Candidates)
      → own_candidates since cs ≡ true
      → own_candidates since (consider parse_time since b cs) ≡ true
  unfolding consider latest
  consider_own since b cs h = ground arith

  collect_own :
      (since : ℕ) (bs : List VeleroBackupInfo) (cs : Candidates)
      → own_candidates since cs ≡ true
      → own_candidates since (collect parse_time since bs cs) ≡ true
  unfolding collect
  collect_own since [] cs h = h
  collect_own since (b ∷ bs) cs h =
      collect_own since bs (consider parse_time since b cs) (consider_own since b cs h)

  best_own :
      (since : ℕ) (cs : Candidates)
      → own_candidates since cs ≡ true
      → is_own since (best_of cs) ≡ true
  unfolding best_of
  best_own since cs h = ground arith

  -- The chosen backup is reported completed only if its time could be read and is not before the
  -- deletion: last night's backup is not the net of today's deletion.
  pub completed_after_deletion :
      (backups : List VeleroBackupInfo) (since : ℕ)
      → (pick_deletion_backup parse_time backups since).completed ≡ true
      → (since ≤ (pick_deletion_backup parse_time backups since).started_at)
        × (0 < (pick_deletion_backup parse_time backups since).started_at)
  unfolding pick_deletion_backup
  completed_after_deletion backups since h =
      let start : Candidates = record { running = none; completed = none; failed = none } in
      let own =
        best_own since (collect parse_time since backups start)
          (collect_own since backups start refl) in
      (ground (arith, own), ground (arith, own))

  collect_running :
      (since : ℕ) (bs : List VeleroBackupInfo) (cs : Candidates)
      → is_some (collect parse_time since bs cs).running ≡ is_some cs.running || any is_running bs
  unfolding collect consider
  collect_running since [] cs = ground arith
  collect_running since (b ∷ bs) cs =
      ground (arith, collect_running since bs (consider parse_time since b cs))

  collect_completed :
      (since : ℕ) (bs : List VeleroBackupInfo) (cs : Candidates)
      → is_some (collect parse_time since bs cs).completed
        ≡ is_some cs.completed || any (is_own_completed since) bs
  unfolding collect consider
  collect_completed since [] cs = ground arith
  collect_completed since (b ∷ bs) cs =
      ground (arith, collect_completed since bs (consider parse_time since b cs))

  -- What each candidate is.
  abbrev kinds : Candidates → Bool
  kinds cs =
      elim cs.running [ none ↦ true | some st ↦ not st.completed ]
      && elim cs.completed [ none ↦ true | some st ↦ st.completed ]
      && elim cs.failed [ none ↦ true | some st ↦ not st.completed ]

  consider-kinds :
      (since : ℕ) (b : VeleroBackupInfo) (cs : Candidates)
      → kinds cs ≡ true
      → kinds (consider parse_time since b cs) ≡ true
  unfolding consider latest
  consider-kinds since b cs h = ground arith

  collect-kinds :
      (since : ℕ) (bs : List VeleroBackupInfo) (cs : Candidates)
      → kinds cs ≡ true
      → kinds (collect parse_time since bs cs) ≡ true
  unfolding collect
  collect-kinds since [] cs h = h
  collect-kinds since (b ∷ bs) cs h =
      collect-kinds since bs (consider parse_time since b cs) (consider-kinds since b cs h)

  best_completed :
      (cs : Candidates)
      → kinds cs ≡ true
      → (best_of cs).completed ≡ not (is_some cs.running) && is_some cs.completed
  unfolding best_of
  best_completed cs h = ground arith

  -- The deletion has its backup exactly if no backup of the list is still running and one of them
  -- is completed with a time that can be read and is not before the deletion, whatever their order.
  pub completed_exactly :
      (backups : List VeleroBackupInfo) (since : ℕ)
      → (pick_deletion_backup parse_time backups since).completed
        ≡ not (any is_running backups) && any (is_own_completed since) backups
  unfolding pick_deletion_backup
  completed_exactly backups since =
      let start : Candidates = record { running = none; completed = none; failed = none } in
      ground (
        arith,
        best_completed (collect parse_time since backups start)
            (collect-kinds since backups start refl),
        collect_running since backups start,
        collect_completed since backups start,
      )
