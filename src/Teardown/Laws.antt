-- ===== src/Teardown/Laws.antt =====
-- What the answers of the services of the deletion promise of Rancher and of the external systems.
use vcluster_manager.Prelude.{
  ℕ, suc, ◌+◌, ◌≡◌, String, Bool, true, false, not, ◌&&◌, none, some, List, [], ◌∷◌, any, length,
  arith, str_eq, ◌==◌, is_some, Option-cases, inl, inr,
}
use vcluster_manager.Registry.{is_cleaning, is_cleaning_of}
use vcluster_manager.Registry.Laws.{remove_cleaning_lem}
use vcluster_manager.Cluster.{returned}
use vcluster_manager.Velero.{Actor, env_or_default}
use vcluster_manager.Teardown.{
  RancherClient, HostClient, Office, Ruling, granted, denied, Deed, looked_up_cluster,
  removed_cluster, saw_agents, applied_manifest, deleted_clients, disabled_auth, deleted_project,
  OfficeRun,
}
use vcluster_manager.Teardown.Rancher.{
  RancherStatus, pair_rancher, pair_if_clean, pair_unless_known, start_pairing, run_pairing,
  await_pairing,
}
use vcluster_manager.Teardown.Unpairing.{
  unpair_rancher, unpair_known, clean_up, run_cleanup, inspect_rancher_teardown, inspect_agents,
  inspect_cleanup, unpair_for_deletion, unpair_cluster, drop_cleanup_job,
}
use vcluster_manager.Teardown.Final.{teardown_vcluster, retire_all, retire}

-- Rancher has no cluster of that name, is removing it, or took its deletion.
abbrev pub lets_go : Deed → Bool
lets_go (looked_up_cluster _ (returned none)) = true
lets_go (looked_up_cluster _ (returned (some info))) = str_eq info.state "removing"
lets_go (removed_cluster _ none) = true
lets_go _ = false

-- Rancher has no cluster of that name.
abbrev pub finds_none : Deed → Bool
finds_none (looked_up_cluster _ (returned none)) = true
finds_none _ = false

abbrev pub finds_no_agents : Deed → Bool
finds_no_agents (saw_agents _ _ found) = not found
finds_no_agents _ = false

-- A call of Keycloak, Vault or GitLab.
abbrev pub is_external : Deed → Bool
is_external (deleted_clients _ _) = true
is_external (disabled_auth _ _) = true
is_external (deleted_project _ _) = true
is_external _ = false

-- How many calls of Keycloak, Vault and GitLab failed.
abbrev pub failures_in : List Deed → ℕ
failures_in [] = 0
failures_in (deleted_clients _ (some _) ∷ ds) = suc (failures_in ds)
failures_in (disabled_auth _ (some _) ∷ ds) = suc (failures_in ds)
failures_in (deleted_project _ (some _) ∷ ds) = suc (failures_in ds)
failures_in (_ ∷ ds) = failures_in ds

abbrev one_if : Bool → ℕ
one_if true = 1
one_if false = 0

-- How many of the clients that a teardown needs are absent.
abbrev pub absent_clients : {W : Type 0} → Office W → Bool → ℕ
absent_clients o delete_repo =
    one_if (not (is_some o.delete_argocd_clients))
    + one_if (not (is_some o.disable_auth))
    + one_if (delete_repo && not (is_some o.delete_project))

-- Each trouble is a warning; a refusal called none of the external systems.
abbrev pub is_accounted : {W : Type 0} → Office W → Bool → Ruling (List String) → List Deed → Bool
is_accounted o delete_repo (granted ws) ds =
    length ws == failures_in ds + absent_clients o delete_repo
is_accounted o delete_repo (denied _) ds = not (any is_external ds)

-- A manifest was applied, and taken.
abbrev pub applies_manifest : Deed → Bool
applies_manifest (applied_manifest _ _ none) = true
applies_manifest _ = false

module _ {W : Type 0} (o : Office W) where
  -- A teardown that goes through gives one warning for each of Keycloak, Vault and, where it is asked
  -- for, GitLab that failed or whose client is absent, and no other; one that is refused, or whose
  -- cleanup of the namespace fails, called none of them.
  pub teardown_accounted :
      (actor : Actor) (name env : String) (delete_repo : Bool) (s : OfficeRun W)
      → s.deeds ≡ []
      → (let (result, s') = teardown_vcluster o actor name env delete_repo s in
          is_accounted o delete_repo result s'.deeds ≡ true)
  unfolding teardown_vcluster retire_all retire
  teardown_accounted actor name env delete_repo s h = ground arith

  drop-lets_go :
      (name env : String) (s : OfficeRun W)
      → any lets_go (drop_cleanup_job o name env s).1.deeds ≡ any lets_go s.deeds
  unfolding drop_cleanup_job
  drop-lets_go name env s = ground arith

  unpair-lets_go :
      (rc : RancherClient W) (name env : String) (s : OfficeRun W)
      → (unpair_cluster o rc name env s).0 ≡ none
      → any lets_go (unpair_cluster o rc name env s).1.deeds ≡ true
  unfolding unpair_cluster
  unpair-lets_go rc name env s h = grind (arith, drop-lets_go)

  -- Where Rancher is on in the environment, an unpairing for a deletion that reports no error saw
  -- that Rancher has no cluster of that name or is removing it, or had its deletion accepted.
  unpaired_is_let_go :
      (actor : Actor) (name env : String) (s : OfficeRun W)
      → o.rancher_enabled_for_env (env_or_default env) ≡ true
      → (unpair_for_deletion o actor name env s).0 ≡ none
      → any lets_go (unpair_for_deletion o actor name env s).1.deeds ≡ true
  unfolding unpair_for_deletion
  unpaired_is_let_go actor name env s on h = grind (arith, unpair-lets_go)

  -- The state of a teardown that reads the cleanup job was read after Rancher had no cluster of that
  -- name and no agent was seen in the host cluster.
  cleanup_read_last :
      (name env : String) (s : OfficeRun W)
      → s.deeds ≡ []
      → (inspect_rancher_teardown o name env s).0.cleanup.observable ≡ true
      → (any finds_none (inspect_rancher_teardown o name env s).1.deeds
          && any finds_no_agents (inspect_rancher_teardown o name env s).1.deeds)
        ≡ true
  unfolding inspect_rancher_teardown inspect_agents inspect_cleanup
  cleanup_read_last name env s e h = ground arith

  run_pairing-refused :
      (rc : RancherClient W) (k : HostClient W) (host name env : String) (s : OfficeRun W)
      → ((n : String) (text : String) (w : W) → is_some (k.apply_manifest n text w).0 ≡ true)
      → any applies_manifest (run_pairing o rc k host name env s).1.deeds
        ≡ any applies_manifest s.deeds
  unfolding run_pairing await_pairing
  run_pairing-refused rc k host name env s h = grind (arith, h)

  start_pairing-refused :
      (rc : RancherClient W) (k : HostClient W) (host name env : String) (s : OfficeRun W)
      → ((n : String) (text : String) (w : W) → is_some (k.apply_manifest n text w).0 ≡ true)
      → any applies_manifest (pair_unless_known o rc k host name env s).1.deeds
        ≡ any applies_manifest s.deeds
  unfolding pair_unless_known start_pairing
  start_pairing-refused rc k host name env s h =
      let run = λ (t : OfficeRun W). run_pairing-refused rc k host name env t h in
      grind (arith, run)

  clean-refused :
      (rc : RancherClient W) (name env : String) (s : OfficeRun W)
      → ((k : HostClient W)
          → o.k8s_for_env "prod" ≡ some k
          → (n : String) (text : String) (w : W) → is_some (k.apply_manifest n text w).0 ≡ true)
      → any applies_manifest (pair_if_clean o rc name env s).1.deeds ≡ any applies_manifest s.deeds
  unfolding pair_if_clean
  clean-refused rc name env s h =
      let t = record s { registry = (is_cleaning name env s.now s.registry).1 } in
      elim (Option-cases (o.k8s_for_env "prod")) [
        | inl e ↦ ground (arith, e)
        | inr (k, e) ↦ ground (arith, e, start_pairing-refused rc k "prod" name env t (h k e))
      ]

  -- A pairing applies Rancher's manifest through the client of the environment "prod", whatever the
  -- environment it was asked for: unless that client is there and takes a manifest, none is taken,
  -- whatever the clients of the other environments would take.
  pub pairs_through_prod :
      (actor : Actor) (name env : String) (s : OfficeRun W)
      → ((k : HostClient W)
          → o.k8s_for_env "prod" ≡ some k
          → (n : String) (text : String) (w : W) → is_some (k.apply_manifest n text w).0 ≡ true)
      → any applies_manifest (pair_rancher o actor name env s).1.deeds
        ≡ any applies_manifest s.deeds
  unfolding pair_rancher
  pairs_through_prod actor name env s h =
      let clean = λ (rc : RancherClient W). clean-refused rc name (env_or_default env) s h in
      grind (arith, clean)

  cleanup-ends :
      (k : HostClient W) (name env : String) (s : OfficeRun W)
      → any (is_cleaning_of name env) (run_cleanup o k name env s).1.registry.cleaning ≡ false
  unfolding run_cleanup
  cleanup-ends k name env s = ground (arith, remove_cleaning_lem name env s.registry)

  unpair-ends :
      (rc : RancherClient W) (k : HostClient W) (name env : String) (s : OfficeRun W)
      (st : RancherStatus)
      → o.k8s_for_env env ≡ some k
      → (unpair_known o rc name env s).0 ≡ granted st
      → any (is_cleaning_of name env) (unpair_known o rc name env s).1.registry.cleaning ≡ false
  unfolding unpair_known clean_up
  unpair-ends rc k name env s st e h = grind (arith, cleanup-ends)

  -- An unpairing that goes through, with a client for the environment, leaves no cleaning of that
  -- vcluster on the list once its background work is over, however that ends.
  unpairing_ends_cleaning :
      (actor : Actor) (name env : String) (k : HostClient W) (s : OfficeRun W) (st : RancherStatus)
      → o.k8s_for_env (env_or_default env) ≡ some k
      → (unpair_rancher o actor name env s).0 ≡ granted st
      → any
          (is_cleaning_of name (env_or_default env))
          (unpair_rancher o actor name env s).1.registry.cleaning
        ≡ false
  unfolding unpair_rancher
  unpairing_ends_cleaning actor name env k s st e h = grind (arith, unpair-ends)
