-- ===== src/Fluxprod/Deleting.antt =====
-- What a deletion through the repository removes, and when.
use vcluster_manager.Prelude.{
  ℕ, String, ◌≡◌, refl, Bool, true, false, not, ◌&&◌, none, some, is_some, List, [], ◌∷◌, ◌++◌, any,
  arith, str_eq,
}
use vcluster_manager.Text.{codes}
use vcluster_manager.VCluster.{Error}
use vcluster_manager.Cluster.{returned, raised}
use vcluster_manager.Registry.{Registry, is_cleaning_of, add_cleaning}
use vcluster_manager.Marker.Reservation.{str_eq_refl}
use vcluster_manager.Velero.{Actor, env_or_default}
use vcluster_manager.Gitops.{deployed_branch}
use vcluster_manager.Teardown.{
  ClusterInfo, RancherClient, HostClient, Deed, committed, asked_merge, cleaned_namespace,
  deleted_clients, disabled_auth, deleted_project, read_protection, wrote_protection, OfficeRun,
}
use vcluster_manager.Fluxprod.{
  Workshop, accepted, kustomization_action, commit_to, commit_prod_mr_actions,
  list_vcluster_names_on_branch, is_pending_prod, names_in,
}
use vcluster_manager.Fluxprod.Delete.{
  Scope, DeleteInput, DeleteResult, goes_in, lift_protection, release_namespace, remove_preprod,
  remove_prod, disable_backend, remove_clients, remove_outside, perform_deletion, unpair_and_wait,
  unpair_in, unpair_first, scope_of, delete_vcluster,
}

-- A call that takes something of the vcluster away.
abbrev pub removes : Deed → Bool
removes (committed _ _ _) = true
removes (cleaned_namespace _ _) = true
removes (wrote_protection _ _ _ _) = true
removes (deleted_clients _ _) = true
removes (disabled_auth _ _) = true
removes (deleted_project _ _) = true
removes _ = false

abbrev pub lifts : Deed → Bool
lifts (wrote_protection _ _ on _) = not on
lifts _ = false

abbrev pub saw_protected : Deed → Bool
saw_protected (read_protection _ _ (returned true)) = true
saw_protected _ = false

abbrev pub cleans : String → Deed → Bool
cleans name (cleaned_namespace n _) = str_eq n name
cleans name _ = false

abbrev pub asks_merge : Deed → Bool
asks_merge (asked_merge _ _) = true
asks_merge _ = false

any-last :
    {A : Type 0} (p : A → Bool) (xs : List A) (y : A) → p y ≡ true → any p (xs ++ y ∷ []) ≡ true
any-last p [] y h = ground arith
any-last p (x ∷ xs) y h = ground (arith, any-last p xs y h)

module _ {W : Type 0} (o : Workshop W) where
  -- In an environment that is to go, a deletion cleans the namespace up whatever became of its
  -- protection, and lifts the protection exactly where it has read that it stands.
  pub lifted_if_read :
      (g : Scope) (name e : String) (s : OfficeRun W)
      → s.deeds ≡ []
      → (any lifts (release_namespace o g name e s).1.deeds
          ≡ any saw_protected (release_namespace o g name e s).1.deeds)
        × (any (cleans name) (release_namespace o g name e s).1.deeds
            ≡ (goes_in g e && is_some (o.k8s_for_env e)))
  unfolding release_namespace lift_protection
  lifted_if_read g name e s h =
      let own = str_eq_refl name in (ground (arith, h), ground (arith, h, own))

  module _ (p : Deed → Bool) where
    release-grows :
        (g : Scope) (name e : String) (s : OfficeRun W)
        → any p s.deeds ≡ true
        → any p (release_namespace o g name e s).1.deeds ≡ true
    unfolding release_namespace lift_protection
    release-grows g name e s h = ground arith

    preprod-grows :
        (g : Scope) (name : String) (s : OfficeRun W)
        → any p s.deeds ≡ true
        → any p (remove_preprod o g name s).1.deeds ≡ true
    unfolding remove_preprod kustomization_action commit_to
    preprod-grows g name s h = ground arith

    prod-grows :
        (g : Scope) (name : String) (s : OfficeRun W)
        → any p s.deeds ≡ true
        → any p (remove_prod o g name s).1.deeds ≡ true
    unfolding remove_prod kustomization_action commit_to commit_prod_mr_actions is_pending_prod
        list_vcluster_names_on_branch
    prod-grows g name s h = ground arith

    outside-grows :
        (g : Scope) (name : String) (s : OfficeRun W)
        → any p s.deeds ≡ true
        → any p (remove_outside o g name s).1.deeds ≡ true
    unfolding remove_outside remove_clients disable_backend
    outside-grows g name s h = ground arith

  released :
      (k : HostClient W) (g : Scope) (name : String) (s : OfficeRun W)
      → g.preprod ≡ true
      → o.k8s_for_env "preprod" ≡ some k
      → any (cleans name) (release_namespace o g name "preprod" s).1.deeds ≡ true
  unfolding release_namespace lift_protection
  released k g name s h e =
      let own = str_eq_refl name in
      let this : str_eq "preprod" "preprod" ≡ true = refl in ground (arith, own, this)

  performed :
      (k : HostClient W) (g : Scope) (name : String) (s : OfficeRun W)
      → g.preprod ≡ true
      → o.k8s_for_env "preprod" ≡ some k
      → any (cleans name) (perform_deletion o g name s).1.deeds ≡ true
  unfolding perform_deletion
  performed k g name s h e = grind (
    arith,
    released k g name s h e,
    release-grows (cleans name),
    preprod-grows (cleans name),
    prod-grows (cleans name),
    outside-grows (cleans name),
  )

  -- A deletion looks at no name: without Rancher, an admin's deletion from preprod cleans up the
  -- namespace of any text whatever, that of the operator and of a reserved name included.
  pub any_name_cleaned :
      (k : HostClient W) (actor : Actor) (name : String) (input : DeleteInput) (s : OfficeRun W)
      → actor.is_admin ≡ true
      → o.rancher ≡ none
      → str_eq (env_or_default input.env) "preprod" ≡ true
      → o.k8s_for_env "preprod" ≡ some k
      → any (cleans name) (delete_vcluster o actor name input s).1.deeds ≡ true
  unfolding delete_vcluster unpair_first
  any_name_cleaned k actor name input s a r e h =
      ground (arith, performed k (scope_of o input) name s (ground arith) h)

  entry_stands :
      (name e : String) (now : ℕ) (a b c d : Bool) (g : Registry)
      → any (is_cleaning_of name e) (add_cleaning name e now a b c d g).cleaning ≡ true
  unfolding add_cleaning
  entry_stands name e now a b c d g =
      let own : (str_eq name name && str_eq e e) ≡ true =
        ground (arith, str_eq_refl name, str_eq_refl e) in
      grind (arith, any-last (is_cleaning_of name e) g.cleaning, own)

  waiting :
      (rc : RancherClient W) (g : Scope) (name env e : String) (info : ClusterInfo)
      (r : DeleteResult) (s : OfficeRun W)
      → (unpair_and_wait o rc g name env e info s).0 ≡ some (accepted r)
      → any
          (is_cleaning_of name r.cleaning_env)
          (unpair_and_wait o rc g name env e info s).1.registry.cleaning
        ≡ true
  unfolding unpair_and_wait
  waiting rc g name env e info r s h =
      ground (arith, entry_stands name e s.now g.preprod g.prod g.gitlab g.keycloak s.registry)

  unpair_in-waits :
      (rc : RancherClient W) (g : Scope) (name env e : String) (r : DeleteResult) (s : OfficeRun W)
      → (unpair_in o rc g name env e s).0 ≡ some (accepted r)
      → any (is_cleaning_of name r.cleaning_env) (unpair_in o rc g name env e s).1.registry.cleaning
        ≡ true
  unfolding unpair_in
  unpair_in-waits rc g name env e r s h = grind (arith, waiting)

  unpair_in-removes :
      (rc : RancherClient W) (g : Scope) (name env e : String) (s : OfficeRun W)
      → any removes (unpair_in o rc g name env e s).1.deeds ≡ any removes s.deeds
  unfolding unpair_in unpair_and_wait
  unpair_in-removes rc g name env e s = ground arith

  unpair-waits :
      (g : Scope) (name env : String) (r : DeleteResult) (s : OfficeRun W)
      → (unpair_first o g name env s).0 ≡ some (accepted r)
      → any (is_cleaning_of name r.cleaning_env) (unpair_first o g name env s).1.registry.cleaning
        ≡ true
  unfolding unpair_first
  unpair-waits g name env r s h = grind (arith, unpair_in-waits)

  unpair-removes :
      (g : Scope) (name env : String) (s : OfficeRun W)
      → any removes (unpair_first o g name env s).1.deeds ≡ any removes s.deeds
  unfolding unpair_first
  unpair-removes g name env s = grind (arith, unpair_in-removes)

  -- A deletion that answers that it waits for Rancher has removed nothing yet, neither a file nor a
  -- finalizer nor a client, and the cleaning that it waits for stands on the list.
  pub deferred_removes_nothing :
      (actor : Actor) (name : String) (input : DeleteInput) (r : DeleteResult) (s : OfficeRun W)
      → (delete_vcluster o actor name input s).0 ≡ accepted r
      → r.is_async ≡ true
      → (any removes (delete_vcluster o actor name input s).1.deeds ≡ any removes s.deeds)
        × (any
              (is_cleaning_of name r.cleaning_env)
              (delete_vcluster o actor name input s).1.registry.cleaning
            ≡ true)
  unfolding delete_vcluster
  deferred_removes_nothing actor name input r s h a =
      let g = scope_of o input in
      let env = env_or_default input.env in
      (ground (arith, unpair-removes g name env s), ground (arith, unpair-waits g name env r s))

  taken_for_pending :
      (e : Error) (name : String) (s : OfficeRun W)
      → ((path : List ℕ) (w : W) → (o.gitlab.list_files deployed_branch path w).0 ≡ raised e)
      → (is_pending_prod o name s).0 ≡ true
  unfolding is_pending_prod list_vcluster_names_on_branch names_in
  taken_for_pending e name s h =
      rw (h (codes "clusters/" ++ codes "prod" ++ codes "/vclusters") s.world) refl

  pending-asks :
      (name : String) (s : OfficeRun W)
      → (any asks_merge (is_pending_prod o name s).1.deeds ≡ any asks_merge s.deeds)
        × ((is_pending_prod o name s).1.registry ≡ s.registry)
  unfolding is_pending_prod list_vcluster_names_on_branch
  pending-asks name s = (refl, refl)

  -- Where the files of the deployed branch cannot be listed, every vcluster of prod is taken for one
  -- that was never deployed: its deletion opens no merge request and is not put on the list of the
  -- deletions under way.
  unlisted_taken_for_pending :
      (e : Error) (g : Scope) (name : String) (s : OfficeRun W)
      → ((path : List ℕ) (w : W) → (o.gitlab.list_files deployed_branch path w).0 ≡ raised e)
      → (any asks_merge (remove_prod o g name s).1.deeds ≡ any asks_merge s.deeds)
        × ((remove_prod o g name s).1.registry.deleting ≡ s.registry.deleting)
  unfolding remove_prod kustomization_action commit_to
  unlisted_taken_for_pending e g name s h =
      let fact = λ (t : OfficeRun W). taken_for_pending e name t h in
      (grind (arith, fact, pending-asks name), grind (arith, fact, pending-asks name))
