-- ===== src/Fluxprod/Branch.antt =====
-- Where the requests write: the orders that the service takes, one after the other, and the branches
-- of their commits.
use vcluster_manager.Prelude.{
  String, ◌≡◌, ◌∙◌, refl, Bool, true, false, not, List, [], ◌∷◌, any, arith, str_eq,
}
use vcluster_manager.Reconciler.Answers.{CreateRequest}
use vcluster_manager.Budget.{QuantityApi}
use vcluster_manager.Velero.{Actor}
use vcluster_manager.Gitops.{CommitAction}
use vcluster_manager.Teardown.{RancherClient, Deed, committed, OfficeRun}
use vcluster_manager.Fluxprod.{
  Workshop, kustomization_action, commit_to, commit_prod_mr_actions, list_vcluster_names_on_branch,
  is_pending_prod, exists,
}
use vcluster_manager.Fluxprod.Create.{
  declare_preprod, declare_prod, declare_repo, declare_clients, declare, declare_new,
  create_vcluster, scope_or_both,
}
use vcluster_manager.Fluxprod.Delete.{
  Scope, DeleteInput, lift_protection, release_namespace, remove_preprod, remove_prod,
  disable_backend, remove_clients, remove_outside, perform_deletion, unpair_and_wait, unpair_in,
  unpair_first, delete_vcluster,
}
use vcluster_manager.Fluxprod.Form.{SettingsInput}
use vcluster_manager.Fluxprod.Settings.{
  commit_change, regenerate, provide_repo, provide_clients, follow_argocd, toggle_argocd,
  toggle_fluxcd, update_files, update_in, update_settings,
}

-- A commit to another branch than preprod.
abbrev pub is_elsewhere : Deed → Bool
is_elsewhere (committed branch _ _) = not (str_eq branch "preprod")
is_elsewhere _ = false

on_preprod : str_eq "preprod" "preprod" ≡ true
on_preprod = refl

module _ {W : Type 0} (o : Workshop W) where
  abbrev elsewhere : OfficeRun W → Bool
  elsewhere s = any is_elsewhere s.deeds

  kust-elsewhere :
      (env branch name : String) (add : Bool) (s : OfficeRun W)
      → elsewhere (kustomization_action o env branch name add s).1 ≡ elsewhere s
  unfolding kustomization_action
  kust-elsewhere env branch name add s = ground arith

  commit-elsewhere :
      (actions : List CommitAction) (s : OfficeRun W)
      → elsewhere (commit_to o "preprod" actions s).1 ≡ elsewhere s
  unfolding commit_to
  commit-elsewhere actions s = ground (arith, on_preprod)

  merge-elsewhere :
      (actions : List CommitAction) (s : OfficeRun W)
      → elsewhere (commit_prod_mr_actions o actions s).1 ≡ elsewhere s
  unfolding commit_prod_mr_actions
  merge-elsewhere actions s = ground (arith, on_preprod)

  pending-elsewhere :
      (name : String) (s : OfficeRun W) → elsewhere (is_pending_prod o name s).1 ≡ elsewhere s
  unfolding is_pending_prod list_vcluster_names_on_branch
  pending-elsewhere name s = refl

  declare_preprod-elsewhere :
      (req : CreateRequest) (scope : String) (s : OfficeRun W)
      → elsewhere (declare_preprod o req scope s).1 ≡ elsewhere s
  unfolding declare_preprod
  declare_preprod-elsewhere req scope s = grind (arith, commit-elsewhere, kust-elsewhere)

  declare_prod-elsewhere :
      (req : CreateRequest) (scope : String) (s : OfficeRun W)
      → elsewhere (declare_prod o req scope s).1 ≡ elsewhere s
  unfolding declare_prod
  declare_prod-elsewhere req scope s = grind (arith, merge-elsewhere, kust-elsewhere)

  clients-elsewhere :
      (req : CreateRequest) (scope : String) (s : OfficeRun W)
      → elsewhere (declare_clients o req scope s).1 ≡ elsewhere s
  unfolding declare_clients
  clients-elsewhere req scope s = ground arith

  repo-elsewhere :
      (req : CreateRequest) (s : OfficeRun W) → elsewhere (declare_repo o req s).1 ≡ elsewhere s
  unfolding declare_repo
  repo-elsewhere req s = ground arith

  declare-elsewhere :
      (req : CreateRequest) (scope : String) (s : OfficeRun W)
      → elsewhere (declare_new o req scope s).1 ≡ elsewhere s
  unfolding declare_new declare exists
  declare-elsewhere req scope s =
      grind (
        arith, declare_preprod-elsewhere, declare_prod-elsewhere, clients-elsewhere, repo-elsewhere,
      )

  release-elsewhere :
      (g : Scope) (name e : String) (s : OfficeRun W)
      → elsewhere (release_namespace o g name e s).1 ≡ elsewhere s
  unfolding release_namespace lift_protection
  release-elsewhere g name e s = ground arith

  preprod-elsewhere :
      (g : Scope) (name : String) (s : OfficeRun W)
      → elsewhere (remove_preprod o g name s).1 ≡ elsewhere s
  unfolding remove_preprod
  preprod-elsewhere g name s = grind (arith, commit-elsewhere, kust-elsewhere)

  prod-elsewhere :
      (g : Scope) (name : String) (s : OfficeRun W)
      → elsewhere (remove_prod o g name s).1 ≡ elsewhere s
  unfolding remove_prod
  prod-elsewhere g name s =
      grind (arith, commit-elsewhere, merge-elsewhere, kust-elsewhere, pending-elsewhere)

  outside-elsewhere :
      (g : Scope) (name : String) (s : OfficeRun W)
      → elsewhere (remove_outside o g name s).1 ≡ elsewhere s
  unfolding remove_outside remove_clients disable_backend
  outside-elsewhere g name s = ground arith

  perform-elsewhere :
      (g : Scope) (name : String) (s : OfficeRun W)
      → elsewhere (perform_deletion o g name s).1 ≡ elsewhere s
  unfolding perform_deletion
  perform-elsewhere g name s =
      grind (arith, release-elsewhere, preprod-elsewhere, prod-elsewhere, outside-elsewhere)

  unpair_in-elsewhere :
      (rc : RancherClient W) (g : Scope) (name env e : String) (s : OfficeRun W)
      → elsewhere (unpair_in o rc g name env e s).1 ≡ elsewhere s
  unfolding unpair_in unpair_and_wait
  unpair_in-elsewhere rc g name env e s = ground arith

  unpair-elsewhere :
      (g : Scope) (name env : String) (s : OfficeRun W)
      → elsewhere (unpair_first o g name env s).1 ≡ elsewhere s
  unfolding unpair_first
  unpair-elsewhere g name env s = grind (arith, unpair_in-elsewhere)

  delete-elsewhere :
      (actor : Actor) (name : String) (input : DeleteInput) (s : OfficeRun W)
      → elsewhere (delete_vcluster o actor name input s).1 ≡ elsewhere s
  unfolding delete_vcluster
  delete-elsewhere actor name input s = grind (arith, unpair-elsewhere, perform-elsewhere)

  change-elsewhere :
      (env : String) (pending : Bool) (actions : List CommitAction) (s : OfficeRun W)
      → elsewhere (commit_change o env pending actions s).1 ≡ elsewhere s
  unfolding commit_change
  change-elsewhere env pending actions s = grind (arith, commit-elsewhere, merge-elsewhere)

  regenerate-elsewhere :
      (name env : String) (pending : Bool) (req : CreateRequest) (s : OfficeRun W)
      → elsewhere (regenerate o name env pending req s).1 ≡ elsewhere s
  unfolding regenerate
  regenerate-elsewhere name env pending req s = change-elsewhere env pending _ _

  follow-elsewhere :
      (name env : String) (on delete_repo : Bool) (s : OfficeRun W)
      → elsewhere (follow_argocd o name env on delete_repo s).1 ≡ elsewhere s
  unfolding follow_argocd provide_repo provide_clients
  follow-elsewhere name env on delete_repo s = ground arith

  argocd-elsewhere :
      (name env : String) (pending : Bool) (input : SettingsInput) (s : OfficeRun W)
      → elsewhere (toggle_argocd o name env pending input s).1 ≡ elsewhere s
  unfolding toggle_argocd
  argocd-elsewhere name env pending input s = grind (arith, regenerate-elsewhere, follow-elsewhere)

  fluxcd-elsewhere :
      (name env : String) (pending : Bool) (input : SettingsInput) (s : OfficeRun W)
      → elsewhere (toggle_fluxcd o name env pending input s).1 ≡ elsewhere s
  unfolding toggle_fluxcd
  fluxcd-elsewhere name env pending input s = grind (arith, regenerate-elsewhere)

  files-elsewhere :
      (name env : String) (pending : Bool) (input : SettingsInput) (s : OfficeRun W)
      → elsewhere (update_files o name env pending input s).1 ≡ elsewhere s
  unfolding update_files
  files-elsewhere name env pending input s = grind (arith, change-elsewhere)

  update_in-elsewhere :
      (name env : String) (pending : Bool) (input : SettingsInput) (s : OfficeRun W)
      → elsewhere (update_in o name env pending input s).1 ≡ elsewhere s
  unfolding update_in
  update_in-elsewhere name env pending input s =
      grind (arith, argocd-elsewhere, fluxcd-elsewhere, files-elsewhere)

  update-elsewhere :
      (actor : Actor) (name env : String) (input : SettingsInput) (s : OfficeRun W)
      → elsewhere (update_settings o actor name env input s).1 ≡ elsewhere s
  unfolding update_settings
  update-elsewhere actor name env input s = grind (arith, pending-elsewhere, update_in-elsewhere)

-- What the service is asked for; a deletion that waited for Rancher goes on by itself.
pub data Order : Type 0 where
  creates : Actor → CreateRequest → String → Order
  deletes : Actor → String → DeleteInput → Order
  goes_on_deleting : Scope → String → Order
  updates : Actor → String → String → SettingsInput → Order

module _ {W Q : Type 0} (o : Workshop W) (qs : QuantityApi Q) (must_parse : String → Q) where
  create-elsewhere :
      (actor : Actor) (req : CreateRequest) (scope : String) (s : OfficeRun W)
      → any is_elsewhere (create_vcluster o qs must_parse actor req scope s).1.deeds
        ≡ any is_elsewhere s.deeds
  unfolding create_vcluster
  create-elsewhere actor req scope s =
      ground (arith, declare-elsewhere o req (scope_or_both scope) s)

  abbrev pub serve : Order → OfficeRun W → OfficeRun W
  serve (creates actor req scope) s = (create_vcluster o qs must_parse actor req scope s).1
  serve (deletes actor name input) s = (delete_vcluster o actor name input s).1
  serve (goes_on_deleting g name) s = (perform_deletion o g name s).1
  serve (updates actor name env input) s = (update_settings o actor name env input s).1

  abbrev pub serve_all : List Order → OfficeRun W → OfficeRun W
  serve_all [] s = s
  serve_all (order ∷ orders) s = serve_all orders (serve order s)

  serve-elsewhere :
      (order : Order) (s : OfficeRun W)
      → any is_elsewhere (serve order s).deeds ≡ any is_elsewhere s.deeds
  serve-elsewhere (creates actor req scope) s = create-elsewhere actor req scope s
  serve-elsewhere (deletes actor name input) s = delete-elsewhere o actor name input s
  serve-elsewhere (goes_on_deleting g name) s = perform-elsewhere o g name s
  serve-elsewhere (updates actor name env input) s = update-elsewhere o actor name env input s

  -- No sequence of creations, deletions and updates, whatever their environments, ever commits to
  -- another branch of the repository of Flux than preprod: what is meant for prod gets to its other
  -- branch by a merge request only. The repositories of the applications are apart: what GitLab is
  -- asked to create and to delete there is not one of these commits.
  pub writes_to_preprod_only :
      (orders : List Order) (s : OfficeRun W)
      → any is_elsewhere (serve_all orders s).deeds ≡ any is_elsewhere s.deeds
  writes_to_preprod_only [] s = refl
  writes_to_preprod_only (order ∷ orders) s =
      writes_to_preprod_only orders (serve order s) ∙ serve-elsewhere order s
