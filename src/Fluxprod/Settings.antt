-- ===== src/Fluxprod/Settings.antt =====
-- UpdateSettings of internal/service/settings.go. Where the page goes on to and its sentence are
-- output only.
use vcluster_manager.Prelude.{
  String, Bool, false, not, ◌||◌, Option, none, some, List, ◌++◌, map, str_eq, if◌then◌else◌,
}
use vcluster_manager.Text.{codes}
use vcluster_manager.Reconciler.Answers.{CreateRequest}
use vcluster_manager.Velero.{Actor, env_or_default}
use vcluster_manager.Cluster.{returned, raised}
use vcluster_manager.Gitops.{source_branch, CommitAction}
use vcluster_manager.Teardown.{
  created_repo, created_clients, deleted_project, Act, ◌>>=◌, ◌>>◌, pure, ask,
}
use vcluster_manager.Fluxprod.{
  Workshop, commit_failed, vcluster_not_found, Reply, accepted, rejected, look, vcluster_path,
  create_action, delete_action, files_of, commit_to, commit_prod_mr_actions, is_pending_prod,
}
use vcluster_manager.Fluxprod.Form.{
  SettingsInput, SettingsResult, argocd_changed, fluxcd_changed, updated, check_settings,
  argocd_request, fluxcd_request, update_actions,
}

abbrev differs : Bool → Bool → Bool
differs a b = if a then not b else b

module _ {W : Type 0} (o : Workshop W) where
  -- To preprod or a pending prod by a commit, whose error counts; to a deployed prod by a merge
  -- request, whose error does not. The merge request, if there is one.
  unfoldable pub commit_change : String → Bool → List CommitAction → Act W (Reply String)
  commit_change env pending actions =
      if str_eq env "preprod" || pending
      then (do
        err ← commit_to o source_branch actions
        elim err [ some e ↦ pure (rejected (commit_failed e)) | none ↦ pure (accepted "") ])
      else (do
        url ← commit_prod_mr_actions o actions
        elim url [ raised _ ↦ pure (accepted "") | returned u ↦ pure (accepted u) ])

  -- Every file of the vcluster is deleted and generated anew.
  unfoldable pub regenerate : String → String → Bool → CreateRequest → Act W (Reply String)
  regenerate name env pending req = do
    files ← look (o.gitlab.list_files source_branch (vcluster_path (codes "clusters") env name))
    commit_change env pending (
        map delete_action (files_of files)
        ++ map create_action (o.generator.generate_vcluster req env))

  unfoldable pub provide_repo : String → Act W (Unit {0})
  provide_repo name = do
    there ← look (o.gitlab.app_manifests_repo_exists name)
    if there
        then pure tt
        else (do err ← ask (created_repo name) (o.gitlab.create_app_manifests_repo name); pure tt)

  unfoldable pub provide_clients : String → String → Act W (Unit {0})
  provide_clients name env = elim o.keycloak [
    | none ↦ pure tt
    | some k ↦ (do err ← ask (created_clients name env) (k.create_argocd_clients name env); pure tt)
  ]

  -- What stands beside the files of ArgoCD; errors are logged only.
  unfoldable pub follow_argocd : String → String → Bool → Bool → Act W (Unit {0})
  follow_argocd name env on delete_repo =
      if on
      then (do provide_repo name; provide_clients name env)
      else (if delete_repo
          then (do err ← ask (deleted_project name) (o.gitlab.delete_project name); pure tt)
          else pure tt)

  -- The ArgoCD toggle: nothing where it changes nothing.
  unfoldable pub toggle_argocd :
      String → String → Bool → SettingsInput → Act W (Option (Reply SettingsResult))
  toggle_argocd name env pending input = if str_eq input.argocd_toggle "" then pure none else (do
    parsed ← look (o.parse_vcluster env name)
    elim parsed [
      | raised e ↦ pure (some (rejected (vcluster_not_found e)))
      | returned vc ↦
          (let on = str_eq input.argocd_toggle "on" in
            if differs on vc.argocd
            then (do
              reply ← regenerate name env pending (argocd_request name input on vc)
              elim reply [
                | rejected e ↦ pure (some (rejected e))
                | accepted _ ↦ (do
                  follow_argocd name env on input.delete_repo
                  pure (some (accepted argocd_changed)))
              ])
            else pure none)
    ])

  unfoldable pub toggle_fluxcd :
      String → String → Bool → SettingsInput → Act W (Option (Reply SettingsResult))
  toggle_fluxcd name env pending input = if str_eq input.fluxcd_toggle "" then pure none else (do
    parsed ← look (o.parse_vcluster env name)
    elim parsed [
      | raised e ↦ pure (some (rejected (vcluster_not_found e)))
      | returned vc ↦
          (let on = str_eq input.fluxcd_toggle "on" in
            if differs on vc.flux_enabled
            then (do
              reply ← regenerate name env pending (fluxcd_request name input on vc)
              elim reply [
                | rejected e ↦ pure (some (rejected e))
                | accepted _ ↦ pure (some (accepted fluxcd_changed))
              ])
            else pure none)
    ])

  -- An update of the single files, in the two environments that there are.
  unfoldable pub update_files :
      String → String → Bool → SettingsInput → Act W (Reply SettingsResult)
  update_files name env pending input =
      if str_eq env "preprod" || str_eq env "prod"
      then (do
        parsed ← look (o.parse_vcluster env name)
        reply ← commit_change env pending (update_actions o.generator name env input parsed)
        elim reply [
          | rejected e ↦ pure (rejected e)
          | accepted url ↦ pure (accepted (updated url))
        ])
      else pure (accepted (updated ""))

  unfoldable pub update_in : String → String → Bool → SettingsInput → Act W (Reply SettingsResult)
  update_in name env pending input = do
    of_argocd ← toggle_argocd name env pending input
    elim of_argocd [
      | some reply ↦ pure reply
      | none ↦ (do
        of_fluxcd ← toggle_fluxcd name env pending input
        elim of_fluxcd [ some reply ↦ pure reply | none ↦ update_files name env pending input ])
    ]

  unfoldable pub update_settings :
      Actor → String → String → SettingsInput → Act W (Reply SettingsResult)
  update_settings actor name env input = elim (check_settings actor name input) [
    | some e ↦ pure (rejected e)
    | none ↦ (do
      pending ← if str_eq (env_or_default env) "prod" then is_pending_prod o name else pure false
      update_in name (env_or_default env) pending input)
  ]
