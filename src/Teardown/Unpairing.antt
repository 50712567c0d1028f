-- ===== src/Teardown/Unpairing.antt =====
-- The end of a pairing with Rancher: UnpairRancher of internal/service/rancher.go, and
-- InspectRancherTeardown and UnpairForDeletion of internal/service/vcluster_deletion.go.
use Prim.Native.String.{◌++◌ as append}
use vcluster_manager.Prelude.{
  String, Bool, true, false, not, Option, none, some, if◌then◌else◌, str_eq,
}
use vcluster_manager.Reconciler.Answers.{CleanupJobState, RancherTeardownState}
use vcluster_manager.Cluster.{returned, raised}
use vcluster_manager.Registry.{add_cleaning, remove_cleaning, clear_rancher_pairing_failure}
use vcluster_manager.Velero.{Actor, env_or_default, valid_vcluster_name}
use vcluster_manager.Teardown.{
  RancherClient, HostClient, Office, OfficeError, Ruling, granted, denied, forbidden_request,
  invalid_vcluster_name, rancher_not_configured, rancher_not_enabled, rancher_lookup_failed,
  rancher_delete_failed, removed_cluster, saw_agents, read_job, applied_manifest, waited_for_job,
  Act, ◌>>=◌, ◌>>◌, pure, ask, tell, at,
}
use vcluster_manager.Teardown.Rancher.{
  RancherStatus, rancher_on, active_rancher, is_misconfigured, find_cluster,
}

abbrev pub no_job : CleanupJobState
no_job = record {
  observable = false;
  found = false;
  done = false;
  failed = false;
  started_at = 0;
  detail = "";
}

-- A state that says nothing but whether Rancher is configured and on.
abbrev pub no_teardown : Bool → Bool → RancherTeardownState
no_teardown on misconfigured = record {
  enabled = on;
  not_configured = misconfigured;
  lookup_failed = false;
  still_known = false;
  removing = false;
  cleanup = no_job;
  detail = "";
}

module _ {W : Type 0} (o : Office W) where
  -- The background work of an unpairing: the entry of the cleaning goes at its end, however it ends.
  unfoldable pub run_cleanup : HostClient W → String → String → Act W (Unit {0})
  run_cleanup k name env = do
    err ← ask (applied_manifest env name) (k.apply_manifest name o.rancher_cleanup_manifest)
    elim err [
      | some _ ↦ tell (remove_cleaning name env)
      | none ↦ (do
        ask (λ _. waited_for_job env name) (k.wait_for_cleanup_job name)
        tell (remove_cleaning name env))
    ]

  unfoldable pub clean_up : String → String → Act W (Ruling RancherStatus)
  clean_up name env = elim (o.k8s_for_env env) [
    | none ↦ pure (granted (record rancher_on { cleaning = true }))
    | some k ↦ (do
      now ← at
      tell (add_cleaning name env now false false false false)
      run_cleanup k name env
      pure (granted (record rancher_on { cleaning = true })))
  ]

  unfoldable pub unpair_known : RancherClient W → String → String → Act W (Ruling RancherStatus)
  unpair_known rc name env = do
    found ← find_cluster o rc name
    elim found [
      | raised e ↦ pure (denied (rancher_lookup_failed e))
      | returned none ↦ (do tell (clear_rancher_pairing_failure name env); clean_up name env)
      | returned (some info) ↦ (do
        tell (clear_rancher_pairing_failure name env)
        err ← ask (removed_cluster info.id) (rc.delete_cluster info.id)
        elim err [ some e ↦ pure (denied (rancher_delete_failed e)) | none ↦ clean_up name env ])
    ]

  unfoldable pub unpair_rancher : Actor → String → String → Act W (Ruling RancherStatus)
  unpair_rancher actor name env =
      if not actor.is_admin then pure (denied forbidden_request) else elim o.rancher [
        | none ↦ pure (denied rancher_not_configured)
        | some rc ↦
            (if not (o.rancher_enabled_for_env (env_or_default env))
              then pure (denied rancher_not_enabled)
              else unpair_known rc name (env_or_default env))
      ]

  -- What the job says once Rancher and its agents are gone.
  unfoldable pub inspect_cleanup :
      HostClient W → String → String → RancherTeardownState → Act W RancherTeardownState
  inspect_cleanup k name env st = do
    job ← ask (λ _. read_job env name) (k.cleanup_job_state name)
    elim job [
      | raised e ↦ pure (record st { cleanup = record no_job { detail = o.error_text e } })
      | returned j ↦ pure (record st {
        cleanup = record {
          observable = true;
          found = j.found;
          done = j.complete;
          failed = j.failed;
          started_at = j.started_at;
          detail = j.detail;
        };
      })
    ]

  unfoldable pub inspect_agents :
      String → String → RancherTeardownState → Act W RancherTeardownState
  inspect_agents name env st = elim (o.k8s_for_env env) [
    | none ↦ pure (record st { detail = append "pas de client Kubernetes pour " env })
    | some k ↦
        (if st.still_known then pure st else (do
          agents ← ask (saw_agents env name) (k.has_rancher_agents name)
          if agents
              then pure (record st {
                still_known = true;
                detail = "des agents Rancher tournent encore dans le vcluster";
              })
              else inspect_cleanup k name env st))
  ]

  unfoldable pub inspect_rancher_teardown : String → String → Act W RancherTeardownState
  inspect_rancher_teardown name env = elim (active_rancher o (env_or_default env)) [
    | none ↦ pure (record (no_teardown false (is_misconfigured o (env_or_default env))) {
      detail =
          if is_misconfigured o (env_or_default env)
          then "ce processus n'a pas de client Rancher : le dépairage ne peut pas être effectué ni vérifié"
          else "Rancher n'est pas actif sur cette cell";
    })
    | some rc ↦ (do
      found ← find_cluster o rc name
      elim found [
        | raised e ↦ pure (record (no_teardown true false) {
          lookup_failed = true;
          detail = append "Rancher injoignable : " (o.error_text e);
        })
        | returned none ↦ inspect_agents name (env_or_default env) (no_teardown true false)
        | returned (some info) ↦
            inspect_agents name (env_or_default env) (record (no_teardown true false) {
              still_known = true;
              removing = str_eq info.state "removing";
              detail = append (append "Rancher connaît encore le cluster (état " info.state) ")";
            })
      ])
  ]

  -- The cleanup job is dropped, best effort.
  unfoldable pub drop_cleanup_job : String → String → Act W (Option OfficeError)
  drop_cleanup_job name env = elim (o.k8s_for_env env) [
    | none ↦ pure none
    | some k ↦ (do
      ask (applied_manifest env name) (k.apply_manifest name o.rancher_cleanup_manifest)
      pure none)
  ]

  unfoldable pub unpair_cluster : RancherClient W → String → String → Act W (Option OfficeError)
  unpair_cluster rc name env = do
    found ← find_cluster o rc name
    elim found [
      | raised e ↦ pure (some (rancher_lookup_failed e))
      | returned none ↦ drop_cleanup_job name env
      | returned (some info) ↦
          (if str_eq info.state "removing" then drop_cleanup_job name env else (do
            err ← ask (removed_cluster info.id) (rc.delete_cluster info.id)
            elim err [
              | some e ↦ pure (some (rancher_delete_failed e))
              | none ↦ drop_cleanup_job name env
            ]))
    ]

  unfoldable pub unpair_for_deletion : Actor → String → String → Act W (Option OfficeError)
  unpair_for_deletion actor name env =
      if not actor.is_admin
      then pure (some forbidden_request)
      else (if not (valid_vcluster_name name)
          then pure (some invalid_vcluster_name)
          else elim (active_rancher o (env_or_default env)) [
            | none ↦ pure (
                if is_misconfigured o (env_or_default env)
                then some rancher_not_configured
                else none)
            | some rc ↦ unpair_cluster rc name (env_or_default env)
          ])
