-- ===== src/Teardown/Rancher.antt =====
-- The pairing with Rancher and its status: internal/service/rancher.go.
use Prim.Native.String.{◌++◌ as append}
use vcluster_manager.Prelude.{
  String, Bool, true, false, not, ◌&&◌, Option, none, some, if◌then◌else◌, str_eq, is_some,
}
use vcluster_manager.VCluster.{Error}
use vcluster_manager.Cluster.{Result, returned, raised}
use vcluster_manager.Registry.{
  RancherPairingFailure, is_cleaning, set_rancher_pairing_failure, clear_rancher_pairing_failure,
  rancher_pairing_failure_for,
}
use vcluster_manager.Velero.{Actor, env_or_default}
use vcluster_manager.Teardown.{
  ClusterInfo, RancherClient, HostClient, Office, Ruling, granted, denied, forbidden_request,
  rancher_not_configured, rancher_not_enabled, cleaning_in_progress, rancher_k8s_prod_unavailable,
  already_paired, manual_pairing, already_in_rancher, looked_up_cluster, imported_cluster,
  downloaded_manifest, waited_for_cluster, saw_agents, applied_manifest, Act, ◌>>=◌, ◌>>◌, pure,
  ask, tell, at,
}

-- service.RancherStatus
pub record RancherStatus : Type 0 where
  pub enabled : Bool
  pub paired : Bool
  pub pairing : Bool
  pub unknown : Bool
  pub not_configured : Bool
  pub manually_paired : Bool
  pub cleaning : Bool
  pub last_pairing_error : Option RancherPairingFailure

abbrev pub rancher_off : Bool → RancherStatus
rancher_off misconfigured = record {
  enabled = false;
  paired = false;
  pairing = false;
  unknown = false;
  not_configured = misconfigured;
  manually_paired = false;
  cleaning = false;
  last_pairing_error = none;
}

abbrev pub rancher_on : RancherStatus
rancher_on = record (rancher_off false) { enabled = true }

module _ {W : Type 0} (o : Office W) where
  -- A client, and Rancher is on in the environment.
  abbrev pub active_rancher : String → Option (RancherClient W)
  active_rancher env = if o.rancher_enabled_for_env env then o.rancher else none

  -- Rancher is on, and there is no client.
  abbrev pub is_misconfigured : String → Bool
  is_misconfigured env = not (is_some o.rancher) && o.rancher_enabled_for_env env

  abbrev pub find_cluster : RancherClient W → String → Act W (Result (Option ClusterInfo))
  find_cluster rc name = ask (looked_up_cluster name) (rc.find_cluster_by_name name)

  -- No client, no agents.
  abbrev agents_in : String → String → Act W Bool
  agents_in env name = elim (o.k8s_for_env env) [
    | none ↦ pure false
    | some k ↦ ask (saw_agents env name) (k.has_rancher_agents name)
  ]

  -- The status of a vcluster that Rancher was asked for.
  unfoldable pub known_status : String → String → Bool → Option ClusterInfo → Act W RancherStatus
  known_status name env cleaning none = do
    agents ← agents_in env name
    if agents
        then pure (record rancher_on { manually_paired = true; cleaning = cleaning })
        else (λ s. (
          record rancher_on {
            cleaning = cleaning;
            last_pairing_error = rancher_pairing_failure_for name env s.registry;
          },
          s,
        ))
  known_status name env cleaning (some info) =
      if str_eq info.state "active"
      then pure (record rancher_on { paired = true; cleaning = cleaning })
      else (λ s. (
        record rancher_on {
          pairing = true;
          cleaning = cleaning;
          last_pairing_error = rancher_pairing_failure_for name env s.registry;
        },
        s,
      ))

  unfoldable pub get_rancher_status : String → String → Act W RancherStatus
  get_rancher_status name env = elim (active_rancher (env_or_default env)) [
    | none ↦ pure (rancher_off (is_misconfigured (env_or_default env)))
    | some rc ↦ (λ s.
        (let (cleaning, registry) = is_cleaning name (env_or_default env) s.now s.registry in
          (do
            found ← find_cluster rc name
            elim found [
              | raised e ↦ pure (record rancher_on { unknown = true; cleaning = cleaning })
              | returned info ↦ known_status name (env_or_default env) cleaning info
            ])
            (record s { registry = registry })))
  ]

  -- The background work of a pairing, through the client `k` of the environment `host`: a failure is
  -- recorded.
  abbrev record_failure : String → String → String → Error → Act W (Unit {0})
  record_failure name env what e = do
    now ← at
    tell (set_rancher_pairing_failure name env now (append what (o.error_text e)))

  unfoldable pub await_pairing : RancherClient W → String → String → String → Act W (Unit {0})
  await_pairing rc name env cluster = do
    err ← ask (λ _. waited_for_cluster cluster) (rc.wait_for_cluster_active cluster)
    elim err [
      | some e ↦ record_failure name env "le cluster n'est pas devenu actif : " e
      | none ↦ tell (clear_rancher_pairing_failure name env)
    ]

  unfoldable pub run_pairing :
      RancherClient W → HostClient W → String → String → String → Act W (Unit {0})
  run_pairing rc k host name env = do
    imported ← ask (λ _. imported_cluster name) (rc.import_cluster name)
    elim imported [
      | raised e ↦ record_failure name env "import Rancher : " e
      | returned cluster ↦ (do
        manifest ← ask (λ _. downloaded_manifest cluster.1) (rc.download_manifest cluster.1)
        elim manifest [
          | raised e ↦ record_failure name env "téléchargement du manifeste : " e
          | returned text ↦ (do
            err ← ask (applied_manifest host name) (k.apply_manifest name text)
            elim err [
              | some e ↦ record_failure name env "application du manifeste dans le vcluster : " e
              | none ↦ await_pairing rc name env cluster.0
            ])
        ])
    ]

  -- After the guards of PairRancher. The background work of the code stands where it is started.
  unfoldable pub start_pairing :
      RancherClient W → HostClient W → String → String → String → Act W (Ruling RancherStatus)
  start_pairing rc k host name env = do
    agents ← agents_in env name
    if agents then pure (denied manual_pairing) else (do
      tell (clear_rancher_pairing_failure name env)
      run_pairing rc k host name env
      pure (granted (record rancher_on { pairing = true })))

  -- A lookup that fails lets the pairing go on.
  unfoldable pub pair_unless_known :
      RancherClient W → HostClient W → String → String → String → Act W (Ruling RancherStatus)
  pair_unless_known rc k host name env = do
    found ← find_cluster rc name
    elim found [
      | raised _ ↦ start_pairing rc k host name env
      | returned none ↦ start_pairing rc k host name env
      | returned (some info) ↦ pure (
          denied
            (if str_eq info.state "active" then already_paired else already_in_rancher info.state))
    ]

  unfoldable pub pair_if_clean : RancherClient W → String → String → Act W (Ruling RancherStatus)
  pair_if_clean rc name env s =
      let (cleaning, registry) = is_cleaning name env s.now s.registry in
      (if cleaning then pure (denied cleaning_in_progress) else elim (o.k8s_for_env "prod") [
        | none ↦ pure (denied rancher_k8s_prod_unavailable)
        | some k ↦ pair_unless_known rc k "prod" name env
      ])
        (record s { registry = registry })

  unfoldable pub pair_rancher : Actor → String → String → Act W (Ruling RancherStatus)
  pair_rancher actor name env =
      if not actor.is_admin then pure (denied forbidden_request) else elim o.rancher [
        | none ↦ pure (denied rancher_not_configured)
        | some rc ↦
            (if not (o.rancher_enabled_for_env (env_or_default env))
              then pure (denied rancher_not_enabled)
              else pair_if_clean rc name (env_or_default env))
      ]
