-- ===== src/Integrations.antt =====
-- What lives outside the host cluster: internal/controller/vcluster_integrations.go.
pub mod Laws
use vcluster_manager.Prelude.{
  ℕ, zero, String, Bool, true, false, not, ◌&&◌, ◌||◌, Option, none, some, List, [], ◌∷◌,
  if◌then◌else◌, leb, ltb, ◌==◌,
}
use vcluster_manager.Kube.{
  vault_configured, argocd_ready, condition_true, condition_false, condition_unknown, Reason,
  vault_not_configured, vault_unreachable, configured, webhook_unreadable, waiting_for_webhook,
  setup_failed, argocd_disabled, keycloak_not_configured, keycloak_client_failed,
  keycloak_client_ready,
}
use vcluster_manager.VCluster.{
  Error, wrap, join, is_vault_unset, is_keycloak_unset, VCluster, VaultStatus, ArgoCdSpec,
}
use vcluster_manager.Reconciler.{
  Reconciler, Exec, checked_vault, checked_webhook, configured_vault, ensured_keycloak,
  looked_up_rancher, paired_rancher, ◌>>=◌, ◌>>◌, pure, ask, get_vc, modify, set_vcluster_cond,
}
use vcluster_manager.Deletion.Steps.{requeue_interval}

-- (time.Duration, error)
pub record Delay : Type 0 where
  pub wait : ℕ
  pub err : Option Error

abbrev pub delay_ok : ℕ → Delay
delay_ok d = record { wait = d; err = none }

abbrev pub delay_failed : Error → Delay
delay_failed e = record { wait = requeue_interval; err = some e }

-- Durations here are never below zero.
unfoldable pub min_positive_duration : ℕ → ℕ → ℕ
min_positive_duration a b = if a == 0 then b else (if b == 0 then a else (if ltb a b then a else b))

-- errors.Join of what two steps returned.
abbrev pub join_errors : Option Error → Option Error → Option Error
join_errors none e = e
join_errors (some d) none = some d
join_errors (some d) (some e) = some (join d e)

unfoldable pub merge : Delay → Delay → Delay
merge a b = record { wait = min_positive_duration a.wait b.wait; err = join_errors a.err b.err }

abbrev pub with_vault : Option VaultStatus → VCluster → VCluster
with_vault v vc = record vc { status = record vc.status { vault = v } }

abbrev vault_done : Option VaultStatus
vault_done = some (record { status = "done"; message = "" })

abbrev vault_waiting : Option VaultStatus
vault_waiting = some (record { status = "waiting"; message = "" })

abbrev argocd_wanted : Option ArgoCdSpec → Bool
argocd_wanted none = false
argocd_wanted (some a) = a.enabled

-- err.Error(); the text of an error that wraps another is the two texts.
module _ {W Q O : Type 0} (r : Reconciler W Q O) (error_text : Error → String) where
  -- The backend is not configured and the webhook is ready.
  unfoldable pub set_up_vault : Exec W Delay
  set_up_vault = do
    vc ← get_vc
    err ← ask configured_vault (r.ops.configure_vault_auth vc.name r.cell)
    elim err [
      | some e ↦ (do
        set_vcluster_cond r vault_configured condition_false setup_failed
        modify (with_vault (some (record { status = "error"; message = error_text e })))
        pure (delay_failed (wrap "configuration Vault" e)))
      | none ↦ (do
        set_vcluster_cond r vault_configured condition_true configured
        modify (with_vault vault_done)
        pure (delay_ok 0))
    ]

  -- The backend is not configured: is the webhook ready?
  unfoldable pub await_webhook : Exec W Delay
  await_webhook = do
    vc ← get_vc
    ready ← ask (λ a. checked_webhook a.0 a.1) (r.ops.vault_webhook_ready vc.name r.cell)
    elim ready.1 [
      | some e ↦ (do
        set_vcluster_cond r vault_configured condition_unknown webhook_unreadable
        modify (with_vault (some (record { status = "waiting"; message = error_text e })))
        pure (delay_failed (wrap "lecture de vault-webhook" e)))
      | none ↦
          (if not ready.0
            then (do
              set_vcluster_cond r vault_configured condition_false waiting_for_webhook
              modify (with_vault vault_waiting)
              pure (delay_ok requeue_interval))
            else set_up_vault)
    ]

  unfoldable pub reconcile_vault : Exec W Delay
  reconcile_vault = do
    vc ← get_vc
    exists ← ask (λ a. checked_vault a.0 a.1) (r.ops.vault_auth_configured vc.name r.cell)
    elim exists.1 [
      | some e ↦
          (if is_vault_unset e
            then (do
              set_vcluster_cond r vault_configured condition_unknown vault_not_configured
              pure (delay_ok 0))
            else (do
              set_vcluster_cond r vault_configured condition_unknown vault_unreachable
              pure (delay_failed (wrap "lecture du backend Vault" e))))
      | none ↦
          (if exists.0
            then (do
              set_vcluster_cond r vault_configured condition_true configured
              modify (with_vault vault_done)
              pure (delay_ok 0))
            else await_webhook)
    ]

  unfoldable pub reconcile_keycloak : Exec W Delay
  reconcile_keycloak = do
    vc ← get_vc
    if not (argocd_wanted vc.spec.argocd)
        then (do
          set_vcluster_cond r argocd_ready condition_false argocd_disabled
          pure (delay_ok 0))
        else (do
          err ← ask ensured_keycloak (r.ops.ensure_keycloak_client vc.name r.cell)
          elim err [
            | some e ↦
                (if is_keycloak_unset e
                  then (do
                    set_vcluster_cond r argocd_ready condition_unknown keycloak_not_configured
                    pure (delay_ok 0))
                  else (do
                    set_vcluster_cond r argocd_ready condition_false keycloak_client_failed
                    pure (delay_failed (wrap "client OIDC Keycloak" e))))
            | none ↦ (do
              set_vcluster_cond r argocd_ready condition_true keycloak_client_ready
              pure (delay_ok 0))
          ])

  unfoldable pub reconcile_rancher_pairing : Exec W Delay
  reconcile_rancher_pairing = do
    vc ← get_vc
    st ← ask looked_up_rancher (r.ops.get_rancher_status vc.name r.cell)
    if not st.enabled
        then pure (delay_ok 0)
        else (if st.unknown
            then pure (delay_ok requeue_interval)
            else (if st.paired || st.pairing || st.manually_paired || st.cleaning
                then pure (delay_ok 0)
                else (do
                  err ← ask paired_rancher (r.ops.pair_rancher vc.name r.cell)
                  elim err [
                    | some e ↦ pure (delay_failed (wrap "appairage Rancher" e))
                    | none ↦ pure (delay_ok requeue_interval)
                  ])))

  -- The three steps run whatever the others return.
  unfoldable pub reconcile_integrations : Exec W Delay
  reconcile_integrations = do
    a ← reconcile_vault
    b ← reconcile_keycloak
    c ← reconcile_rancher_pairing
    pure (merge (merge (merge (delay_ok 0) a) b) c)
