-- ===== src/Integrations/Laws.antt =====
-- When the integrations act, that they do not hold each other up, and the delay they ask for.
use vcluster_manager.Prelude.{
  ℕ, ◌≤◌, ◌≡◌, ◌⊎◌, ◌↔◌, Bool, true, false, not, ◌&&◌, none, String, arith, any,
}
use vcluster_manager.VCluster.{Error}
use vcluster_manager.Reconciler.{
  Reconciler, Run, Call, checked_vault, checked_webhook, configured_vault, looked_up_rancher,
  paired_rancher,
}
use vcluster_manager.Integrations.{
  min_positive_duration, merge, set_up_vault, await_webhook, reconcile_vault, reconcile_keycloak,
  reconcile_rancher_pairing, reconcile_integrations,
}

-- Vault is configured, or Rancher paired.
abbrev pub configures : Call → Bool
configures (configured_vault _) = true
configures _ = false

abbrev pub pairs : Call → Bool
pairs (paired_rancher _) = true
pairs _ = false

-- Vault was asked, and knows no backend.
abbrev pub saw_no_backend : Call → Bool
saw_no_backend (checked_vault exists none) = not exists
saw_no_backend _ = false

-- The webhook was asked, and is ready.
abbrev pub saw_webhook_ready : Call → Bool
saw_webhook_ready (checked_webhook ready none) = ready
saw_webhook_ready _ = false

-- Rancher was asked, is on, and knows nothing of the cluster.
abbrev pub saw_unpaired : Call → Bool
saw_unpaired (looked_up_rancher st) =
    st.enabled
    && not st.unknown
    && not st.paired
    && not st.pairing
    && not st.manually_paired
    && not st.cleaning
saw_unpaired _ = false

abbrev pub asks_vault : Call → Bool
asks_vault (checked_vault _ _) = true
asks_vault _ = false

abbrev pub asks_rancher : Call → Bool
asks_rancher (looked_up_rancher _) = true
asks_rancher _ = false

module _ {W Q O : Type 0} (r : Reconciler W Q O) (error_text : Error → String) where
  -- Vault's backend is configured, for the first time in the log, only in a pass that saw Vault
  -- without one and the webhook ready.
  configures_when_ready :
      (s : Run W)
      → any configures s.calls ≡ false
      → any configures (reconcile_vault r error_text s).1.calls ≡ true
      → (any saw_no_backend (reconcile_vault r error_text s).1.calls ≡ true)
        × (any saw_webhook_ready (reconcile_vault r error_text s).1.calls ≡ true)
  unfolding reconcile_vault await_webhook set_up_vault
  configures_when_ready s q h = ground arith

  -- A cluster is paired, for the first time in the log, only in a pass that saw Rancher on,
  -- answering, and knowing nothing of it; and then the pass asks to look again.
  pairs_when_unpaired :
      (s : Run W)
      → any pairs s.calls ≡ false
      → any pairs (reconcile_rancher_pairing r error_text s).1.calls ≡ true
      → (any saw_unpaired (reconcile_rancher_pairing r error_text s).1.calls ≡ true)
        × ((reconcile_rancher_pairing r error_text s).0.wait ≡ 10)
  unfolding reconcile_rancher_pairing
  pairs_when_unpaired s q h = ground arith

-- Zero is no opinion: the result is zero only if both are, and else it is one of the two that are
-- above zero and at most each of those.
min_positive_duration_least :
    (a b : ℕ)
    → ((min_positive_duration a b ≡ 0) ↔ ((a ≡ 0) × (b ≡ 0)))
      × ((a ≡ 0) ⊎ (min_positive_duration a b ≤ a))
      × ((b ≡ 0) ⊎ (min_positive_duration a b ≤ b))
      × ((min_positive_duration a b ≡ a) ⊎ (min_positive_duration a b ≡ b))
unfolding min_positive_duration
min_positive_duration_least a b = (
  (λ h. (ground arith, ground arith), λ h. ground arith),
  ground arith,
  ground arith,
  ground arith,
)

min_positive_duration_assoc :
    (a b c : ℕ)
    → min_positive_duration (min_positive_duration a b) c
      ≡ min_positive_duration a (min_positive_duration b c)
unfolding min_positive_duration
min_positive_duration_assoc a b c = ground arith

module _ {W Q O : Type 0} (r : Reconciler W Q O) (error_text : Error → String) where
  vault-asks : (s : Run W) → any asks_vault (reconcile_vault r error_text s).1.calls ≡ true
  unfolding reconcile_vault await_webhook set_up_vault
  vault-asks s = ground arith

  keycloak-asks :
      (s : Run W)
      → any asks_vault (reconcile_keycloak r error_text s).1.calls ≡ any asks_vault s.calls
  unfolding reconcile_keycloak
  keycloak-asks s = ground arith

  pairing-keeps :
      (s : Run W)
      → any asks_vault (reconcile_rancher_pairing r error_text s).1.calls ≡ any asks_vault s.calls
  unfolding reconcile_rancher_pairing
  pairing-keeps s = ground arith

  pairing-asks :
      (s : Run W) → any asks_rancher (reconcile_rancher_pairing r error_text s).1.calls ≡ true
  unfolding reconcile_rancher_pairing
  pairing-asks s = ground arith

  -- No step of the integrations holds up another: in every pass Vault and Rancher are asked,
  -- whatever the other steps returned, and the pass has no error only if none of them has.
  integrations_independent :
      (s : Run W)
      → let o = reconcile_integrations r error_text s in
        let v = reconcile_vault r error_text s in
        let k = reconcile_keycloak r error_text v.1 in
        let p = reconcile_rancher_pairing r error_text k.1 in
        (any asks_vault o.1.calls ≡ true)
        × (any asks_rancher o.1.calls ≡ true)
        × ((o.0.err ≡ none) ↔ ((v.0.err ≡ none) × (k.0.err ≡ none) × (p.0.err ≡ none)))
  unfolding reconcile_integrations merge
  integrations_independent s =
      let v = reconcile_vault r error_text s in
      let k = reconcile_keycloak r error_text v.1 in
      (
        ground (arith, vault-asks s, keycloak-asks v.1, pairing-keeps k.1),
        ground (arith, pairing-asks k.1),
        (λ h. (ground arith, ground arith, ground arith), λ h. ground arith),
      )
