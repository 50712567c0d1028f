-- ===== src/Fluxprod/Retention.antt =====
-- What an update of the settings leaves out.
use vcluster_manager.Prelude.{
  ℕ, String, ◌≡◌, ◌∙◌, refl, sym, ap, Bool, true, false, Option, none, some, List, str_eq,
  if◌then◌else◌,
}
use vcluster_manager.Velero.{Actor, env_or_default}
use vcluster_manager.Teardown.{OfficeRun, Act, pure, ◌>>=◌}
use vcluster_manager.Fluxprod.{Workshop, Refusal, Reply, rejected}
use vcluster_manager.Fluxprod.Form.{SettingsInput, check_settings, update_actions, values_request}
use vcluster_manager.Fluxprod.Settings.{
  update_in, update_files, toggle_argocd, toggle_fluxcd, update_settings,
}

first_branch :
    {A B : Type 0} (b : Bool) (f g : A → B) (s : A) → b ≡ true → (if b then f else g) s ≡ f s
first_branch true f g s h = refl
first_branch false f g s h = absurd cc

-- A step that comes to nothing is as if it were not there.
skipped :
    {W B : Type 0} (m : Act W (Option B)) (k : Act W B) (s : OfficeRun W)
    → m s ≡ (none, s)
    → (m >>= λ r. elim r as (λ _. Act W B) [ some x ↦ pure x | none ↦ k ]) s ≡ k s
skipped {W} {B} m k s h =
    ap
      (λ (p : Option B × OfficeRun W).
        (elim p.0 as (λ _. Act W B) [ some x ↦ pure x | none ↦ k ]) p.1)
      h

after_check :
    {W A : Type 0} (c : Option Refusal) (m m' : Act W (Reply A)) (s : OfficeRun W)
    → m s ≡ m' s
    → (elim c as (λ _. Act W (Reply A)) [ some e ↦ pure (rejected e) | none ↦ m ]) s
      ≡ (elim c as (λ _. Act W (Reply A)) [ some e ↦ pure (rejected e) | none ↦ m' ]) s
after_check none m m' s h = h
after_check (some e) m m' s h = refl

module _ {W : Type 0} (o : Workshop W) where
  without_argocd :
      (name env : String) (pending : Bool) (input : SettingsInput) (s : OfficeRun W)
      → str_eq input.argocd_toggle "" ≡ true
      → toggle_argocd o name env pending input s ≡ (none, s)
  unfolding toggle_argocd
  without_argocd name env pending input s a = first_branch (str_eq input.argocd_toggle "") _ _ s a

  without_fluxcd :
      (name env : String) (pending : Bool) (input : SettingsInput) (s : OfficeRun W)
      → str_eq input.fluxcd_toggle "" ≡ true
      → toggle_fluxcd o name env pending input s ≡ (none, s)
  unfolding toggle_fluxcd
  without_fluxcd name env pending input s f = first_branch (str_eq input.fluxcd_toggle "") _ _ s f

  untoggled :
      (name env : String) (pending : Bool) (input : SettingsInput) (s : OfficeRun W)
      → str_eq input.argocd_toggle "" ≡ true
      → str_eq input.fluxcd_toggle "" ≡ true
      → update_in o name env pending input s ≡ update_files o name env pending input s
  unfolding update_in
  untoggled name env pending input s a f =
      skipped (toggle_argocd o name env pending input) _ s
        (without_argocd name env pending input s a)
      ∙ skipped (toggle_fluxcd o name env pending input) (update_files o name env pending input) s
          (without_fluxcd name env pending input s f)

  same_files :
      (name env : String) (pending : Bool) (input : SettingsInput) (ttl : List ℕ) (s : OfficeRun W)
      → update_files o name env pending (record input { velero_ttl = ttl }) s
        ≡ update_files o name env pending input s
  unfolding update_files update_actions values_request
  same_files name env pending input ttl s = refl

  same_update :
      (name env : String) (pending : Bool) (input : SettingsInput) (ttl : List ℕ) (s : OfficeRun W)
      → str_eq input.argocd_toggle "" ≡ true
      → str_eq input.fluxcd_toggle "" ≡ true
      → update_in o name env pending (record input { velero_ttl = ttl }) s
        ≡ update_in o name env pending input s
  same_update name env pending input ttl s a f =
      untoggled name env pending (record input { velero_ttl = ttl }) s a f
      ∙ same_files name env pending input ttl s
      ∙ sym (untoggled name env pending input s a f)

  -- The retention that a form asks for is not written: where the form sets neither the ArgoCD nor the
  -- Flux toggle, an update with another retention is the same run, its commits included.
  pub retention_ignored :
      (actor : Actor) (name env : String) (input : SettingsInput) (ttl : List ℕ) (s : OfficeRun W)
      → str_eq input.argocd_toggle "" ≡ true
      → str_eq input.fluxcd_toggle "" ≡ true
      → update_settings o actor name env (record input { velero_ttl = ttl }) s
        ≡ update_settings o actor name env input s
  unfolding update_settings check_settings
  retention_ignored actor name env input ttl s a f =
      after_check (check_settings actor name input) _ _ s
        (same_update name (env_or_default env) _ input ttl _ a f)
