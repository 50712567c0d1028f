-- ===== src/Tests/Life.antt =====
-- Falling and whole passes, on a concrete object.
use vcluster_manager.Prelude.{
  any, is_some, ℕ, String, ◌≡◌, ◌≢◌, refl, true, Option, none, some, arith,
}
use vcluster_manager.Prelude.Int.{ℤ, ◌+ℤ◌}
use vcluster_manager.VCluster.{Error, other, VCluster}
use vcluster_manager.Reconciler.{Ops}
use vcluster_manager.Kube.Store.{store}
use vcluster_manager.Text.{codes, same_text}
use vcluster_manager.Names.{
  vcluster_misplaced, valid_name, is_reserved, matches_name_regex, all_name_chars, is_name_char,
  is_letter, trim_prefix,
}
use vcluster_manager.Provision.{reconcile_provisioning, apply_all}
use vcluster_manager.Budget.{
  check_resource_budget, check_quota, is_billable, is_configured, check_dimensions, exceeds_budget,
  conclude_budget,
}
use vcluster_manager.Integrations.{
  merge, min_positive_duration, reconcile_vault, await_webhook, set_up_vault, reconcile_keycloak,
  reconcile_rancher_pairing, reconcile_integrations,
}
use vcluster_manager.Deletion.Sequence.{vcluster_finalizer}
use vcluster_manager.Lifecycle.{
  admit_and_provision, provision_and_observe, integrate_and_observe, reconcile_observed_state,
  vclusters_namespace,
}
use vcluster_manager.Lifecycle.Pass.{provisions}
use vcluster_manager.Tests.World.{calm, over, at, alive, whole}

abbrev to_sleep : VCluster
to_sleep = record alive { spec = record alive.spec { suspend = true } }

abbrev no_time : String → Option ℕ
no_time s = none

abbrev text_of : Error → String
text_of e = "error"

later_pass : (at 1000 to_sleep).now ≢ (at 1030 to_sleep).now
later_pass = omega arith

abbrev restless : Ops ℕ ℤ (Unit {0})
restless = record calm { suspend_vcluster = λ n c w. (some (other "HelmRelease not found"), w) }

-- An object in another namespace than the operator's.
abbrev astray : VCluster
astray = record alive { namespace = "elsewhere" }

astray_misplaced : is_some (vcluster_misplaced astray (vclusters_namespace (over calm))) ≡ true
unfolding vcluster_misplaced valid_name is_reserved matches_name_regex all_name_chars is_name_char
    is_letter trim_prefix codes same_text
astray_misplaced = refl

rendered_here :
    any provisions (admit_and_provision (over calm) whole no_time text_of (at 1000 alive)).1.calls
    ≡ true
unfolding admit_and_provision check_resource_budget check_quota is_billable is_configured
    check_dimensions exceeds_budget conclude_budget provision_and_observe reconcile_provisioning
    apply_all integrate_and_observe reconcile_integrations merge min_positive_duration
    reconcile_vault await_webhook set_up_vault reconcile_keycloak reconcile_rancher_pairing
    reconcile_observed_state valid_name is_reserved matches_name_regex all_name_chars is_name_char
    is_letter trim_prefix codes same_text whole ◌+ℤ◌
rendered_here = refl

holds_finalizer : store.contains_finalizer vcluster_finalizer alive.finalizers ≡ true
unfolding store
holds_finalizer = refl
