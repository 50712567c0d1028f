-- ===== src/Tests/Admission.antt =====
-- Names, the cell's budget and the integrations on concrete inputs.
use vcluster_manager.Prelude.{ℕ, ◌≡◌, ◌≢◌, refl, true, none, some, List, [], ◌∷◌, any, String}
use vcluster_manager.Prelude.Int.{ℤ, pos, ◌+ℤ◌, ◌≤ℤ◌}
use vcluster_manager.Text.{codes, same_text}
use vcluster_manager.VCluster.{Error}
use vcluster_manager.Reconciler.Answers.{BudgetUsage, EffectiveQuota}
use vcluster_manager.Names.{
  valid_name, is_reserved, is_letter, is_name_char, all_name_chars, matches_name_regex,
  vcluster_namespace, trim_prefix, operator_namespace, marker_misplaced,
}
use vcluster_manager.Names.Laws.{markers_bound}
use vcluster_manager.Budget.{
  ResourceQuota, is_configured, is_billable, has_prefix, is_skipped, skip_namespace, exceeds_budget,
  add_key, add_quota, sum_from, sum_vcluster_quota_hard_limits, check_dimensions, admitted,
  conclude_budget, check_quota,
}
use vcluster_manager.Budget.Laws.{
  cpu_time, promised, sum_vcluster_quotas-promised, admitted_within_ceiling,
}
use vcluster_manager.Integrations.{
  reconcile_vault, reconcile_rancher_pairing, await_webhook, set_up_vault,
}
use vcluster_manager.Integrations.Laws.{configures, pairs}
use vcluster_manager.Tests.World.{calm, over, at, alive, whole}

abbrev demo : List ℕ
demo = b'd' ∷ b'e' ∷ b'm' ∷ b'o' ∷ []

demo_valid : valid_name demo ≡ true
unfolding valid_name is_reserved matches_name_regex all_name_chars is_name_char is_letter
    trim_prefix codes same_text
demo_valid = refl

demo_at_home : marker_misplaced demo (vcluster_namespace demo) ≡ none
unfolding marker_misplaced vcluster_namespace valid_name is_reserved matches_name_regex
    all_name_chars is_name_char is_letter trim_prefix codes same_text
demo_at_home = refl

markers_bound_example : (demo ≡ demo) × (vcluster_namespace demo ≢ codes operator_namespace)
markers_bound_example = markers_bound demo demo (vcluster_namespace demo) demo_at_home demo_at_home

-- The quotas of two vclusters and of a namespace that is none's.
abbrev quotas : List ResourceQuota
quotas =
    record { namespace = codes "vcluster-demo"; cpu = some "8"; memory = none; storage = none }
    ∷ record { namespace = codes "vcluster-other"; cpu = some "2"; memory = none; storage = none }
    ∷ record { namespace = codes "kube-system"; cpu = some "8"; memory = none; storage = none }
    ∷ []

abbrev two_used : BudgetUsage ℤ
two_used = record { cpu = pos 2; memory = pos 0; storage = pos 0 }

quotas_summed : sum_vcluster_quota_hard_limits whole demo quotas ≡ some two_used
unfolding sum_vcluster_quota_hard_limits sum_from add_quota add_key is_skipped skip_namespace
    has_prefix codes same_text whole ◌+ℤ◌
quotas_summed = refl

sum_vcluster_quotas-promised_example : whole.amount (pos 2) ≡ promised whole cpu_time demo quotas
sum_vcluster_quotas-promised_example =
    sum_vcluster_quotas-promised whole cpu_time b'd' (b'e' ∷ b'm' ∷ b'o' ∷ []) quotas two_used
      quotas_summed

abbrev two_cpus : EffectiveQuota
two_cpus = record { cpu = "2"; memory = ""; storage = ""; enabled = true }

two_cpus_admitted : (check_quota whole (over calm) two_cpus (at 1000 alive)).0 ≡ admitted
unfolding check_quota is_billable is_configured check_dimensions exceeds_budget conclude_budget
    whole ◌+ℤ◌
two_cpus_admitted = refl

two_cpus_billable : is_billable two_cpus ≡ true
unfolding is_billable
two_cpus_billable = refl

two_parsed : whole.parse_quantity "2" ≡ some (pos 2)
unfolding whole
two_parsed = refl

eight_parsed : whole.parse_quantity "8" ≡ some (pos 8)
unfolding whole
eight_parsed = refl

admitted_within_ceiling_example :
    (whole.amount (pos 3) +ℤ whole.amount (pos 2)) ≤ℤ whole.amount (pos 8)
admitted_within_ceiling_example =
    admitted_within_ceiling whole (over calm) two_cpus (at 1000 alive) cpu_time (pos 2) (pos 8)
      two_cpus_admitted two_cpus_billable refl refl two_parsed eight_parsed

abbrev text_of : Error → String
text_of e = "error"

vault_configured_here :
    any configures (reconcile_vault (over calm) text_of (at 1000 alive)).1.calls ≡ true
unfolding reconcile_vault await_webhook set_up_vault
vault_configured_here = refl

paired_here :
    any pairs (reconcile_rancher_pairing (over calm) text_of (at 1000 alive)).1.calls ≡ true
unfolding reconcile_rancher_pairing
paired_here = refl
