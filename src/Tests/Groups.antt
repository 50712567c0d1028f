-- ===== src/Tests/Groups.antt =====
-- The groups of a form and a group that would add a rule of its own.
use vcluster_manager.Prelude.{ℕ, ◌≡◌, refl, none, List, [], ◌∷◌, map}
use vcluster_manager.Text.{codes, trim_space, split_on}
use vcluster_manager.Registry.{keep_if}
use vcluster_manager.Policy.{
  all_group_chars, is_group_char, filled_parts, valid_rbac_group, validate_rbac_groups,
  policy_lines, parse_rbac_groups, split_groups,
}
use vcluster_manager.Policy.Laws.{policy_read_back, form_groups_survive}

abbrev field : List ℕ
field = codes " it , ops@corp,"

field_accepted : validate_rbac_groups (split_groups field (codes "developers")) ≡ none
unfolding codes split_groups validate_rbac_groups filled_parts trim_space split_on valid_rbac_group
    all_group_chars is_group_char
field_accepted = refl

form_groups_survive_example :
    parse_rbac_groups (policy_lines (split_groups field (codes "developers")))
    ≡ split_groups field (codes "developers")
form_groups_survive_example = form_groups_survive field (codes "developers") field_accepted

abbrev forged : List (List ℕ)
forged = codes " it " ∷ codes "x, role:admin\ng, eve" ∷ []

policy_read_back_example :
    parse_rbac_groups (policy_lines forged) ≡ keep_if valid_rbac_group (map trim_space forged)
policy_read_back_example = policy_read_back forged

forged_dropped : keep_if valid_rbac_group (map trim_space forged) ≡ codes "it" ∷ []
unfolding codes trim_space valid_rbac_group keep_if all_group_chars is_group_char
forged_dropped = refl
