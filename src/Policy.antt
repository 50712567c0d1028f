-- ===== src/Policy.antt =====
-- The groups that administer an ArgoCD: their validation (internal/service/vcluster_validation.go),
-- the lines of policy.csv that buildData of internal/gitops/generator.go renders for them, and
-- parseRBACGroups of internal/gitops/parser.go, with splitGroups of the form. A text is the list of its code points.
pub mod Laws
use vcluster_manager.Prelude.{
  ℕ, Bool, true, false, ◌&&◌, ◌||◌, Option, none, some, List, [], ◌∷◌, ◌++◌, leb, ◌==◌,
  if◌then◌else◌,
}
use vcluster_manager.Text.{codes, trim_space, split_on}

-- A character of rbacGroupRegex, ^[A-Za-z0-9_.:@/-]+$
unfoldable pub is_group_char : ℕ → Bool
is_group_char c =
    leb b'A' c && leb c b'Z'
    || leb b'a' c && leb c b'z'
    || leb b'0' c && leb c b'9'
    || c == b'_'
    || c == b'.'
    || c == b':'
    || c == b'@'
    || c == b'/'
    || c == b'-'

unfoldable pub all_group_chars : List ℕ → Bool
all_group_chars [] = true
all_group_chars (c ∷ cs) = is_group_char c && all_group_chars cs

unfoldable pub valid_rbac_group : List ℕ → Bool
valid_rbac_group [] = false
valid_rbac_group (c ∷ cs) = all_group_chars (c ∷ cs)

abbrev pub is_blank : List ℕ → Bool
is_blank [] = true
is_blank (c ∷ cs) = false

-- The group that is refused, if one is.
unfoldable pub validate_rbac_groups : List (List ℕ) → Option (List ℕ)
validate_rbac_groups [] = none
validate_rbac_groups (g ∷ gs) =
    let rest = validate_rbac_groups gs in
    if is_blank g then rest else (if valid_rbac_group g then rest else some g)

-- "    g, %s, role:admin\n"
unfoldable pub policy_line : List ℕ → List ℕ
unfolding codes
policy_line group = codes "    g, " ++ group ++ codes ", role:admin" ++ b'\n' ∷ []

unfoldable pub policy_lines : List (List ℕ) → List ℕ
policy_lines [] = []
policy_lines (g ∷ gs) =
    let group = trim_space g in
    let rest = policy_lines gs in
    if is_blank group
    then rest
    else (if valid_rbac_group group then policy_line group ++ rest else rest)

-- strings.HasPrefix(line, "g,")
abbrev pub has_g_prefix : List ℕ → Bool
has_g_prefix [] = false
has_g_prefix (c ∷ []) = false
has_g_prefix (c ∷ d ∷ _) = c == b'g' && d == b','

abbrev pub add_group : List ℕ → List (List ℕ) → List (List ℕ)
add_group [] groups = groups
add_group (c ∷ cs) groups = (c ∷ cs) ∷ groups

-- The second part of a line, before the groups of the lines after it.
abbrev pub add_part : List (List ℕ) → List (List ℕ) → List (List ℕ)
add_part [] groups = groups
add_part (part ∷ _) groups = add_group (trim_space part) groups

unfoldable pub groups_of_lines : List (List ℕ) → List (List ℕ)
groups_of_lines [] = []
groups_of_lines (l ∷ ls) =
    let line = trim_space l in
    let rest = groups_of_lines ls in
    if has_g_prefix line then add_part (split_on b',' line).1 rest else rest

-- The groups of the text of policy.csv; reading the file and its YAML is left out.
unfoldable pub parse_rbac_groups : List ℕ → List (List ℕ)
parse_rbac_groups policy = let lines = split_on b'\n' policy in groups_of_lines (lines.0 ∷ lines.1)

abbrev pub or_default : List (List ℕ) → List ℕ → List (List ℕ)
or_default (g ∷ gs) default_group = g ∷ gs
or_default [] (c ∷ cs) = (c ∷ cs) ∷ []
or_default [] [] = codes "admin" ∷ []

unfoldable pub filled_parts : List (List ℕ) → List (List ℕ)
filled_parts [] = []
filled_parts (p ∷ ps) =
    let g = trim_space p in let rest = filled_parts ps in if is_blank g then rest else g ∷ rest

-- splitGroups of internal/handlers/vcluster.go: the groups of a form's field.
unfoldable pub split_groups : List ℕ → List ℕ → List (List ℕ)
unfolding codes
split_groups text default_group =
    let parts = split_on b',' text in or_default (filled_parts (parts.0 ∷ parts.1)) default_group
