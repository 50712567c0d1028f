-- ===== src/Names.antt =====
-- Names of vclusters and the placement guards: validName of internal/service/vcluster.go and
-- internal/controller/namespace_guard.go. A name is the list of its code points.
pub mod Laws
use vcluster_manager.Prelude.{
  ℕ, String, Bool, true, false, not, ◌&&◌, ◌||◌, Option, none, some, List, [], ◌∷◌, ◌++◌, leb, ◌==◌,
  if◌then◌else◌, length, str_eq,
}
use vcluster_manager.Text.{codes, same_text}
use vcluster_manager.VCluster.{VCluster}

abbrev pub operator_namespace : String
operator_namespace = "vcluster-manager"

abbrev pub namespace_prefix : List ℕ
namespace_prefix = codes "vcluster-"

abbrev pub strip : List ℕ → List ℕ → Option (List ℕ)
strip [] cs = some cs
strip (p ∷ ps) [] = none
strip (p ∷ ps) (c ∷ cs) = let rest = strip ps cs in if p == c then rest else none

-- strings.TrimPrefix
unfoldable pub trim_prefix : List ℕ → List ℕ → List ℕ
trim_prefix cs prefix = elim (strip prefix cs) [ none ↦ cs | some rest ↦ rest ]

-- reservedNames
unfoldable pub is_reserved : List ℕ → Bool
unfolding trim_prefix same_text codes
is_reserved name = same_text name (trim_prefix (codes operator_namespace) namespace_prefix)

unfoldable pub is_letter : ℕ → Bool
is_letter c = leb b'a' c && leb c b'z'

unfoldable pub is_name_char : ℕ → Bool
unfolding is_letter
is_name_char c = is_letter c || leb b'0' c && leb c b'9' || c == b'-'

unfoldable pub all_name_chars : List ℕ → Bool
all_name_chars [] = true
all_name_chars (c ∷ cs) = is_name_char c && all_name_chars cs

-- nameRegex: ^[a-z][a-z0-9-]{0,53}$
unfoldable pub matches_name_regex : List ℕ → Bool
matches_name_regex [] = false
matches_name_regex (c ∷ cs) = is_letter c && all_name_chars cs && leb (length cs) 53

unfoldable pub valid_name : List ℕ → Bool
valid_name name = if is_reserved name then false else matches_name_regex name

-- "vcluster-" + name
unfoldable pub vcluster_namespace : List ℕ → List ℕ
unfolding codes
vcluster_namespace name = namespace_prefix ++ name

-- Why an object is refused; the sentences are prose.
pub data Misplacement : Type 0 where
  bad_name wrong_namespace : Misplacement

unfoldable pub marker_misplaced : List ℕ → List ℕ → Option Misplacement
marker_misplaced name namespace =
    if not (valid_name name)
    then some bad_name
    else (if same_text namespace (vcluster_namespace name) then none else some wrong_namespace)

unfoldable pub vcluster_misplaced : VCluster → String → Option Misplacement
vcluster_misplaced vc want =
    if not (valid_name (codes vc.name))
    then some bad_name
    else (if str_eq vc.namespace want then none else some wrong_namespace)
