-- ===== src/Charts/Yaml.antt =====
-- The trees of yaml.v3 and the two edits that internal/helmcharts/updater.go makes in them. The
-- content of a mapping is its keys and values in turn.
pub mod Laws
use vcluster_manager.Prelude.{
  String, Bool, true, false, ◌&&◌, ◌||◌, Option, none, some, List, [], ◌∷◌, str_eq, if◌then◌else◌,
}
use vcluster_manager.Fluxprod.{is_empty}

pub data NodeKind : Type 0 where
  document sequence mapping scalar alias : NodeKind

-- A kind, a tag, a value and a content.
mutual
  pub data Node : Type 0 where
    node : NodeKind → String → String → Nodes → Node

  pub data Nodes : Type 0 where
    no_nodes : Nodes
    with_node : Node → Nodes → Nodes

abbrev pub value_of : Node → String
value_of (node _ _ value _) = value

abbrev pub as_text : String → Node → Node
as_text x (node _ _ _ content) = node scalar "!!str" x content

abbrev pub changed {ℓ} : {A B : Type ℓ} → (A → B) → Option A → Option B
changed f none = none
changed f (some a) = some (f a)

unfoldable mutual
  -- The tree with the value under a path of keys replaced; nothing where the path leads nowhere.
  pub set_yaml_node_value : Node → List String → String → Option Node
  set_yaml_node_value (node document t v (with_node n ns)) path x =
      changed (λ m. node document t v (with_node m ns)) (set_yaml_node_value n path x)
  set_yaml_node_value (node document t v no_nodes) path x = none
  set_yaml_node_value (node mapping t v ns) [] x = none
  set_yaml_node_value (node mapping t v ns) (key ∷ path) x =
      changed (node mapping t v) (set_in_pairs ns key path x)
  set_yaml_node_value (node sequence t v ns) path x = none
  set_yaml_node_value (node scalar t v ns) path x = none
  set_yaml_node_value (node alias t v ns) path x = none

  pub set_in_pairs : Nodes → String → List String → String → Option Nodes
  set_in_pairs no_nodes key path x = none
  set_in_pairs (with_node k no_nodes) key path x = none
  set_in_pairs (with_node k (with_node v ns)) key path x =
      let inner = set_yaml_node_value v path x in
      let rest = set_in_pairs ns key path x in
      if str_eq (value_of k) key
      then changed (λ w. with_node k (with_node w ns))
          (if is_empty path then some (as_text x v) else inner)
      else changed (λ ms. with_node k (with_node v ms)) rest

-- The first value of a key replaced, its kind kept.
unfoldable pub set_version : Nodes → String → Option Nodes
set_version (with_node k (with_node (node kind t v content) ns)) x =
    let rest = set_version ns x in
    if str_eq (value_of k) "version"
    then some (with_node k (with_node (node kind "!!str" x content) ns))
    else changed (λ ms. with_node k (with_node (node kind t v content) ms)) rest
set_version _ x = none

unfoldable pub is_named : Nodes → String → Bool
is_named (with_node k (with_node v ns)) name =
    str_eq (value_of k) "name" && str_eq (value_of v) name || is_named ns name
is_named _ name = false

unfoldable pub set_item : Node → String → String → Option Node
unfolding set_version is_named
set_item (node mapping t v content) name x =
    if is_named content name then changed (node mapping t v) (set_version content x) else none
set_item _ name x = none

-- The first item that takes the version.
unfoldable pub set_first_item : Nodes → String → String → Option Nodes
unfolding set_item
set_first_item no_nodes name x = none
set_first_item (with_node i is) name x =
    let rest = set_first_item is name x in
    elim (set_item i name x) [
      | some i' ↦ some (with_node i' is)
      | none ↦ changed (with_node i) rest
    ]

abbrev set_sequence : Node → String → String → Option Node
set_sequence (node sequence t v items) name x =
    changed (node sequence t v) (set_first_item items name x)
set_sequence _ name x = none

unfoldable pub set_dependency : Nodes → String → String → Option Nodes
unfolding set_first_item
set_dependency (with_node k (with_node v ns)) name x =
    let rest = changed (λ ms. with_node k (with_node v ms)) (set_dependency ns name x) in
    if str_eq (value_of k) "dependencies"
    then elim (set_sequence v name x) [
      | some v' ↦ some (with_node k (with_node v' ns))
      | none ↦ rest
    ]
    else rest
set_dependency _ name x = none

unfoldable mutual
  pub set_dependency_version : Node → String → String → Option Node
  set_dependency_version (node document t v (with_node n ns)) name x =
      changed (λ m. node document t v (with_node m ns)) (set_dependency_version n name x)
  set_dependency_version (node document t v no_nodes) name x = none
  set_dependency_version (node mapping t v ns) name x =
      changed (node mapping t v) (set_dependency ns name x)
  set_dependency_version (node sequence t v ns) name x = none
  set_dependency_version (node scalar t v ns) name x = none
  set_dependency_version (node alias t v ns) name x = none
