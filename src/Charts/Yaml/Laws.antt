-- ===== src/Charts/Yaml/Laws.antt =====
-- What an edit of a tree of YAML reads back as.
use vcluster_manager.Prelude.{
  String, ◌≡◌, refl, Bool, true, false, not, ◌||◌, Option, none, some, is_some, List, [], ◌∷◌,
  arith, str_eq, eq_iff, if◌then◌else◌, Bool-cases, inl, inr,
}
use vcluster_manager.Fluxprod.{is_empty}
use vcluster_manager.Charts.Yaml.{
  document, sequence, mapping, scalar, alias, Node, node, Nodes, no_nodes, with_node, value_of,
  as_text, changed, set_yaml_node_value, set_in_pairs,
}

unfoldable mutual
  -- The value under a path of keys, the first of each.
  pub value_at : Node → List String → Option String
  value_at (node document t v (with_node n ns)) path = value_at n path
  value_at (node document t v no_nodes) path = none
  value_at (node mapping t v ns) [] = none
  value_at (node mapping t v ns) (key ∷ path) = value_in ns key path
  value_at (node sequence t v ns) path = none
  value_at (node scalar t v ns) path = none
  value_at (node alias t v ns) path = none

  pub value_in : Nodes → String → List String → Option String
  value_in no_nodes key path = none
  value_in (with_node k no_nodes) key path = none
  value_in (with_node k (with_node v ns)) key path =
      let inner = value_at v path in
      let rest = value_in ns key path in
      if str_eq (value_of k) key then (if is_empty path then some (value_of v) else inner) else rest

abbrev read_in : Nodes → List String → Option String
read_in ns [] = none
read_in ns (key ∷ path) = value_in ns key path

-- Two paths that part: neither goes on where the other ends.
abbrev pub parted : List String → List String → Bool
parted [] _ = false
parted (_ ∷ _) [] = false
parted (a ∷ p) (b ∷ q) = let rest = parted p q in not (str_eq a b) || rest

-- An edit that fails finds no value; one that succeeds finds one and is read back, and the values under the paths
-- that part from it are the ones from before.
abbrev pub IsEdited :
    {A : Type 0} → (A → List String → Option String) → A → List String → String → Option A → Type 0
IsEdited read a path x none = read a path ≡ none
IsEdited read a path x (some b) =
    (is_some (read a path) ≡ true)
    × (read b path ≡ some x)
    × ((q : List String) → parted q path ≡ true → read b q ≡ read a q)

in_document :
    (t v x : String) (n : Node) (ns : Nodes) (path : List String) (o : Option Node)
    → IsEdited value_at n path x o
    → IsEdited value_at
        (node document t v (with_node n ns))
        path
        x
        (changed (λ m. node document t v (with_node m ns)) o)
unfolding value_at
in_document t v x n ns path none h = h
in_document t v x n ns path (some m) h = h

mapping_kept :
    (t v : String) (ms ns : Nodes) (q path : List String)
    → ((q : List String) → parted q path ≡ true → read_in ms q ≡ read_in ns q)
    → parted q path ≡ true
    → value_at (node mapping t v ms) q ≡ value_at (node mapping t v ns) q
unfolding value_at
mapping_kept t v ms ns [] path h e = refl
mapping_kept t v ms ns (a ∷ q) path h e = h (a ∷ q) e

in_mapping :
    (t v x key : String) (ns : Nodes) (path : List String) (o : Option Nodes)
    → IsEdited read_in ns (key ∷ path) x o
    → IsEdited value_at (node mapping t v ns) (key ∷ path) x (changed (node mapping t v) o)
unfolding value_at
in_mapping t v x key ns path none h = h
in_mapping t v x key ns path (some ms) h =
    (h.0, h.1, λ q e. mapping_kept t v ms ns q (key ∷ path) h.2 e)

leaf_kept :
    (k v w : Node) (ns : Nodes) (key : String) (q : List String)
    → str_eq (value_of k) key ≡ true
    → parted q (key ∷ []) ≡ true
    → read_in (with_node k (with_node w ns)) q ≡ read_in (with_node k (with_node v ns)) q
unfolding value_at
leaf_kept k v w ns key [] h e = refl
leaf_kept k v w ns key (a ∷ []) h e =
    ground (arith, h, e, eq_iff (value_of k) key, eq_iff (value_of k) a, eq_iff a key)
leaf_kept k v w ns key (a ∷ b ∷ q) h e =
    ground (arith, h, e, eq_iff (value_of k) key, eq_iff (value_of k) a, eq_iff a key)

at_leaf :
    (k v : Node) (ns : Nodes) (key x : String)
    → str_eq (value_of k) key ≡ true
    → IsEdited read_in
        (with_node k (with_node v ns))
        (key ∷ [])
        x
        (some (with_node k (with_node (as_text x v) ns)))
unfolding value_at
at_leaf k (node kind t w content) ns key x h = (
  ground (arith, h),
  ground (arith, h),
  λ q e. leaf_kept k (node kind t w content) (as_text x (node kind t w content)) ns key q h e,
)

below_kept :
    (k v w : Node) (ns : Nodes) (key p : String) (path q : List String)
    → str_eq (value_of k) key ≡ true
    → ((q : List String) → parted q (p ∷ path) ≡ true → value_at w q ≡ value_at v q)
    → parted q (key ∷ p ∷ path) ≡ true
    → read_in (with_node k (with_node w ns)) q ≡ read_in (with_node k (with_node v ns)) q
unfolding value_at
below_kept k v w ns key p path [] h f e = refl
below_kept k v w ns key p path (a ∷ []) h f e =
    ground (arith, h, e, eq_iff (value_of k) key, eq_iff (value_of k) a, eq_iff a key)
below_kept k v w ns key p path (a ∷ b ∷ q) h f e =
    ground (arith, h, e, f (b ∷ q), eq_iff (value_of k) key, eq_iff (value_of k) a, eq_iff a key)

below :
    (k v : Node) (ns : Nodes) (key x p : String) (path : List String) (o : Option Node)
    → str_eq (value_of k) key ≡ true
    → IsEdited value_at v (p ∷ path) x o
    → IsEdited read_in
        (with_node k (with_node v ns))
        (key ∷ p ∷ path)
        x
        (changed (λ w. with_node k (with_node w ns)) o)
unfolding value_at
below k v ns key x p path none e h = ground (arith, e, h)
below k v ns key x p path (some w) e h = (
  ground (arith, e, h.0),
  ground (arith, e, h.1),
  λ q d. below_kept k v w ns key p path q e h.2 d,
)

further_kept :
    (k v : Node) (ms ns : Nodes) (path q : List String)
    → ((q : List String) → parted q path ≡ true → read_in ms q ≡ read_in ns q)
    → parted q path ≡ true
    → read_in (with_node k (with_node v ms)) q ≡ read_in (with_node k (with_node v ns)) q
unfolding value_at
further_kept k v ms ns path [] f e = refl
further_kept k v ms ns path (a ∷ q) f e = ground (arith, f (a ∷ q) e)

further :
    (k v : Node) (ns : Nodes) (key x : String) (path : List String) (o : Option Nodes)
    → str_eq (value_of k) key ≡ false
    → IsEdited read_in ns (key ∷ path) x o
    → IsEdited read_in
        (with_node k (with_node v ns))
        (key ∷ path)
        x
        (changed (λ ms. with_node k (with_node v ms)) o)
unfolding value_at
further k v ns key x path none e h = ground (arith, e, h)
further k v ns key x path (some ms) e h = (
  ground (arith, e, h.0),
  ground (arith, e, h.1),
  λ q d. further_kept k v ms ns (key ∷ path) q h.2 d,
)

pair_set :
    (k v : Node) (ns : Nodes) (key x : String) (path : List String)
    → IsEdited value_at v path x (set_yaml_node_value v path x)
    → IsEdited read_in ns (key ∷ path) x (set_in_pairs ns key path x)
    → IsEdited read_in
        (with_node k (with_node v ns))
        (key ∷ path)
        x
        (set_in_pairs (with_node k (with_node v ns)) key path x)
unfolding set_yaml_node_value value_at
pair_set k v ns key x [] h r = elim (Bool-cases (str_eq (value_of k) key)) [
  | inl e ↦ rw e (at_leaf k v ns key x e)
  | inr e ↦ rw e (further k v ns key x [] (set_in_pairs ns key [] x) e r)
]
pair_set k v ns key x (p ∷ path) h r = elim (Bool-cases (str_eq (value_of k) key)) [
  | inl e ↦ rw e (below k v ns key x p path (set_yaml_node_value v (p ∷ path) x) e h)
  | inr e ↦ rw e (further k v ns key x (p ∷ path) (set_in_pairs ns key (p ∷ path) x) e r)
]

mutual
  unfolding set_yaml_node_value value_at

  node_set :
      (n : Node) (path : List String) (x : String)
      → IsEdited value_at n path x (set_yaml_node_value n path x)
  node_set (node document t v no_nodes) path x = refl
  node_set (node document t v (with_node n ns)) path x =
      in_document t v x n ns path (set_yaml_node_value n path x) (node_set n path x)
  node_set (node mapping t v ns) [] x = refl
  node_set (node mapping t v ns) (key ∷ path) x =
      in_mapping t v x key ns path (set_in_pairs ns key path x) (pairs_set ns key path x)
  node_set (node sequence t v ns) path x = refl
  node_set (node scalar t v ns) path x = refl
  node_set (node alias t v ns) path x = refl

  pairs_set :
      (ns : Nodes) (key : String) (path : List String) (x : String)
      → IsEdited read_in ns (key ∷ path) x (set_in_pairs ns key path x)
  pairs_set no_nodes key path x = refl
  pairs_set (with_node k no_nodes) key path x = refl
  pairs_set (with_node k (with_node v ns)) key path x =
      pair_set k v ns key x path (node_set v path x) (pairs_set ns key path x)

-- A value is set exactly where the tree has one under the path. The new one is read back, and every
-- value under a path that parts from it is the one from before.
pub value_set :
    (n : Node) (path : List String) (x : String)
    → IsEdited value_at n path x (set_yaml_node_value n path x)
value_set n path x = node_set n path x
