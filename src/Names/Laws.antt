-- ===== src/Names/Laws.antt =====
-- What a valid name and a placement that is not refused guarantee.
use vcluster_manager.Prelude.{
  ℕ, ◌≤◌, ◌≡◌, ◌≢◌, refl, ap, sym, ◌∙◌, true, false, none, List, [], ◌∷◌, arith, length,
}
use vcluster_manager.Text.{codes, same_text}
use vcluster_manager.Names.{
  namespace_prefix, operator_namespace, valid_name, is_reserved, matches_name_regex, all_name_chars,
  is_name_char, vcluster_namespace, marker_misplaced, trim_prefix,
}

pub same_text-eq : (a b : List ℕ) → same_text a b ≡ true → a ≡ b
unfolding same_text
same_text-eq [] [] h = refl
same_text-eq [] (d ∷ ds) h = cc
same_text-eq (c ∷ cs) [] h = cc
same_text-eq (c ∷ cs) (d ∷ ds) h = ground (arith, same_text-eq cs ds)

pub same_text_refl : (a : List ℕ) → same_text a a ≡ true
unfolding same_text
same_text_refl [] = refl
same_text_refl (c ∷ cs) = ground (arith, same_text_refl cs)

not_reserved : (name : List ℕ) → valid_name name ≡ true → is_reserved name ≡ false
unfolding valid_name
not_reserved name h = ground arith

reserved_name :
    (name : List ℕ) → vcluster_namespace name ≡ codes operator_namespace → is_reserved name ≡ true
unfolding is_reserved vcluster_namespace
reserved_name name e =
    let same : name ≡ trim_prefix (codes operator_namespace) namespace_prefix =
      ap (λ l. trim_prefix l namespace_prefix) e in
    rw (← same) (same_text_refl name)

valid_namespace-length :
    (name : List ℕ) → valid_name name ≡ true → length (vcluster_namespace name) ≤ 63
unfolding valid_name matches_name_regex vcluster_namespace
valid_namespace-length [] h = omega arith
valid_namespace-length (c ∷ cs) h = ground arith

valid_namespace-all_name_chars :
    (name : List ℕ) → valid_name name ≡ true → all_name_chars (vcluster_namespace name) ≡ true
unfolding valid_name matches_name_regex vcluster_namespace all_name_chars is_name_char
valid_namespace-all_name_chars [] h = refl
valid_namespace-all_name_chars (c ∷ cs) h = ground arith

-- The namespace of a valid name has at most 63 characters, all of them lower-case letters, digits
-- or dashes, and it is not the namespace of the operator.
valid_namespace :
    (name : List ℕ)
    → valid_name name ≡ true
    → (length (vcluster_namespace name) ≤ 63)
      × (all_name_chars (vcluster_namespace name) ≡ true)
      × (vcluster_namespace name ≢ codes operator_namespace)
valid_namespace name h = (
  valid_namespace-length name h,
  valid_namespace-all_name_chars name h,
  λ e. cc (reserved_name name e, not_reserved name h),
)

prefix_injective : (a b : List ℕ) → vcluster_namespace a ≡ vcluster_namespace b → a ≡ b
unfolding vcluster_namespace trim_prefix
prefix_injective a b e = ap (λ l. trim_prefix l namespace_prefix) e

accepted_marker :
    (name namespace : List ℕ)
    → marker_misplaced name namespace ≡ none
    → (valid_name name ≡ true) × (namespace ≡ vcluster_namespace name)
unfolding marker_misplaced
accepted_marker name namespace h = ground (arith, same_text-eq namespace (vcluster_namespace name))

-- Two markers that are not refused and that live in one namespace speak of one vcluster, and that
-- namespace is not the operator's: a marker cannot drive the vcluster of another namespace.
pub markers_bound :
    (name other namespace : List ℕ)
    → marker_misplaced name namespace ≡ none
    → marker_misplaced other namespace ≡ none
    → (name ≡ other) × (namespace ≢ codes operator_namespace)
markers_bound name other namespace h k =
    let a = accepted_marker name namespace h in
    let b = accepted_marker other namespace k in
    (prefix_injective name other (sym a.1 ∙ b.1), λ e. (valid_namespace name a.0).2 (sym a.1 ∙ e))

-- Every marker with a valid name is accepted in the namespace of its vcluster.
pub marker_at_home :
    (name : List ℕ)
    → valid_name name ≡ true
    → marker_misplaced name (vcluster_namespace name) ≡ none
unfolding marker_misplaced
marker_at_home name h = ground (arith, same_text_refl (vcluster_namespace name))
