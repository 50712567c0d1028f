-- ===== src/Fluxprod/Checked.antt =====
-- What stands checked before a request writes anything.
use vcluster_manager.Prelude.{
  ℕ, String, ◌≡◌, ◌∙◌, refl, ap, Bool, true, false, ◌&&◌, Option, none, some, List, [], ◌∷◌, any,
  map, arith, Option-cases, inl, inr,
}
use vcluster_manager.Text.{codes}
use vcluster_manager.Names.{valid_name}
use vcluster_manager.Reconciler.Answers.{CreateRequest}
use vcluster_manager.Budget.{QuantityApi}
use vcluster_manager.Policy.{validate_rbac_groups}
use vcluster_manager.Velero.{Actor}
use vcluster_manager.Teardown.{
  Deed, committed, asked_merge, created_repo, created_clients, deleted_project, OfficeRun,
}
use vcluster_manager.Fluxprod.{Workshop, Refusal}
use vcluster_manager.Fluxprod.Fields.Laws.{
  all_plain, quantity_plain, repo_plain, branch_plain, version_text_plain, hour_plain,
}
use vcluster_manager.Fluxprod.Create.{
  first_failure, refused_group, request_checks, check_request, create_vcluster,
}
use vcluster_manager.Fluxprod.Form.{SettingsInput, settings_checks, check_settings}
use vcluster_manager.Fluxprod.Settings.{update_settings}

-- A call that changes something outside.
abbrev pub is_change : Deed → Bool
is_change (committed _ _ _) = true
is_change (asked_merge _ _) = true
is_change (created_repo _ _) = true
is_change (created_clients _ _ _) = true
is_change (deleted_project _ _) = true
is_change _ = false

abbrev pub plain_fields : List String → Bool
plain_fields [] = true
plain_fields (f ∷ fs) = all_plain (codes f) && plain_fields fs

abbrev Passed : List (Bool × Refusal) → Type 0
Passed [] = Unit
Passed ((ok, _) ∷ checks) = (ok ≡ true) × Passed checks

passed : (checks : List (Bool × Refusal)) → first_failure checks ≡ none → Passed checks
passed [] h = tt
passed ((true, r) ∷ checks) h = (refl, passed checks h)
passed ((false, r) ∷ checks) h = absurd cc

no_group : (found : Option (List ℕ)) → (refused_group [] found).0 ≡ true → found ≡ none
no_group none h = refl
no_group (some g) h = absurd cc

abbrev Plain : List String → Type 0
Plain [] = Unit
Plain (f ∷ fs) = (all_plain (codes f) ≡ true) × Plain fs

all_plain_fields : (fs : List String) → Plain fs → plain_fields fs ≡ true
all_plain_fields [] h = refl
all_plain_fields (f ∷ fs) (p, ps) = ap (λ b. b && plain_fields fs) p ∙ all_plain_fields fs ps

-- What a request that passes its checks is made of.
abbrev pub IsSound : Bool → String → List String → List String → Type 0
IsSound admin name groups fields =
    (admin ≡ true)
    × (valid_name (codes name) ≡ true)
    × (validate_rbac_groups (map codes groups) ≡ none)
    × (plain_fields fields ≡ true)

abbrev pub create_fields : CreateRequest → List String
create_fields req =
    req.cpu ∷ req.memory ∷ req.storage ∷ req.fluxcd_repo_url ∷ req.fluxcd_branch ∷ req.fluxcd_path
    ∷ req.velero_hour ∷ []

request-IsSound :
    (actor : Actor) (req : CreateRequest)
    → check_request actor req ≡ none
    → IsSound actor.is_admin req.name req.rbac_groups (create_fields req)
unfolding check_request
request-IsSound actor req h =
    let (admin, (name, (groups, (cpu, (memory, (storage, (url, (branch, (path, (hour, _)))))))))) =
      passed (request_checks actor req) h in
    (
      admin,
      name,
      no_group (validate_rbac_groups (map codes req.rbac_groups)) groups,
      all_plain_fields (create_fields req) (
        quantity_plain (codes req.cpu) cpu,
        (
          quantity_plain (codes req.memory) memory,
          (
            quantity_plain (codes req.storage) storage,
            (
              repo_plain (codes req.fluxcd_repo_url) url,
              (
                branch_plain (codes req.fluxcd_branch) branch,
                (
                  branch_plain (codes req.fluxcd_path) path,
                  (hour_plain (codes req.velero_hour) hour, tt),
                ),
              ),
            ),
          ),
        ),
      ),
    )

abbrev pub settings_fields : SettingsInput → List String
settings_fields input =
    input.cpu ∷ input.memory ∷ input.storage ∷ input.k8s_version ∷ input.argocd_version
    ∷ input.fluxcd_repo_url ∷ input.fluxcd_branch ∷ input.fluxcd_path ∷ input.velero_hour ∷ []

settings-IsSound :
    (actor : Actor) (name : String) (input : SettingsInput)
    → check_settings actor name input ≡ none
    → IsSound actor.is_admin name input.rbac_groups (settings_fields input)
unfolding check_settings
settings-IsSound actor name input h =
    let (
      admin,
      (
        valid,
        (cpu, (memory, (storage, (k8s, (argocd, (url, (branch, (path, (hour, (groups, _)))))))))),
      ),
    ) =
      passed (settings_checks actor name input) h in
    (
      admin,
      valid,
      no_group (validate_rbac_groups (map codes input.rbac_groups)) groups,
      all_plain_fields (settings_fields input) (
        quantity_plain (codes input.cpu) cpu,
        (
          quantity_plain (codes input.memory) memory,
          (
            quantity_plain (codes input.storage) storage,
            (
              version_text_plain (codes input.k8s_version) k8s,
              (
                version_text_plain (codes input.argocd_version) argocd,
                (
                  repo_plain (codes input.fluxcd_repo_url) url,
                  (
                    branch_plain (codes input.fluxcd_branch) branch,
                    (
                      branch_plain (codes input.fluxcd_path) path,
                      (hour_plain (codes input.velero_hour) hour, tt),
                    ),
                  ),
                ),
              ),
            ),
          ),
        ),
      ),
    )

module _ {W : Type 0} (o : Workshop W) where
  -- An update writes something only for an admin, under a valid name, with groups that are all
  -- accepted, and with every field that is checked made of letters, digits and . _ - + / : @ alone.
  pub updated_after_checks :
      (actor : Actor) (name env : String) (input : SettingsInput) (s : OfficeRun W)
      → s.deeds ≡ []
      → any is_change (update_settings o actor name env input s).1.deeds ≡ true
      → IsSound actor.is_admin name input.rbac_groups (settings_fields input)
  unfolding update_settings
  updated_after_checks actor name env input s e h =
      elim (Option-cases (check_settings actor name input)) [
        | inl ok ↦ settings-IsSound actor name input ok
        | inr (r, refused) ↦ absurd (ground (arith, refused, e, h))
      ]

module _ {W Q : Type 0} (o : Workshop W) (qs : QuantityApi Q) (must_parse : String → Q) where
  -- A creation writes something only for an admin, under a valid name, with groups that are all
  -- accepted, and with every field that is checked made of letters, digits and . _ - + / : @ alone.
  pub created_after_checks :
      (actor : Actor) (req : CreateRequest) (scope : String) (s : OfficeRun W)
      → s.deeds ≡ []
      → any is_change (create_vcluster o qs must_parse actor req scope s).1.deeds ≡ true
      → IsSound actor.is_admin req.name req.rbac_groups (create_fields req)
  unfolding create_vcluster
  created_after_checks actor req scope s e h = elim (Option-cases (check_request actor req)) [
    | inl ok ↦ request-IsSound actor req ok
    | inr (r, refused) ↦ absurd (ground (arith, refused, e, h))
  ]
