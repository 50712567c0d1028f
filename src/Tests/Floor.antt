-- ===== src/Tests/Floor.antt =====
-- A quota that passes for a vcluster with ArgoCD, on whole units.
use vcluster_manager.Prelude.{String, ◌≡◌, refl, true, some, str_eq, if◌then◌else◌}
use vcluster_manager.Prelude.Int.{ℤ, pos, ◌+ℤ◌}
use vcluster_manager.Reconciler.Answers.{CreateRequest}
use vcluster_manager.Provision.{empty_request}
use vcluster_manager.Floor.{sufficient, floor_for, check_floor, validate_quota_fits_options}
use vcluster_manager.Tests.World.{whole}

abbrev with_argocd_on : CreateRequest
with_argocd_on = record (empty_request "demo") { argocd = true }

-- The measured floors, in a coarse unit.
abbrev coarse : String → ℤ
coarse s = if str_eq s "140m" then pos 1 else (if str_eq s "470Mi" then pos 2 else pos 1)

floor_met : validate_quota_fits_options whole coarse with_argocd_on "2" "8" ≡ sufficient
unfolding validate_quota_fits_options check_floor floor_for whole ◌+ℤ◌
floor_met = refl

two_parsed : whole.parse_quantity "2" ≡ some (pos 2)
unfolding whole
two_parsed = refl

eight_parsed : whole.parse_quantity "8" ≡ some (pos 8)
unfolding whole
eight_parsed = refl
