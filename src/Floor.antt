-- ===== src/Floor.antt =====
-- The floor under a quota: floorFor and ValidateQuotaFitsOptions of
-- internal/service/vcluster_quota_floor.go. The prose of the errors is left out.
use vcluster_manager.Prelude.{
  String, ◌≡◌, true, false, Option, none, some, if◌then◌else◌, str_eq, arith, sym, ◌∙◌,
}
use vcluster_manager.Prelude.Int.{◌+ℤ◌, ◌≤ℤ◌, not_lt→le_ℤ}
use vcluster_manager.Reconciler.Answers.{CreateRequest}
use vcluster_manager.Budget.{QuantityApi}

-- quotaFloor
pub record QuotaFloor (Q : Type 0) : Type 0 where
  pub cpu : Q
  pub memory : Q

-- What ValidateQuotaFitsOptions answers: nil, the error of a field, or ErrQuotaBelowFloor.
pub data FloorCheck : Type 0 where
  sufficient unreadable_quota below_floor : FloorCheck

-- `must_parse` is resource.MustParse, which the code calls on constants.
module _ {Q : Type 0} (qs : QuantityApi Q) (must_parse : String → Q) where
  unfoldable pub floor_for : CreateRequest → QuotaFloor Q
  floor_for req =
      if req.argocd
      then record {
        cpu = qs.add (must_parse "140m") (must_parse "350m");
        memory = qs.add (must_parse "470Mi") (must_parse "896Mi");
      }
      else record { cpu = must_parse "140m"; memory = must_parse "470Mi" }

  abbrev compare_floor : Q → Option Q → FloorCheck
  compare_floor floor none = unreadable_quota
  compare_floor floor (some q) = if qs.exceeds floor q then below_floor else sufficient

  -- One turn of the loop: an empty quota is not looked at.
  unfoldable pub check_floor : String → Q → FloorCheck
  check_floor asked floor =
      if str_eq asked "" then sufficient else compare_floor floor (qs.parse_quantity asked)

  unfoldable pub validate_quota_fits_options : CreateRequest → String → String → FloorCheck
  validate_quota_fits_options req cpu memory =
      if req.no_quotas then sufficient else elim (check_floor cpu (floor_for req).cpu) [
        | sufficient ↦ check_floor memory (floor_for req).memory
        | unreadable_quota ↦ unreadable_quota
        | below_floor ↦ below_floor
      ]

  check_floor_sufficient :
      (asked : String) (floor q : Q)
      → check_floor asked floor ≡ sufficient
      → str_eq asked "" ≡ false
      → qs.parse_quantity asked ≡ some q
      → qs.amount floor ≤ℤ qs.amount q
  unfolding check_floor
  check_floor_sufficient asked floor q h x p =
      let no_excess : qs.exceeds floor q ≡ false = ground arith in
      not_lt→le_ℤ (qs.amount floor) (qs.amount q) (sym (qs.exceeds-amount floor q) ∙ no_excess)

  validated :
      (req : CreateRequest) (cpu memory : String)
      → validate_quota_fits_options req cpu memory ≡ sufficient
      → req.no_quotas ≡ false
      → (check_floor cpu (floor_for req).cpu ≡ sufficient)
        × (check_floor memory (floor_for req).memory ≡ sufficient)
  unfolding validate_quota_fits_options
  validated req cpu memory h n = (ground arith, ground arith)

  argocd_floor :
      (req : CreateRequest)
      → req.argocd ≡ true
      → (qs.amount (floor_for req).cpu
          ≡ qs.amount (must_parse "140m") +ℤ qs.amount (must_parse "350m"))
        × (qs.amount (floor_for req).memory
            ≡ qs.amount (must_parse "470Mi") +ℤ qs.amount (must_parse "896Mi"))
  unfolding floor_for
  argocd_floor req h = (
    ground (arith, qs.amount-add (must_parse "140m") (must_parse "350m")),
    ground (arith, qs.amount-add (must_parse "470Mi") (must_parse "896Mi")),
  )

  -- Where quotas are not waived and both values are given and readable, a quota that passes for a
  -- vcluster with ArgoCD has, in processor and in memory, at least the sum of the floors of the
  -- vcluster and of ArgoCD.
  argocd_fits :
      (req : CreateRequest) (cpu memory : String) (c m : Q)
      → validate_quota_fits_options req cpu memory ≡ sufficient
      → req.no_quotas ≡ false
      → req.argocd ≡ true
      → str_eq cpu "" ≡ false
      → str_eq memory "" ≡ false
      → qs.parse_quantity cpu ≡ some c
      → qs.parse_quantity memory ≡ some m
      → ((qs.amount (must_parse "140m") +ℤ qs.amount (must_parse "350m")) ≤ℤ qs.amount c)
        × ((qs.amount (must_parse "470Mi") +ℤ qs.amount (must_parse "896Mi")) ≤ℤ qs.amount m)
  argocd_fits req cpu memory c m h n a x y p q =
      let both = validated req cpu memory h n in
      let floor = argocd_floor req a in
      (
        rw (← floor.0) (check_floor_sufficient cpu (floor_for req).cpu c both.0 x p),
        rw (← floor.1) (check_floor_sufficient memory (floor_for req).memory m both.1 y q),
      )
