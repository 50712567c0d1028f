-- ===== src/Budget.antt =====
-- The resource budget of a cell: internal/controller/vcluster_budget.go, and the sum of what was
-- handed out, internal/kubernetes/budget.go. Quantities are those of k8s.io/apimachinery, a
-- parameter.
pub mod Laws
use vcluster_manager.Prelude.{
  ℕ, String, ◌≡◌, Bool, true, false, not, ◌&&◌, ◌||◌, Option, none, some, List, [], ◌∷◌, ◌++◌,
  if◌then◌else◌, ◌==◌, is_some, str_eq,
}
use vcluster_manager.Prelude.Int.{ℤ, pos, ◌+ℤ◌, ltb_ℤ}
use vcluster_manager.Text.{codes, same_text}
use vcluster_manager.Names.{namespace_prefix}
use vcluster_manager.Provision.{create_request_from_cr}
use vcluster_manager.Kube.{
  budget_ok, condition_true, condition_false, no_quota_requested, no_budget_configured,
  invalid_quantity, budget_exceeded, within_budget, Reason,
}
use vcluster_manager.VCluster.{Error, VCluster, wrap, failed, with_phase}
use vcluster_manager.Reconciler.{
  Reconciler, BudgetLimits, Exec, resolved_quotas, summed_quotas, ◌>>=◌, ◌>>◌, pure, ask, get_vc,
  modify, set_vcluster_cond,
}
use vcluster_manager.Reconciler.Answers.{BudgetUsage, EffectiveQuota, CreateRequest}

-- resource.Quantity: ParseQuantity, Add and Cmp, and that they are those of a number.
pub record QuantityApi (Q : Type 0) : Type 0 where
  pub parse_quantity : String → Option Q
  pub zero_quantity : Q
  pub add : Q → Q → Q
  -- a.Cmp(b) > 0
  pub exceeds : Q → Q → Bool
  pub amount : Q → ℤ
  pub amount-zero : amount zero_quantity ≡ pos 0
  pub amount-add : (a b : Q) → amount (add a b) ≡ amount a +ℤ amount b
  pub exceeds-amount : (a b : Q) → exceeds a b ≡ ltb_ℤ (amount b) (amount a)

-- (bool, string, error) of exceedsBudget; the text is prose.
pub data BudgetCheck : Type 0 where
  fits over unreadable : BudgetCheck

-- configured
unfoldable pub is_configured : BudgetLimits → Bool
is_configured b = not (str_eq b.cpu "") || not (str_eq b.memory "") || not (str_eq b.storage "")

-- A ResourceQuota as the sum reads it: its namespace and what `spec.hard`, or `status.hard` where
-- there is none, says of the three keys.
pub record ResourceQuota : Type 0 where
  pub namespace : List ℕ
  pub cpu : Option String
  pub memory : Option String
  pub storage : Option String

-- strings.HasPrefix
unfoldable pub has_prefix : List ℕ → List ℕ → Bool
has_prefix cs [] = true
has_prefix [] (p ∷ ps) = false
has_prefix (c ∷ cs) (p ∷ ps) = c == p && has_prefix cs ps

-- The quota is left out of the sum.
unfoldable pub is_skipped : List ℕ → List ℕ → Bool
is_skipped skip namespace = not (has_prefix namespace namespace_prefix) || same_text namespace skip

-- `skip`: the namespace of the vcluster that is left out, "" where none is.
unfoldable pub skip_namespace : List ℕ → List ℕ
skip_namespace [] = []
skip_namespace (c ∷ cs) = namespace_prefix ++ c ∷ cs

module _ {Q : Type 0} (qs : QuantityApi Q) where
  abbrev compare_total : Q → Option Q → Option Q → BudgetCheck
  compare_total used none limit = unreadable
  compare_total used (some asked) none = unreadable
  compare_total used (some asked) (some limit) =
      if qs.exceeds (qs.add used asked) limit then over else fits

  -- exceedsBudget: an empty ceiling caps nothing, an empty request asks for nothing.
  unfoldable pub exceeds_budget : String → Q → String → BudgetCheck
  exceeds_budget asked used ceiling =
      if str_eq ceiling "" || str_eq asked ""
      then fits
      else compare_total used (qs.parse_quantity asked) (qs.parse_quantity ceiling)

  -- One key of a quota, added to its total; none where it does not parse.
  abbrev add_parsed : Q → Option Q → Option Q
  add_parsed total none = none
  add_parsed total (some q) = some (qs.add total q)

  unfoldable pub add_key : Option String → Q → Option Q
  add_key none total = some total
  add_key (some raw) total = add_parsed total (qs.parse_quantity raw)

  abbrev both : Option Q → Option Q → Option Q → Option (BudgetUsage Q)
  both (some c) (some m) (some s) = some (record { cpu = c; memory = m; storage = s })
  both _ _ _ = none

  unfoldable pub add_quota : ResourceQuota → BudgetUsage Q → Option (BudgetUsage Q)
  add_quota rq total =
      both (add_key rq.cpu total.cpu) (add_key rq.memory total.memory)
        (add_key rq.storage total.storage)

  -- The loop of SumVClusterQuotaHardLimits; none is the error of an unreadable quota.
  unfoldable pub sum_from : List ℕ → List ResourceQuota → BudgetUsage Q → Option (BudgetUsage Q)
  sum_from skip [] total = some total
  sum_from skip (rq ∷ rest) total = elim (is_skipped skip rq.namespace) [
    | true ↦ sum_from skip rest total
    | false ↦ elim (add_quota rq total) [ none ↦ none | some total' ↦ sum_from skip rest total' ]
  ]

  unfoldable pub sum_vcluster_quota_hard_limits :
      List ℕ → List ResourceQuota → Option (BudgetUsage Q)
  sum_vcluster_quota_hard_limits excluding items =
      sum_from (skip_namespace excluding) items
        (record { cpu = qs.zero_quantity; memory = qs.zero_quantity; storage = qs.zero_quantity })

  -- The loop over CPU, memory and storage: the first that does not fit decides.
  unfoldable pub check_dimensions : EffectiveQuota → BudgetUsage Q → BudgetLimits → BudgetCheck
  check_dimensions asked used limits = elim (exceeds_budget asked.cpu used.cpu limits.cpu) [
    | fits ↦ elim (exceeds_budget asked.memory used.memory limits.memory) [
      | fits ↦ exceeds_budget asked.storage used.storage limits.storage
      | over ↦ over
      | unreadable ↦ unreadable
    ]
    | over ↦ over
    | unreadable ↦ unreadable
  ]

-- What checkResourceBudget returns: (bool, error).
pub data Admission : Type 0 where
  admitted refused : Admission
  not_known : Error → Admission

-- Whether a quota is to be counted against the cell: EffectiveQuotas says that quotas are enabled,
-- and one of the three is set.
unfoldable pub is_billable : EffectiveQuota → Bool
is_billable q =
    q.enabled && (not (str_eq q.cpu "") || not (str_eq q.memory "") || not (str_eq q.storage ""))

module _ {W Q O : Type 0} (qs : QuantityApi Q) (r : Reconciler W Q O) where
  unfoldable pub refuse_budget : Reason → Exec W Admission
  refuse_budget why = do
    set_vcluster_cond r budget_ok condition_false why
    modify (with_phase failed)
    pure refused

  unfoldable pub conclude_budget : BudgetCheck → Exec W Admission
  conclude_budget fits = do
    set_vcluster_cond r budget_ok condition_true within_budget
    pure admitted
  conclude_budget over = refuse_budget budget_exceeded
  conclude_budget unreadable = refuse_budget invalid_quantity

  -- From the effective quota on.
  unfoldable pub check_quota : EffectiveQuota → Exec W Admission
  check_quota asked = do
    vc ← get_vc
    if not (is_billable asked)
        then (do set_vcluster_cond r budget_ok condition_true no_quota_requested; pure admitted)
        else (if not (is_configured r.budget) then refuse_budget no_budget_configured else (do
          used ← ask (λ a. summed_quotas a.1) (r.ops.sum_vcluster_quotas r.cell vc.name)
          elim used.1 [
            | some e ↦ pure (not_known (wrap "lecture des quotas de la cell" e))
            | none ↦ conclude_budget (check_dimensions qs asked used.0 r.budget)
          ]))

  unfoldable pub check_resource_budget : Exec W Admission
  check_resource_budget = do
    vc ← get_vc
    if not r.has_budget_ops then pure admitted else (do
      asked ←
          ask (λ a. resolved_quotas a.1) (r.ops.effective_quotas (create_request_from_cr vc) r.cell)
      elim asked.1 [ some e ↦ pure (not_known e) | none ↦ check_quota asked.0 ])
