-- ===== src/Budget/Laws.antt =====
-- What an admission says of the cell's ceiling, and what the sum of quotas is.
use vcluster_manager.Prelude.{
  ℕ, String, ◌≡◌, refl, sym, ap, ◌∙◌, inl, inr, Bool, true, false, not, Option, none, some, List,
  [], ◌∷◌, arith, str_eq, if◌then◌else◌, Bool-cases, Option-cases, is_some, ◌++◌,
}
use vcluster_manager.Prelude.Int.{ℤ, pos, ◌+ℤ◌, ◌≤ℤ◌, not_lt→le_ℤ, +ℤ_zero, +ℤ_assoc, zero_+ℤ}
use vcluster_manager.Text.{same_text}
use vcluster_manager.Names.{strip, namespace_prefix}
use vcluster_manager.VCluster.{failed}
use vcluster_manager.Reconciler.{Reconciler, Run, BudgetLimits}
use vcluster_manager.Reconciler.Answers.{BudgetUsage, EffectiveQuota}
use vcluster_manager.Budget.{
  QuantityApi, fits, exceeds_budget, check_dimensions, admitted, refused, is_billable,
  is_configured, check_quota, conclude_budget, refuse_budget, ResourceQuota, add_key, add_quota,
  sum_from, is_skipped, skip_namespace, has_prefix, sum_vcluster_quota_hard_limits,
}

-- The three dimensions of a budget.
pub data Dimension : Type 0 where
  cpu_time memory_space storage_space : Dimension

abbrev pub asked_in : Dimension → EffectiveQuota → String
asked_in cpu_time q = q.cpu
asked_in memory_space q = q.memory
asked_in storage_space q = q.storage

abbrev pub used_in : {Q : Type 0} → Dimension → BudgetUsage Q → Q
used_in cpu_time u = u.cpu
used_in memory_space u = u.memory
used_in storage_space u = u.storage

abbrev pub ceiling_in : Dimension → BudgetLimits → String
ceiling_in cpu_time b = b.cpu
ceiling_in memory_space b = b.memory
ceiling_in storage_space b = b.storage

-- What a quota says of a dimension.
abbrev pub hard_in : Dimension → ResourceQuota → Option String
hard_in cpu_time rq = rq.cpu
hard_in memory_space rq = rq.memory
hard_in storage_space rq = rq.storage

-- Whether the vcluster of a namespace, if it is that of one, counts when one is left out.
abbrev pub counts : List ℕ → Option (List ℕ) → Bool
counts excluding none = false
counts excluding (some name) = not (same_text name excluding)

has_prefix-strip : (ns prefix : List ℕ) → has_prefix ns prefix ≡ is_some (strip prefix ns)
unfolding has_prefix
has_prefix-strip ns [] = refl
has_prefix-strip [] (p ∷ ps) = refl
has_prefix-strip (c ∷ cs) (p ∷ ps) = ground (arith, has_prefix-strip cs ps)

same_text-strip :
    (ns prefix name rest : List ℕ)
    → strip prefix ns ≡ some rest
    → same_text ns (prefix ++ name) ≡ same_text rest name
unfolding same_text
same_text-strip ns [] name rest h = ground arith
same_text-strip [] (p ∷ ps) name rest h = cc
same_text-strip (c ∷ cs) (p ∷ ps) name rest h = ground (arith, same_text-strip cs ps name rest)

-- The test of the loop, by the name of the vcluster.
is_skipped-counts :
    (c : ℕ) (cs ns : List ℕ)
    → is_skipped (skip_namespace (c ∷ cs)) ns ≡ not (counts (c ∷ cs) (strip namespace_prefix ns))
unfolding is_skipped skip_namespace
is_skipped-counts c cs ns = elim (Option-cases (strip namespace_prefix ns)) [
  | inl other ↦ ground (arith, has_prefix-strip ns namespace_prefix)
  | inr (rest, found) ↦ ground (
    arith,
    has_prefix-strip ns namespace_prefix,
    same_text-strip ns namespace_prefix (c ∷ cs) rest found,
  )
]

module _ {Q : Type 0} (qs : QuantityApi Q) where
  exceeds_budget_fits :
      (asked : String) (used : Q) (ceiling : String) (a c : Q)
      → exceeds_budget qs asked used ceiling ≡ fits
      → str_eq asked "" ≡ false
      → str_eq ceiling "" ≡ false
      → qs.parse_quantity asked ≡ some a
      → qs.parse_quantity ceiling ≡ some c
      → (qs.amount used +ℤ qs.amount a) ≤ℤ qs.amount c
  unfolding exceeds_budget
  exceeds_budget_fits asked used ceiling a c h x y p q =
      let no_excess : qs.exceeds (qs.add used a) c ≡ false = ground arith in
      rw (← qs.amount-add used a) (
        not_lt→le_ℤ (qs.amount (qs.add used a)) (qs.amount c)
          (sym (qs.exceeds-amount (qs.add used a) c) ∙ no_excess))

  dimensions_fit :
      (asked : EffectiveQuota) (used : BudgetUsage Q) (limits : BudgetLimits) (d : Dimension)
      → check_dimensions qs asked used limits ≡ fits
      → exceeds_budget qs (asked_in d asked) (used_in d used) (ceiling_in d limits) ≡ fits
  unfolding check_dimensions
  dimensions_fit asked used limits cpu_time h = ground arith
  dimensions_fit asked used limits _ h = ground arith

  abbrev parsed_amount : Option Q → ℤ
  parsed_amount none = pos 0
  parsed_amount (some q) = qs.amount q

  abbrev amount_of : Option String → ℤ
  amount_of none = pos 0
  amount_of (some raw) = parsed_amount (qs.parse_quantity raw)

  -- What the quotas of the vclusters, but for the one named, have promised in a dimension.
  unfoldable pub promised : Dimension → List ℕ → List ResourceQuota → ℤ
  promised d excluding [] = pos 0
  promised d excluding (rq ∷ rest) =
      let later = promised d excluding rest in
      if counts excluding (strip namespace_prefix rq.namespace)
      then amount_of (hard_in d rq) +ℤ later
      else later

  add_key-amount :
      (raw : Option String) (total t : Q)
      → add_key qs raw total ≡ some t
      → qs.amount t ≡ qs.amount total +ℤ amount_of raw
  unfolding add_key
  add_key-amount none total t h = ground (arith, +ℤ_zero (qs.amount total))
  add_key-amount (some raw) total t h = grind (arith, qs.amount-add)

  add_quota-amount :
      (d : Dimension) (rq : ResourceQuota) (u v : BudgetUsage Q)
      → add_quota qs rq u ≡ some v
      → add_key qs (hard_in d rq) (used_in d u) ≡ some (used_in d v)
  unfolding add_quota
  add_quota-amount cpu_time rq u v h = ground arith
  add_quota-amount _ rq u v h = ground arith

  amount-start :
      (d : Dimension)
      → qs.amount (
          used_in d (record {
            cpu = qs.zero_quantity;
            memory = qs.zero_quantity;
            storage = qs.zero_quantity;
          }))
        ≡ pos 0
  amount-start cpu_time = qs.amount-zero
  amount-start _ = qs.amount-zero

  sum_from-amount :
      (d : Dimension) (c : ℕ) (cs : List ℕ) (items : List ResourceQuota) (u v : BudgetUsage Q)
      → sum_from qs (skip_namespace (c ∷ cs)) items u ≡ some v
      → qs.amount (used_in d v) ≡ qs.amount (used_in d u) +ℤ promised d (c ∷ cs) items
  unfolding sum_from promised
  sum_from-amount d c cs [] u v h =
      let same : u ≡ v = ground arith in rw (← same) (sym (+ℤ_zero (qs.amount (used_in d u))))
  sum_from-amount d c cs (rq ∷ rest) u v h =
      let test = is_skipped-counts c cs rq.namespace in
      elim (Bool-cases (is_skipped (skip_namespace (c ∷ cs)) rq.namespace)) [
        | inl skipped ↦ ground (arith, sum_from-amount d c cs rest u v)
        | inr counted ↦ elim (Option-cases (add_quota qs rq u)) [
          | inl bad ↦ ground arith
          | inr (w, good) ↦ ground (
            arith,
            sum_from-amount d c cs rest w v,
            add_quota-amount d rq u w,
            add_key-amount (hard_in d rq) (used_in d u) (used_in d w),
            +ℤ_assoc (qs.amount (used_in d u)) (amount_of (hard_in d rq))
                (promised d (c ∷ cs) rest),
          )
        ]
      ]

  -- The sum of the cell's quotas, where every quota can be read, is in each dimension what the
  -- quotas in the namespaces of the vclusters promise, the named vcluster left out.
  pub sum_vcluster_quotas-promised :
      (d : Dimension) (c : ℕ) (cs : List ℕ) (items : List ResourceQuota) (v : BudgetUsage Q)
      → sum_vcluster_quota_hard_limits qs (c ∷ cs) items ≡ some v
      → qs.amount (used_in d v) ≡ promised d (c ∷ cs) items
  unfolding sum_vcluster_quota_hard_limits
  sum_vcluster_quotas-promised d c cs items v h =
      let start : BudgetUsage Q = record {
        cpu = qs.zero_quantity;
        memory = qs.zero_quantity;
        storage = qs.zero_quantity;
      } in
      let none_used : qs.amount (used_in d start) ≡ pos 0 = amount-start d in
      sum_from-amount d c cs items start v h
      ∙ ap (λ z. z +ℤ promised d (c ∷ cs) items) none_used
      ∙ zero_+ℤ (promised d (c ∷ cs) items)

module _ {W Q O : Type 0} (qs : QuantityApi Q) (r : Reconciler W Q O) where
  quota_admits :
      (asked : EffectiveQuota) (s : Run W)
      → (check_quota qs r asked s).0 ≡ admitted
      → is_billable asked ≡ true
      → check_dimensions qs asked (r.ops.sum_vcluster_quotas r.cell s.vc.name s.world).0.0 r.budget
        ≡ fits
  unfolding check_quota refuse_budget conclude_budget
  quota_admits asked s h b = ground arith

  -- An admitted vcluster whose quota counts fits: in each dimension where a readable quota is
  -- asked for and a readable ceiling set, what the others hold with what is asked for stays
  -- within the ceiling.
  pub admitted_within_ceiling :
      (asked : EffectiveQuota) (s : Run W) (d : Dimension) (a c : Q)
      → (check_quota qs r asked s).0 ≡ admitted
      → is_billable asked ≡ true
      → str_eq (asked_in d asked) "" ≡ false
      → str_eq (ceiling_in d r.budget) "" ≡ false
      → qs.parse_quantity (asked_in d asked) ≡ some a
      → qs.parse_quantity (ceiling_in d r.budget) ≡ some c
      → (qs.amount (used_in d (r.ops.sum_vcluster_quotas r.cell s.vc.name s.world).0.0)
          +ℤ qs.amount a)
        ≤ℤ qs.amount c
  admitted_within_ceiling asked s d a c h b x y p q =
      let used = (r.ops.sum_vcluster_quotas r.cell s.vc.name s.world).0.0 in
      exceeds_budget_fits qs (asked_in d asked) (used_in d used) (ceiling_in d r.budget) a c
        (dimensions_fit qs asked used r.budget d (quota_admits asked s h b)) x y p q

  -- With no ceiling configured at all, a vcluster whose quota counts is refused, and its phase is
  -- Failed: an operator that was not configured lets nothing through.
  pub unconfigured_refuses :
      (asked : EffectiveQuota) (s : Run W)
      → is_configured r.budget ≡ false
      → is_billable asked ≡ true
      → ((check_quota qs r asked s).0 ≡ refused)
        × ((check_quota qs r asked s).1.vc.status.phase ≡ failed)
        × ((check_quota qs r asked s).1.calls ≡ s.calls)
  unfolding check_quota refuse_budget
  unconfigured_refuses asked s n b = ground arith
