-- ===== src/Kube/Store.antt =====
-- A concrete store of conditions and finalizers, which meets the documented behaviour. The tests
-- run the controllers over it.
use vcluster_manager.Prelude.{
  ℕ, zero, suc, String, ◌≡◌, refl, sym, ap, ◌∙◌, true, false, Option, none, some, List, [], ◌∷◌,
  arith, if◌then◌else◌, str_eq, eq_iff, any,
}
use vcluster_manager.Kube.{
  ConditionType, ready, resources_provisioned, budget_ok, argocd_ready, vault_configured,
  rancher_paired, deletion_protected, backup_completed, namespace_removed, accepted,
  restore_in_progress, restore_rejected_busy, flux_resume_pending, restore_needs_retry, Condition,
  KubeApi, same_type, type_index, transition_time,
}

unfoldable pub find : ConditionType → List Condition → Option Condition
find t [] = none
find t (c ∷ cs) = if same_type t c.cond_type then some c else find t cs

unfoldable pub put : ℕ → Condition → List Condition → List Condition
put now c [] = record c { last_transition_time = now } ∷ []
put now c (d ∷ cs) =
    if same_type c.cond_type d.cond_type
    then record c { last_transition_time = transition_time now c.status (some d) } ∷ cs
    else d ∷ put now c cs

pub find-put :
    (t : ConditionType) (now : ℕ) (c : Condition) (cs : List Condition)
    → find t (put now c cs) ≡ (
        if same_type t c.cond_type
        then some
            (record c { last_transition_time = transition_time now c.status (find c.cond_type cs) })
        else find t cs)
unfolding find put
find-put t now c [] = refl
find-put t now c (d ∷ cs) = ground (arith, find-put t now c cs)

of_index : ℕ → ConditionType
of_index zero = ready
of_index (suc zero) = resources_provisioned
of_index (suc (suc zero)) = budget_ok
of_index (suc (suc (suc zero))) = argocd_ready
of_index (suc (suc (suc (suc zero)))) = vault_configured
of_index (suc (suc (suc (suc (suc zero))))) = rancher_paired
of_index (suc (suc (suc (suc (suc (suc zero)))))) = deletion_protected
of_index (suc (suc (suc (suc (suc (suc (suc zero))))))) = backup_completed
of_index (suc (suc (suc (suc (suc (suc (suc (suc zero)))))))) = namespace_removed
of_index (suc (suc (suc (suc (suc (suc (suc (suc (suc zero))))))))) = accepted
of_index (suc (suc (suc (suc (suc (suc (suc (suc (suc (suc zero)))))))))) = restore_in_progress
of_index (suc (suc (suc (suc (suc (suc (suc (suc (suc (suc (suc zero))))))))))) =
    restore_rejected_busy
of_index (suc (suc (suc (suc (suc (suc (suc (suc (suc (suc (suc (suc zero)))))))))))) =
    flux_resume_pending
of_index (suc (suc (suc (suc (suc (suc (suc (suc (suc (suc (suc (suc (suc n))))))))))))) =
    restore_needs_retry

of_index-type_index : (t : ConditionType) → of_index (type_index t) ≡ t
unfolding of_index type_index
of_index-type_index ready = refl
of_index-type_index _ = refl

same_type-eq : (t u : ConditionType) → same_type t u ≡ true → u ≡ t
same_type-eq t u h =
    let e : type_index t ≡ type_index u = ground arith in
    sym (of_index-type_index u) ∙ ap of_index (sym e) ∙ of_index-type_index t

pub find_type_lem :
    (t : ConditionType) (cs : List Condition) (c : Condition) → find t cs ≡ some c → c.cond_type ≡ t
unfolding find
find_type_lem t [] c h = ground arith
find_type_lem t (d ∷ cs) c h = ground (arith, find_type_lem t cs c, same_type-eq t d.cond_type)

-- meta.RemoveStatusCondition
unfoldable pub drop_type : ConditionType → List Condition → List Condition
drop_type t [] = []
drop_type t (c ∷ cs) =
    let rest = drop_type t cs in if same_type t c.cond_type then rest else c ∷ rest

unfoldable pub without : String → List String → List String
without f [] = []
without f (g ∷ gs) = let rest = without f gs in if str_eq g f then rest else g ∷ rest

pub contains-without :
    (f : String) (fs : List String) → any (λ g. str_eq g f) (without f fs) ≡ false
unfolding without
contains-without f [] = refl
contains-without f (g ∷ gs) = ground (arith, contains-without f gs)

pub contains-cons : (f : String) (fs : List String) → any (λ g. str_eq g f) (f ∷ fs) ≡ true
contains-cons f fs = ground (arith, eq_iff f f)

unfoldable pub store : KubeApi
unfolding find put without drop_type
store = record {
  set_status_condition = put;
  find_status_condition = find;
  remove_status_condition = drop_type;
  contains_finalizer = λ f fs. any (λ g. str_eq g f) fs;
  add_finalizer = λ f fs. f ∷ fs;
  remove_finalizer = without;
  find-set = find-put;
  find_type = find_type_lem;
  contains-add = contains-cons;
  contains-remove = contains-without;
}
