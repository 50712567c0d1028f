-- ===== src/Provision.antt =====
-- Provisioning: internal/controller/vcluster_provision.go. The objects that are rendered are
-- those of the service, of an abstract type.
pub mod Laws
use vcluster_manager.Prelude.{
  ℕ, String, Bool, true, false, not, ◌&&◌, ◌||◌, Option, none, some, List, [], ◌∷◌, if◌then◌else◌,
  str_eq,
}
use vcluster_manager.Text.{codes}
use vcluster_manager.Ttl.{velero_ttl_from_short}
use vcluster_manager.Names.{valid_name}
use vcluster_manager.Kube.{
  Reason, resources_provisioned, condition_true, condition_false, type_not_implemented,
  invalid_name, render_failed, apply_failed, applied,
}
use vcluster_manager.VCluster.{
  Error, wrap, join, VCluster, ArgoCdSpec, VeleroSpec, QuotaSpec, FluxCdSpec, VClusterType,
  vcluster, capi, Phase, no_phase, failed, provisioning, with_phase,
}
use vcluster_manager.Reconciler.{
  Reconciler, Exec, rendered, Call, updated_status, ◌>>=◌, ◌>>◌, pure, ask, get_vc, modify,
  set_vcluster_cond,
}
use vcluster_manager.Reconciler.Answers.{CreateRequest}

abbrev pub empty_request : String → CreateRequest
empty_request name = record {
  name = name;
  argocd = false;
  argocd_version = "";
  rbac_groups = [];
  velero_enabled = false;
  velero_hour = "";
  velero_ttl = [];
  no_quotas = false;
  cpu = "";
  memory = "";
  storage = "";
  fluxcd_enabled = false;
  fluxcd_repo_url = "";
  fluxcd_branch = "";
  fluxcd_path = "";
}

abbrev with_argocd : Option ArgoCdSpec → CreateRequest → CreateRequest
with_argocd none req = req
with_argocd (some a) req =
    if a.enabled
    then record req { argocd = true; argocd_version = a.version; rbac_groups = a.rbac_groups }
    else req

abbrev with_velero : Option VeleroSpec → CreateRequest → CreateRequest
with_velero none req = req
with_velero (some v) req =
    if v.enabled
    then record req {
      velero_enabled = true;
      velero_hour = v.hour;
      velero_ttl = velero_ttl_from_short (codes v.ttl);
    }
    else req

-- An absent block means quotas are on.
abbrev with_quotas : Option QuotaSpec → CreateRequest → CreateRequest
with_quotas none req = record req { no_quotas = false }
with_quotas (some q) req = record req {
  no_quotas = not q.enabled;
  cpu = q.cpu;
  memory = q.memory;
  storage = q.storage;
}

abbrev with_fluxcd : Option FluxCdSpec → CreateRequest → CreateRequest
with_fluxcd none req = req
with_fluxcd (some f) req =
    if not (str_eq f.repo_url "")
    then record req {
      fluxcd_enabled = true;
      fluxcd_repo_url = f.repo_url;
      fluxcd_branch = f.branch;
      fluxcd_path = f.path;
    }
    else req

-- createRequestFromCR
unfoldable pub create_request_from_cr : VCluster → CreateRequest
create_request_from_cr vc = with_fluxcd vc.spec.fluxcd (
    with_quotas vc.spec.quotas
      (with_velero vc.spec.velero (with_argocd vc.spec.argocd (empty_request vc.name))))

abbrev is_capi : VClusterType → Bool
is_capi capi = true
is_capi vcluster = false

-- (bool, error) of reconcileProvisioning.
pub data Provisioned : Type 0 where
  provisioned not_provisioned : Provisioned
  provision_error : Error → Provisioned

abbrev starts_provisioning : Phase → Phase
starts_provisioning no_phase = provisioning
starts_provisioning failed = provisioning
starts_provisioning p = p

module _ {W Q O : Type 0} (r : Reconciler W Q O) where
  -- r.Status().Update
  store_status : Exec W (Option Error)
  store_status = do
    vc ← get_vc
    answer ← ask (λ a. updated_status vc a.1) (r.ops.update_status vc)
    modify (λ _. answer.0)
    pure answer.1

  -- provisionFailed writes the status itself.
  unfoldable pub provision_failed : Reason → Error → Exec W Provisioned
  unfolding store_status
  provision_failed why cause = do
    set_vcluster_cond r resources_provisioned condition_false why
    stored ← store_status
    elim stored [
      | some e ↦ pure (provision_error (join cause e))
      | none ↦ pure (provision_error cause)
    ]

  -- Refused for what the spec says.
  unfoldable pub refuse_spec : Reason → Exec W Provisioned
  refuse_spec why = do
    modify (with_phase failed)
    set_vcluster_cond r resources_provisioned condition_false why
    pure not_provisioned

  -- The loop over the objects.
  unfoldable pub apply_all : List O → Exec W Provisioned
  apply_all [] = do
    modify (λ vc. with_phase (starts_provisioning vc.status.phase) vc)
    set_vcluster_cond r resources_provisioned condition_true applied
    pure provisioned
  apply_all (o ∷ os) = do
    err ← ask Call.applied (r.ops.apply o)
    elim err [ some e ↦ provision_failed apply_failed (wrap "application" e) | none ↦ apply_all os ]

  unfoldable pub reconcile_provisioning : Exec W Provisioned
  reconcile_provisioning = do
    vc ← get_vc
    if is_capi vc.spec.vcluster_type
        then refuse_spec type_not_implemented
        else (if not (valid_name (codes vc.name)) then refuse_spec invalid_name else (do
          answer ←
              ask (λ a. rendered a.1)
                (r.ops.render_vcluster_substitutions (create_request_from_cr vc) r.cell
                  vc.spec.k8s_version)
          elim answer.1 [ some e ↦ provision_failed render_failed e | none ↦ apply_all answer.0 ]))
