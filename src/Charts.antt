-- ===== src/Charts.antt =====
-- The version bumps of internal/helmcharts/updater.go: UpdateChart and UpdateK8sVersion, with
-- CreateMergeRequest and ListOpenMergeRequests of internal/gitops/gitlab.go. GitLab, yaml.v3 and the
-- text of a Chart.lock, with its digest and date, are parameters. Calls that change something are
-- logged, the latest first.
pub mod Yaml
pub mod Laws
use Prim.Native.String
use Prim.Native.String.{◌++◌ as append}
use Prim.Native.Char.{code}
use vcluster_manager.Prelude.{
  ℕ, String, Bool, true, false, Option, none, some, List, [], ◌∷◌, ◌++◌, ◌==◌, str_eq,
  if◌then◌else◌,
}
use vcluster_manager.Text.{codes}
use vcluster_manager.VCluster.{Error, wrap, other}
use vcluster_manager.Cluster.{Result, returned, raised}
use vcluster_manager.Gitops.{
  source_branch, deployed_branch, ActionKind, create, update, CommitAction,
}
use vcluster_manager.Gitops.Kustomization.{has_part}
use vcluster_manager.Budget.{has_prefix}
use vcluster_manager.Fluxprod.{is_empty}
use vcluster_manager.Charts.Yaml.{Node, set_yaml_node_value, set_dependency_version}

-- gitlab.BasicMergeRequest, the parts that are read.
pub record MergeRequest : Type 0 where
  pub title : List ℕ
  pub web_url : String
  pub from_branch : String

-- The repository of the charts, with the readers and the printer of YAML. D is a dependency.
pub record ChartRepo (W D : Type 0) : Type 0 where
  pub chart_path : List ℕ
  pub get_file : String → List ℕ → W → Result (List ℕ) × W
  pub commit : String → List CommitAction → W → Option Error × W
  pub open_requests : String → W → Result (List MergeRequest) × W
  pub create_request : String → String → List ℕ → Bool → W → Result String × W
  pub parse_yaml : List ℕ → Result Node
  pub print_yaml : Node → Result (List ℕ)
  pub chart_version : List ℕ → Result String
  pub default_tag : List ℕ → Result String
  pub dependencies : Node → Result (List D)
  pub lock_content : List D → W → Result (List ℕ) × W

-- A call that changes something: a commit, or a merge request, with whether its branch is to go.
pub data Call : Type 0 where
  commits : String → List CommitAction → Option Error → Call
  opens_request : String → String → Bool → Call

pub record Bumping (W : Type 0) : Type 0 where
  pub world : W
  pub calls : List Call

pub record UpdateResult : Type 0 where
  pub already_applied : Bool
  pub mr_url : String
  pub mr_err : Option Error

abbrev pub Bump : Type 0 → Type 0 → Type 0
Bump W A = Bumping W → A × Bumping W

infixl 10 ◌>>=◌
abbrev pub ◌>>=◌ : {W A B : Type 0} → Bump W A → (A → Bump W B) → Bump W B
◌>>=◌ m f s = let (a, s') = m s in f a s'

abbrev pub pure : {W A : Type 0} → A → Bump W A
pure a s = (a, s)

abbrev pub see : {W A : Type 0} → (W → A × W) → Bump W A
see f s = ((f s.world).0, record s { world = (f s.world).1 })

abbrev pub act : {W A : Type 0} → (A → Call) → (W → A × W) → Bump W A
act log f s =
    ((f s.world).0, record s { world = (f s.world).1; calls = log (f s.world).0 ∷ s.calls })

-- What a result goes on to; an error is wrapped.
abbrev pub on_success :
    {W A B : Type 0} → String → Result A → (A → Bump W (Result B)) → Bump W (Result B)
on_success what (raised e) f = pure (raised (wrap what e))
on_success what (returned a) f = f a

-- trimV
abbrev pub trim_v : String → String
trim_v String.[] = String.[]
trim_v (String.◌∷◌ c s) = if code c == b'v' then s else String.◌∷◌ c s

-- The first request with the words in its title.
abbrev pub first_titled : List ℕ → List MergeRequest → Option String
first_titled words [] = none
first_titled words (r ∷ rs) =
    let rest = first_titled words rs in if has_part words r.title then some r.web_url else rest

-- ListOpenMergeRequests: an empty prefix takes them all.
abbrev pub from_prefix : List ℕ → List MergeRequest → List MergeRequest
from_prefix prefix [] = []
from_prefix prefix (r ∷ rs) =
    let rest = from_prefix prefix rs in
    if has_prefix (codes r.from_branch) prefix then r ∷ rest else rest

-- An edit that finds nothing leaves the tree.
abbrev pub or_same : Node → Option Node → Node
or_same n none = n
or_same n (some m) = m

abbrev pub tag_path : List String
tag_path = "vcluster" ∷ "controlPlane" ∷ "distro" ∷ "k8s" ∷ "image" ∷ "tag" ∷ []

-- The three places of a chart that carry its version.
abbrev pub bump_chart : String → Node → Node
bump_chart semver n =
    let versioned = or_same n (set_yaml_node_value n ("version" ∷ []) semver) in
    let released = or_same versioned (set_yaml_node_value versioned ("appVersion" ∷ []) semver) in
    or_same released (set_dependency_version released "vcluster" semver)

module _ {W D : Type 0} (r : ChartRepo W D) where
  abbrev pub chart_file : List ℕ
  chart_file = r.chart_path ++ codes "/Chart.yaml"

  abbrev pub lock_file : List ℕ
  lock_file = r.chart_path ++ codes "/Chart.lock"

  abbrev pub values_file : List ℕ
  values_file = r.chart_path ++ codes "/values.yaml"

  unfoldable pub get_current_chart_version : String → Bump W (Result String)
  get_current_chart_version branch = do
    content ← see (r.get_file branch chart_file)
    on_success "reading Chart.yaml" content
        (λ text. on_success "parsing Chart.yaml" (r.chart_version text) (λ v. pure (returned v)))

  unfoldable pub get_default_k8s_version : String → Bump W (Result String)
  get_default_k8s_version branch = do
    content ← see (r.get_file branch values_file)
    on_success "reading values.yaml" content
        (λ text. on_success "parsing values.yaml" (r.default_tag text) (λ v. pure (returned v)))

  unfoldable pub build_chart_version_actions :
      String → String → Bump W (Result (List CommitAction × List D))
  build_chart_version_actions branch semver = do
    content ← see (r.get_file branch chart_file)
    on_success (append "reading Chart.yaml on " branch) content (λ text.
        on_success "parsing Chart.yaml" (r.parse_yaml text) (λ doc.
          on_success "decoding updated dependencies" (r.dependencies (bump_chart semver doc))
            (λ deps.
              on_success "marshaling Chart.yaml" (r.print_yaml (bump_chart semver doc)) (λ out.
                pure (
                  returned
                    (record { kind = update; path = chart_file; content = out } ∷ [], deps))))))

  abbrev lock_kind : Result (List ℕ) → ActionKind
  lock_kind (returned _) = update
  lock_kind (raised _) = create

  unfoldable pub build_chart_lock_action : String → List D → Bump W (Result CommitAction)
  build_chart_lock_action branch deps = do
    lock ← see (r.lock_content deps)
    elim lock [
      | raised e ↦ pure (raised e)
      | returned text ↦ (do
        there ← see (r.get_file branch lock_file)
        pure (returned (record { kind = lock_kind there; path = lock_file; content = text })))
    ]

  unfoldable pub build_k8s_version_actions : String → String → Bump W (Result (List CommitAction))
  build_k8s_version_actions branch version = do
    content ← see (r.get_file branch values_file)
    on_success (append "reading values.yaml on " branch) content (λ text.
        on_success "parsing values.yaml" (r.parse_yaml text) (λ doc.
          elim (set_yaml_node_value doc tag_path version) [
            | none ↦ pure (
                raised (
                  other "could not find vcluster.controlPlane.distro.k8s.image.tag in values.yaml"))
            | some doc' ↦ on_success "marshaling values.yaml" (r.print_yaml doc') (λ out.
                pure (returned (record { kind = update; path = values_file; content = out } ∷ [])))
          ]))

  -- GetPendingChartMR and GetPendingK8sMR, by the words that they look for.
  unfoldable pub get_pending : List ℕ → Bump W (Option String)
  get_pending words = do
    listed ← see (r.open_requests deployed_branch)
    elim listed [
      | raised e ↦ pure none
      | returned rs ↦ pure (first_titled words (from_prefix (codes source_branch) rs))
    ]

  -- CreateMergeRequest: the branch that it merges is to be removed.
  unfoldable pub create_merge_request : String → String → List ℕ → Bump W (Result String)
  create_merge_request source target title =
      act (λ _. opens_request source target true) (r.create_request source target title true)

  -- The request for prod, unless one is pending.
  unfoldable pub ask_for_prod : Bool → List ℕ → List ℕ → Bump W (Result UpdateResult)
  unfolding get_pending create_merge_request
  ask_for_prod applied words title = do
    pending ← get_pending words
    elim pending [
      | some url ↦
          pure (returned (record { already_applied = applied; mr_url = url; mr_err = none }))
      | none ↦ (do
        opened ← create_merge_request "preprod" "master" title
        elim opened [
          | raised e ↦ pure (
              returned (record {
                already_applied = applied;
                mr_url = "";
                mr_err = some (wrap "creating merge request" e);
              }))
          | returned url ↦
              pure (returned (record { already_applied = applied; mr_url = url; mr_err = none }))
        ])
    ]

  unfoldable pub commit_bump : List CommitAction → Bump W (Result (Unit {0}))
  commit_bump actions = do
    err ← act (commits source_branch actions) (r.commit source_branch actions)
    elim err [ some e ↦ pure (raised (wrap "committing to preprod" e)) | none ↦ pure (returned tt) ]

  -- Chart.lock goes with Chart.yaml where there are dependencies.
  unfoldable pub with_lock : List CommitAction → List D → Bump W (Result (List CommitAction))
  unfolding build_chart_lock_action
  with_lock actions deps = if is_empty deps then pure (returned actions) else (do
    lock ← build_chart_lock_action source_branch deps
    on_success "building Chart.lock" lock (λ action. pure (returned (actions ++ action ∷ []))))

  unfoldable pub commit_chart : String → Bump W (Result (Unit {0}))
  unfolding build_chart_version_actions with_lock commit_bump
  commit_chart semver = do
    built ← build_chart_version_actions source_branch semver
    on_success "building actions" built (λ found. (do
      all ← with_lock found.0 found.1
      elim all [ raised e ↦ pure (raised e) | returned actions ↦ commit_bump actions ]))

  unfoldable pub commit_k8s_version : String → Bump W (Result (Unit {0}))
  unfolding build_k8s_version_actions commit_bump
  commit_k8s_version version = do
    built ← build_k8s_version_actions source_branch version
    on_success "building actions" built (λ actions. commit_bump actions)

  -- A commit unless the version is there, then the request.
  abbrev pub bump_to :
      Bool → Bump W (Result (Unit {0})) → List ℕ → List ℕ → Bump W (Result UpdateResult)
  bump_to applied bump words title = if applied then ask_for_prod true words title else (do
    done ← bump
    elim done [ raised e ↦ pure (raised e) | returned _ ↦ ask_for_prod false words title ])

  unfoldable pub update_chart : String → Bump W (Result UpdateResult)
  unfolding get_current_chart_version commit_chart ask_for_prod
  update_chart tag = do
    current ← get_current_chart_version source_branch
    on_success "reading current chart version" current (λ v.
        bump_to (str_eq v (trim_v tag)) (commit_chart (trim_v tag)) (codes "update vcluster chart")
          (codes "feat: update vcluster chart to " ++ codes tag))

  unfoldable pub update_k8s_version : String → Bump W (Result UpdateResult)
  unfolding get_default_k8s_version commit_k8s_version ask_for_prod
  update_k8s_version version = do
    current ← get_default_k8s_version source_branch
    on_success "reading current K8s version" current (λ v.
        bump_to (str_eq v version) (commit_k8s_version version) (codes "update default K8s version")
          (codes "feat: update default K8s version to " ++ codes version))
