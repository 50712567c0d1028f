-- ===== src/Fluxprod.antt =====
-- The service that declares vclusters in the repository of Flux: what internal/service (vcluster.go,
-- settings.go) calls of GitLab, the parser, the generator, Keycloak and Vault, which are interfaces,
-- and the steps that its requests share. Calls that change something, and the reading of the
-- protection, are logged, the latest first. The audit and the log of the process are output only.
pub mod Fields
pub mod Create
pub mod Delete
pub mod Form
pub mod Settings
pub mod Branch
pub mod Checked
pub mod Retention
pub mod Deleting
use vcluster_manager.Prelude.{
  ℕ, String, Bool, true, false, not, ◌&&◌, ◌||◌, Option, none, some, List, [], ◌∷◌, ◌++◌, any, map,
  str_eq, if◌then◌else◌,
}
use vcluster_manager.Text.{codes, same_text, split_on}
use vcluster_manager.Names.{trim_prefix}
use vcluster_manager.VCluster.{Error, wrap}
use vcluster_manager.Reconciler.Answers.{CreateRequest, EffectiveQuota}
use vcluster_manager.Cluster.{Result, returned, raised}
use vcluster_manager.Gitops.{source_branch, create, update, delete, CommitAction, GeneratedFile}
use vcluster_manager.Gitops.Kustomization.{update_kustomization}
use vcluster_manager.Teardown.{
  RancherClient, HostClient, Deed, committed, asked_merge, OfficeRun, Act, ◌>>=◌, pure, ask,
}

-- models.VCluster, the parts that these services read.
pub record ParsedVCluster : Type 0 where
  pub argocd : Bool
  pub flux_enabled : Bool
  pub flux_repo_url : String
  pub flux_branch : String
  pub flux_path : String

-- keycloak.Client
pub record KeycloakClient (W : Type 0) : Type 0 where
  pub create_argocd_clients : String → String → W → Option Error × W
  pub delete_argocd_clients : String → W → Option Error × W

-- gitops.GitLabClient on the repository of Flux and on those of the applications: what the creation of
-- one of the latter does in it, its first commit to its master included, is behind that one call.
pub record GitlabClient (W : Type 0) : Type 0 where
  pub list_files : String → List ℕ → W → Result (List (List ℕ)) × W
  pub get_file : String → List ℕ → W → Result (List ℕ) × W
  pub commit : String → List CommitAction → W → Option Error × W
  pub get_or_create_merge_request : String → String → W → Result String × W
  pub create_app_manifests_repo : String → W → Option Error × W
  pub app_manifests_repo_exists : String → W → Bool × W
  pub delete_project : String → W → Option Error × W

-- gitops.Generator: the files of a vcluster in an environment, and the single files of an update.
pub record Generator : Type 0 where
  pub generate_vcluster : CreateRequest → String → List GeneratedFile
  pub values_file : CreateRequest → String → String → GeneratedFile
  pub rbac_file : String → String → List String → GeneratedFile
  pub argocd_overlay : String → String → String → GeneratedFile
  pub flux_overlay : String → String → String → String → String → GeneratedFile

-- service.Service with the parts of its configuration that are read here.
pub record Workshop (W : Type 0) : Type 0 where
  pub gitlab : GitlabClient W
  pub generator : Generator
  pub parse_vcluster : String → String → W → Result ParsedVCluster × W
  pub parser_branch : String
  pub effective_quotas : CreateRequest → String → Option EffectiveQuota
  pub k8s_for_env : String → Option (HostClient W)
  pub rancher : Option (RancherClient W)
  pub rancher_enabled_for_env : String → Bool
  pub keycloak : Option (KeycloakClient W)
  pub disable_auth : Option (String → W → Option Error × W)
  pub clusters_path : List ℕ

-- What a request is refused with.
pub data Refusal : Type 0 where
  forbidden invalid_name generator_unavailable unreadable_quota quota_below_floor : Refusal
  invalid_rbac_group : List ℕ → Refusal
  invalid_field : String → Refusal
  already_exists_in : String → Refusal
  cleaning_in : String → Refusal
  unpair_failed : Error → Refusal
  commit_failed : Error → Refusal
  vcluster_not_found : Error → Refusal

-- A value, or a refusal.
pub data Reply {ℓ} (A : Type ℓ) : Type ℓ where
  accepted : A → Reply A
  rejected : Refusal → Reply A

-- A call that only reads.
abbrev pub look : {W A : Type 0} → (W → A × W) → Act W A
look f s = ((f s.world).0, record s { world = (f s.world).1 })

-- What "%s/%s/vclusters/%s" gives.
abbrev pub vcluster_path : List ℕ → String → String → List ℕ
vcluster_path base env name = base ++ b'/' ∷ codes env ++ codes "/vclusters/" ++ codes name

abbrev pub create_action : GeneratedFile → CommitAction
create_action f = record { kind = create; path = f.path; content = f.content }

abbrev pub update_action : GeneratedFile → CommitAction
update_action f = record { kind = update; path = f.path; content = f.content }

abbrev pub delete_action : List ℕ → CommitAction
delete_action path = record { kind = delete; path = path; content = [] }

-- A list that could not be read is taken for an empty one.
abbrev pub files_of : Result (List (List ℕ)) → List (List ℕ)
files_of (returned fs) = fs
files_of (raised _) = []

abbrev folder_of : List ℕ × List (List ℕ) → Option (List ℕ)
folder_of (first, []) = none
folder_of (first, _ ∷ _) = some first

-- strings.SplitN(file, "/", 2) after the prefix: the first part, where there is a second one.
unfoldable pub first_folder : List ℕ → List ℕ → Option (List ℕ)
unfolding split_on trim_prefix
first_folder prefix file = folder_of (split_on b'/' (trim_prefix file prefix))

-- The folders of the files, each once.
unfoldable pub names_in : List ℕ → List (List ℕ) → List (List ℕ) → List (List ℕ)
unfolding first_folder
names_in prefix seen [] = []
names_in prefix seen (f ∷ fs) = elim (first_folder prefix f) [
  | none ↦ names_in prefix seen fs
  | some n ↦ elim (any (same_text n) seen) [
    | true ↦ names_in prefix seen fs
    | false ↦ n ∷ names_in prefix (n ∷ seen) fs
  ]
]

abbrev pub is_empty {ℓ} : {A : Type ℓ} → List A → Bool
is_empty [] = true
is_empty (_ ∷ _) = false

module _ {W : Type 0} (o : Workshop W) where
  -- kustomizationAction: nothing where the file cannot be read.
  unfoldable pub kustomization_action : String → String → String → Bool → Act W (List CommitAction)
  kustomization_action env branch name add = do
    let path = o.clusters_path ++ b'/' ∷ codes env ++ codes "/kustomization.yaml"
    content ← look (o.gitlab.get_file branch path)
    elim content [
      | raised e ↦ pure []
      | returned text ↦ pure (
          record {
            kind = update;
            path = path;
            content = update_kustomization text (codes name) add;
          }
          ∷ [])
    ]

  -- One commit to a branch.
  unfoldable pub commit_to : String → List CommitAction → Act W (Option Error)
  commit_to branch actions = ask (committed branch actions) (o.gitlab.commit branch actions)

  -- commitProdMRActions
  unfoldable pub commit_prod_mr_actions : List CommitAction → Act W (Result String)
  unfolding commit_to
  commit_prod_mr_actions actions = do
    err ← commit_to source_branch actions
    elim err [
      | some e ↦ pure (raised (wrap "committing to preprod" e))
      | none ↦
          ask (λ _. asked_merge "preprod" "master")
            (o.gitlab.get_or_create_merge_request "preprod" "master")
    ]

  -- ListVClusterNamesOnBranch
  unfoldable pub list_vcluster_names_on_branch : String → String → Act W (List (List ℕ))
  list_vcluster_names_on_branch branch env = do
    let path = codes "clusters/" ++ codes env ++ codes "/vclusters"
    files ← look (o.gitlab.list_files branch path)
    pure (names_in (path ++ b'/' ∷ []) [] (files_of files))

  unfoldable pub is_pending_prod : String → Act W Bool
  is_pending_prod name = do
    names ← list_vcluster_names_on_branch "master" "prod"
    pure (not (any (same_text (codes name)) names))

  -- Parser.Exists
  unfoldable pub exists : String → String → Act W Bool
  exists env name = do
    files ← look (o.gitlab.list_files o.parser_branch (vcluster_path (codes "clusters") env name))
    pure (not (is_empty (files_of files)))
