-- ===== src/Gitops.antt =====
-- The repository of Flux (fluxprod), internal/gitops: its two branches, the actions of a commit and
-- the files that are generated for it. A path and the content of a file are lists of code points;
-- commit messages are prose and left out.
pub mod Kustomization
use vcluster_manager.Prelude.{ℕ, String, List}

-- SourceBranch: every write goes there.
abbrev pub source_branch : String
source_branch = "preprod"

-- DeployedBranch: only read.
abbrev pub deployed_branch : String
deployed_branch = "master"

pub data ActionKind : Type 0 where
  create update delete : ActionKind

pub record CommitAction : Type 0 where
  pub kind : ActionKind
  pub path : List ℕ
  pub content : List ℕ

pub record GeneratedFile : Type 0 where
  pub path : List ℕ
  pub content : List ℕ
