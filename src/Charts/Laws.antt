-- ===== src/Charts/Laws.antt =====
-- What the bumps of the versions commit, and what their merge requests ask for.
use vcluster_manager.Prelude.{ℕ, String, ◌≡◌, Bool, true, false, ◌&&◌, List, [], any, arith, str_eq}
use vcluster_manager.Cluster.{Result, returned, raised}
use vcluster_manager.Gitops.{source_branch, deployed_branch}
use vcluster_manager.Charts.{
  ChartRepo, Call, opens_request, Bumping, UpdateResult, Bump, get_default_k8s_version,
  get_current_chart_version, get_pending, create_merge_request, ask_for_prod, commit_k8s_version,
  commit_chart, bump_to, update_chart, on_success, trim_v, update_k8s_version,
}

-- A request to merge preprod into master and to remove preprod then.
abbrev pub removes_preprod : Call → Bool
removes_preprod (opens_request source target removes) =
    str_eq source "preprod" && str_eq target "master" && removes
removes_preprod _ = false

abbrev pub has_answer : {A : Type 0} → Result A → Bool
has_answer (returned _) = true
has_answer (raised _) = false

-- The two updates.
pub data VersionUpdate : Type 0 where
  of_chart of_k8s : String → VersionUpdate

abbrev pub update_version :
    {W D : Type 0} → ChartRepo W D → VersionUpdate → Bump W (Result UpdateResult)
update_version r (of_chart tag) = update_chart r tag
update_version r (of_k8s version) = update_k8s_version r version

abbrev Asks : {W : Type 0} → Bump W (Result UpdateResult) → Bumping W → Type 0
Asks m s = has_answer (m s).0 ≡ true → any removes_preprod (m s).1.calls ≡ true

module _ {W D : Type 0} (r : ChartRepo W D) where
  asks_removal :
      (applied : Bool) (words title : List ℕ) (s : Bumping W)
      → ((w : W) → (r.open_requests deployed_branch w).0 ≡ returned [])
      → any removes_preprod (ask_for_prod r applied words title s).1.calls ≡ true
  unfolding ask_for_prod get_pending create_merge_request
  asks_removal applied words title s h = ground (arith, h s.world)

  bump_asks_removal :
      (applied : Bool) (m : Bump W (Result (Unit {0}))) (words title : List ℕ) (s : Bumping W)
      → ((w : W) → (r.open_requests deployed_branch w).0 ≡ returned [])
      → has_answer (bump_to r applied m words title s).0 ≡ true
      → any removes_preprod (bump_to r applied m words title s).1.calls ≡ true
  bump_asks_removal true m words title s h e = asks_removal true words title s h
  bump_asks_removal false m words title s h e =
      grind (arith, e, asks_removal false words title (m s).1 h)

  -- What holds of every way on from a value holds where it was read.
  read_first :
      (what : String) (v : Result String) (k : String → Bump W (Result UpdateResult))
      (s : Bumping W)
      → ((a : String) → Asks (k a) s)
      → Asks (on_success what v k) s
  read_first what (returned a) k s h e = h a e
  read_first what (raised x) k s h e = absurd cc

  -- A version update that goes through with no merge request pending has asked GitLab to merge
  -- preprod into master, and to remove preprod when that is done.
  pub merge_removes_preprod :
      (u : VersionUpdate) (s : Bumping W)
      → ((w : W) → (r.open_requests deployed_branch w).0 ≡ returned [])
      → has_answer (update_version r u s).0 ≡ true
      → any removes_preprod (update_version r u s).1.calls ≡ true
  unfolding update_chart update_k8s_version
  merge_removes_preprod (of_chart tag) s h e =
      read_first "reading current chart version" (get_current_chart_version r source_branch s).0 _
        (get_current_chart_version r source_branch s).1
        (λ v. bump_asks_removal (str_eq v (trim_v tag)) (commit_chart r (trim_v tag)) _ _ _ h) e
  merge_removes_preprod (of_k8s version) s h e =
      read_first "reading current K8s version" (get_default_k8s_version r source_branch s).0 _
        (get_default_k8s_version r source_branch s).1
        (λ v. bump_asks_removal (str_eq v version) (commit_k8s_version r version) _ _ _ h) e
