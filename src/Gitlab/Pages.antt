-- ===== src/Gitlab/Pages.antt =====
-- The end of a listing.
use vcluster_manager.Prelude.{
  ℕ, zero, suc, ◌+◌, ◌≤◌, ◌<◌, String, ◌≡◌, Bool, true, ◌&&◌, ◌||◌, is_some, List, [], arith, ltb,
  leb, ◌==◌,
}
use vcluster_manager.Gitlab.{succeeded, TreeNode, GitlabApi, Trial, list_pages, list_files}
use vcluster_manager.Gitlab.Retry.{returned_tested}

-- A page's answer goes on to a later page up to the last, or ends.
abbrev pub goes_on_to : ℕ → ℕ → List TreeNode × ℕ → Bool
goes_on_to last page found = found.1 == 0 || ltb page found.1 && leb found.1 last

abbrev pub Numbered : {W : Type 0} → GitlabApi W → ℕ → Type 0
Numbered {W} api last =
    (branch : String) (path : List ℕ) (page : ℕ) (w : W) (found : List TreeNode × ℕ)
    → (api.list_tree branch path page w).0 ≡ succeeded found
    → goes_on_to last page found ≡ true

module _ {W : Type 0} (api : GitlabApi W) (last : ℕ) (numbered : Numbered api last) where
  pages_end :
      (branch : String) (path : List ℕ) (fuel page : ℕ) (nodes : List TreeNode) (t : Trial W)
      → page ≤ last
      → last < fuel + page
      → is_some (list_pages api branch path fuel page nodes t).0 ≡ true
  unfolding list_pages
  pages_end branch path zero page nodes t h k = absurd (omega arith)
  pages_end branch path (suc fuel) page nodes t h k =
      let later = λ (found : List TreeNode × ℕ).
        returned_tested api (goes_on_to last page) (api.list_tree branch path page) t found
          (numbered branch path page) in
      grind (arith, later, pages_end branch path fuel)

  -- A listing comes to an end: where the pages that GitLab sends a client on to have higher and higher
  -- numbers up to a last one, one more round than that number is enough, whatever fails on the way.
  pub listing_ends :
      (branch : String) (path : List ℕ) (fuel : ℕ) (t : Trial W)
      → last < fuel
      → is_some (list_files api fuel branch path t).0 ≡ true
  unfolding list_files
  listing_ends branch path fuel t h =
      grind (arith, λ (u : Trial W). pages_end branch path fuel 0 [] u (omega arith) (omega arith))
