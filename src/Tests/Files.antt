-- ===== src/Tests/Files.antt =====
-- A kustomization.yaml with one vcluster, and a client of GitLab that fails once before it answers.
use vcluster_manager.Prelude.{
  ℕ, suc, ◌≤◌, String, ◌≡◌, refl, true, false, ◌||◌, Option, none, some, List, [], ◌∷◌, length,
  is_some, arith, ◌==◌, if◌then◌else◌,
}
use vcluster_manager.Text.{codes, split_on, same_text, trim_space}
use vcluster_manager.Names.{
  valid_name, is_reserved, matches_name_regex, all_name_chars, is_name_char, is_letter,
}
use vcluster_manager.Names.Laws.{same_text_refl}
use vcluster_manager.VCluster.{other}
use vcluster_manager.Cluster.{returned}
use vcluster_manager.Gitops.Kustomization.{mentions_vcluster, is_entry, entry, update_kustomization}
use vcluster_manager.Gitops.Kustomization.Laws.{lists, takes_entry, listed_after_update}
use vcluster_manager.Gitops.Kustomization.RoundTrip.{removed_again}
use vcluster_manager.Gitlab.{
  Attempt, succeeded, failed, TreeNode, GitlabApi, Trial, with_retry, list_pages, list_files,
}
use vcluster_manager.Gitlab.Retry.{is_settled, retry_settles}
use vcluster_manager.Gitlab.Pages.{goes_on_to, listing_ends}
use vcluster_manager.Gitlab.Cached.{same_listing_again}

abbrev listing : List ℕ
listing = codes "resources:\n  - ./vclusters/demo\n"

demo_valid : valid_name (codes "demo") ≡ true
unfolding valid_name is_reserved matches_name_regex is_letter all_name_chars is_name_char
demo_valid = refl

shop_valid : valid_name (codes "shop") ≡ true
unfolding valid_name is_reserved matches_name_regex is_letter all_name_chars is_name_char
shop_valid = refl

listing_open : takes_entry listing ≡ true
unfolding split_on mentions_vcluster
listing_open = refl

shop_absent : lists listing (codes "shop") ≡ false
unfolding split_on is_entry same_text trim_space codes entry
shop_absent = refl

listed_after_update_example :
    lists (update_kustomization listing (codes "shop") true) (codes "demo")
    ≡ (same_text (codes "demo") (codes "shop") || lists listing (codes "demo"))
listed_after_update_example =
    listed_after_update listing (codes "shop") (codes "demo") true shop_valid demo_valid
      listing_open

removed_again_example :
    update_kustomization (update_kustomization listing (codes "shop") true) (codes "shop") false
    ≡ listing
removed_again_example = removed_again (codes "shop") listing shop_valid listing_open shop_absent

-- The world is the number of calls, and what the cache has.
abbrev World : Type 0
World = ℕ × Option (List ℕ × List ℕ)

abbrev one_file : TreeNode
one_file = record { is_blob = true; path = b'a' ∷ [] }

abbrev found_in : List ℕ → Option (List ℕ × List ℕ) → Option (List ℕ)
found_in key none = none
found_in key (some (k, v)) = if same_text k key then some v else none

-- The first call fails for a while; the files stand on the pages 0 and 1.
abbrev forge : GitlabApi World
forge = record {
  list_tree = λ branch path page w. (
    if w.0 == 0
        then failed (some 503) (other "busy")
        else succeeded (one_file ∷ [], if page == 0 then 1 else 0),
    (suc w.0, w.1),
  );
  get_raw_file = λ branch path w. (succeeded [], (suc w.0, w.1));
  create_commit = λ branch actions w. (succeeded tt, (suc w.0, w.1));
  open_merge_requests = λ source target w. (returned [], w);
  create_merge_request = λ source target w. (returned "https://gitlab/mr/1", w);
  decode_base64 = λ text. returned text;
  wait = λ seconds w. (none, w);
  cache_get = λ key w. (found_in key w.1, w);
  cache_set = λ key v w. (w.0, some (key, v));
  cache_purge = λ w. (w.0, none);
}

abbrev fresh_start : Trial World
fresh_start = record { world = (0, none); tries = []; waited = 0; is_cut = false }

abbrev list_first : World → Attempt (List TreeNode × ℕ) × World
list_first = forge.list_tree "preprod" [] 0

retry_settles_example :
    (is_settled
        (with_retry forge list_first fresh_start).0
        (with_retry forge list_first fresh_start).1.is_cut
        (with_retry forge list_first fresh_start).1.tries
      ≡ true)
    × (length (with_retry forge list_first fresh_start).1.tries ≤ 3)
    × ((with_retry forge list_first fresh_start).1.waited ≤ 7)
retry_settles_example = retry_settles forge list_first fresh_start refl refl refl

numbered :
    (branch : String) (path : List ℕ) (page : ℕ) (w : World) (found : List TreeNode × ℕ)
    → (forge.list_tree branch path page w).0 ≡ succeeded found
    → goes_on_to 1 page found ≡ true
numbered branch path page w found h = ground arith

listing_ends_example : is_some (list_files forge 2 "preprod" [] fresh_start).0 ≡ true
listing_ends_example = listing_ends forge 1 numbered "preprod" [] 2 fresh_start (omega arith)

abbrev two_files : List (List ℕ)
two_files = (b'a' ∷ []) ∷ (b'a' ∷ []) ∷ []

both_listed : (list_files forge 2 "preprod" [] fresh_start).0 ≡ some (returned two_files)
unfolding list_files list_pages
both_listed = refl

keeps_last :
    (key v : List ℕ) (w : World) → (forge.cache_get key (forge.cache_set key v w)).0 ≡ some v
keeps_last key v w = ground (arith, same_text_refl key)

same_listing_again_example :
    let t' = (list_files forge 2 "preprod" [] fresh_start).1 in
    ((list_files forge 0 "preprod" [] t').0 ≡ some (returned two_files))
    × ((list_files forge 0 "preprod" [] t').1.tries ≡ t'.tries)
same_listing_again_example =
    same_listing_again forge 2 0 "preprod" [] two_files fresh_start keeps_last refl refl refl
      both_listed
