-- ===== src/Gitlab/Cached.antt =====
-- What the cache of GitLab's client gives back.
use vcluster_manager.Prelude.{
  ℕ, String, ◌≡◌, ◌∙◌, ap, refl, Bool, true, false, not, ◌&&◌, Option, none, some, List, [], ◌∷◌,
  arith,
}
use vcluster_manager.Cluster.{Result, returned, raised}
use vcluster_manager.Policy.{is_blank}
use vcluster_manager.Gitops.{CommitAction}
use vcluster_manager.Gitops.Kustomization.{join_lines}
use vcluster_manager.Gitops.Kustomization.Lines.{are_lines, lines_of-join_lines}
use vcluster_manager.Gitlab.{
  TreeNode, GitlabApi, Trial, unjoined, list_key, file_key, keep_list, list_pages, list_files,
  get_file, commit, retry_from, with_retry,
}
use vcluster_manager.Fluxprod.{is_empty}

-- The paths of a repository: lines that are not blank.
abbrev pub are_paths : List (List ℕ) → Bool
are_paths [] = true
are_paths (p ∷ ps) = not (is_blank p) && are_paths ps

-- Paths that are joined for the cache are taken apart again.
unjoined_lem :
    (ps : List (List ℕ)) → are_lines ps ≡ true → are_paths ps ≡ true → unjoined (join_lines ps) ≡ ps
unjoined_lem [] l p = refl
unjoined_lem ([] ∷ ps) l p = absurd cc
unjoined_lem ((c ∷ cs) ∷ []) l p = lines_of-join_lines (c ∷ cs) [] l
unjoined_lem ((c ∷ cs) ∷ q ∷ ps) l p = lines_of-join_lines (c ∷ cs) (q ∷ ps) l

module _ {W : Type 0} (api : GitlabApi W) where
  -- The cache gives back what was put into it last, and nothing once it is emptied.
  abbrev pub IsFresh : Type 0
  IsFresh = (key v : List ℕ) (w : W) → (api.cache_get key (api.cache_set key v w)).0 ≡ some v

  abbrev pub IsPurged : Type 0
  IsPurged = (key : List ℕ) (w : W) → (api.cache_get key (api.cache_purge w)).0 ≡ none

  abbrev pub cached : List ℕ → Trial W → Option (List ℕ)
  cached key t = (api.cache_get key t.world).0

  kept :
      (branch : String) (path : List ℕ) (ps : List (List ℕ))
      (p : Option (Result (List TreeNode)) × Trial W)
      → IsFresh
      → (keep_list api branch path p).0 ≡ some (returned ps)
      → cached (list_key branch path) (keep_list api branch path p).1 ≡ some (join_lines ps)
  kept branch path ps (none, t) fresh h = absurd cc
  kept branch path ps (some (raised e), t) fresh h = absurd cc
  kept branch path ps (some (returned nodes), t) fresh h =
      ground (arith, fresh (list_key branch path) (join_lines ps) t.world)

  left_in_cache :
      (fuel : ℕ) (branch : String) (path : List ℕ) (ps : List (List ℕ)) (t : Trial W)
      → IsFresh
      → cached (list_key branch path) t ≡ none
      → (list_files api fuel branch path t).0 ≡ some (returned ps)
      → cached (list_key branch path) (list_files api fuel branch path t).1 ≡ some (join_lines ps)
  unfolding list_files
  left_in_cache fuel branch path ps t fresh c h =
      let p =
        list_pages api branch path fuel 0 []
          (record t { world = (api.cache_get (list_key branch path) t.world).1 }) in
      ground (arith, kept branch path ps p fresh)

  from_cache :
      (fuel : ℕ) (branch : String) (path v : List ℕ) (t : Trial W)
      → cached (list_key branch path) t ≡ some v
      → ((list_files api fuel branch path t).0 ≡ some (returned (unjoined v)))
        × ((list_files api fuel branch path t).1.tries ≡ t.tries)
  unfolding list_files
  from_cache fuel branch path v t c = (ground arith, ground arith)

  -- A listing that follows on one that read GitLab gives the very same paths and calls GitLab no more,
  -- for a cache that still has what was put into it last and for paths that are lines and not blank.
  pub same_listing_again :
      (fuel fuel' : ℕ) (branch : String) (path : List ℕ) (ps : List (List ℕ)) (t : Trial W)
      → IsFresh
      → are_lines ps ≡ true
      → are_paths ps ≡ true
      → cached (list_key branch path) t ≡ none
      → (list_files api fuel branch path t).0 ≡ some (returned ps)
      → (let t' = (list_files api fuel branch path t).1 in
          ((list_files api fuel' branch path t').0 ≡ some (returned ps))
          × ((list_files api fuel' branch path t').1.tries ≡ t'.tries))
  same_listing_again fuel fuel' branch path ps t fresh l q c h =
      let t' = (list_files api fuel branch path t).1 in
      let found = left_in_cache fuel branch path ps t fresh c h in
      let (again, calls) = from_cache fuel' branch path (join_lines ps) t' found in
      (again ∙ ap (λ xs. some (returned xs)) (unjoined_lem ps l q), calls)

  emptied :
      (branch : String) (actions : List CommitAction) (key : List ℕ) (t : Trial W)
      → IsPurged
      → (commit api branch actions t).0 ≡ none
      → cached key (commit api branch actions t).1 ≡ none
  unfolding commit
  emptied branch actions key t purged h =
      let t' = (with_retry api (api.create_commit branch actions) t).1 in
      ground (arith, purged key t'.world)

  read_anew :
      (branch : String) (path : List ℕ) (t : Trial W)
      → cached (file_key branch path) t ≡ none
      → is_empty (get_file api branch path (record t { tries = [] })).1.tries ≡ false
  unfolding get_file with_retry retry_from
  read_anew branch path t c = ground arith

  -- After a commit that went through, the next reading of any file calls GitLab, whatever the cache
  -- had of it before.
  commit_seen :
      (branch branch' : String) (actions : List CommitAction) (path : List ℕ) (t : Trial W)
      → IsPurged
      → (commit api branch actions t).0 ≡ none
      → is_empty
          (get_file api branch' path
            (record (commit api branch actions t).1 { tries = [] })).1.tries
        ≡ false
  commit_seen branch branch' actions path t purged h =
      read_anew branch' path (commit api branch actions t).1
        (emptied branch actions (file_key branch' path) t purged h)
