-- ===== src/Gitlab.antt =====
-- The client of GitLab, internal/gitops/gitlab.go: retries, the pages of a listing, the cache and the
-- commits. The API of GitLab, the cache of samber/hot, base64 and the waits are parameters. A page
-- that is not numbered is page 0, as it is sent.
pub mod Retry
pub mod Pages
pub mod Cached
use vcluster_manager.Prelude.{
  ℕ, zero, suc, ◌+◌, String, Bool, true, false, not, ◌&&◌, Option, none, some, List, [], ◌∷◌, ◌++◌,
  ltb, ◌==◌, str_eq, if◌then◌else◌,
}
use vcluster_manager.Text.{codes}
use vcluster_manager.VCluster.{Error, wrap}
use vcluster_manager.Cluster.{Result, returned, raised}
use vcluster_manager.Gitops.{CommitAction}
use vcluster_manager.Gitops.Kustomization.{lines_of, join_lines}

-- An answer of the API; a network error has no status.
pub data Attempt {ℓ} (A : Type ℓ) : Type ℓ where
  succeeded : A → Attempt A
  failed : Option ℕ → Error → Attempt A

pub record TreeNode : Type 0 where
  pub is_blob : Bool
  pub path : List ℕ

pub record GitlabApi (W : Type 0) : Type 0 where
  pub list_tree : String → List ℕ → ℕ → W → Attempt (List TreeNode × ℕ) × W
  pub get_raw_file : String → List ℕ → W → Attempt (List ℕ) × W
  pub create_commit : String → List CommitAction → W → Attempt (Unit {0}) × W
  pub open_merge_requests : String → String → W → Result (List String) × W
  pub create_merge_request : String → String → W → Result String × W
  pub decode_base64 : List ℕ → Result (List ℕ)
  -- The error of a context that ends during a wait of some seconds.
  pub wait : ℕ → W → Option Error × W
  pub cache_get : List ℕ → W → Option (List ℕ) × W
  pub cache_set : List ℕ → List ℕ → W → W
  pub cache_purge : W → W

-- What became of one call.
pub data Try : Type 0 where
  fine transient permanent : Try

-- A request under way: the calls so far, the latest first, the seconds that were waited, and
-- whether a wait was cut short.
pub record Trial (W : Type 0) : Type 0 where
  pub world : W
  pub tries : List Try
  pub waited : ℕ
  pub is_cut : Bool

-- Any other status than 429 below 500.
abbrev pub is_permanent : Option ℕ → Bool
is_permanent none = false
is_permanent (some status) = not (status == 429) && ltb status 500

abbrev pub try_of {ℓ} : {A : Type ℓ} → Attempt A → Try
try_of (succeeded _) = fine
try_of (failed status _) = if is_permanent status then permanent else transient

abbrev pub blobs : List TreeNode → List (List ℕ)
blobs [] = []
blobs (n ∷ ns) = let rest = blobs ns in if n.is_blob then n.path ∷ rest else rest

abbrev pub list_key : String → List ℕ → List ℕ
list_key branch path = codes "list:" ++ codes branch ++ b':' ∷ path

abbrev pub unjoined : List ℕ → List (List ℕ)
unjoined [] = []
unjoined (c ∷ cs) = lines_of (c ∷ cs)

abbrev pub file_key : String → List ℕ → List ℕ
file_key branch path = codes "get:" ++ codes branch ++ b':' ∷ path

abbrev pub in_world : {W : Type 0} → (W → W) → Trial W → Trial W
in_world f t = record t { world = f t.world }

module _ {W : Type 0} (api : GitlabApi W) where
  abbrev pub call : {A : Type 0} → (W → Attempt A × W) → Trial W → Attempt A × Trial W
  call f t = let (a, w) = f t.world in (a, record t { world = w; tries = try_of a ∷ t.tries })

  -- The wait after a transient failure.
  abbrev pub pause : ℕ → Trial W → Option Error × Trial W
  pause seconds t =
      let (err, w) = api.wait seconds t.world in
      elim err [
        | some e ↦ (some e, record t { world = w; is_cut = true })
        | none ↦ (none, record t { world = w; waited = t.waited + seconds })
      ]

  -- The loop of withRetry from one delay on.
  unfoldable pub retry_from :
      {A : Type 0} → ℕ → List ℕ → (W → Attempt A × W) → Trial W → Result A × Trial W
  retry_from delay [] f t =
      let (a, t') = call f t in
      elim a [ succeeded v ↦ (returned v, t') | failed status e ↦ (raised e, t') ]
  retry_from delay (next ∷ delays) f t =
      let (a, t') = call f t in
      elim a [
        | succeeded v ↦ (returned v, t')
        | failed status e ↦ elim (is_permanent status) [
          | true ↦ (raised e, t')
          | false ↦
              (let (err, t'') = pause delay t' in
                elim err [ some e' ↦ (raised e', t'') | none ↦ retry_from next delays f t'' ])
        ]
      ]

  -- withRetry with its retryDelays
  unfoldable pub with_retry : {A : Type 0} → (W → Attempt A × W) → Trial W → Result A × Trial W
  unfolding retry_from
  with_retry f t = retry_from 2 (5 ∷ 10 ∷ []) f t

  -- The loop over the pages of a listing; nothing where the fuel is out.
  unfoldable pub list_pages :
      String → List ℕ → ℕ → ℕ → List TreeNode → Trial W → Option (Result (List TreeNode)) × Trial W
  unfolding with_retry
  list_pages branch path zero page nodes t = (none, t)
  list_pages branch path (suc fuel) page nodes t =
      let (r, t') = with_retry (api.list_tree branch path page) t in
      elim r [
        | raised e ↦ (some (raised e), t')
        | returned found ↦ elim (found.1 == 0) [
          | true ↦ (some (returned (nodes ++ found.0)), t')
          | false ↦ list_pages branch path fuel found.1 (nodes ++ found.0) t'
        ]
      ]

  -- What came of the pages: on success the paths are put into the cache.
  abbrev pub keep_list :
      String
      → List ℕ
      → Option (Result (List TreeNode)) × Trial W
      → Option (Result (List (List ℕ))) × Trial W
  keep_list branch path (none, t) = (none, t)
  keep_list branch path (some (raised e), t) = (some (raised e), t)
  keep_list branch path (some (returned nodes), t) = (
    some (returned (blobs nodes)),
    in_world (api.cache_set (list_key branch path) (join_lines (blobs nodes))) t,
  )

  unfoldable pub list_files :
      ℕ → String → List ℕ → Trial W → Option (Result (List (List ℕ))) × Trial W
  list_files fuel branch path t =
      let (cached, w) = api.cache_get (list_key branch path) t.world in
      elim cached [
        | some v ↦ (some (returned (unjoined v)), record t { world = w })
        | none ↦ keep_list branch path (list_pages branch path fuel 0 [] (record t { world = w }))
      ]

  abbrev keep_file : String → List ℕ → Result (List ℕ) → Trial W → Result (List ℕ) × Trial W
  keep_file branch path (raised e) t = (raised (wrap "decoding base64 content" e), t)
  keep_file branch path (returned text) t =
      (returned text, in_world (api.cache_set (file_key branch path) text) t)

  unfoldable pub get_file : String → List ℕ → Trial W → Result (List ℕ) × Trial W
  unfolding with_retry
  get_file branch path t =
      let (cached, w) = api.cache_get (file_key branch path) t.world in
      elim cached [
        | some v ↦ (returned v, record t { world = w })
        | none ↦
            (let (r, t') = with_retry (api.get_raw_file branch path) (record t { world = w }) in
              elim r [
                | raised e ↦ (raised e, t')
                | returned content ↦ keep_file branch path (api.decode_base64 content) t'
              ])
      ]

  -- A commit that goes through empties the cache.
  unfoldable pub commit : String → List CommitAction → Trial W → Option Error × Trial W
  unfolding with_retry
  commit branch actions t =
      let (r, t') = with_retry (api.create_commit branch actions) t in
      elim r [ raised e ↦ (some e, t') | returned _ ↦ (none, in_world api.cache_purge t') ]

  -- The merge request that is open between two branches, or a new one.
  unfoldable pub get_or_create_merge_request : String → String → W → Result String × W
  get_or_create_merge_request source target w =
      let (open_ones, w') = api.open_merge_requests source target w in
      elim open_ones [
        | raised e ↦ (raised (wrap "listing MRs" e), w')
        | returned [] ↦ api.create_merge_request source target w'
        | returned (url ∷ _) ↦ (returned url, w')
      ]
