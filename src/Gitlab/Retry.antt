-- ===== src/Gitlab/Retry.antt =====
-- The retries of a call of GitLab.
use vcluster_manager.Prelude.{
  ℕ, ◌≤◌, ◌≡◌, Bool, true, false, not, ◌&&◌, List, [], ◌∷◌, arith, ◌==◌, if◌then◌else◌, length,
}
use vcluster_manager.Cluster.{Result, returned, raised}
use vcluster_manager.Gitlab.{
  Attempt, succeeded, GitlabApi, Try, fine, transient, permanent, Trial, retry_from, with_retry,
}

abbrev pub all_transient : List Try → Bool
all_transient [] = true
all_transient (transient ∷ ts) = all_transient ts
all_transient (_ ∷ _) = false

-- How a request may end after its tries, the latest first: with a value after one that went well;
-- with an error after a permanent one, after a wait that was cut short, or after the last of three.
abbrev pub is_settled {ℓ} : {A : Type ℓ} → Result A → Bool → List Try → Bool
is_settled r is_cut [] = false
is_settled (returned _) is_cut (fine ∷ ts) = all_transient ts && not is_cut
is_settled (raised _) is_cut (permanent ∷ ts) = all_transient ts && not is_cut
is_settled (raised _) is_cut (transient ∷ ts) =
    all_transient ts && (if is_cut then true else length ts == 2)
is_settled _ is_cut _ = false

module _ {W : Type 0} (api : GitlabApi W) where
  -- A call of GitLab ends after at most three tries and seven seconds of waiting. Every try but the
  -- last failed for a reason that may pass; it gives a value exactly after a try that went well, and
  -- an error after one that failed for good, after the third, or when a wait was cut short.
  pub retry_settles :
      {A : Type 0} (f : W → Attempt A × W) (t : Trial W)
      → t.tries ≡ []
      → t.waited ≡ 0
      → t.is_cut ≡ false
      → (is_settled
            (with_retry api f t).0
            (with_retry api f t).1.is_cut
            (with_retry api f t).1.tries
          ≡ true)
        × (length (with_retry api f t).1.tries ≤ 3)
        × ((with_retry api f t).1.waited ≤ 7)
  unfolding with_retry retry_from
  retry_settles f t e w c = (ground arith, ground arith, ground arith)

  tested :
      {A : Type 0} (test : A → Bool) (delay : ℕ) (delays : List ℕ) (f : W → Attempt A × W)
      (t : Trial W) (v : A)
      → ((w : W) (x : A) → (f w).0 ≡ succeeded x → test x ≡ true)
      → (retry_from api delay delays f t).0 ≡ returned v
      → test v ≡ true
  unfolding retry_from
  tested test delay [] f t v h e = ground (arith, h t.world v)
  tested test delay (next ∷ delays) f t v h e =
      grind (arith, h t.world v, λ (u : Trial W). tested test next delays f u v h)

  -- A value that comes back has what every value of the API has.
  pub returned_tested :
      {A : Type 0} (test : A → Bool) (f : W → Attempt A × W) (t : Trial W) (v : A)
      → ((w : W) (x : A) → (f w).0 ≡ succeeded x → test x ≡ true)
      → (with_retry api f t).0 ≡ returned v
      → test v ≡ true
  unfolding with_retry
  returned_tested test f t v h e = tested test 2 (5 ∷ 10 ∷ []) f t v h e
