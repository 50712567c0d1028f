-- ===== src/Auth/Laws.antt =====
-- What a client cannot forge: the address that it is counted under, and a token that is not its own.
use vcluster_manager.Prelude.{
  ℕ, ◌≡◌, ◌≢◌, ◌∙◌, sym, ap, refl, String, false, none, List, [], ◌∷◌, ◌++◌, ◌==◌, any, arith,
  eq_iff,
}
use vcluster_manager.Text.{split_on, trim_space}
use vcluster_manager.Auth.{
  last_part, unless_empty, remote_ip, client_ip, is_safe_method, CsrfRequest, served,
  submitted_token, csrf_middleware,
}

split_tail :
    (xs ys a : List ℕ)
    → last_part a (split_on b',' (xs ++ b',' ∷ ys)).1
      ≡ last_part (split_on b',' ys).0 (split_on b',' ys).1
unfolding split_on
split_tail [] ys a = refl
split_tail (x ∷ xs) ys a =
    let rest = split_on b',' (xs ++ b',' ∷ ys) in
    ground (arith, split_tail xs ys a, split_tail xs ys rest.0)

split_last :
    (xs ys : List ℕ)
    → (let parts = split_on b',' (xs ++ b',' ∷ ys) in
        last_part parts.0 parts.1 ≡ last_part (split_on b',' ys).0 (split_on b',' ys).1)
split_last xs ys = split_tail xs ys (split_on b',' (xs ++ b',' ∷ ys)).0

picked : (t other : List ℕ) → t ≢ [] → unless_empty t other ≡ t
picked [] other h = absurd (h refl)
picked (c ∷ cs) other h = refl

from_proxy :
    (claim entry addr : List ℕ)
    → trim_space (last_part (split_on b',' entry).0 (split_on b',' entry).1) ≢ []
    → client_ip (claim ++ b',' ∷ entry) addr
      ≡ trim_space (last_part (split_on b',' entry).0 (split_on b',' entry).1)
unfolding client_ip
from_proxy [] entry addr h =
    ap (λ t. unless_empty (trim_space t) (remote_ip addr)) (split_last [] entry)
    ∙ picked _ (remote_ip addr) h
from_proxy (c ∷ cs) entry addr h =
    ap (λ t. unless_empty (trim_space t) (remote_ip addr)) (split_last (c ∷ cs) entry)
    ∙ picked _ (remote_ip addr) h

unsplit : (entry : List ℕ) → any (λ c. c == b',') entry ≡ false → split_on b',' entry ≡ (entry, [])
unfolding split_on
unsplit [] h = refl
unsplit (c ∷ cs) h = ground (arith, unsplit cs)

-- Whatever a client claims before the last comma of X-Forwarded-For, and whatever its remote address,
-- it is counted under what stands after that comma, blanks around it aside, where that is not blank.
pub claims_ignored :
    (claim entry addr : List ℕ)
    → any (λ c. c == b',') entry ≡ false
    → trim_space entry ≢ []
    → client_ip (claim ++ b',' ∷ entry) addr ≡ trim_space entry
claims_ignored claim entry addr alone there =
    let last : trim_space (last_part (split_on b',' entry).0 (split_on b',' entry).1)
        ≡ trim_space entry =
      ap (λ p. trim_space (last_part p.0 p.1)) (unsplit entry alone) in
    from_proxy claim entry addr (λ e. there (sym last ∙ e)) ∙ last

-- An unsafe request is served only with a cookie and the very same token beside it, in the header or
-- the form, and no answer to it sets the cookie anew.
served_with_token :
    (fresh : String) (r : CsrfRequest)
    → is_safe_method r.method ≡ false
    → (csrf_middleware fresh r).1 ≡ served
    → (r.cookie_token ≢ "")
      × (submitted_token r ≡ r.cookie_token)
      × ((csrf_middleware fresh r).0 ≡ none)
unfolding csrf_middleware
served_with_token fresh r h s = (
  ground (arith, eq_iff r.cookie_token ""),
  ground (arith, eq_iff (submitted_token r) r.cookie_token),
  ground arith,
)
