-- ===== src/Auth.antt =====
-- Requests before they reach a handler: the limit on the rate of a client and the protection against
-- forged requests, internal/auth/ratelimit.go and csrf.go. A text of a header is the list of its
-- code points; a limiter of golang.org/x/time/rate is a parameter.
pub mod Laws
use vcluster_manager.Prelude.{
  ℕ, ◌+◌, String, Bool, true, false, not, ◌&&◌, ◌||◌, Option, none, some, List, [], ◌∷◌, ltb, ◌==◌,
  if◌then◌else◌, str_eq,
}
use vcluster_manager.Text.{trim_space, same_text, split_on}
use vcluster_manager.Registry.{keep_if}

abbrev pub last_part : List ℕ → List (List ℕ) → List ℕ
last_part p [] = p
last_part p (q ∷ qs) = last_part q qs

-- What stands before the last colon, if there is one.
unfoldable pub before_last_colon : List ℕ → Option (List ℕ)
before_last_colon [] = none
before_last_colon (c ∷ cs) =
    let rest = before_last_colon cs in
    elim rest [ some front ↦ some (c ∷ front) | none ↦ if c == b':' then some [] else none ]

unfoldable pub remote_ip : List ℕ → List ℕ
unfolding before_last_colon
remote_ip addr = elim (before_last_colon addr) [ none ↦ addr | some ip ↦ ip ]

abbrev pub unless_empty : List ℕ → List ℕ → List ℕ
unless_empty [] other = other
unless_empty (c ∷ cs) other = c ∷ cs

-- The address that a request is counted under, from X-Forwarded-For and the remote address.
unfoldable pub client_ip : List ℕ → List ℕ → List ℕ
client_ip [] addr = remote_ip addr
client_ip (c ∷ cs) addr =
    let parts = split_on b',' (c ∷ cs) in
    unless_empty (trim_space (last_part parts.0 parts.1)) (remote_ip addr)

-- rate.Limiter: a new one, and whether a request at a time is allowed.
pub record LimiterApi (L : Type 0) : Type 0 where
  pub new_limiter : L
  pub allow : ℕ → L → Bool × L

pub record IpLimiter (L : Type 0) : Type 0 where
  pub limiter : L
  pub last_seen : ℕ

module _ {L : Type 0} (api : LimiterApi L) where
  -- A request of an address: its limiter, made where there is none, is asked.
  unfoldable pub allow_request :
      ℕ → List ℕ → List (List ℕ × IpLimiter L) → Bool × List (List ℕ × IpLimiter L)
  allow_request now ip [] =
      let (ok, l) = api.allow now api.new_limiter in
      (ok, (ip, record { limiter = l; last_seen = now }) ∷ [])
  allow_request now ip ((key, entry) ∷ rest) =
      let others = allow_request now ip rest in
      let own = api.allow now entry.limiter in
      if same_text key ip
      then (own.0, (key, record { limiter = own.1; last_seen = now }) ∷ rest)
      else (others.0, (key, entry) ∷ others.1)

-- The entries that were not seen for five minutes go.
unfoldable pub cleanup :
    {L : Type 0} → ℕ → List (List ℕ × IpLimiter L) → List (List ℕ × IpLimiter L)
cleanup now = keep_if (λ e. not (ltb (e.1.last_seen + 300) now))

pub data Method : Type 0 where
  get head options post put delete patch other_method : Method

unfoldable pub is_safe_method : Method → Bool
is_safe_method get = true
is_safe_method head = true
is_safe_method options = true
is_safe_method _ = false

-- What the middleware reads of a request: the cookie, the header and the field of the form, "" for
-- an absent one.
pub record CsrfRequest : Type 0 where
  pub method : Method
  pub cookie_token : String
  pub header_token : String
  pub form_readable : Bool
  pub form_token : String

pub data CsrfVerdict : Type 0 where
  served token_missing token_invalid : CsrfVerdict

unfoldable pub submitted_token : CsrfRequest → String
submitted_token r =
    if str_eq r.header_token ""
    then (if r.form_readable then r.form_token else "")
    else r.header_token

-- The cookie that a safe request is answered with: a fresh token where it brought none.
unfoldable pub ensure_csrf_cookie : String → CsrfRequest → Option String
ensure_csrf_cookie fresh r = if str_eq r.cookie_token "" then some fresh else none

-- The cookie that is set and the verdict, for a token that crypto/rand would give.
unfoldable pub csrf_middleware : String → CsrfRequest → Option String × CsrfVerdict
csrf_middleware fresh r =
    if is_safe_method r.method
    then (ensure_csrf_cookie fresh r, served)
    else (if str_eq r.cookie_token ""
        then (none, token_missing)
        else (if str_eq (submitted_token r) "" || not (str_eq (submitted_token r) r.cookie_token)
            then (none, token_invalid)
            else (none, served)))
