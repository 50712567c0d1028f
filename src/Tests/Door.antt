-- ===== src/Tests/Door.antt =====
-- Requests at the door: a proxy's header with a forged claim before it, and a form with its token.
use vcluster_manager.Prelude.{ℕ, ◌≡◌, ◌≢◌, refl, true, false, List, [], ◌∷◌, ◌++◌, arith}
use vcluster_manager.Text.{trim_space}
use vcluster_manager.Auth.{
  client_ip, is_safe_method, post, CsrfRequest, served, submitted_token, csrf_middleware,
}
use vcluster_manager.Auth.Laws.{claims_ignored}

-- " 9" as the proxy writes it, and the remote address "7:8".
abbrev entry : List ℕ
entry = b' ' ∷ b'9' ∷ []

entry_trimmed : trim_space entry ≡ b'9' ∷ []
unfolding trim_space
entry_trimmed = refl

entry_stands : trim_space entry ≢ []
entry_stands = grind (arith, entry_trimmed)

claims_ignored_example :
    client_ip ((b'1' ∷ b',' ∷ b'2' ∷ []) ++ b',' ∷ entry) (b'7' ∷ b':' ∷ b'8' ∷ []) ≡ b'9' ∷ []
unfolding trim_space
claims_ignored_example =
    claims_ignored (b'1' ∷ b',' ∷ b'2' ∷ []) entry (b'7' ∷ b':' ∷ b'8' ∷ []) refl entry_stands

abbrev form : CsrfRequest
form = record {
  method = post;
  cookie_token = "c0ffee";
  header_token = "";
  form_readable = true;
  form_token = "c0ffee";
}

form_unsafe : is_safe_method form.method ≡ false
unfolding is_safe_method
form_unsafe = refl

form-served : (csrf_middleware "beef" form).1 ≡ served
unfolding csrf_middleware is_safe_method submitted_token
form-served = refl
