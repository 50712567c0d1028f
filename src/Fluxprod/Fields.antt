-- ===== src/Fluxprod/Fields.antt =====
-- The checks of the fields that land in generated YAML: internal/service/vcluster.go and settings.go.
-- Each regular expression is read from the left; its parts have no character in common, so that no
-- other reading can match.
pub mod Laws
use vcluster_manager.Prelude.{
  ℕ, Bool, true, false, ◌&&◌, ◌||◌, not, Option, none, some, List, [], ◌∷◌, any, leb, ◌==◌,
  if◌then◌else◌, length, is_some,
}
use vcluster_manager.Text.{codes, same_text}
use vcluster_manager.Names.{strip}
use vcluster_manager.Policy.{is_blank}

abbrev pub is_digit : ℕ → Bool
is_digit c = leb b'0' c && leb c b'9'

abbrev pub is_alphanumeric : ℕ → Bool
is_alphanumeric c = leb b'A' c && leb c b'Z' || leb b'a' c && leb c b'z' || is_digit c

-- [A-Za-z0-9_.-]
abbrev pub is_host_char : ℕ → Bool
is_host_char c = is_alphanumeric c || c == b'_' || c == b'.' || c == b'-'

-- [A-Za-z0-9_./-]
abbrev pub is_path_char : ℕ → Bool
is_path_char c = is_host_char c || c == b'/'

-- [A-Za-z0-9._+-]
abbrev pub is_version_char : ℕ → Bool
is_version_char c = is_host_char c || c == b'+'

abbrev pub all_chars : (ℕ → Bool) → List ℕ → Bool
all_chars p [] = true
all_chars p (c ∷ cs) = p c && all_chars p cs

-- What follows the characters of a class, where there is at least one of them.
unfoldable pub after_some : (ℕ → Bool) → List ℕ → Option (List ℕ)
after_some p [] = none
after_some p (c ∷ cs) = elim (after_some p cs) [
  | some rest ↦ if p c then some rest else none
  | none ↦ if p c then some cs else none
]

abbrev pub then_end : (List ℕ → Bool) → Option (List ℕ) → Bool
then_end test none = false
then_end test (some rest) = test rest

-- m|k|M|G|T|P|Ki|Mi|Gi|Ti|Pi, or nothing
abbrev pub is_unit : List ℕ → Bool
is_unit [] = true
is_unit (c ∷ []) = c == b'm' || c == b'k' || c == b'M' || c == b'G' || c == b'T' || c == b'P'
is_unit (c ∷ i ∷ []) = (c == b'K' || c == b'M' || c == b'G' || c == b'T' || c == b'P') && i == b'i'
is_unit _ = false

abbrev pub is_amount_end : List ℕ → Bool
is_amount_end [] = true
is_amount_end (c ∷ cs) =
    let fraction = then_end is_unit (after_some is_digit cs) in
    if c == b'.' then fraction else is_unit (c ∷ cs)

-- quantityRegex
unfoldable pub is_quantity : List ℕ → Bool
unfolding after_some
is_quantity cs = then_end is_amount_end (after_some is_digit cs)

abbrev pub is_path : List ℕ → Bool
is_path cs = not (is_blank cs) && all_chars is_path_char cs

abbrev pub is_absolute : List ℕ → Bool
is_absolute [] = false
is_absolute (c ∷ cs) = c == b'/' && is_path cs

abbrev pub is_address_end : List ℕ → Bool
is_address_end [] = false
is_address_end (c ∷ cs) =
    let port = then_end is_absolute (after_some is_digit cs) in
    if c == b':' then port else is_absolute (c ∷ cs)

abbrev pub is_scp_end : List ℕ → Bool
is_scp_end [] = false
is_scp_end (c ∷ cs) = c == b':' && is_path cs

abbrev pub is_host : (List ℕ → Bool) → List ℕ → Bool
is_host test [] = false
is_host test (c ∷ cs) = c == b'@' && then_end test (after_some is_host_char cs)

-- fluxRepoSSHRegex after its ssh://, and fluxRepoSCPRegex
unfoldable pub is_ssh_address : List ℕ → Bool
unfolding after_some
is_ssh_address cs = then_end (is_host is_address_end) (after_some is_host_char cs)

unfoldable pub is_scp_address : List ℕ → Bool
unfolding after_some
is_scp_address cs = then_end (is_host is_scp_end) (after_some is_host_char cs)

unfoldable pub is_flux_repo : List ℕ → Bool
unfolding is_ssh_address is_scp_address codes
is_flux_repo cs = then_end is_ssh_address (strip (codes "ssh://") cs) || is_scp_address cs

-- An alphanumeric character and at most as many others of a class.
unfoldable pub is_word : (ℕ → Bool) → ℕ → List ℕ → Bool
is_word p bound [] = false
is_word p bound (c ∷ cs) = is_alphanumeric c && all_chars p cs && leb (length cs) bound

abbrev pub is_clock_end : List ℕ → Bool
is_clock_end (c ∷ tens ∷ ones ∷ []) = c == b':' && leb b'0' tens && leb tens b'5' && is_digit ones
is_clock_end _ = false

-- veleroHourRegex: one digit, or two up to 23, then the minutes
unfoldable pub is_clock : List ℕ → Bool
is_clock (a ∷ b ∷ rest) =
    is_digit a && is_clock_end (b ∷ rest)
    || (a == b'0' || a == b'1') && is_digit b && is_clock_end rest
    || a == b'2' && leb b'0' b && leb b b'3' && is_clock_end rest
is_clock _ = false

-- A check of a field passes where it is empty.
abbrev pub or_blank : (List ℕ → Bool) → List ℕ → Bool
or_blank test cs = is_blank cs || test cs

unfoldable pub validate_quantity : List ℕ → Bool
unfolding is_quantity
validate_quantity = or_blank is_quantity

unfoldable pub validate_flux_repo_url : List ℕ → Bool
unfolding is_flux_repo
validate_flux_repo_url = or_blank is_flux_repo

unfoldable pub validate_branch_or_path : List ℕ → Bool
unfolding is_word
validate_branch_or_path = or_blank (is_word is_path_char 254)

unfoldable pub validate_version : List ℕ → Bool
unfolding is_word
validate_version = or_blank (is_word is_version_char 62)

unfoldable pub validate_velero_hour : List ℕ → Bool
unfolding is_clock
validate_velero_hour = or_blank is_clock
