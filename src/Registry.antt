-- ===== src/Registry.antt =====
-- The lists that the configuration keeps of what is under way on a vcluster: internal/config
-- (cleaning.go, deleting.go, rancher_pairing.go). A file or a config map is what was last written to
-- it. A time is a number of seconds, none where time.Parse cannot read it; the gauge of deletions is
-- output only.
pub mod Laws
use vcluster_manager.Prelude.{
  ℕ, ◌+◌, String, Bool, true, false, not, ◌&&◌, Option, none, some, List, [], ◌∷◌, ◌++◌,
  if◌then◌else◌, any, ltb, str_eq,
}

pub record CleaningEntry : Type 0 where
  pub name : String
  pub env : String
  pub started_at : Option ℕ
  pub delete_preprod : Bool
  pub delete_prod : Bool
  pub delete_gitlab : Bool
  pub delete_keycloak : Bool

pub record DeletingEntry : Type 0 where
  pub name : String
  pub env : String
  pub mr_url : String
  pub deleted_at : Option ℕ

pub record RancherPairingFailure : Type 0 where
  pub name : String
  pub env : String
  pub at : ℕ
  pub message : String

pub record Registry : Type 0 where
  pub cleaning : List CleaningEntry
  pub deleting : List DeletingEntry
  pub failures : List RancherPairingFailure

-- A time is not longer ago than a bound.
abbrev pub is_recent : ℕ → ℕ → Option ℕ → Bool
is_recent now bound none = false
is_recent now bound (some t) = not (ltb (t + bound) now)

module _ {A : Type 0} where
  unfoldable pub keep_if : (A → Bool) → List A → List A
  keep_if p [] = []
  keep_if p (x ∷ xs) = let rest = keep_if p xs in if p x then x ∷ rest else rest

  unfoldable pub first_of : (A → Bool) → List A → Option A
  first_of p [] = none
  first_of p (x ∷ xs) = let later = first_of p xs in if p x then some x else later

module _ (name env : String) where
  abbrev pub is_cleaning_of : CleaningEntry → Bool
  is_cleaning_of e = str_eq e.name name && str_eq e.env env

  abbrev pub is_deleting_of : DeletingEntry → Bool
  is_deleting_of e = str_eq e.name name && str_eq e.env env

  abbrev pub is_failure_of : RancherPairingFailure → Bool
  is_failure_of e = str_eq e.name name && str_eq e.env env

  unfoldable pub add_cleaning : ℕ → Bool → Bool → Bool → Bool → Registry → Registry
  add_cleaning now preprod prod gitlab keycloak g =
      if any is_cleaning_of g.cleaning then g else record g {
        cleaning =
            g.cleaning
            ++ record {
              name = name;
              env = env;
              started_at = some now;
              delete_preprod = preprod;
              delete_prod = prod;
              delete_gitlab = gitlab;
              delete_keycloak = keycloak;
            }
              ∷ [];
      }

  unfoldable pub remove_cleaning : Registry → Registry
  remove_cleaning g = record g { cleaning = keep_if (λ e. not (is_cleaning_of e)) g.cleaning }

-- The cleanings of the last hour; the others are dropped for good.
unfoldable pub list_cleaning : ℕ → Registry → List CleaningEntry × Registry
list_cleaning now g =
    let active = keep_if (λ e. is_recent now 3600 e.started_at) g.cleaning in
    (active, record g { cleaning = active })

module _ (name env : String) where
  unfoldable pub is_cleaning : ℕ → Registry → Bool × Registry
  is_cleaning now g =
      let active = keep_if (λ e. is_recent now 3600 e.started_at) g.cleaning in
      (any (is_cleaning_of name env) active, record g { cleaning = active })

  unfoldable pub add_deleting : ℕ → String → Registry → Registry
  add_deleting now url g = if any (is_deleting_of name env) g.deleting then g else record g {
    deleting =
        g.deleting ++ record { name = name; env = env; mr_url = url; deleted_at = some now } ∷ [];
  }

  unfoldable pub remove_deleting : Registry → Registry
  remove_deleting g = record g {
    deleting = keep_if (λ e. not (is_deleting_of name env e)) g.deleting;
  }

  -- Whether the vcluster is being deleted, with its merge request.
  unfoldable pub is_deleting : Registry → Bool × String
  is_deleting g = elim (first_of (is_deleting_of name env) g.deleting) [
    | none ↦ (false, "")
    | some e ↦ (true, e.mr_url)
  ]

-- The deletions of the last day; the others are dropped for good.
unfoldable pub list_deleting : ℕ → Registry → List DeletingEntry × Registry
list_deleting now g =
    let active = keep_if (λ e. is_recent now 86400 e.deleted_at) g.deleting in
    (active, record g { deleting = active })

module _ (name env : String) where
  unfoldable pub set_rancher_pairing_failure : ℕ → String → Registry → Registry
  set_rancher_pairing_failure now text g = record g {
    failures =
        keep_if (λ e. not (is_failure_of name env e)) g.failures
        ++ record { name = name; env = env; at = now; message = text } ∷ [];
  }

  unfoldable pub clear_rancher_pairing_failure : Registry → Registry
  clear_rancher_pairing_failure g = record g {
    failures = keep_if (λ e. not (is_failure_of name env e)) g.failures;
  }

  unfoldable pub rancher_pairing_failure_for : Registry → Option RancherPairingFailure
  rancher_pairing_failure_for g = first_of (is_failure_of name env) g.failures
