-- ===== src/Fluxprod/Fields/Laws.antt =====
-- What a field that passes its check is made of.
use vcluster_manager.Prelude.{
  ℕ, ◌≡◌, refl, Bool, true, false, ◌&&◌, ◌||◌, some, List, [], ◌∷◌, leb, ◌==◌, arith, ap, ◌∙◌, ◌⊎◌,
  inl, inr,
}
use vcluster_manager.Text.{codes}
use vcluster_manager.Names.{strip}
use vcluster_manager.Fluxprod.Fields.{
  is_alphanumeric, is_digit, is_host_char, is_path_char, is_version_char, all_chars, after_some,
  then_end, is_unit, is_amount_end, is_quantity, is_path, is_absolute, is_address_end, is_scp_end,
  is_host, is_ssh_address, is_scp_address, is_flux_repo, is_word, is_clock, is_clock_end,
  validate_quantity, validate_flux_repo_url, validate_branch_or_path, validate_version,
  validate_velero_hour,
}

-- A letter, a digit or one of . _ - + / : @: no space, no quote and no line's end.
abbrev pub is_plain : ℕ → Bool
is_plain c =
    is_alphanumeric c
    || c == b'.'
    || c == b'_'
    || c == b'-'
    || c == b'+'
    || c == b'/'
    || c == b':'
    || c == b'@'

abbrev pub all_plain : List ℕ → Bool
all_plain = all_chars is_plain

module _ (p : ℕ → Bool) (plain : (c : ℕ) → p c ≡ true → is_plain c ≡ true) where
  rest_plain :
      (cs rest : List ℕ) → after_some p cs ≡ some rest → all_plain rest ≡ true → all_plain cs ≡ true
  unfolding after_some
  rest_plain [] rest a h = ground arith
  rest_plain (c ∷ cs) rest a h = grind (arith, rest_plain cs, plain c)

  -- A test that only plain ends pass, after characters that are plain.
  then_plain :
      (test : List ℕ → Bool) (cs : List ℕ)
      → ((rest : List ℕ) → test rest ≡ true → all_plain rest ≡ true)
      → then_end test (after_some p cs) ≡ true
      → all_plain cs ≡ true
  then_plain test cs ends h = grind (arith, rest_plain cs, ends)

  all_chars_plain : (cs : List ℕ) → all_chars p cs ≡ true → all_plain cs ≡ true
  all_chars_plain [] h = refl
  all_chars_plain (c ∷ cs) h = ground (arith, plain c, all_chars_plain cs)

digit_plain : (c : ℕ) → is_digit c ≡ true → is_plain c ≡ true
digit_plain c h = ground arith

host_plain : (c : ℕ) → is_host_char c ≡ true → is_plain c ≡ true
host_plain c h = ground arith

path_plain : (c : ℕ) → is_path_char c ≡ true → is_plain c ≡ true
path_plain c h = ground arith

version_plain : (c : ℕ) → is_version_char c ≡ true → is_plain c ≡ true
version_plain c h = ground arith

unit_plain : (cs : List ℕ) → is_unit cs ≡ true → all_plain cs ≡ true
unit_plain [] h = refl
unit_plain (c ∷ []) h = ground arith
unit_plain (c ∷ i ∷ []) h = ground arith
unit_plain (c ∷ i ∷ d ∷ cs) h = absurd cc

amount_plain : (cs : List ℕ) → is_amount_end cs ≡ true → all_plain cs ≡ true
amount_plain [] h = refl
amount_plain (c ∷ cs) h =
    ground (arith, then_plain is_digit digit_plain is_unit cs unit_plain, unit_plain (c ∷ cs))

pub quantity_plain : (cs : List ℕ) → validate_quantity cs ≡ true → all_plain cs ≡ true
unfolding validate_quantity is_quantity
quantity_plain [] h = refl
quantity_plain (c ∷ cs) h = then_plain is_digit digit_plain is_amount_end (c ∷ cs) amount_plain h

are_path_plain : (cs : List ℕ) → is_path cs ≡ true → all_plain cs ≡ true
are_path_plain cs h = all_chars_plain is_path_char path_plain cs (ground arith)

absolute_plain : (cs : List ℕ) → is_absolute cs ≡ true → all_plain cs ≡ true
absolute_plain [] h = refl
absolute_plain (c ∷ cs) h = ground (arith, are_path_plain cs)

address_end_plain : (cs : List ℕ) → is_address_end cs ≡ true → all_plain cs ≡ true
address_end_plain [] h = refl
address_end_plain (c ∷ cs) h =
    ground (
      arith,
      absolute_plain (c ∷ cs),
      then_plain is_digit digit_plain is_absolute cs absolute_plain,
    )

scp_end_plain : (cs : List ℕ) → is_scp_end cs ≡ true → all_plain cs ≡ true
scp_end_plain [] h = refl
scp_end_plain (c ∷ cs) h = ground (arith, are_path_plain cs)

host_end_plain :
    (test : List ℕ → Bool) (ends : (rest : List ℕ) → test rest ≡ true → all_plain rest ≡ true)
    (cs : List ℕ)
    → is_host test cs ≡ true
    → all_plain cs ≡ true
host_end_plain test ends [] h = refl
host_end_plain test ends (c ∷ cs) h =
    ground (arith, then_plain is_host_char host_plain test cs ends)

module _ (p : ℕ → Bool) where
  stripped_chars :
      (prefix cs rest : List ℕ)
      → all_chars p prefix ≡ true
      → strip prefix cs ≡ some rest
      → all_chars p rest ≡ true
      → all_chars p cs ≡ true
  stripped_chars [] cs rest k s h = ground arith
  stripped_chars (q ∷ prefix) [] rest k s h = refl
  stripped_chars (q ∷ prefix) (c ∷ cs) rest k s h = ground (arith, stripped_chars prefix cs rest)

ssh_plain : (cs : List ℕ) → is_ssh_address cs ≡ true → all_plain cs ≡ true
unfolding is_ssh_address
ssh_plain cs h =
    then_plain is_host_char host_plain (is_host is_address_end) cs
      (host_end_plain is_address_end address_end_plain) h

scp_plain : (cs : List ℕ) → is_scp_address cs ≡ true → all_plain cs ≡ true
unfolding is_scp_address
scp_plain cs h =
    then_plain is_host_char host_plain (is_host is_scp_end) cs
      (host_end_plain is_scp_end scp_end_plain) h

scheme_plain : all_plain (codes "ssh://") ≡ true
unfolding codes
scheme_plain = refl

pub repo_plain : (cs : List ℕ) → validate_flux_repo_url cs ≡ true → all_plain cs ≡ true
unfolding validate_flux_repo_url is_flux_repo
repo_plain [] h = refl
repo_plain (c ∷ cs) h = grind (
  arith,
  stripped_chars is_plain (codes "ssh://") (c ∷ cs),
  scheme_plain,
  ssh_plain,
  scp_plain (c ∷ cs),
)

word_plain :
    (p : ℕ → Bool) (plain : (c : ℕ) → p c ≡ true → is_plain c ≡ true) (bound : ℕ) (cs : List ℕ)
    → is_word p bound cs ≡ true
    → all_plain cs ≡ true
unfolding is_word
word_plain p plain bound [] h = refl
word_plain p plain bound (c ∷ cs) h = ground (arith, all_chars_plain p plain cs)

pub branch_plain : (cs : List ℕ) → validate_branch_or_path cs ≡ true → all_plain cs ≡ true
unfolding validate_branch_or_path
branch_plain [] h = refl
branch_plain (c ∷ cs) h = word_plain is_path_char path_plain 254 (c ∷ cs) h

pub version_text_plain : (cs : List ℕ) → validate_version cs ≡ true → all_plain cs ≡ true
unfolding validate_version
version_text_plain [] h = refl
version_text_plain (c ∷ cs) h = word_plain is_version_char version_plain 62 (c ∷ cs) h

clock_end_plain : (cs : List ℕ) → is_clock_end cs ≡ true → all_plain cs ≡ true
clock_end_plain (c ∷ tens ∷ ones ∷ []) h = ground arith
clock_end_plain [] h = refl
clock_end_plain (c ∷ []) h = absurd cc
clock_end_plain (c ∷ d ∷ []) h = absurd cc
clock_end_plain (c ∷ d ∷ e ∷ f ∷ cs) h = absurd cc

either : (a b : Bool) → (a || b) ≡ true → (a ≡ true) ⊎ (b ≡ true)
either true b h = inl refl
either false b h = inr h

both : (a b : Bool) → (a && b) ≡ true → (a ≡ true) × (b ≡ true)
both true b h = (refl, h)
both false b h = absurd cc

teen_plain : (a : ℕ) → (a == b'0' || a == b'1') ≡ true → is_plain a ≡ true
teen_plain a h = ground arith

twenty_plain :
    (a b : ℕ)
    → (a == b'2' && leb b'0' b && leb b b'3') ≡ true
    → (is_plain a ≡ true) × (is_plain b ≡ true)
twenty_plain a b h = (ground arith, ground arith)

cons_plain :
    (a : ℕ) (cs : List ℕ) → is_plain a ≡ true → all_plain cs ≡ true → all_plain (a ∷ cs) ≡ true
cons_plain a cs h k = ap (λ b. b && all_plain cs) h ∙ k

pub hour_plain : (cs : List ℕ) → validate_velero_hour cs ≡ true → all_plain cs ≡ true
unfolding validate_velero_hour is_clock
hour_plain [] h = refl
hour_plain (a ∷ []) h = absurd cc
hour_plain (a ∷ b ∷ rest) h =
    let short = is_digit a && is_clock_end (b ∷ rest) in
    let teen = (a == b'0' || a == b'1') && is_digit b && is_clock_end rest in
    let late = a == b'2' && leb b'0' b && leb b b'3' && is_clock_end rest in
    elim (either (short || teen) late h) [
      | inl early ↦ elim (either short teen early) [
        | inl s ↦
            let (d, e) = both (is_digit a) (is_clock_end (b ∷ rest)) s in
            cons_plain a (b ∷ rest) (digit_plain a d) (clock_end_plain (b ∷ rest) e)
        | inr s ↦
            let (d, e) = both ((a == b'0' || a == b'1') && is_digit b) (is_clock_end rest) s in
            let (d', b') = both (a == b'0' || a == b'1') (is_digit b) d in
            cons_plain a (b ∷ rest) (teen_plain a d')
              (cons_plain b rest (digit_plain b b') (clock_end_plain rest e))
      ]
      | inr s ↦
          let (d, e) = both (a == b'2' && leb b'0' b && leb b b'3') (is_clock_end rest) s in
          let (a', b') = twenty_plain a b d in
          cons_plain a (b ∷ rest) a' (cons_plain b rest b' (clock_end_plain rest e))
    ]
