-- ===== src/Policy/Laws.antt =====
-- The lines of the policy are read back as the groups that they were rendered for.
use vcluster_manager.Prelude.{
  ℕ, ◌≡◌, ◌≢◌, ◌∙◌, ap, refl, true, false, not, none, List, [], ◌∷◌, ◌++◌, map, arith,
  if◌then◌else◌,
}
use vcluster_manager.Text.{
  keep_unless_blank, codes, is_space, trim_left, trim_right, trim_space, split_on,
}
use vcluster_manager.Registry.{keep_if}
use vcluster_manager.Policy.{
  is_group_char, all_group_chars, valid_rbac_group, is_blank, validate_rbac_groups, policy_line,
  policy_lines, has_g_prefix, add_group, add_part, or_default, filled_parts, split_groups,
  groups_of_lines, parse_rbac_groups,
}

group_char : (c : ℕ) → is_group_char c ≡ true → (is_space c ≡ false) × (c ≢ b',') × (c ≢ b'\n')
unfolding is_group_char is_space
group_char c h = (ground arith, ground arith, ground arith)

-- A text without a separator is the first part of what it begins.
pub split_first :
    (sep : ℕ) (xs ys : List ℕ)
    → (split_on sep xs).1 ≡ []
    → split_on sep (xs ++ sep ∷ ys) ≡ (xs, (split_on sep ys).0 ∷ (split_on sep ys).1)
unfolding split_on
split_first sep [] ys h = ground arith
split_first sep (x ∷ xs) ys h = ground (arith, split_first sep xs ys)

group_whole : (g : List ℕ) → all_group_chars g ≡ true → (split_on b',' g).1 ≡ []
unfolding split_on all_group_chars
group_whole [] h = refl
group_whole (c ∷ cs) h = ground (arith, group_char c, group_whole cs)

group_line_whole :
    (g : List ℕ) → all_group_chars g ≡ true → (split_on b'\n' (g ++ codes ", role:admin")).1 ≡ []
unfolding split_on all_group_chars codes
group_line_whole [] h = refl
group_line_whole (c ∷ cs) h = ground (arith, group_char c, group_line_whole cs)

trim_right_more :
    (c : ℕ) (r : List ℕ) (d : ℕ) (ds : List ℕ)
    → trim_right r ≡ d ∷ ds
    → trim_right (c ∷ r) ≡ c ∷ d ∷ ds
unfolding trim_right
trim_right_more c r d ds h = ap (keep_unless_blank c) h

pub trim_right-end :
    (xs : List ℕ) (y : ℕ) (ys : List ℕ)
    → trim_right (y ∷ ys) ≡ y ∷ ys
    → trim_right (xs ++ y ∷ ys) ≡ xs ++ y ∷ ys
trim_right-end [] y ys h = h
trim_right-end (x ∷ []) y ys h = trim_right_more x _ _ _ h
trim_right-end (x ∷ x' ∷ xs) y ys h = trim_right_more x _ _ _ (trim_right-end (x' ∷ xs) y ys h)

pub group_untrimmed : (g : List ℕ) → all_group_chars g ≡ true → trim_right g ≡ g
unfolding trim_right all_group_chars
group_untrimmed [] h = refl
group_untrimmed (c ∷ []) h = ground (arith, group_char c)
group_untrimmed (c ∷ d ∷ cs) h =
    trim_right_more c (d ∷ cs) d cs (group_untrimmed (d ∷ cs) (ground arith))

trim_group :
    (g : List ℕ) → valid_rbac_group g ≡ true → (trim_space g ≡ g) × (trim_space (b' ' ∷ g) ≡ g)
unfolding trim_space trim_left valid_rbac_group all_group_chars
trim_group [] h = absurd cc
trim_group (c ∷ cs) h =
    let kept = group_untrimmed (c ∷ cs) h in
    (ground (arith, group_char c, kept), ground (arith, group_char c, kept))

-- A line without its end, and what trimming leaves of it.
abbrev unended : List ℕ → List ℕ
unended g = codes "    g, " ++ g ++ codes ", role:admin"

abbrev unindented : List ℕ → List ℕ
unindented g = codes "g, " ++ g ++ codes ", role:admin"

ended :
    (g rest : List ℕ)
    → (g ++ codes ", role:admin" ++ b'\n' ∷ []) ++ rest
      ≡ (g ++ codes ", role:admin") ++ b'\n' ∷ rest
unfolding codes
ended [] rest = refl
ended (c ∷ cs) rest = ap (λ t. c ∷ t) (ended cs rest)

line_ended : (g rest : List ℕ) → policy_line g ++ rest ≡ unended g ++ b'\n' ∷ rest
unfolding policy_line codes
line_ended g rest = ap (λ t. codes "    g, " ++ t) (ended g rest)

line_whole : (g : List ℕ) → all_group_chars g ≡ true → (split_on b'\n' (unended g)).1 ≡ []
unfolding split_on codes
line_whole g h = group_line_whole g h

trim_line : (g : List ℕ) → trim_space (unended g) ≡ unindented g
unfolding trim_space trim_left trim_right codes
trim_line g = trim_right-end (codes "g, " ++ g) b',' (codes " role:admin") refl

group_part :
    (g : List ℕ)
    → all_group_chars g ≡ true
    → (split_on b',' (unindented g)).1 ≡ (b' ' ∷ g) ∷ codes " role:admin" ∷ []
unfolding split_on codes
group_part g h =
    ap (λ p. (b' ' ∷ p.0) ∷ p.1) (split_first b',' g (codes " role:admin") (group_whole g h))

add_part_of :
    (g : List ℕ) (groups : List (List ℕ))
    → valid_rbac_group g ≡ true
    → add_group g groups ≡ g ∷ groups
unfolding valid_rbac_group
add_part_of [] groups h = absurd cc
add_part_of (c ∷ cs) groups h = refl

all_valid : (g : List ℕ) → valid_rbac_group g ≡ true → all_group_chars g ≡ true
unfolding valid_rbac_group
all_valid [] h = absurd cc
all_valid (c ∷ cs) h = h

line_read :
    (g : List ℕ) (ls : List (List ℕ))
    → valid_rbac_group g ≡ true
    → groups_of_lines (unended g ∷ ls) ≡ g ∷ groups_of_lines ls
unfolding groups_of_lines codes
line_read g ls h =
    let rest = groups_of_lines ls in
    ap (λ t. if has_g_prefix t then add_part (split_on b',' t).1 rest else rest) (trim_line g)
    ∙ ap (λ parts. add_part parts rest) (group_part g (all_valid g h))
    ∙ ap (λ t. add_group t rest) (trim_group g h).1
    ∙ add_part_of g rest h

-- One rendered line before others.
line_before :
    (g rest : List ℕ)
    → valid_rbac_group g ≡ true
    → parse_rbac_groups (policy_line g ++ rest) ≡ g ∷ parse_rbac_groups rest
unfolding parse_rbac_groups
line_before g rest h =
    ap (λ t. parse_rbac_groups t) (line_ended g rest)
    ∙ ap (λ p. groups_of_lines (p.0 ∷ p.1))
        (split_first b'\n' (unended g) rest (line_whole g (all_valid g h)))
    ∙ line_read g ((split_on b'\n' rest).0 ∷ (split_on b'\n' rest).1) h

blank_invalid : (g : List ℕ) → is_blank g ≡ true → valid_rbac_group g ≡ false
unfolding valid_rbac_group
blank_invalid [] h = refl
blank_invalid (c ∷ cs) h = absurd cc

none_read : parse_rbac_groups [] ≡ []
unfolding parse_rbac_groups groups_of_lines split_on trim_space
none_read = refl

-- From the rendered policy the program reads back the groups of the request that are valid after
-- trimming, in their order, and nothing else: whatever text a group has, it adds no line of its own.
pub policy_read_back :
    (groups : List (List ℕ))
    → parse_rbac_groups (policy_lines groups) ≡ keep_if valid_rbac_group (map trim_space groups)
unfolding policy_lines keep_if
policy_read_back [] = none_read
policy_read_back (g ∷ gs) =
    let group = trim_space g in
    ground (arith, blank_invalid group, line_before group (policy_lines gs), policy_read_back gs)

accepted_kept :
    (groups : List (List ℕ))
    → validate_rbac_groups groups ≡ none
    → keep_if valid_rbac_group (map trim_space groups) ≡ keep_if (λ g. not (is_blank g)) groups
unfolding validate_rbac_groups keep_if trim_space valid_rbac_group
accepted_kept [] h = refl
accepted_kept ([] ∷ gs) h = accepted_kept gs h
accepted_kept ((c ∷ cs) ∷ gs) h = ground (arith, trim_group (c ∷ cs), accepted_kept gs)

-- Groups that the service accepts are read back as exactly those that are not empty.
accepted_groups_survive :
    (groups : List (List ℕ))
    → validate_rbac_groups groups ≡ none
    → parse_rbac_groups (policy_lines groups) ≡ keep_if (λ g. not (is_blank g)) groups
accepted_groups_survive groups h = policy_read_back groups ∙ accepted_kept groups h

parts_filled :
    (ps : List (List ℕ)) → keep_if (λ g. not (is_blank g)) (filled_parts ps) ≡ filled_parts ps
unfolding filled_parts keep_if
parts_filled [] = refl
parts_filled (p ∷ ps) = ground (arith, parts_filled ps)

default_filled :
    (gs : List (List ℕ)) (default_group : List ℕ)
    → keep_if (λ g. not (is_blank g)) gs ≡ gs
    → keep_if (λ g. not (is_blank g)) (or_default gs default_group) ≡ or_default gs default_group
unfolding keep_if codes
default_filled (g ∷ gs) default_group h = h
default_filled [] (c ∷ cs) h = refl
default_filled [] [] h = refl

groups_filled :
    (text default_group : List ℕ)
    → keep_if (λ g. not (is_blank g)) (split_groups text default_group)
      ≡ split_groups text default_group
unfolding split_groups
groups_filled text default_group =
    let parts = split_on b',' text in
    default_filled (filled_parts (parts.0 ∷ parts.1)) default_group
      (parts_filled (parts.0 ∷ parts.1))

-- The groups of a form, its default included, survive the way through the repository where the
-- service accepts them: the policy that is rendered for them is read back as the very same groups,
-- in the same order.
pub form_groups_survive :
    (text default_group : List ℕ)
    → validate_rbac_groups (split_groups text default_group) ≡ none
    → parse_rbac_groups (policy_lines (split_groups text default_group))
      ≡ split_groups text default_group
form_groups_survive text default_group h =
    accepted_groups_survive (split_groups text default_group) h ∙ groups_filled text default_group
