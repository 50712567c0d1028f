-- ===== src/Gitops/Kustomization.antt =====
-- The list of the vclusters of an environment, its kustomization.yaml: UpdateKustomization of
-- internal/gitops/generator.go.
pub mod Lines
pub mod Laws
pub mod RoundTrip
use vcluster_manager.Prelude.{
  ℕ, Bool, true, false, not, ◌||◌, Option, none, some, is_some, List, [], ◌∷◌, ◌++◌, any,
  if◌then◌else◌,
}
use vcluster_manager.Text.{codes, trim_space, same_text, split_on}
use vcluster_manager.Names.{strip}
use vcluster_manager.Registry.{keep_if}

abbrev pub lines_of : List ℕ → List (List ℕ)
lines_of text = let parts = split_on b'\n' text in parts.0 ∷ parts.1

-- strings.Join with a line's end between
abbrev pub join_lines : List (List ℕ) → List ℕ
join_lines [] = []
join_lines (l ∷ []) = l
join_lines (l ∷ m ∷ ls) = l ++ b'\n' ∷ join_lines (m ∷ ls)

-- strings.Contains(line, part)
unfoldable pub has_part : List ℕ → List ℕ → Bool
has_part part [] = is_some (strip part [])
has_part part (c ∷ cs) = is_some (strip part (c ∷ cs)) || has_part part cs

unfoldable pub entry : List ℕ → List ℕ
unfolding codes
entry name = codes "  - ./vclusters/" ++ name

unfoldable pub is_entry : List ℕ → List ℕ → Bool
is_entry name line = same_text (trim_space line) (trim_space (entry name))

unfoldable pub mentions_vcluster : List ℕ → Bool
unfolding codes has_part
mentions_vcluster line = has_part (codes "./vclusters/") line

-- The lines with a new one after the last that mentions a vcluster, if one does.
unfoldable pub add_after_last : List ℕ → List (List ℕ) → Option (List (List ℕ))
add_after_last new [] = none
add_after_last new (l ∷ ls) = elim (add_after_last new ls) [
  | some more ↦ some (l ∷ more)
  | none ↦ if mentions_vcluster l then some (l ∷ new ∷ ls) else none
]

unfoldable pub update_kustomization : List ℕ → List ℕ → Bool → List ℕ
update_kustomization content name true =
    if any (is_entry name) (lines_of content)
    then content
    else elim (add_after_last (entry name) (lines_of content)) [
      | some lines ↦ join_lines lines
      | none ↦ content ++ entry name ++ b'\n' ∷ []
    ]
update_kustomization content name false =
    join_lines (keep_if (λ l. not (is_entry name l)) (lines_of content))
