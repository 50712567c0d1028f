-- ===== src/Gitops/Kustomization/Lines.antt =====
-- Texts and their lines: taking apart and joining are inverse, and where an appended line ends up.
use vcluster_manager.Prelude.{
  ℕ, ◌≡◌, ◌∙◌, ap, refl, Bool, true, not, ◌&&◌, List, [], ◌∷◌, ◌++◌, arith, ◌==◌,
}
use vcluster_manager.Text.{split_on}
use vcluster_manager.Policy.Laws.{split_first}
use vcluster_manager.Gitops.Kustomization.{lines_of, join_lines}

-- No line's end stands in a text.
abbrev pub is_line : List ℕ → Bool
is_line [] = true
is_line (c ∷ cs) = not (c == b'\n') && is_line cs

abbrev pub are_lines : List (List ℕ) → Bool
are_lines [] = true
are_lines (l ∷ ls) = is_line l && are_lines ls

pub whole : (l : List ℕ) → is_line l ≡ true → split_on b'\n' l ≡ (l, [])
unfolding split_on
whole [] h = refl
whole (c ∷ cs) h = ground (arith, whole cs)

pub lines_of-are_lines : (text : List ℕ) → are_lines (lines_of text) ≡ true
unfolding split_on
lines_of-are_lines [] = refl
lines_of-are_lines (c ∷ cs) = ground (arith, lines_of-are_lines cs)

join_cons :
    (c : ℕ) (l : List ℕ) (ls : List (List ℕ)) → join_lines ((c ∷ l) ∷ ls) ≡ c ∷ join_lines (l ∷ ls)
join_cons c l [] = refl
join_cons c l (m ∷ ls) = refl

pub join_lines-lines_of : (text : List ℕ) → join_lines (lines_of text) ≡ text
unfolding split_on
join_lines-lines_of [] = refl
join_lines-lines_of (c ∷ cs) =
    let parts = split_on b'\n' cs in
    ground (arith, join_lines-lines_of cs, join_cons c parts.0 parts.1)

pub lines_of-join_lines :
    (l : List ℕ) (ls : List (List ℕ))
    → are_lines (l ∷ ls) ≡ true
    → lines_of (join_lines (l ∷ ls)) ≡ l ∷ ls
lines_of-join_lines l [] h = ap (λ p. p.0 ∷ p.1) (whole l (ground arith))
lines_of-join_lines l (m ∷ ls) h =
    let alone : (split_on b'\n' l).1 ≡ [] = ap (λ p. p.1) (whole l (ground arith)) in
    ap (λ p. p.0 ∷ p.1) (split_first b'\n' l (join_lines (m ∷ ls)) alone)
    ∙ ap (λ more. l ∷ more) (lines_of-join_lines m ls (ground arith))

-- The parts of a text with one more line written at its end.
abbrev pub glue : List ℕ → List ℕ × List (List ℕ) → List ℕ × List (List ℕ)
glue e (f, []) = (f ++ e, [] ∷ [])
glue e (f, o ∷ os) = (f, (glue e (o, os)).0 ∷ (glue e (o, os)).1)

glue_first :
    (e : List ℕ) (c : ℕ) (f : List ℕ) (os : List (List ℕ))
    → glue e (c ∷ f, os) ≡ (c ∷ (glue e (f, os)).0, (glue e (f, os)).1)
glue_first e c f [] = refl
glue_first e c f (o ∷ os) = refl

pub glued :
    (text e : List ℕ)
    → is_line e ≡ true
    → split_on b'\n' (text ++ e ++ b'\n' ∷ []) ≡ glue e (split_on b'\n' text)
unfolding split_on
glued [] e h = split_first b'\n' e [] (ap (λ p. p.1) (whole e h))
glued (c ∷ cs) e h =
    let parts = split_on b'\n' cs in ground (arith, glued cs e h, glue_first e c parts.0 parts.1)
