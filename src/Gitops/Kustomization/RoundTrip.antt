-- ===== src/Gitops/Kustomization/RoundTrip.antt =====
-- An entry that was added can be taken out again.
use vcluster_manager.Prelude.{
  ℕ, ◌≡◌, ◌∙◌, ap, refl, Bool, true, false, not, some, List, [], ◌∷◌, any, arith, Option-cases, inl,
  inr,
}
use vcluster_manager.Names.{valid_name}
use vcluster_manager.Registry.{keep_if}
use vcluster_manager.Auth.{last_part}
use vcluster_manager.Gitops.Kustomization.{
  lines_of, join_lines, entry, is_entry, add_after_last, update_kustomization,
}
use vcluster_manager.Gitops.Kustomization.Lines.{
  are_lines, lines_of-are_lines, join_lines-lines_of, lines_of-join_lines, glue,
}
use vcluster_manager.Gitops.Kustomization.Laws.{
  lists, takes_entry, own_entry, blank_entry, entry-is_line, added_lines, at_end, in_place,
  appended_lines, last_blank,
}

module _ (p : List ℕ → Bool) where
  all_kept : (ls : List (List ℕ)) → any (λ l. not (p l)) ls ≡ false → keep_if p ls ≡ ls
  unfolding keep_if
  all_kept [] h = refl
  all_kept (l ∷ ls) h = ground (arith, all_kept ls)

  dropped_again :
      (e : List ℕ) (ls more : List (List ℕ))
      → add_after_last e ls ≡ some more
      → p e ≡ false
      → keep_if p more ≡ keep_if p ls
  unfolding keep_if add_after_last
  dropped_again e [] more a h = ground arith
  dropped_again e (l ∷ ls) more a h = grind (arith, dropped_again e ls)

  glue_dropped :
      (e f : List ℕ) (os : List (List ℕ))
      → p e ≡ false
      → p [] ≡ true
      → last_part f os ≡ []
      → keep_if p ((glue e (f, os)).0 ∷ (glue e (f, os)).1) ≡ keep_if p (f ∷ os)
  unfolding keep_if
  glue_dropped e f [] h k b = rw b (ground arith)
  glue_dropped e f (o ∷ os) h k b = ground (arith, glue_dropped e o os h k b)

rejoined :
    (more ls : List (List ℕ)) (e : List ℕ)
    → add_after_last e ls ≡ some more
    → are_lines more ≡ true
    → lines_of (join_lines more) ≡ more
unfolding add_after_last
rejoined [] [] e a h = ground arith
rejoined [] (l ∷ ls) e a h = ground arith
rejoined (m ∷ more) ls e a h = lines_of-join_lines m more h

module _ (n : List ℕ) where
  abbrev others : List ℕ → Bool
  others l = not (is_entry n l)

  -- A file without the entry keeps all of its lines.
  untouched :
      (content : List ℕ)
      → lists content n ≡ false
      → join_lines (keep_if others (lines_of content)) ≡ content
  untouched content absent =
      ap join_lines (all_kept others (lines_of content) (double (lines_of content) absent))
      ∙ join_lines-lines_of content
    where
      double :
          (ls : List (List ℕ)) → any (is_entry n) ls ≡ false → any (λ l. not (others l)) ls ≡ false
      double [] h = refl
      double (l ∷ ls) h = ground (arith, double ls)

  -- Taking a vcluster out of the file that it was just added to gives the file back, byte for byte,
  -- where the file did not list it before and mentions some vcluster or ends with a line's end.
  pub removed_again :
      (content : List ℕ)
      → valid_name n ≡ true
      → takes_entry content ≡ true
      → lists content n ≡ false
      → update_kustomization (update_kustomization content n true) n false ≡ content
  unfolding update_kustomization
  removed_again content hn takes absent =
      let lines = lines_of content in
      let dropped : others (entry n) ≡ false = ap not (own_entry n) in
      elim (Option-cases (add_after_last (entry n) lines)) [
        | inl a ↦
            ap (λ t. join_lines (keep_if others (lines_of t))) (at_end content n hn takes absent a)
            ∙ ap (λ ls. join_lines (keep_if others ls)) (appended_lines content n hn takes)
            ∙ ap join_lines (
                glue_dropped others (entry n) _ _ dropped (ap not (blank_entry n hn))
                  (last_blank content n hn takes a))
            ∙ untouched content absent
        | inr (more, a) ↦
            ap (λ t. join_lines (keep_if others (lines_of t)))
              (in_place content n hn takes more absent a)
            ∙ ap (λ ls. join_lines (keep_if others ls))
                (rejoined more lines (entry n) a (
                  added_lines (entry n) lines more a (entry-is_line n hn)
                    (lines_of-are_lines content)))
            ∙ ap join_lines (dropped_again others (entry n) lines more a dropped)
            ∙ untouched content absent
      ]
