-- ===== src/Gitops/Kustomization/Laws.antt =====
-- What the edits of a kustomization.yaml do to the names that it lists.
use vcluster_manager.Prelude.{
  ℕ, ◌≡◌, ◌∙◌, ap, refl, Bool, true, false, not, ◌&&◌, ◌||◌, none, some, List, [], ◌∷◌, ◌++◌, any,
  arith, ◌==◌, if◌then◌else◌, Option-cases, Bool-cases, inl, inr,
}
use vcluster_manager.Text.{codes, trim_space, trim_left, same_text, split_on}
use vcluster_manager.Names.{
  valid_name, matches_name_regex, all_name_chars, is_name_char, is_letter, trim_prefix,
}
use vcluster_manager.Names.Laws.{same_text-eq, same_text_refl}
use vcluster_manager.Registry.{keep_if}
use vcluster_manager.Auth.{last_part}
use vcluster_manager.Policy.{is_blank, is_group_char, all_group_chars}
use vcluster_manager.Policy.Laws.{trim_right-end, group_untrimmed}
use vcluster_manager.Gitops.Kustomization.{
  lines_of, join_lines, entry, is_entry, mentions_vcluster, add_after_last, update_kustomization,
}
use vcluster_manager.Gitops.Kustomization.Lines.{
  is_line, are_lines, lines_of-are_lines, lines_of-join_lines, glue, glued,
}

-- The file lists a vcluster.
abbrev pub lists : List ℕ → List ℕ → Bool
lists content name = any (is_entry name) (lines_of content)

-- A new line finds its place: a vcluster is mentioned, or the text ends with a line's end.
abbrev pub takes_entry : List ℕ → Bool
takes_entry content =
    let parts = split_on b'\n' content in
    any mentions_vcluster (parts.0 ∷ parts.1) || is_blank (last_part parts.0 parts.1)

name_char : (c : ℕ) → is_name_char c ≡ true → (is_group_char c ≡ true) × ((c == b'\n') ≡ false)
unfolding is_name_char is_group_char is_letter
name_char c h = (ground arith, ground arith)

chars_plain :
    (cs : List ℕ) → all_name_chars cs ≡ true → (all_group_chars cs ≡ true) × (is_line cs ≡ true)
unfolding all_name_chars all_group_chars
chars_plain [] h = (refl, refl)
chars_plain (c ∷ cs) h =
    (ground (arith, name_char c, chars_plain cs), ground (arith, name_char c, chars_plain cs))

name_chars : (n : List ℕ) → valid_name n ≡ true → all_name_chars n ≡ true
unfolding valid_name matches_name_regex all_name_chars is_name_char
name_chars [] h = refl
name_chars (c ∷ cs) h = ground arith

pub entry-is_line : (n : List ℕ) → valid_name n ≡ true → is_line (entry n) ≡ true
unfolding entry codes
entry-is_line n h = (chars_plain n (name_chars n h)).1

abbrev listing : List ℕ → List ℕ
listing n = codes "- ./vclusters/" ++ n

entry-trim : (n : List ℕ) → valid_name n ≡ true → trim_space (entry n) ≡ listing n
unfolding entry codes trim_space trim_left
entry-trim [] h = refl
entry-trim (c ∷ cs) h =
    trim_right-end (codes "- ./vclusters/") c cs
      (group_untrimmed (c ∷ cs) (chars_plain _ (name_chars _ h)).0)

listing_injective : (n m : List ℕ) → listing n ≡ listing m → n ≡ m
unfolding codes trim_prefix
listing_injective n m e = ap (λ l. trim_prefix l (codes "- ./vclusters/")) e

same_listing : (n m : List ℕ) → same_text (listing m) (listing n) ≡ same_text m n
unfolding same_text codes
same_listing n m = refl

blank_listing : (n : List ℕ) → same_text (trim_space []) (listing n) ≡ false
unfolding same_text codes trim_space
blank_listing n = refl

-- A line is the entry of one valid name at most.
entry_names :
    (n m l : List ℕ)
    → valid_name n ≡ true
    → valid_name m ≡ true
    → is_entry m l ≡ true
    → is_entry n l ≡ same_text m n
unfolding is_entry
entry_names n m l hn hm h =
    let line : trim_space l ≡ listing m =
      same_text-eq (trim_space l) (trim_space (entry m)) h ∙ entry-trim m hm in
    rw (line, entry-trim n hn) (same_listing n m)

same_text_sym : (a b : List ℕ) → same_text a b ≡ same_text b a
unfolding same_text
same_text_sym [] [] = refl
same_text_sym [] (d ∷ ds) = refl
same_text_sym (c ∷ cs) [] = refl
same_text_sym (c ∷ cs) (d ∷ ds) = ground (arith, same_text_sym cs ds)

pub own_entry : (n : List ℕ) → is_entry n (entry n) ≡ true
unfolding is_entry
own_entry n = same_text_refl (trim_space (entry n))

pub blank_entry : (n : List ℕ) → valid_name n ≡ true → is_entry n [] ≡ false
unfolding is_entry
blank_entry n h = rw (entry-trim n h) (blank_listing n)

module _ (n m : List ℕ) (hn : valid_name n ≡ true) (hm : valid_name m ≡ true) where
  kept-entry :
      (ls : List (List ℕ))
      → any (is_entry m) (keep_if (λ l. not (is_entry n l)) ls)
        ≡ (not (same_text m n) && any (is_entry m) ls)
  unfolding keep_if
  kept-entry [] = ground arith
  kept-entry (l ∷ ls) = ground (arith, kept-entry ls, entry_names n m l hn hm)

  new-entry : is_entry m (entry n) ≡ same_text m n
  new-entry = entry_names m n (entry n) hm hn (own_entry n) ∙ same_text_sym n m

kept-are_lines :
    (p : List ℕ → Bool) (ls : List (List ℕ)) → are_lines ls ≡ true → are_lines (keep_if p ls) ≡ true
unfolding keep_if
kept-are_lines p [] h = refl
kept-are_lines p (l ∷ ls) h = ground (arith, kept-are_lines p ls)

joined :
    (m : List ℕ) (ls : List (List ℕ))
    → valid_name m ≡ true
    → are_lines ls ≡ true
    → lists (join_lines ls) m ≡ any (is_entry m) ls
unfolding split_on
joined m [] h k = ground (arith, blank_entry m h)
joined m (l ∷ ls) h k = ap (any (is_entry m)) (lines_of-join_lines l ls k)

pub added_lines :
    (e : List ℕ) (ls more : List (List ℕ))
    → add_after_last e ls ≡ some more
    → is_line e ≡ true
    → are_lines ls ≡ true
    → are_lines more ≡ true
unfolding add_after_last
added_lines e [] more a h k = ground arith
added_lines e (l ∷ ls) more a h k = grind (arith, added_lines e ls)

added_any :
    (p : List ℕ → Bool) (e : List ℕ) (ls more : List (List ℕ))
    → add_after_last e ls ≡ some more
    → any p more ≡ (p e || any p ls)
unfolding add_after_last
added_any p e [] more a = ground arith
added_any p e (l ∷ ls) more a = grind (arith, added_any p e ls)

glued_any :
    (p : List ℕ → Bool) (e f : List ℕ) (os : List (List ℕ))
    → p [] ≡ false
    → last_part f os ≡ []
    → any p ((glue e (f, os)).0 ∷ (glue e (f, os)).1) ≡ (p e || any p (f ∷ os))
glued_any p e f [] h k = rw k (ground arith)
glued_any p e f (o ∷ os) h k = ground (arith, glued_any p e o os h k)

unplaced :
    (e : List ℕ) (ls : List (List ℕ))
    → add_after_last e ls ≡ none
    → any mentions_vcluster ls ≡ false
unfolding add_after_last
unplaced e [] a = refl
unplaced e (l ∷ ls) a = grind (arith, unplaced e ls)

blank_nil : (l : List ℕ) → is_blank l ≡ true → l ≡ []
blank_nil [] h = refl
blank_nil (c ∷ cs) h = absurd cc

module _ (content n : List ℕ) (hn : valid_name n ≡ true) (takes : takes_entry content ≡ true) where
  abbrev pub f : List ℕ
  f = (split_on b'\n' content).0

  abbrev pub os : List (List ℕ)
  os = (split_on b'\n' content).1

  pub last_blank : add_after_last (entry n) (lines_of content) ≡ none → last_part f os ≡ []
  last_blank a =
      blank_nil (last_part f os) (ground (arith, unplaced (entry n) (lines_of content) a))

  pub appended_lines :
      lines_of (content ++ entry n ++ b'\n' ∷ [])
      ≡ (glue (entry n) (f, os)).0 ∷ (glue (entry n) (f, os)).1
  appended_lines = ap (λ p. p.0 ∷ p.1) (glued content (entry n) (entry-is_line n hn))

  pub at_end :
      lists content n ≡ false
      → add_after_last (entry n) (lines_of content) ≡ none
      → update_kustomization content n true ≡ content ++ entry n ++ b'\n' ∷ []
  unfolding update_kustomization
  at_end absent a = ground (arith, absent, a)

  pub in_place :
      (more : List (List ℕ))
      → lists content n ≡ false
      → add_after_last (entry n) (lines_of content) ≡ some more
      → update_kustomization content n true ≡ join_lines more
  unfolding update_kustomization
  in_place more absent a = ground (arith, absent, a)

  -- What the file lists after an entry that it did not have.
  inserted :
      (m : List ℕ)
      → valid_name m ≡ true
      → lists content n ≡ false
      → lists (update_kustomization content n true) m ≡ (same_text m n || lists content m)
  inserted m hm absent =
      let lines = lines_of content in
      let add = ap (λ b. b || lists content m) (new-entry n m hn hm) in
      elim (Option-cases (add_after_last (entry n) lines)) [
        | inl a ↦
            ap (λ t. lists t m) (at_end absent a)
            ∙ ap (any (is_entry m)) appended_lines
            ∙ glued_any (is_entry m) (entry n) f os (blank_entry m hm) (last_blank a)
            ∙ add
        | inr (more, a) ↦
            ap (λ t. lists t m) (in_place more absent a)
            ∙ joined m more hm (
                added_lines (entry n) lines more a (entry-is_line n hn)
                  (lines_of-are_lines content))
            ∙ added_any (is_entry m) (entry n) lines more a
            ∙ add
      ]

  already_there :
      (m : List ℕ)
      → lists content n ≡ true
      → lists (update_kustomization content n true) m ≡ (same_text m n || lists content m)
  unfolding update_kustomization
  already_there m present = ground (arith, present, same_text-eq m n)

removed :
    (content n m : List ℕ)
    → valid_name n ≡ true
    → valid_name m ≡ true
    → lists (update_kustomization content n false) m ≡ (not (same_text m n) && lists content m)
unfolding update_kustomization
removed content n m hn hm =
    joined m _ hm
      (kept-are_lines (λ l. not (is_entry n l)) (lines_of content) (lines_of-are_lines content))
    ∙ kept-entry n m hn hm (lines_of content)

-- A kustomization.yaml is a set of names to its readers: adding a valid name makes the file list it,
-- removing it makes the file not list it, and every other valid name is listed exactly if it was
-- before. It holds for a file that mentions some vcluster or ends with a line's end.
pub listed_after_update :
    (content n m : List ℕ) (add : Bool)
    → valid_name n ≡ true
    → valid_name m ≡ true
    → takes_entry content ≡ true
    → lists (update_kustomization content n add) m
      ≡ (if add then same_text m n || lists content m else not (same_text m n) && lists content m)
listed_after_update content n m false hn hm takes = removed content n m hn hm
listed_after_update content n m true hn hm takes = elim (Bool-cases (lists content n)) [
  | inl present ↦ already_there content n hn takes m present
  | inr absent ↦ inserted content n hn takes m hm absent
]
