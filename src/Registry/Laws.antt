-- ===== src/Registry/Laws.antt =====
-- What is put on the lists of the configuration is found there, and what is taken off is not.
use vcluster_manager.Prelude.{
  ℕ, ◌+◌, ◌≤◌, ◌≡◌, refl, String, Bool, true, false, not, none, some, List, [], ◌∷◌, ◌++◌, any,
  arith,
}
use vcluster_manager.Marker.Reservation.{str_eq_refl}
use vcluster_manager.Registry.{
  CleaningEntry, Registry, is_recent, keep_if, first_of, is_cleaning_of, is_failure_of,
  add_cleaning, remove_cleaning, is_cleaning, set_rancher_pairing_failure,
  rancher_pairing_failure_for, clear_rancher_pairing_failure,
}

module _ {A : Type 0} where
  last_found :
      (p q : A → Bool) (xs : List A) (y : A)
      → p y ≡ true
      → q y ≡ true
      → any p (keep_if q (xs ++ y ∷ [])) ≡ true
  unfolding keep_if
  last_found p q [] y h k = ground arith
  last_found p q (x ∷ xs) y h k = ground (arith, last_found p q xs y h k)

  still_none : (p q : A → Bool) (xs : List A) → any p xs ≡ false → any p (keep_if q xs) ≡ false
  unfolding keep_if
  still_none p q [] h = refl
  still_none p q (x ∷ xs) h = grind (arith, still_none p q xs)

  none_kept : (p : A → Bool) (xs : List A) → any p (keep_if (λ x. not (p x)) xs) ≡ false
  unfolding keep_if
  none_kept p [] = refl
  none_kept p (x ∷ xs) = ground (arith, none_kept p xs)

  first_of-append :
      (p : A → Bool) (xs : List A) (y : A)
      → any p xs ≡ false
      → p y ≡ true
      → first_of p (xs ++ y ∷ []) ≡ some y
  unfolding first_of
  first_of-append p [] y h k = ground arith
  first_of-append p (x ∷ xs) y h k = grind (arith, first_of-append p xs y)

  absent_first_of : (p : A → Bool) (xs : List A) → any p xs ≡ false → first_of p xs ≡ none
  unfolding first_of
  absent_first_of p [] h = refl
  absent_first_of p (x ∷ xs) h = grind (arith, absent_first_of p xs)

module _ (name env : String) where
  added :
      (now : ℕ) (a b c d : Bool) (g : Registry)
      → any (is_cleaning_of name env) g.cleaning ≡ false
      → (add_cleaning name env now a b c d g).cleaning
        ≡ g.cleaning
          ++ record {
            name = name;
            env = env;
            started_at = some now;
            delete_preprod = a;
            delete_prod = b;
            delete_gitlab = c;
            delete_keycloak = d;
          }
            ∷ []
  unfolding add_cleaning
  added now a b c d g h = ground arith

  pub remove_cleaning_lem :
      (g : Registry) → any (is_cleaning_of name env) (remove_cleaning name env g).cleaning ≡ false
  unfolding remove_cleaning
  remove_cleaning_lem g = none_kept (is_cleaning_of name env) g.cleaning

  -- A cleaning that is put on the list, where none of that vcluster and environment stands there, is
  -- found for an hour, and is not found once it is taken off.
  pub cleaning_tracked :
      (now later : ℕ) (a b c d : Bool) (g : Registry)
      → any (is_cleaning_of name env) g.cleaning ≡ false
      → later ≤ now + 3600
      → ((is_cleaning name env later (add_cleaning name env now a b c d g)).0 ≡ true)
        × ((is_cleaning name env later
              (remove_cleaning name env (add_cleaning name env now a b c d g))).0
            ≡ false)
  unfolding is_cleaning remove_cleaning
  cleaning_tracked now later a b c d g h le =
      let e : CleaningEntry = record {
        name = name;
        env = env;
        started_at = some now;
        delete_preprod = a;
        delete_prod = b;
        delete_gitlab = c;
        delete_keycloak = d;
      } in
      let of = is_cleaning_of name env in
      let recent = λ (x : CleaningEntry). is_recent later 3600 x.started_at in
      let own : of e ≡ true = ground (arith, str_eq_refl name, str_eq_refl env) in
      let fresh : recent e ≡ true = ground arith in
      (
        rw (added now a b c d g h) (last_found of recent g.cleaning e own fresh),
        still_none of recent _ (none_kept of _),
      )

  -- A cleaning that starts while an entry of that vcluster and environment from more than an hour ago
  -- is still on the list is not found, not even at once: the old entry keeps the new one from being
  -- added, and does not count itself.
  stale_cleaning_hides :
      (now : ℕ) (a b c d : Bool) (g : Registry)
      → any (is_cleaning_of name env) g.cleaning ≡ true
      → (is_cleaning name env now g).0 ≡ false
      → (is_cleaning name env now (add_cleaning name env now a b c d g)).0 ≡ false
  unfolding is_cleaning add_cleaning
  stale_cleaning_hides now a b c d g h k = ground arith

  -- The failure of a pairing is the one that was recorded last, until it is cleared.
  failure_remembered :
      (now : ℕ) (text : String) (g : Registry)
      → (rancher_pairing_failure_for name env (set_rancher_pairing_failure name env now text g)
          ≡ some (record { name = name; env = env; at = now; message = text }))
        × (rancher_pairing_failure_for name env (
              clear_rancher_pairing_failure name env
                (set_rancher_pairing_failure name env now text g))
            ≡ none)
  unfolding rancher_pairing_failure_for set_rancher_pairing_failure clear_rancher_pairing_failure
  failure_remembered now text g =
      let none_left = none_kept (is_failure_of name env) g.failures in
      let own : is_failure_of name env (record { name = name; env = env; at = now; message = text })
          ≡ true =
        ground (arith, str_eq_refl name, str_eq_refl env) in
      (
        first_of-append (is_failure_of name env)
            (keep_if (λ e. not (is_failure_of name env e)) g.failures) _ none_left own,
        absent_first_of (is_failure_of name env) _ (none_kept (is_failure_of name env) _),
      )
