-- ===== src/Ttl.antt =====
-- The retention of Velero backups: VeleroTTLFromShort of internal/gitops/objects.go, from the
-- short form ("30j", "12h", "90m") to a Go duration. Texts are lists of code points, `int` is a
-- 64-bit integer.
use vcluster_manager.Prelude.{
  ◌≡◌, refl, ℕ, zero, suc, ◌+◌, ◌-◌, ◌*◌, Bool, ◌&&◌, Option, none, some, List, [], ◌∷◌, ◌++◌, leb,
  ltb, ◌==◌, if◌then◌else◌,
}
use Prim.Native.Nat.{◌/◌, ◌%◌, ◌^◌}
use vcluster_manager.Text.{codes, lower_all, trim_space}

unfoldable pub is_digit : ℕ → Bool
is_digit c = leb b'0' c && leb c b'9'

-- The value of a run of digits after `acc`; none at any other character.
unfoldable pub digits_value : ℕ → List ℕ → Option ℕ
unfolding is_digit
digits_value acc [] = some acc
digits_value acc (c ∷ cs) =
    let rest = digits_value (acc * 10 + (c - b'0')) cs in if is_digit c then rest else none

abbrev at_least_one_digit : List ℕ → Option ℕ
at_least_one_digit [] = none
at_least_one_digit (c ∷ cs) = digits_value 0 (c ∷ cs)

-- The number, if it is an int64.
abbrev in_int64 : Option ℕ → Option ℕ
in_int64 none = none
in_int64 (some n) = if ltb n (2 ^ 63) then some n else none

-- strconv.Atoi where its result is above zero: a leading minus gives none of those.
unfoldable pub atoi_positive : List ℕ → Option ℕ
unfolding digits_value
atoi_positive [] = none
atoi_positive (c ∷ cs) =
    let value = in_int64 (at_least_one_digit (if c == b'+' then cs else c ∷ cs)) in
    if c == b'-'
    then none
    else elim value [ none ↦ none | some n ↦ if ltb 0 n then some n else none ]

-- The decimal digits of a number, with fuel.
unfoldable pub print_nat_from : ℕ → ℕ → List ℕ
print_nat_from zero n = []
print_nat_from (suc fuel) n =
    let rest = print_nat_from fuel (n / 10) ++ (b'0' + n % 10) ∷ [] in
    if ltb n 10 then (b'0' + n) ∷ [] else rest

-- %d of a number below 2 ^ 64: twenty digits are enough.
unfoldable pub print_nat : ℕ → List ℕ
unfolding print_nat_from
print_nat n = print_nat_from 20 n

-- %d of an int that holds the low 64 bits of `n`.
unfoldable pub print_int64 : ℕ → List ℕ
unfolding print_nat
print_int64 n =
    let w = n % 2 ^ 64 in if ltb w (2 ^ 63) then print_nat w else b'-' ∷ print_nat (2 ^ 64 - w)

abbrev pub last_of : ℕ → List ℕ → ℕ
last_of c [] = c
last_of c (d ∷ ds) = last_of d ds

abbrev pub but_last : ℕ → List ℕ → List ℕ
but_last c [] = []
but_last c (d ∷ ds) = c ∷ but_last d ds

abbrev duration_of : ℕ → ℕ → List ℕ
duration_of unit n =
    if unit == b'j'
    then print_int64 (n * 24) ++ codes "h0m0s"
    else (if unit == b'h'
        then print_int64 n ++ codes "h0m0s"
        else (if unit == b'm' then codes "0h" ++ print_int64 n ++ codes "m0s" else []))

-- From the trimmed text on: the last character is the unit.
unfoldable pub ttl_of_trimmed : List ℕ → List ℕ
unfolding atoi_positive print_int64 codes
ttl_of_trimmed [] = []
ttl_of_trimmed (c ∷ cs) = elim (atoi_positive (but_last c cs)) [
  | none ↦ []
  | some n ↦ duration_of (last_of c cs) n
]

unfoldable pub velero_ttl_from_short : List ℕ → List ℕ
unfolding ttl_of_trimmed lower_all trim_space
velero_ttl_from_short text = ttl_of_trimmed (trim_space (lower_all text))

thirty_days : velero_ttl_from_short (codes " 30J") ≡ codes "720h0m0s"
unfolding velero_ttl_from_short
thirty_days = refl
