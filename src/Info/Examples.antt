-- ===== src/Info/Examples.antt =====
-- The theorems on info strings at concrete strings.
use reapi.Info.Lookup.{value_for_key-print, or_empty, is_some, lookup, last_read}
use reapi.Info.Overflow.{oversized_overflow, with_key}
use reapi.Info.Pairs.{Pair, print, IsPairs}
use reapi.Info.Preserve.{set_value_for_star_key-IsInfo}
use reapi.Info.ReadBack.{value_for_key-set_value_for_star_key, team_shadowed, expected}
use reapi.Info.Remove.{remove_key-print, keeps, removes}
use reapi.Info.Star.{set_value_for_star_key-ne_fuel, set_value_for_star_key-lt}
use reapi.Info.Stored.{others, stored_pair, is_team}
use reapi.Info.Text.{codes, backslash, has_char, str_eq, has_double, strn_eq, to_lower}
use reapi.Info.WellFormed.{IsInfo}
use reapi.Info.Setter.{null_argument, set_value_for_star_key, stored, rejection, new_pair}
use reapi.Info.{ValueBuffers, value_for_key, remove_key, update, find_largest_key, compare_size}
use reapi.Prelude.{
  ℕ, zero, suc, ◌+◌, ◌≤◌, ◌<◌, ◌≡◌, ◌≢◌, refl, true, false, none, some, List, [], ◌∷◌, length,
  filterb, if◌then◌else◌, arith, ok, fault, fuel, overflow, Returns,
}

abbrev two_pairs : List Pair
two_pairs = (codes "name", codes "gordon") ∷ (codes "team", codes "blue") ∷ []

abbrev no_values : ValueBuffers
no_values = record { value = λ _. []; valueindex = 0 }

two_pairs-IsPairs : IsPairs two_pairs
unfolding has_char
two_pairs-IsPairs = (
  (
    record { no_slash = refl; short = omega arith },
    record { no_slash = refl; short = omega arith },
  ),
  (
    (
      record { no_slash = refl; short = omega arith },
      record { no_slash = refl; short = omega arith },
    ),
    tt,
  ),
)

accepts_name : rejection (codes "name") (codes "barney") ≡ none
unfolding rejection has_char has_double str_eq
accepts_name = refl

name_kept : (stored_pair (codes "name") (codes "barney")).0 ≡ codes "name"
unfolding str_eq stored_pair to_lower
name_kept = refl

name_fits :
    length (print (others (codes "name") two_pairs))
      + length (new_pair (codes "name") (codes "barney"))
    < 256
unfolding removes compare_size strn_eq new_pair
name_fits = omega arith

value_for_key-set_value_for_star_key_example :
    Returns
      (set_value_for_star_key (print two_pairs) (some (codes "name")) (some (codes "barney")) 256)
      (λ r.
        (r.0 ≡ stored)
        × Returns (value_for_key r.1 (codes "team") no_values) (λ t.
          t.0
          ≡ or_empty (
              expected
                (codes "name")
                (stored_pair (codes "name") (codes "barney")).1
                (codes "team")
                two_pairs)))
value_for_key-set_value_for_star_key_example =
    value_for_key-set_value_for_star_key two_pairs (codes "name") (codes "barney") 256
      (codes "team") no_values two_pairs-IsPairs accepts_name (λ e. cc) name_fits name_kept

set_value_for_star_key-IsInfo_example :
    Returns
      (set_value_for_star_key (print two_pairs) (some (codes "na")) (some []) 30)
      (λ r. IsInfo r.1)
set_value_for_star_key-IsInfo_example =
    set_value_for_star_key-IsInfo (print two_pairs) (some (codes "na")) (some []) 30
      (two_pairs, refl, two_pairs-IsPairs)

set_value_for_star_key-ne_fuel_example :
    set_value_for_star_key (print two_pairs) (some (codes "name")) (some (codes "eli")) 20
    ≢ fault fuel
set_value_for_star_key-ne_fuel_example =
    set_value_for_star_key-ne_fuel (print two_pairs) (some (codes "name")) (some (codes "eli")) 20

two_pairs_short : length (print two_pairs) < 40
two_pairs_short = omega arith

stored_short :
    set_value_for_star_key (print two_pairs) none (some (codes "eli")) 40
    ≡ ok (null_argument, print two_pairs)
unfolding set_value_for_star_key
stored_short = refl

set_value_for_star_key-lt_example : length (print two_pairs) < 40
set_value_for_star_key-lt_example =
    set_value_for_star_key-lt (print two_pairs) none (some (codes "eli")) 40 null_argument
      (print two_pairs) two_pairs_short stored_short

value_for_key-print_example :
    value_for_key (print two_pairs) (codes "name") no_values
    ≡ ok (
      or_empty (lookup (codes "name") two_pairs),
      record {
        value = update 0 (last_read (codes "name") [] two_pairs) (λ _. []);
        valueindex = if is_some (lookup (codes "name") two_pairs) then 1 else 0;
      },
    )
value_for_key-print_example =
    value_for_key-print two_pairs (codes "name") no_values two_pairs-IsPairs

no_slash_na : has_char backslash (codes "na") ≡ false
unfolding has_char
no_slash_na = refl

remove_key-print_example :
    remove_key (print two_pairs) (codes "na") ≡ ok (print (filterb (keeps (codes "na")) two_pairs))
remove_key-print_example = remove_key-print two_pairs (codes "na") two_pairs-IsPairs no_slash_na

accepts_team : rejection (codes "TEAM") (codes "Red") ≡ none
unfolding rejection has_char has_double str_eq
accepts_team = refl

team_fits :
    length (print (others (codes "TEAM") two_pairs))
      + length (new_pair (codes "TEAM") (codes "Red"))
    < 256
unfolding removes compare_size strn_eq new_pair
team_fits = omega arith

team_lowered : is_team (codes "TEAM") ≡ true
unfolding str_eq to_lower
team_lowered = refl

team_differs : str_eq (codes "TEAM") (codes "team") ≡ false
unfolding str_eq
team_differs = refl

blue_before : lookup (codes "team") two_pairs ≡ some (codes "blue")
unfolding lookup str_eq
blue_before = refl

team_shadowed_example :
    Returns
      (set_value_for_star_key (print two_pairs) (some (codes "TEAM")) (some (codes "Red")) 256)
      (λ r.
        (r.0 ≡ stored)
        × Returns (value_for_key r.1 (codes "team") no_values) (λ t. t.0 ≡ codes "blue"))
team_shadowed_example =
    team_shadowed two_pairs (codes "TEAM") (codes "Red") (codes "blue") 256 no_values
      two_pairs-IsPairs accepts_team (λ e. cc) team_fits team_lowered team_differs blue_before

-- A key of 127 characters.
abbrev copies : ℕ → List ℕ
copies zero = []
copies (suc n) = 97 ∷ copies n

long_no_slash : has_char backslash (copies 127) ≡ false
unfolding has_char
long_no_slash = refl

key_no_slash : has_char backslash (codes "name") ≡ false
unfolding has_char
key_no_slash = refl

long_length : 127 ≤ length (copies 127)
long_length = omega arith

oversized_overflow_example :
    (value_for_key (with_key (copies 127) []) (codes "name") no_values ≡ fault overflow)
    × (remove_key (with_key (copies 127) []) (codes "name") ≡ fault overflow)
    × (find_largest_key (with_key (copies 127) []) ≡ fault overflow)
oversized_overflow_example =
    oversized_overflow (copies 127) [] long_no_slash long_length (codes "name") no_values
      key_no_slash
