-- ===== src/Info/Shrink.antt =====
-- The readers on any string: each round reads at least one character, so the fuel is enough, and a
-- removal never makes the string longer.
use reapi.Info.Text.{backslash, strn_eq, has_char}
use reapi.Info.{
  copy_part, close_part, skip_slash, advance, text_between, compare_size, remove_parts, remove_key,
}
use reapi.Prelude.{
  ℕ, zero, suc, ◌+◌, ◌-◌, ◌≤◌, ◌<◌, ◌≡◌, ◌≢◌, refl, false, List, [], ◌∷◌, ◌++◌, length, take,
  if◌then◌else◌, arith, ok, fault, fuel, length-append,
}

pub copy_part-le : (n : ℕ) (s : List ℕ) → length (copy_part n s).1 ≤ length s
unfolding copy_part
copy_part-le n [] = omega arith
copy_part-le n (c ∷ s) = ground (arith, copy_part-le n s, copy_part-le (n + 1) s)

-- Each round reads at least one character.
pub copy_part-lt :
    (c : ℕ) (s : List ℕ) → length (copy_part 0 (skip_slash (c ∷ s))).1 < suc (length s)
unfolding copy_part skip_slash
copy_part-lt c s = ground (arith, copy_part-le 0 s, copy_part-le 1 s)

pub advance-le : (s : List ℕ) → length (advance s) ≤ length s
unfolding advance
advance-le [] = omega arith
advance-le (c ∷ s) = omega arith

pub copy_part-no_slash : (n : ℕ) (s : List ℕ) → has_char backslash (copy_part n s).0 ≡ false
unfolding copy_part has_char
copy_part-no_slash n [] = refl
copy_part-no_slash n (c ∷ s) = ground (arith, copy_part-no_slash n s, copy_part-no_slash (n + 1) s)

length-take-le : (n : ℕ) (s : List ℕ) → length (take n s) ≤ n
length-take-le zero s = omega arith
length-take-le (suc n) [] = omega arith
length-take-le (suc n) (c ∷ s) = omega (arith, length-take-le n s)

pub text_between-le :
    (s r : List ℕ) → length r ≤ length s → length (text_between s r) + length r ≤ length s
unfolding text_between
text_between-le s r h = omega (arith, length-take-le (length s - length r) s)

-- Where a round of the two readers ends.
abbrev pub next_part : ℕ → List ℕ → List ℕ
next_part c s = (copy_part 0 (advance (copy_part 0 (skip_slash (c ∷ s))).1)).1

pub next_part-lt : (c : ℕ) (s : List ℕ) → length (next_part c s) < suc (length s)
next_part-lt c s =
    let r = (copy_part 0 (skip_slash (c ∷ s))).1 in
    omega (arith, copy_part-lt c s, advance-le r, copy_part-le 0 (advance r))

remove_parts-ne_fuel : (n : ℕ) (key s : List ℕ) → length s < n → remove_parts n key s ≢ fault fuel
unfolding remove_parts close_part
remove_parts-ne_fuel zero key s h = elim h [ ]
remove_parts-ne_fuel (suc n) key [] h = ground arith
remove_parts-ne_fuel (suc n) key (c ∷ s) h =
    ground (arith, next_part-lt c s, remove_parts-ne_fuel n key (next_part c s))

-- The key that a round reads.
abbrev pub next_key : ℕ → List ℕ → List ℕ
next_key c s = (copy_part 0 (skip_slash (c ∷ s))).0

-- What a round that ends has done.
pub remove_parts-inversion :
    (n : ℕ) (key : List ℕ) (c : ℕ) (s s' : List ℕ)
    → remove_parts (suc n) key (c ∷ s) ≡ ok s'
    → (rest : List ℕ) × (remove_parts n key (next_part c s) ≡ ok rest)
      × (s' ≡ (
          if strn_eq (compare_size key) key (next_key c s)
          then rest
          else text_between (c ∷ s) (next_part c s) ++ rest))
unfolding remove_parts close_part
remove_parts-inversion n key c s s' e = ground arith

pub remove_parts-le :
    (n : ℕ) (key s s' : List ℕ) → remove_parts n key s ≡ ok s' → length s' ≤ length s
unfolding remove_parts
remove_parts-le zero key s s' e = cc
remove_parts-le (suc n) key [] s' e = ground arith
remove_parts-le (suc n) key (c ∷ s) s' e =
    let (rest, e', eq) = remove_parts-inversion n key c s s' e in
    let kept = text_between (c ∷ s) (next_part c s) in
    ground (
      arith,
      remove_parts-le n key (next_part c s) rest e',
      next_part-lt c s,
      text_between-le (c ∷ s) (next_part c s),
      length-append kept rest,
      eq,
    )

-- The loop of `Info_RemoveKey` always ends.
pub remove_key-ne_fuel : (s key : List ℕ) → remove_key s key ≢ fault fuel
unfolding remove_key
remove_key-ne_fuel s key = ground (arith, remove_parts-ne_fuel (suc (length s)) key s)

-- `Info_RemoveKey` never makes a string longer.
pub remove_key-le : (s key s' : List ℕ) → remove_key s key ≡ ok s' → length s' ≤ length s
unfolding remove_key
remove_key-le s key s' e = ground (arith, remove_parts-le (suc (length s)) key s s')
