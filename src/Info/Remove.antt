-- ===== src/Info/Remove.antt =====
-- `Info_RemoveKey`: which pairs go, and how the length changes on any string.
use mathlib.Core.List.{append_assoc}
use reapi.Info.Lookup.{lookup}
use reapi.Info.Pairs.{
  Pair, print, IsPairs, print-AtSlash, copy_part-append, close_part-IsPart, length-le-print,
}
use reapi.Info.Text.{backslash, str_eq, strn_eq, has_char}
use reapi.Info.{
  max_kv_len, copy_part, close_part, skip_slash, advance, text_between, compare_size, remove_parts,
  remove_key,
}
use reapi.Prelude.{
  ℕ, zero, suc, sym, ◌+◌, ◌-◌, ◌<◌, ◌≡◌, refl, ap, Bool, true, false, not, none, List, [], ◌∷◌,
  ◌++◌, length, take, filterb, if◌then◌else◌, ok, arith, Bool-cases, inl, inr, length-append, ◌>>=◌,
}

-- `key` removes the pair: the code compares only the first `compare_size key` characters.
unfoldable pub removes : List ℕ → Pair → Bool
removes key p = strn_eq (compare_size key) key p.0

abbrev pub keeps : List ℕ → Pair → Bool
keeps key p = not (removes key p)

take-append : (p rest : List ℕ) → take (length p) (p ++ rest) ≡ p
take-append [] rest = refl
take-append (x ∷ p) rest = ap (◌∷◌ x) (take-append p rest)

text_between-append : (p rest : List ℕ) → text_between (p ++ rest) rest ≡ p
unfolding text_between
text_between-append p rest = rw (length-append p rest) (
    let e : length p + length rest - length rest ≡ length p = omega arith in
    rw e (take-append p rest))

print-cons :
    (k v : List ℕ) (ps : List Pair)
    → print ((k, v) ∷ ps) ≡ (backslash ∷ (k ++ (backslash ∷ v))) ++ print ps
print-cons k v ps = ap (◌∷◌ backslash) (sym (append_assoc k (backslash ∷ v) (print ps)))

text_between-pair :
    (k v rest : List ℕ)
    → text_between (backslash ∷ (k ++ (backslash ∷ (v ++ rest)))) rest
      ≡ backslash ∷ (k ++ (backslash ∷ v))
text_between-pair k v rest =
    rw (← append_assoc k (backslash ∷ v) rest)
      (text_between-append (backslash ∷ (k ++ (backslash ∷ v))) rest)

remove_parts_round :
    (n : ℕ) (key : List ℕ) (c : ℕ) (s k v r r' : List ℕ)
    → copy_part 0 (skip_slash (c ∷ s)) ≡ (k, r)
    → close_part k ≡ ok k
    → copy_part 0 (advance r) ≡ (v, r')
    → close_part v ≡ ok v
    → remove_parts (suc n) key (c ∷ s) ≡ (
        remove_parts n key r' >>= λ rest.
        ok (if strn_eq (compare_size key) key k then rest else text_between (c ∷ s) r' ++ rest))
unfolding remove_parts
remove_parts_round n key c s k v r r' e f g h = rw (e, remove_parts) (simp (f, g, h))

remove_parts-print :
    (n : ℕ) (key : List ℕ) (ps : List Pair)
    → IsPairs ps
    → length ps < n
    → remove_parts n key (print ps) ≡ ok (print (filterb (keeps key) ps))
unfolding remove_parts skip_slash removes advance
remove_parts-print zero key ps h f = elim f [ ]
remove_parts-print (suc n) key [] h f = refl
remove_parts-print (suc n) key ((k, v) ∷ ps) h f =
    rw
      (
        remove_parts_round n key backslash (k ++ (backslash ∷ (v ++ print ps))) k v
            (backslash ∷ (v ++ print ps)) (print ps)
            (copy_part-append k (backslash ∷ (v ++ print ps)) 0 h.0.0.no_slash
              (omega (arith, h.0.0.short)) refl)
            (close_part-IsPart h.0.0)
            (copy_part-append v (print ps) 0 h.0.1.no_slash (omega (arith, h.0.1.short))
              (print-AtSlash ps))
            (close_part-IsPart h.0.1),
        remove_parts-print n key ps h.1 (omega arith),
      )
      (elim (Bool-cases (strn_eq (compare_size key) key k)) [
        | inl e ↦ rw e
        | inr e ↦
            rw (e, text_between-pair k v (print ps))
              (ap ok (sym (print-cons k v (filterb (keeps key) ps))))
      ])

-- On the text of a list of pairs, every key and value of which has no slash and is short enough, and
-- for a key without a slash, `Info_RemoveKey` writes past no array and takes out exactly the pairs
-- whose key agrees with the given one on its first `compare_size` characters. The other pairs stay
-- as they are and in their order.
pub remove_key-print :
    (ps : List Pair) (key : List ℕ)
    → IsPairs ps
    → has_char backslash key ≡ false
    → remove_key (print ps) key ≡ ok (print (filterb (keeps key) ps))
unfolding remove_key
remove_key-print ps key h b =
    rw b (remove_parts-print (suc (length (print ps))) key ps h (omega (arith, length-le-print ps)))

pub str_eq→eq : (a b : List ℕ) → str_eq a b ≡ true → a ≡ b
unfolding str_eq
str_eq→eq [] [] h = refl
str_eq→eq [] (y ∷ b) h = cc
str_eq→eq (x ∷ a) [] h = cc
str_eq→eq (x ∷ a) (y ∷ b) h = ground (arith, str_eq→eq a b)

-- What a removal does to every later look-up: a key that the removed one is compared equal to is
-- gone, and any other key has the value that it had.
pub lookup-removed :
    (key j : List ℕ) (ps : List Pair)
    → lookup j (filterb (keeps key) ps) ≡ (if removes key (j, []) then none else lookup j ps)
unfolding lookup removes
lookup-removed key j [] = ground arith
lookup-removed key j ((k, v) ∷ ps) = ground (arith, lookup-removed key j ps, str_eq→eq j k)

strn_eq_prefix : (key t : List ℕ) → strn_eq (length key) key (key ++ t) ≡ true
unfolding strn_eq
strn_eq_prefix [] t = refl
strn_eq_prefix (c ∷ key) t = ground (arith, strn_eq_prefix key t)

-- A key that fits its array also removes every pair whose key only starts with it: `na` removes
-- `name`.
pub removes_longer : (key t v : List ℕ) → length key < max_kv_len → removes key (key ++ t, v) ≡ true
unfolding removes compare_size
removes_longer key t v h = ground (arith, strn_eq_prefix key t)
