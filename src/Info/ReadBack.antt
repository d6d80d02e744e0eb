-- ===== src/Info/ReadBack.antt =====
-- What can be read back after `Info_SetValueForStarKey`, and that it keeps a string well-formed.
use mathlib.Core.List.{append-nil}
use reapi.Info.Lookup.{lookup, or_empty, value_for_key-print}
use reapi.Info.Pairs.{Pair, print, IsPart, IsPairs}
use reapi.Info.Remove.{removes, keeps, lookup-removed, removes_longer, str_eq→eq}
use reapi.Info.Stored.{
  is_team, stored_pair, others, rejection-none, stored_pair-IsPart, length-map,
  set_value_for_star_key-print,
}
use reapi.Info.Text.{str_eq, strn_eq, codes, to_lower}
use reapi.Info.WellFormed.{filterb-IsPairs}
use reapi.Info.Setter.{stored, new_pair, rejection, set_value_for_star_key}
use reapi.Info.{max_kv_len, compare_size, ValueBuffers, value_for_key}
use reapi.Prelude.{
  ℕ, ◌+◌, ◌-◌, ltb, ◌<◌, ◌≡◌, ◌≢◌, refl, sym, ap, ◌∙◌, true, false, Option, none, some, List, [],
  ◌∷◌, ◌++◌, map, length, All-append, if◌then◌else◌, arith, Returns, Bool-cases, inl, inr,
}

str_eq_refl : (k : List ℕ) → str_eq k k ≡ true
unfolding str_eq
str_eq_refl [] = refl
str_eq_refl (c ∷ k) = ground (arith, str_eq_refl k)

lookup-append_end :
    (k v : List ℕ) (ps : List Pair) → lookup k ps ≡ none → lookup k (ps ++ (k, v) ∷ []) ≡ some v
unfolding lookup
lookup-append_end k v [] e = rw (str_eq_refl k)
lookup-append_end k v ((j, w) ∷ ps) e = ground (arith, lookup-append_end k v ps)

lookup-append_other :
    (j k v : List ℕ) (ps : List Pair)
    → str_eq j k ≡ false
    → lookup j (ps ++ (k, v) ∷ []) ≡ lookup j ps
unfolding lookup
lookup-append_other j k v [] e = rw e
lookup-append_other j k v ((i, w) ∷ ps) e = ground (arith, lookup-append_other j k v ps)

compare_size_short :
    (n : ℕ) → n < max_kv_len → (if ltb (max_kv_len - 1) n then max_kv_len - 1 else n) ≡ n
compare_size_short n h = ground arith

removes_self : (key : List ℕ) → length key < max_kv_len → removes key (key, []) ≡ true
removes_self key h = rw (append-nil key) at (removes_longer key [] [] h)

-- What every look-up gives after a request for `key` has been stored.
abbrev pub expected : List ℕ → List ℕ → List ℕ → List Pair → Option (List ℕ)
expected key v j ps =
    if str_eq j key then some v else if removes key (j, []) then none else lookup j ps

lookup-stored :
    (key v j : List ℕ) (ps : List Pair)
    → length key < max_kv_len
    → lookup j (others key ps ++ (key, v) ∷ []) ≡ expected key v j ps
lookup-stored key v j ps h = elim (Bool-cases (str_eq j key)) [
  | inl e ↦
      rw (str_eq→eq j key e, str_eq_refl key)
        (lookup-append_end key v (others key ps)
          (lookup-removed key key ps ∙ rw (removes_self key h)))
  | inr e ↦ rw e (lookup-append_other j key v (others key ps) e ∙ lookup-removed key j ps)
]

stored-IsPairs :
    (ps : List Pair) (key value : List ℕ)
    → IsPairs ps
    → rejection key value ≡ none
    → IsPairs (others key ps ++ stored_pair key value ∷ [])
stored-IsPairs ps key value h r =
    let (hk, hv) = rejection-none key value r in
    All-append (λ p. IsPart p.0 × IsPart p.1) (others key ps) (stored_pair key value ∷ [])
      (filterb-IsPairs (keeps key) ps h) (stored_pair-IsPart key value hk hv, tt)

-- A request that passes the guards, with a value and room for it, and a key that the code does not
-- store in another case: the call succeeds, and on the string that it leaves `Info_ValueForKey`
-- gives the new value (in lower case for `team`) for the key, the empty string for any other key
-- that starts with it, and for all other keys what it gave before.
pub value_for_key-set_value_for_star_key :
    (ps : List Pair) (key value : List ℕ) (maxsize : ℕ) (j : List ℕ) (b : ValueBuffers)
    → IsPairs ps
    → rejection key value ≡ none
    → value ≢ []
    → length (print (others key ps)) + length (new_pair key value) < maxsize
    → (stored_pair key value).0 ≡ key
    → Returns (set_value_for_star_key (print ps) (some key) (some value) maxsize) (λ r.
      (r.0 ≡ stored)
      × Returns
          (value_for_key r.1 j b)
          (λ t. t.0 ≡ or_empty (expected key (stored_pair key value).1 j ps)))
value_for_key-set_value_for_star_key ps key value maxsize j b h r n room same =
    let qs = others key ps ++ stored_pair key value ∷ [] in
    (
      (stored, print qs),
      set_value_for_star_key-print ps key value maxsize h r n room,
      (refl, (_, value_for_key-print qs j b (stored-IsPairs ps key value h r), ap or_empty found)),
    )
  where
    found :
        lookup j (others key ps ++ stored_pair key value ∷ [])
        ≡ expected key (stored_pair key value).1 j ps
    found =
        ap (λ k. lookup j (others key ps ++ (k, (stored_pair key value).1) ∷ [])) same
        ∙ lookup-stored key (stored_pair key value).1 j ps ((rejection-none key value r).0.short)

lookup-append_found :
    (j old : List ℕ) (ps qs : List Pair) → lookup j ps ≡ some old → lookup j (ps ++ qs) ≡ some old
unfolding lookup
lookup-append_found j old [] qs e = cc
lookup-append_found j old ((k, w) ∷ ps) qs e = ground (arith, lookup-append_found j old ps qs)

strn_eq-length : (a b : List ℕ) → length a ≡ length b → strn_eq (length a) a b ≡ str_eq a b
unfolding strn_eq str_eq
strn_eq-length [] [] h = refl
strn_eq-length [] (y ∷ b) h = absurd (omega arith)
strn_eq-length (x ∷ a) [] h = absurd (omega arith)
strn_eq-length (x ∷ a) (y ∷ b) h = rw (strn_eq-length a b (omega arith))

length-is_team : (key : List ℕ) → is_team key ≡ true → length key ≡ 4
length-is_team key h =
    sym (length-map to_lower key) ∙ ap length (str_eq→eq (map to_lower key) (codes "team") h)

team-kept :
    (key : List ℕ)
    → is_team key ≡ true
    → str_eq key (codes "team") ≡ false
    → removes key (codes "team", []) ≡ false
unfolding removes compare_size
team-kept key h n =
    let four = length-is_team key h in
    rw (compare_size_short (length key) (omega (arith, four)))
      (strn_eq-length key (codes "team") four ∙ n)

-- A key that differs from `team` only in case, on a string that has a pair for `team`: the code
-- removes the pairs of the key as it was given and stores the new pair under `team`, behind the old
-- one, so `Info_ValueForKey` goes on giving the old team.
pub team_shadowed :
    (ps : List Pair) (key value old : List ℕ) (maxsize : ℕ) (b : ValueBuffers)
    → IsPairs ps
    → rejection key value ≡ none
    → value ≢ []
    → length (print (others key ps)) + length (new_pair key value) < maxsize
    → is_team key ≡ true
    → str_eq key (codes "team") ≡ false
    → lookup (codes "team") ps ≡ some old
    → Returns
        (set_value_for_star_key (print ps) (some key) (some value) maxsize)
        (λ r. (r.0 ≡ stored) × Returns (value_for_key r.1 (codes "team") b) (λ t. t.0 ≡ old))
team_shadowed ps key value old maxsize b h r n room team differs e =
    let qs = others key ps ++ stored_pair key value ∷ [] in
    (
      (stored, print qs),
      set_value_for_star_key-print ps key value maxsize h r n room,
      (
        refl,
        (
          _,
          value_for_key-print qs (codes "team") b (stored-IsPairs ps key value h r),
          ap or_empty (
              lookup-append_found (codes "team") old (others key ps) (stored_pair key value ∷ [])
                (lookup-removed key (codes "team") ps ∙ rw (team-kept key team differs) e)),
        ),
      ),
    )
