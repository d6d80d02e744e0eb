-- ===== src/Info/Stored.antt =====
-- `Info_SetValueForStarKey` on well-formed strings: what it stores, and what can be read back.
use mathlib.Core.List.{append-nil, append_assoc, map-append}
use reapi.Info.Pairs.{Pair, print, IsPart, IsPairs}
use reapi.Info.Remove.{keeps, remove_key-print}
use reapi.Info.Text.{backslash, str_eq, codes, to_lower, has_char}
use reapi.Info.Setter.{
  stored, new_pair, append_pair, rejection, replace_pair, set_value_for_star_key,
}
use reapi.Info.{max_info_string, remove_key}
use reapi.Prelude.{
  ℕ, zero, suc, ◌+◌, ◌-◌, ◌≤◌, ◌<◌, ◌≡◌, ◌≢◌, refl, sym, ap, ◌∙◌, Bool, false, none, some, List, [],
  ◌∷◌, ◌++◌, map, length, take, filterb, leb, ◌==◌, if◌then◌else◌, arith, ok, length-append,
  Bool-cases, inl, inr,
}

-- The code asks `_stricmp(key, "team") == 0`.
abbrev pub is_team : List ℕ → Bool
is_team key = str_eq (map to_lower key) (codes "team")

-- The pair that a request stores: key and value in lower case for the key `team`.
unfoldable pub stored_pair : List ℕ → List ℕ → Pair
stored_pair key value = if is_team key then (map to_lower key, map to_lower value) else (key, value)

print-append : (ps qs : List Pair) → print (ps ++ qs) ≡ print ps ++ print qs
print-append [] qs = refl
print-append ((k, v) ∷ ps) qs = simp (print-append ps qs, append_assoc)

take-all : (n : ℕ) (s : List ℕ) → length s ≤ n → take n s ≡ s
take-all zero [] h = refl
take-all zero (c ∷ s) h = elim h [ ]
take-all (suc n) [] h = refl
take-all (suc n) (c ∷ s) h = ap (◌∷◌ c) (take-all n s (omega arith))

-- A key and a value that pass the guards fit the buffer of the new pair.
pub new_pair-print : (k v : List ℕ) → IsPart k → IsPart v → new_pair k v ≡ print ((k, v) ∷ [])
unfolding new_pair
new_pair-print k v hk hv = rw (append-nil v) (
    take-all (max_info_string - 2) (backslash ∷ (k ++ (backslash ∷ v)))
      (omega (arith, length-append k (backslash ∷ v), hk.short, hv.short)))

to_lower-backslash : (c : ℕ) → (to_lower c == backslash) ≡ (c == backslash)
unfolding to_lower
to_lower-backslash c = ground arith

has_char-map : (k : List ℕ) → has_char backslash (map to_lower k) ≡ has_char backslash k
unfolding has_char
has_char-map [] = refl
has_char-map (c ∷ k) = rw (to_lower-backslash c, has_char-map k)

pub length-map : (f : ℕ → ℕ) (s : List ℕ) → length (map f s) ≡ length s
length-map f [] = refl
length-map f (c ∷ s) = omega (arith, length-map f s)

IsPart-map : (k : List ℕ) → IsPart k → IsPart (map to_lower k)
IsPart-map k h = record {
  no_slash = has_char-map k ∙ h.no_slash;
  short = rw (length-map to_lower k) h.short;
}

pub stored_pair-IsPart :
    (k v : List ℕ) → IsPart k → IsPart v → IsPart (stored_pair k v).0 × IsPart (stored_pair k v).1
unfolding stored_pair
stored_pair-IsPart k v hk hv = elim (Bool-cases (is_team k)) [
  | inl e ↦ rw e (IsPart-map k hk, IsPart-map v hv)
  | inr e ↦ rw e (hk, hv)
]

map-print :
    (k v : List ℕ)
    → map to_lower (print ((k, v) ∷ [])) ≡ print ((map to_lower k, map to_lower v) ∷ [])
unfolding to_lower
map-print k v = simp (map-append, append-nil)

pub append_pair-print :
    (ps : List Pair) (k v : List ℕ)
    → append_pair (print ps) k (print ((k, v) ∷ [])) ≡ print (ps ++ stored_pair k v ∷ [])
unfolding append_pair stored_pair
append_pair-print ps k v = elim (Bool-cases (is_team k)) [
  | inl e ↦ rw (e, map-print k v) (sym (print-append ps _))
  | inr e ↦ rw e (sym (print-append ps _))
]

pub leb_of_lt : {a b : ℕ} → a < b → leb b a ≡ false
leb_of_lt {a} {b} h = ground arith

-- What the guards let through.
pub rejection-none : (key value : List ℕ) → rejection key value ≡ none → IsPart key × IsPart value
unfolding rejection
rejection-none [] value e = cc
rejection-none (c ∷ k) value e = (
  record { no_slash = ground arith; short = ground arith },
  record { no_slash = ground arith; short = ground arith },
)

-- The string behind which the new pair goes.
abbrev pub others : List ℕ → List Pair → List Pair
others key ps = filterb (keeps key) ps

pub replace_pair_fits :
    (s key v s' : List ℕ) (c maxsize : ℕ)
    → remove_key s key ≡ ok s'
    → leb maxsize (length s' + length (new_pair key (c ∷ v))) ≡ false
    → replace_pair s key (c ∷ v) maxsize ≡ ok (stored, append_pair s' key (new_pair key (c ∷ v)))
unfolding replace_pair
replace_pair_fits s key v s' c maxsize q b = ground arith

-- A request that passes the guards, with a value, on a well-formed string: if there is room without
-- removing other keys, the pairs that `Info_RemoveKey` takes for the key go and the new pair goes
-- behind all others.
pub set_value_for_star_key-print :
    (ps : List Pair) (key value : List ℕ) (maxsize : ℕ)
    → IsPairs ps
    → rejection key value ≡ none
    → value ≢ []
    → length (print (others key ps)) + length (new_pair key value) < maxsize
    → set_value_for_star_key (print ps) (some key) (some value) maxsize
      ≡ ok (stored, print (others key ps ++ stored_pair key value ∷ []))
unfolding set_value_for_star_key
set_value_for_star_key-print ps key [] maxsize h r n room = absurd (n refl)
set_value_for_star_key-print ps key (c ∷ v) maxsize h r n room =
    let (hk, hv) = rejection-none key (c ∷ v) r in
    rw (r, set_value_for_star_key)
      (replace_pair_fits (print ps) key v (print (others key ps)) c maxsize
          (remove_key-print ps key h hk.no_slash) (leb_of_lt room)
        ∙ ap (λ t. ok (stored, t))
            (rw (new_pair-print key (c ∷ v) hk hv) (append_pair-print (others key ps) key (c ∷ v))))
