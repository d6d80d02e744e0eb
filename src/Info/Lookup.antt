-- ===== src/Info/Lookup.antt =====
-- `Info_ValueForKey` against the first pair with the key.
use reapi.Info.Pairs.{
  Pair, print, IsPairs, print-AtSlash, copy_part-append, close_part-IsPart, length-le-print,
}
use reapi.Info.Text.{backslash, str_eq}
use reapi.Info.{
  ValueBuffers, info_max_buffer_values, copy_part, close_part, skip_slash, find_value, update,
  value_for_key,
}
use reapi.Prelude.{
  ℕ, zero, suc, ◌+◌, ◌%◌, ◌<◌, ◌≡◌, refl, ◌≢◌, Bool, true, false, Option, none, some, Option-cases,
  List, [], ◌∷◌, ◌++◌, length, if◌then◌else◌, ok, arith, Bool-cases, inl, inr,
}

-- The value of the first pair with the key.
unfoldable pub lookup : List ℕ → List Pair → Option (List ℕ)
lookup key [] = none
lookup key ((k, v) ∷ ps) = if str_eq key k then some v else lookup key ps

-- What the buffer of the call holds at the end: the value found, or the last value read.
unfoldable pub last_read : List ℕ → List ℕ → List Pair → List ℕ
last_read key slot [] = slot
last_read key slot ((k, v) ∷ ps) = if str_eq key k then v else last_read key v ps

abbrev pub is_some : Option (List ℕ) → Bool
is_some none = false
is_some (some v) = true

abbrev pub or_empty : Option (List ℕ) → List ℕ
or_empty none = []
or_empty (some v) = v

-- One round, by what the two inner loops and the two terminators give.
find_value_round :
    (n : ℕ) (key slot : List ℕ) (c slash : ℕ) (s k v r r' : List ℕ)
    → copy_part 0 (skip_slash (c ∷ s)) ≡ (k, slash ∷ r)
    → close_part k ≡ ok k
    → copy_part 0 r ≡ (v, r')
    → close_part v ≡ ok v
    → find_value (suc n) key slot (c ∷ s)
      ≡ (if str_eq key k then ok (true, v) else find_value n key v r')
unfolding find_value
find_value_round n key slot c slash s k v r r' e f g h =
    rw (e, find_value)
      (simp (e, f, g, h) (elim (Bool-cases (str_eq key k)) [ inl t ↦ rw t | inr t ↦ rw (t, g) ]))

find_value-print :
    (n : ℕ) (key slot : List ℕ) (ps : List Pair)
    → IsPairs ps
    → length ps < n
    → find_value n key slot (print ps) ≡ ok (is_some (lookup key ps), last_read key slot ps)
unfolding find_value lookup last_read skip_slash
find_value-print zero key slot ps h f = elim f [ ]
find_value-print (suc n) key slot [] h f = refl
find_value-print (suc n) key slot ((k, v) ∷ ps) h f =
    rw
      (find_value_round n key slot backslash backslash (k ++ (backslash ∷ (v ++ print ps))) k v
        (v ++ print ps) (print ps)
        (copy_part-append k (backslash ∷ (v ++ print ps)) 0 h.0.0.no_slash
          (omega (arith, h.0.0.short)) refl)
        (close_part-IsPart h.0.0)
        (copy_part-append v (print ps) 0 h.0.1.no_slash (omega (arith, h.0.1.short))
          (print-AtSlash ps))
        (close_part-IsPart h.0.1))
      (elim (Bool-cases (str_eq key k)) [
        | inl e ↦ rw e
        | inr e ↦ rw e (find_value-print n key v ps h.1 (omega arith))
      ])

last_read-lookup :
    (key slot : List ℕ) (ps : List Pair) (v : List ℕ)
    → lookup key ps ≡ some v
    → last_read key slot ps ≡ v
unfolding lookup last_read
last_read-lookup key slot [] v e = cc
last_read-lookup key slot ((k, w) ∷ ps) v e = ground (arith, last_read-lookup key w ps v)

-- On the text of a list of pairs, every key and value of which has no slash and is short enough,
-- the code writes past no array and returns the value of the first pair with the key, or the empty
-- string if there is none. The index of the static buffers moves on exactly when the key is found,
-- and no other buffer changes.
pub value_for_key-print :
    (ps : List Pair) (key : List ℕ) (b : ValueBuffers)
    → IsPairs ps
    → value_for_key (print ps) key b
      ≡ ok (
        or_empty (lookup key ps),
        record {
          value = update b.valueindex (last_read key (b.value b.valueindex) ps) b.value;
          valueindex =
              if is_some (lookup key ps)
              then (b.valueindex + 1) % info_max_buffer_values
              else b.valueindex;
        },
      )
unfolding value_for_key
value_for_key-print ps key b h =
    rw
      (find_value-print (suc (length (print ps))) key (b.value b.valueindex) ps h
        (omega (arith, length-le-print ps)))
      (elim (Option-cases (lookup key ps)) [
        | inl e ↦ rw e
        | inr (v, e) ↦ rw (e, last_read-lookup key (b.value b.valueindex) ps v e)
      ])

-- Two calls in a row that return, on any strings, the index of the buffers being in bounds at the
-- start: a text that the first one found, if it is not empty, is still in its buffer when the second
-- has returned, and the index is in bounds after the first.
value_for_key_apart :
    (s s' key key' t t' : List ℕ) (b b' b'' : ValueBuffers)
    → b.valueindex < info_max_buffer_values
    → value_for_key s key b ≡ ok (t, b')
    → t ≢ []
    → value_for_key s' key' b' ≡ ok (t', b'')
    → (b''.value b.valueindex ≡ t) × (b'.valueindex < info_max_buffer_values)
unfolding value_for_key
value_for_key_apart s s' key key' t t' b b' b'' i e n e' = ground arith
