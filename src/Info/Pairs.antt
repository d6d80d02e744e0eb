-- ===== src/Info/Pairs.antt =====
-- The abstract view of an info string: the list of its pairs, and what the loops of
-- reapi/common/info.cpp do on the text of such a list.
use reapi.Info.Text.{backslash, has_char}
use reapi.Info.{max_kv_len, copy_part, close_part}
use reapi.Prelude.{
  ℕ, ◌+◌, ◌≤◌, ◌<◌, ◌≡◌, refl, false, List, [], ◌∷◌, ◌++◌, length, All, ok, arith, length-append,
  lt→ltb,
}

abbrev pub Pair : Type 0
Pair = List ℕ × List ℕ

-- "\key\value" for each pair.
abbrev pub print : List Pair → List ℕ
print [] = []
print ((k, v) ∷ ps) = backslash ∷ (k ++ (backslash ∷ (v ++ print ps)))

-- What a key or a value has to be for the readers: no slash in it, and room for the NUL.
pub record IsPart (k : List ℕ) : Type 0 where
  pub no_slash : has_char backslash k ≡ false
  pub short : length k < max_kv_len

abbrev pub IsPairs : List Pair → Type 0
IsPairs = All (λ p. IsPart p.0 × IsPart p.1)

-- Where an inner loop stops.
abbrev pub AtSlash : List ℕ → Type 0
AtSlash [] = Unit {0}
AtSlash (c ∷ s) = c ≡ backslash

pub print-AtSlash : (ps : List Pair) → AtSlash (print ps)
print-AtSlash [] = tt
print-AtSlash ((k, v) ∷ ps) = refl

pub copy_part-append :
    (k rest : List ℕ) (n : ℕ)
    → has_char backslash k ≡ false
    → n + length k ≤ max_kv_len
    → AtSlash rest
    → copy_part n (k ++ rest) ≡ (k, rest)
unfolding copy_part has_char
copy_part-append [] [] n h b a = refl
copy_part-append [] (c ∷ rest) n h b a = ground arith
copy_part-append (c ∷ k) rest n h b a = ground (arith, copy_part-append k rest (n + 1))

pub close_part-IsPart : {k : List ℕ} → IsPart k → close_part k ≡ ok k
unfolding close_part
close_part-IsPart {k} h = rw (lt→ltb (length k) max_kv_len h.short)

pub length-le-print : (ps : List Pair) → length ps ≤ length (print ps)
length-le-print [] = omega arith
length-le-print ((k, v) ∷ ps) = omega (
  arith,
  length-le-print ps,
  length-append k (backslash ∷ (v ++ print ps)),
  length-append v (print ps),
)
