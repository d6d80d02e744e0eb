-- ===== src/Info/WellFormed.antt =====
-- On well-formed strings, those that are the text of a list of pairs, the functions that change an
-- info string write past no array and leave a well-formed string.
use reapi.Info.Largest.{remove_key-largest-lt}
use reapi.Info.Pairs.{
  Pair, print, IsPairs, AtSlash, print-AtSlash, close_part-IsPart, length-le-print,
}
use reapi.Info.Remove.{keeps, remove_key-print}
use reapi.Info.Text.{backslash, has_char}
use reapi.Info.Setter.{make_room}
use reapi.Info.{
  stopped, max_kv_len, copy_strict, skip_slash, remove_key, is_key_important, find_largest,
  find_largest_key,
}
use reapi.Prelude.{
  ℕ, zero, suc, ◌+◌, ◌≤◌, ◌<◌, ◌≡◌, refl, ap, ◌∙◌, Bool, true, false, not, ◌&&◌, List, [], ◌∷◌,
  ◌++◌, length, filterb, leb, ltb, if◌then◌else◌, arith, ok, Returns, Bool-cases, inl, inr,
}

-- A well-formed info string.
abbrev pub IsInfo : List ℕ → Type 0
IsInfo s = (ps : List Pair) × (s ≡ print ps) × IsPairs ps

pub filterb-IsPairs : (p : Pair → Bool) (ps : List Pair) → IsPairs ps → IsPairs (filterb p ps)
filterb-IsPairs p [] h = tt
filterb-IsPairs p (x ∷ ps) h = ground (arith, filterb-IsPairs p ps h.1)

pub remove_key-IsInfo : (s key : List ℕ) → IsInfo s → Returns (remove_key s key) IsInfo
remove_key-IsInfo s key (ps, e, h) = elim (Bool-cases (has_char backslash key)) [
  | inl b ↦ (s, unfold remove_key in rw b, (ps, e, h))
  | inr b ↦ (
    print (filterb (keeps key) ps),
    rw e (remove_key-print ps key h b),
    (filterb (keeps key) ps, refl, filterb-IsPairs (keeps key) ps h),
  )
]

copy_strict-append :
    (k rest : List ℕ) (n : ℕ)
    → has_char backslash k ≡ false
    → n + length k ≤ max_kv_len
    → AtSlash rest
    → copy_strict n (k ++ rest) ≡ stopped k rest
unfolding copy_strict has_char
copy_strict-append [] [] n h b a = refl
copy_strict-append [] (c ∷ rest) n h b a = ground arith
copy_strict-append (c ∷ k) rest n h b a = ground (arith, copy_strict-append k rest (n + 1))

find_largest-print :
    (n size : ℕ) (largest : List ℕ) (ps : List Pair)
    → IsPairs ps
    → length ps < n
    → (k : List ℕ) × (find_largest n size largest (print ps) ≡ ok k)
unfolding find_largest skip_slash
find_largest-print zero size largest ps h f = elim f [ ]
find_largest-print (suc n) size largest [] h f = (largest, refl)
find_largest-print (suc n) size largest ((k, v) ∷ ps) h f =
    let larger : Bool = ltb size (length k + length v) && not (is_key_important k) in
    let (j, e) =
      find_largest-print n (if larger then length k + length v else size)
        (if larger then k else largest) ps h.1 (omega arith) in
    (
      j,
      rw
          (
            copy_strict-append k (backslash ∷ (v ++ print ps)) 0 h.0.0.no_slash
                (omega (arith, h.0.0.short)) refl,
            find_largest,
          )
          (rw (close_part-IsPart h.0.0) (
            rw
              (
                copy_strict-append v (print ps) 0 h.0.1.no_slash (omega (arith, h.0.1.short))
                    (print-AtSlash ps),
                find_largest,
              )
              (rw (close_part-IsPart h.0.1) e))),
    )

module _ (n needed maxsize : ℕ) (s k t : List ℕ) (c : ℕ) where
  make_room_removed :
      find_largest_key s ≡ ok (c ∷ k)
      → remove_key s (c ∷ k) ≡ ok t
      → make_room (suc n) needed maxsize s
        ≡ (if leb maxsize (length t + needed) then make_room n needed maxsize t else ok (true, t))
  unfolding make_room
  make_room_removed q r = rw q (simp r (ground arith))

pub make_room-IsInfo :
    (n needed maxsize : ℕ) (s : List ℕ)
    → IsInfo s
    → length s < n
    → Returns (make_room n needed maxsize s) (λ r. IsInfo r.1)
make_room-IsInfo zero needed maxsize s i h = elim h [ ]
make_room-IsInfo (suc n) needed maxsize s (ps, e, p) h =
    let (k, q) =
      find_largest-print (suc (length s)) 0 [] ps p
        (omega (arith, length-le-print ps, ap length e)) in
    round k (unfold find_largest_key in (ap (find_largest (suc (length s)) 0 []) e ∙ q))
      (λ t. make_room-IsInfo n needed maxsize t)
  where
    round :
        (k : List ℕ)
        → find_largest_key s ≡ ok k
        → ((t : List ℕ)
            → IsInfo t
            → length t < n
            → Returns (make_room n needed maxsize t) (λ r. IsInfo r.1))
        → Returns (make_room (suc n) needed maxsize s) (λ r. IsInfo r.1)
    round [] q ih = ((false, s), unfold make_room in rw q, (ps, e, p))
    round (c ∷ k) q ih =
        let (t, r, i) = remove_key-IsInfo s (c ∷ k) (ps, e, p) in
        let shorter = remove_key-largest-lt s (c ∷ k) t q (λ f. cc) r in
        elim (Bool-cases (leb maxsize (length t + needed))) [
          | inl b ↦
              let (u, f, j) = ih t i (omega arith) in
              (u, rw (make_room_removed n needed maxsize s k t c q r, b) f, j)
          | inr b ↦ ((true, t), rw (make_room_removed n needed maxsize s k t c q r, b), i)
        ]
