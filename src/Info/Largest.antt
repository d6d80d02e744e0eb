-- ===== src/Info/Largest.antt =====
-- `Info_FindLargestKey`, and why the loop that makes room by it ends.
use reapi.Info.Shrink.{
  copy_part-no_slash, text_between-le, next_part, next_part-lt, next_key, remove_parts-inversion,
  remove_parts-le,
}
use reapi.Info.Text.{backslash, strn_eq, has_char}
use reapi.Info.{
  Part, stopped, oversized, max_kv_len, copy_part, copy_strict, close_part, skip_slash, advance,
  text_between, compare_size, remove_parts, remove_key, is_key_important, find_largest,
  find_largest_key, prepend,
}
use reapi.Prelude.{
  ℕ, zero, suc, ◌+◌, ◌≤◌, ◌<◌, ◌≡◌, ◌≢◌, refl, ◌∙◌, ◌⊎◌, inl, inr, Bool, true, false, not, ◌&&◌,
  List, [], ◌∷◌, length, leb, ltb, ◌==◌, if◌then◌else◌, arith, ok, fault, fuel, length-append,
  Bool-cases,
}

-- A part that the strict loop reads to its end is read by the other loop in the same way; where its
-- array is full, no room is left for the NUL.
abbrev pub Agrees : ℕ → List ℕ → Part → Type 0
Agrees n s (stopped k r) = copy_part n s ≡ (k, r)
Agrees n s (oversized k) = max_kv_len ≤ n + length k

prepend-Agrees :
    (n c : ℕ) (s : List ℕ) (p : Part)
    → (c == backslash) ≡ false
    → n < max_kv_len
    → Agrees (n + 1) s p
    → Agrees n (c ∷ s) (prepend c p)
unfolding copy_part
prepend-Agrees n c s (stopped k r) b h a = ground arith
prepend-Agrees n c s (oversized k) b h a = omega arith

pub copy_strict-Agrees : (n : ℕ) (s : List ℕ) → Agrees n s (copy_strict n s)
unfolding copy_strict copy_part
copy_strict-Agrees n [] = refl
copy_strict-Agrees n (c ∷ s) = elim (Bool-cases (c == backslash)) [
  | inl e ↦ rw e (ground arith)
  | inr e ↦ elim (Bool-cases (leb max_kv_len n)) [
    | inl f ↦ rw (e, f) (ground arith)
    | inr f ↦
        rw (e, f)
          (unfold copy_part in
            prepend-Agrees n c s (copy_strict (n + 1) s) e (ground arith)
              (copy_strict-Agrees (n + 1) s))
  ]
]

strn_eq_refl : (n : ℕ) (k : List ℕ) → strn_eq n k k ≡ true
unfolding strn_eq
strn_eq_refl zero k = refl
strn_eq_refl (suc n) [] = refl
strn_eq_refl (suc n) (c ∷ k) = ground (arith, strn_eq_refl n k)

-- `k` is a key that the rounds over `s` read.
abbrev Found : List ℕ → ℕ → List ℕ → Type 0
Found k zero s = ⊥
Found k (suc n) [] = ⊥
Found k (suc n) (c ∷ s) = (k ≡ next_key c s) ⊎ Found k n (next_part c s)

-- A removal of such a key makes the string shorter.
remove_parts-lt :
    (n : ℕ) (k s s' : List ℕ) → Found k n s → remove_parts n k s ≡ ok s' → length s' < length s
remove_parts-lt zero k s s' f e = elim f [ ]
remove_parts-lt (suc n) k [] s' f e = elim f [ ]
remove_parts-lt (suc n) k (c ∷ s) s' (inl h) e =
    let (rest, e', eq) = remove_parts-inversion n k c s s' e in
    ground (
      arith,
      strn_eq_refl (compare_size k) k,
      remove_parts-le n k (next_part c s) rest e',
      next_part-lt c s,
      eq,
    )
remove_parts-lt (suc n) k (c ∷ s) s' (inr f) e =
    let (rest, e', eq) = remove_parts-inversion n k c s s' e in
    let kept = text_between (c ∷ s) (next_part c s) in
    ground (
      arith,
      remove_parts-lt n k (next_part c s) rest f e',
      next_part-lt c s,
      text_between-le (c ∷ s) (next_part c s),
      length-append kept rest,
      eq,
    )

-- Where the value begins that the strict loop reads after a key.
abbrev after_key : Part → List ℕ
after_key (stopped k (slash ∷ r)) = r
after_key p = []

-- How a round of the search ends: with the key that it read, or in the next round.
abbrev Ending : ℕ → ℕ → List ℕ → ℕ → List ℕ → List ℕ → Type 0
Ending n size largest c s k =
    (k ≡ next_key c s)
    ⊎ ((size' : ℕ) × (largest' : List ℕ) × (find_largest n size' largest' (next_part c s) ≡ ok k)
        × ((largest' ≡ largest) ⊎ (largest' ≡ next_key c s)))

find_largest_round :
    (n size : ℕ) (largest : List ℕ) (c : ℕ) (s k : List ℕ) (p p' : Part)
    → copy_strict 0 (skip_slash (c ∷ s)) ≡ p
    → Agrees 0 (skip_slash (c ∷ s)) p
    → copy_strict 0 (after_key p) ≡ p'
    → Agrees 0 (after_key p) p'
    → find_largest (suc n) size largest (c ∷ s) ≡ ok k
    → Ending n size largest c s k
unfolding find_largest close_part advance
find_largest_round n size largest c s k (oversized j) p' q a q' a' e = ground arith
find_largest_round n size largest c s k (stopped j []) p' q a q' a' e = ground arith
find_largest_round n size largest c s k (stopped j (b ∷ r)) (oversized v) q a q' a' e = ground arith
find_largest_round n size largest c s k (stopped j (b ∷ r)) (stopped v r') q a q' a' e =
    let size' : ℕ = length j + length v in
    let larger : Bool = ltb size size' && not (is_key_important j) in
    inr (if larger then size' else size, if larger then j else largest, ground arith, ground arith)

-- The key that the search ends with: it was given, or read on the way.
find_largest-Found :
    (n size : ℕ) (largest s k : List ℕ)
    → find_largest n size largest s ≡ ok k
    → (k ≡ largest) ⊎ Found k n s
unfolding find_largest
find_largest-Found zero size largest s k e = cc
find_largest-Found (suc n) size largest [] k e = ground arith
find_largest-Found (suc n) size largest (c ∷ s) k e =
    let start = skip_slash (c ∷ s) in
    let p = copy_strict 0 start in
    ending
      (find_largest_round n size largest c s k p (copy_strict 0 (after_key p)) refl
        (copy_strict-Agrees 0 start) refl (copy_strict-Agrees 0 (after_key p)) e)
      (λ size' largest'. find_largest-Found n size' largest' (next_part c s) k)
  where
    join :
        {largest' : List ℕ}
        → (k ≡ largest') ⊎ Found k n (next_part c s)
        → (largest' ≡ largest) ⊎ (largest' ≡ next_key c s)
        → (k ≡ largest) ⊎ Found k (suc n) (c ∷ s)
    join (inl a) (inl b) = inl (a ∙ b)
    join (inl a) (inr b) = inr (inl (a ∙ b))
    join (inr f) b = inr (inr f)

    ending :
        Ending n size largest c s k
        → ((size' : ℕ) (largest' : List ℕ)
            → find_largest n size' largest' (next_part c s) ≡ ok k
            → (k ≡ largest') ⊎ Found k n (next_part c s))
        → (k ≡ largest) ⊎ Found k (suc n) (c ∷ s)
    ending (inl h) ih = inr (inl h)
    ending (inr (size', largest', h, kept)) ih = join (ih size' largest' h) kept

Found-no_slash : (k : List ℕ) (n : ℕ) (s : List ℕ) → Found k n s → has_char backslash k ≡ false
Found-no_slash k zero s f = elim f [ ]
Found-no_slash k (suc n) [] f = elim f [ ]
Found-no_slash k (suc n) (c ∷ s) (inl h) = rw h (copy_part-no_slash 0 (skip_slash (c ∷ s)))
Found-no_slash k (suc n) (c ∷ s) (inr f) = Found-no_slash k n (next_part c s) f

-- Whatever the string, a key that `Info_FindLargestKey` returns makes the string shorter when it is
-- removed, unless it is empty.
pub remove_key-largest-lt :
    (s k s' : List ℕ)
    → find_largest_key s ≡ ok k
    → k ≢ []
    → remove_key s k ≡ ok s'
    → length s' < length s
unfolding find_largest_key remove_key
remove_key-largest-lt s k s' e ne r = elim (find_largest-Found (suc (length s)) 0 [] s k e) [
  | inl h ↦ absurd (ne h)
  | inr f ↦
      remove_parts-lt (suc (length s)) k s s' f
        (ground (arith, Found-no_slash k (suc (length s)) s f))
]

find_largest_round-fuel :
    (n size : ℕ) (largest : List ℕ) (c : ℕ) (s : List ℕ) (p p' : Part)
    → copy_strict 0 (skip_slash (c ∷ s)) ≡ p
    → Agrees 0 (skip_slash (c ∷ s)) p
    → copy_strict 0 (after_key p) ≡ p'
    → Agrees 0 (after_key p) p'
    → find_largest (suc n) size largest (c ∷ s) ≡ fault fuel
    → (size' : ℕ) × (largest' : List ℕ) × (find_largest n size' largest' (next_part c s)
        ≡ fault fuel)
unfolding find_largest close_part advance
find_largest_round-fuel n size largest c s (oversized j) p' q a q' a' e = absurd (ground arith)
find_largest_round-fuel n size largest c s (stopped j []) p' q a q' a' e = absurd (ground arith)
find_largest_round-fuel n size largest c s (stopped j (b ∷ r)) (oversized v) q a q' a' e =
    absurd (ground arith)
find_largest_round-fuel n size largest c s (stopped j (b ∷ r)) (stopped v r') q a q' a' e =
    let size' : ℕ = length j + length v in
    let larger : Bool = ltb size size' && not (is_key_important j) in
    (if larger then size' else size, if larger then j else largest, ground arith)

find_largest-ne_fuel :
    (n size : ℕ) (largest s : List ℕ) → length s < n → find_largest n size largest s ≢ fault fuel
unfolding find_largest
find_largest-ne_fuel zero size largest s h = elim h [ ]
find_largest-ne_fuel (suc n) size largest [] h = ground arith
find_largest-ne_fuel (suc n) size largest (c ∷ s) h = λ e.
    let start = skip_slash (c ∷ s) in
    let p = copy_strict 0 start in
    let (size', largest', e') =
      find_largest_round-fuel n size largest c s p (copy_strict 0 (after_key p)) refl
        (copy_strict-Agrees 0 start) refl (copy_strict-Agrees 0 (after_key p)) e in
    find_largest-ne_fuel n size' largest' (next_part c s) (omega (arith, next_part-lt c s)) e'

pub find_largest_key-ne_fuel : (s : List ℕ) → find_largest_key s ≢ fault fuel
unfolding find_largest_key
find_largest_key-ne_fuel s = find_largest-ne_fuel (suc (length s)) 0 [] s (omega arith)
