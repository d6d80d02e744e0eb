-- ===== src/Info/Overflow.antt =====
-- What the readers do with a key that fills its array: the NUL goes one past the end. The skipping
-- of oversized parts, and the branch of `Info_FindLargestKey` for them, come too late.
use reapi.Info.Largest.{Agrees, copy_strict-Agrees}
use reapi.Info.Pairs.{AtSlash}
use reapi.Info.Text.{backslash, has_char}
use reapi.Info.{
  Part, stopped, oversized, max_kv_len, ValueBuffers, copy_part, copy_strict, close_part,
  skip_slash, find_value, value_for_key, remove_parts, remove_key, find_largest, find_largest_key,
}
use reapi.Prelude.{
  ℕ, ◌+◌, ◌≤◌, ◌≡◌, refl, false, List, [], ◌∷◌, ◌++◌, length, arith, fault, overflow,
}

copy_part_full :
    (k rest : List ℕ) (n : ℕ)
    → has_char backslash k ≡ false
    → n ≤ max_kv_len
    → max_kv_len ≤ n + length k
    → AtSlash rest
    → (n + length (copy_part n (k ++ rest)).0 ≡ max_kv_len) × ((copy_part n (k ++ rest)).1 ≡ rest)
unfolding copy_part has_char
copy_part_full [] [] n h l g a = (omega arith, refl)
copy_part_full [] (c ∷ rest) n h l g a = ground arith
copy_part_full (c ∷ k) rest n h l g a =
    ground (arith, copy_part_full k rest n, copy_part_full k rest (n + 1))

-- An info string whose first key has at least `max_kv_len` characters.
abbrev pub with_key : List ℕ → List ℕ → List ℕ
with_key k rest = backslash ∷ (k ++ backslash ∷ rest)

module _ (k rest : List ℕ) (plain : has_char backslash k ≡ false)
    (long : max_kv_len ≤ length k) where
  full :
      (length (copy_part 0 (k ++ backslash ∷ rest)).0 ≡ max_kv_len)
      × ((copy_part 0 (k ++ backslash ∷ rest)).1 ≡ backslash ∷ rest)
  full =
      let (a, b) = copy_part_full k (backslash ∷ rest) 0 plain (omega arith) (omega arith) refl in
      (omega arith, b)

  value_overflow :
      (key : List ℕ) (b : ValueBuffers) → value_for_key (with_key k rest) key b ≡ fault overflow
  unfolding value_for_key find_value skip_slash close_part
  value_overflow key b = ground (arith, full)

  remove_overflow :
      (key : List ℕ)
      → has_char backslash key ≡ false
      → remove_key (with_key k rest) key ≡ fault overflow
  unfolding remove_key remove_parts skip_slash close_part
  remove_overflow key h = ground (arith, full)

  largest_part :
      (p : Part)
      → copy_strict 0 (k ++ backslash ∷ rest) ≡ p
      → Agrees 0 (k ++ backslash ∷ rest) p
      → find_largest_key (with_key k rest) ≡ fault overflow
  unfolding find_largest_key find_largest skip_slash close_part
  largest_part (oversized j) q a = ground arith
  largest_part (stopped j []) q a = ground (arith, full)
  largest_part (stopped j (c ∷ r)) q a = ground (arith, full)

  -- A string that begins with a key of at least `max_kv_len` characters makes each of the three
  -- readers write its NUL past the end of a local array, `Info_RemoveKey` with any key that it
  -- accepts.
  pub oversized_overflow :
      (key : List ℕ) (b : ValueBuffers)
      → has_char backslash key ≡ false
      → (value_for_key (with_key k rest) key b ≡ fault overflow)
        × (remove_key (with_key k rest) key ≡ fault overflow)
        × (find_largest_key (with_key k rest) ≡ fault overflow)
  oversized_overflow key b h = (
    value_overflow key b,
    remove_overflow key h,
    largest_part (copy_strict 0 (k ++ backslash ∷ rest)) refl
        (copy_strict-Agrees 0 (k ++ backslash ∷ rest)),
  )
