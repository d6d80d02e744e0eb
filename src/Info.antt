-- ===== src/Info.antt =====
-- reapi/common/info.cpp: the info string, "\key\value\key\value...". A string is the list of its
-- codes up to the NUL. A write past the end of a local array is the fault `overflow`.
pub mod Text
pub mod Pairs
pub mod Lookup
pub mod Remove
pub mod Shrink
pub mod Largest
pub mod Room
pub mod Star
pub mod WellFormed
pub mod Stored
pub mod ReadBack
pub mod Preserve
pub mod Overflow
mod Examples
pub mod Setter
use reapi.Info.Text.{codes, backslash, quote, dot, str_eq, strn_eq, has_char, has_double, to_lower}
use reapi.Prelude.{
  ℕ, zero, suc, ◌+◌, ◌-◌, ◌%◌, Bool, true, false, not, ◌&&◌, ◌||◌, Option, none, some, List, [],
  ◌∷◌, ◌++◌, map, length, take, ltb, leb, ◌==◌, if◌then◌else◌, Run, ok, fault, fuel, overflow,
  ◌>>=◌,
}

abbrev pub max_info_string : ℕ
max_info_string = 256

abbrev pub max_kv_len : ℕ
max_kv_len = 127

abbrev pub info_max_buffer_values : ℕ
info_max_buffer_values = 4

-- The inner loop of the readers: copies up to the next slash or the end, `n` characters so far,
-- and skips what does not fit. Returns the copied text and where the loop stopped.
unfoldable pub copy_part : ℕ → List ℕ → List ℕ × List ℕ
copy_part n [] = ([], [])
copy_part n (c ∷ s) =
    let full = leb max_kv_len n in
    let (part, rest) = copy_part (if full then n else n + 1) s in
    if c == backslash then ([], c ∷ s) else (if full then part else c ∷ part, rest)

-- `*c = 0` behind a copied text, in an array of `max_kv_len` characters.
unfoldable pub close_part : List ℕ → Run (List ℕ)
close_part part = if ltb (length part) max_kv_len then ok part else fault overflow

-- `if (*s == '\\') s++`
unfoldable pub skip_slash : List ℕ → List ℕ
skip_slash [] = []
skip_slash (c ∷ s) = if c == backslash then s else c ∷ s

-- `if (*s) s++`
unfoldable pub advance : List ℕ → List ℕ
advance [] = []
advance (c ∷ s) = s

-- The loop of `Info_ValueForKey`. `slot` is the static buffer that the values are copied to; the
-- result says whether the key was found, and what the buffer then holds.
unfoldable pub find_value : ℕ → List ℕ → List ℕ → List ℕ → Run (Bool × List ℕ)
find_value zero key slot s = fault fuel
find_value (suc n) key slot [] = ok (false, slot)
find_value (suc n) key slot (c ∷ s) =
    let (k, r) = copy_part 0 (skip_slash (c ∷ s)) in
    elim r [
      | [] ↦ ok (false, slot)
      | slash ∷ r' ↦ do
        pkey ← close_part k
        let part = copy_part 0 r'
        value ← close_part part.0
        elim (str_eq key pkey) [ true ↦ ok (true, value) | false ↦ find_value n key value part.1 ]
    ]

-- The static buffers of `Info_ValueForKey`.
pub record ValueBuffers : Type 0 where
  pub value : ℕ → List ℕ
  pub valueindex : ℕ

unfoldable pub update : ℕ → List ℕ → (ℕ → List ℕ) → ℕ → List ℕ
update i v f j = if i == j then v else f j

-- The result is the text that the returned pointer shows when the call returns.
unfoldable pub value_for_key : List ℕ → List ℕ → ValueBuffers → Run (List ℕ × ValueBuffers)
unfolding update
value_for_key s key b = do
  (hit, slot) ← find_value (suc (length s)) key (b.value b.valueindex) s
  let value = update b.valueindex slot b.value
  ok (
      if hit
      then (
        slot,
        record { value = value; valueindex = (b.valueindex + 1) % info_max_buffer_values },
      )
      else ([], record { value = value; valueindex = b.valueindex }))

-- The text from `start` up to `rest`, which is an end of it.
unfoldable pub text_between : List ℕ → List ℕ → List ℕ
text_between start rest = take (length start - length rest) start

-- `Q_strlen(key)`, cut to `max_kv_len - 1`
unfoldable pub compare_size : List ℕ → ℕ
compare_size key = if ltb (max_kv_len - 1) (length key) then max_kv_len - 1 else length key

-- The loop of `Info_RemoveKey`: what stands in front of `s` stays, and `Q_strcpy_s(start, s)` drops
-- the part that was just read.
unfoldable pub remove_parts : ℕ → List ℕ → List ℕ → Run (List ℕ)
remove_parts zero key s = fault fuel
remove_parts (suc n) key [] = ok []
remove_parts (suc n) key (c ∷ s) = do
  let part = copy_part 0 (skip_slash (c ∷ s))
  pkey ← close_part part.0
  let part' = copy_part 0 (advance part.1)
  value ← close_part part'.0
  rest ← remove_parts n key part'.1
  ok (if strn_eq (compare_size key) key pkey then rest else text_between (c ∷ s) part'.1 ++ rest)

unfoldable pub remove_key : List ℕ → List ℕ → Run (List ℕ)
remove_key s key = if has_char backslash key then ok s else remove_parts (suc (length s)) key s

starts_with_star : List ℕ → Bool
starts_with_star [] = false
starts_with_star (c ∷ s) = c == b'*'

unfoldable pub is_key_important : List ℕ → Bool
unfolding starts_with_star str_eq
is_key_important key =
    starts_with_star key
    || (str_eq key (codes "name")
        || (str_eq key (codes "model")
            || (str_eq key (codes "rate")
                || (str_eq key (codes "topcolor")
                    || (str_eq key (codes "bottomcolor")
                        || (str_eq key (codes "cl_updaterate")
                            || (str_eq key (codes "cl_lw") || str_eq key (codes "cl_lc"))))))))

-- Where an inner loop of `Info_FindLargestKey` stops: at a slash or the end, or with its array full.
pub data Part : Type 0 where
  stopped : List ℕ → List ℕ → Part
  oversized : List ℕ → Part

abbrev pub prepend : ℕ → Part → Part
prepend c (stopped part rest) = stopped (c ∷ part) rest
prepend c (oversized part) = oversized (c ∷ part)

unfoldable pub copy_strict : ℕ → List ℕ → Part
copy_strict n [] = stopped [] []
copy_strict n (c ∷ s) =
    let part = prepend c (copy_strict (n + 1) s) in
    if c == backslash then stopped [] (c ∷ s) else if leb max_kv_len n then oversized [] else part

-- The loop of `Info_FindLargestKey`, with `largest_size` and `largest_key`.
unfoldable pub find_largest : ℕ → ℕ → List ℕ → List ℕ → Run (List ℕ)
find_largest zero size largest s = fault fuel
find_largest (suc n) size largest [] = ok largest
find_largest (suc n) size largest (c ∷ s) = elim (copy_strict 0 (skip_slash (c ∷ s))) [
  | oversized k ↦ close_part k
  | stopped k [] ↦ close_part k
  | stopped k (slash ∷ r) ↦ do
    key ← close_part k
    elim (copy_strict 0 r) [
      | oversized v ↦ do value ← close_part v; ok key
      | stopped v r' ↦ do
        value ← close_part v
        let size' = length key + length value
        let larger = ltb size size' && not (is_key_important key)
        find_largest n (if larger then size' else size) (if larger then key else largest) r'
    ]
]

unfoldable pub find_largest_key : List ℕ → Run (List ℕ)
find_largest_key s = find_largest (suc (length s)) 0 [] s
