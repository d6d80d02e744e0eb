-- ===== src/Natives/Context.antt =====
-- The return value of a running hook chain: what SetHookChainReturn sets is what GetHookChainReturn
-- gives.
use reapi.Chain.{AType, integer, float, string, classptr, edict, evars, bool, vector, trace, Value}
use reapi.Natives.{
  Source, truth, as_chars, return_value, Written, nothing, chars, floats, read_value,
}
use reapi.Prelude.Int.{ℤ, pos, negsuc}
use reapi.Prelude.{
  ℕ, ◌≡◌, Bool, Option, none, some, take, char_cells, ◌==◌, if◌then◌else◌, Run, ok, fault,
  null_pointer,
}

-- What a plugin expects to read back of what it gave: the number, as a truth value for a bool; the
-- first characters of a text, if `maxlen` is passed; the vector; the entity, which must be one.
abbrev pub entity_back : Option ℕ → Run (ℤ × Written)
entity_back none = fault null_pointer
entity_back (some n) = ok (pos n, nothing)

abbrev pub read_back : (ℕ → Bool) → ℤ → AType → Source → ℕ → ℕ → Run (ℤ × Written)
read_back has_private null_index integer src count maxlen = ok (src.cell, nothing)
read_back has_private null_index float src count maxlen = ok (src.cell, nothing)
read_back has_private null_index bool src count maxlen = ok (truth src.cell, nothing)
read_back has_private null_index string src count maxlen = ok (
    if count == 3
    then (pos 1, chars (char_cells (take maxlen (as_chars src.chars))))
    else (pos 0, nothing))
read_back has_private null_index classptr src count maxlen =
    entity_back (elim src.cell [ pos n ↦ if has_private n then some n else none | negsuc n ↦ none ])
read_back has_private null_index edict src count maxlen =
    ok (elim src.cell [ pos n ↦ pos n | negsuc n ↦ null_index ], nothing)
read_back has_private null_index evars src count maxlen =
    entity_back (elim src.cell [ pos n ↦ some n | negsuc n ↦ none ])
read_back has_private null_index vector src count maxlen =
    ok (if count == 2 then (pos 1, floats src.vec.0 src.vec.1 src.vec.2) else (pos 0, nothing))
read_back has_private null_index trace src count maxlen = ok (pos 0, nothing)

module _ (has_private : ℕ → Bool) (null_index : ℤ) (src : Source) (count maxlen : ℕ) where
  -- The value that is stored, and what is read of it.
  abbrev Stored : AType → Type 0
  Stored t =
      (v : Value) × (return_value has_private t src ≡ ok (some v))
      × (read_value null_index t v count maxlen
          ≡ read_back has_private null_index t src count maxlen)
