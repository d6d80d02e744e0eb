-- ===== src/Callbacks/Formats.antt =====
-- reapi/src/hook_list.cpp and hook_callback.cpp: that plugins are given what their callbacks are registered for.
use reapi.Callbacks.Table.{all_callbacks}
use reapi.Callbacks.{
  CType, Callback, FwdParam, Slot, array_cell, chars, const_chars, float_ptr, float_ref, float_t,
  fp_array, fp_cell, fp_float, fp_string, fwd_param_type, passed_type, vector_ref,
}
use reapi.Chain.{max_hookchain_args}
use reapi.Prelude.{
  ℕ, zero, suc, ◌≤◌, ◌≡◌, refl, subst, some_inj, Bool, true, false, ◌&&◌, Option, none, some, List,
  [], ◌∷◌, length, get_elem?, leb, arith,
}

-- The parameter type for which a plugin is given what an argument of this type holds; a vector or a
-- pointer to floats would have to be in an array.
abbrev pub carried : CType → Option FwdParam
carried float_t = some fp_float
carried float_ref = some fp_float
carried const_chars = some fp_string
carried chars = some fp_string
carried array_cell = some fp_array
carried vector_ref = none
carried float_ptr = none
carried t = some fp_cell

abbrev same_format : FwdParam → Option FwdParam → Bool
same_format fp_cell (some fp_cell) = true
same_format fp_float (some fp_float) = true
same_format fp_string (some fp_string) = true
same_format fp_array (some fp_array) = true
same_format p q = false

abbrev pub registered : List Slot → List (Option FwdParam)
registered [] = []
registered (slot ∷ slots) = some (fwd_param_type slot.ctype) ∷ registered slots

abbrev pub given_to_plugins : List Slot → List (Option FwdParam)
given_to_plugins [] = []
given_to_plugins (slot ∷ slots) =
    carried (passed_type slot.ctype slot.pass) ∷ given_to_plugins slots

abbrev same_formats : List Slot → Bool
same_formats [] = true
same_formats (slot ∷ slots) =
    same_format (fwd_param_type slot.ctype) (carried (passed_type slot.ctype slot.pass))
    && same_formats slots

abbrev all_sound : List Callback → Bool
all_sound [] = true
all_sound (cb ∷ cbs) =
    same_formats cb.slots && leb (length cb.slots) max_hookchain_args && all_sound cbs

all_callbacks_sound : all_sound all_callbacks ≡ true
unfolding fwd_param_type passed_type
all_callbacks_sound = refl

same_format-some : (p : FwdParam) (q : Option FwdParam) → same_format p q ≡ true → some p ≡ q
same_format-some p q h = ground arith

same_formats-registered :
    (slots : List Slot) → same_formats slots ≡ true → registered slots ≡ given_to_plugins slots
same_formats-registered [] h = refl
same_formats-registered (slot ∷ slots) h = ground (
  arith,
  same_format-some (fwd_param_type slot.ctype) (carried (passed_type slot.ctype slot.pass)),
  same_formats-registered slots,
)

-- For each function of the tables: the parameter types with which a plugin's callback is registered
-- are those of what it is given, one by one, and there are no more arguments than a context of a hook
-- chain holds.
pub registered-given_to_plugins :
    (k : ℕ) (cb : Callback)
    → get_elem? all_callbacks k ≡ some cb
    → (registered cb.slots ≡ given_to_plugins cb.slots) × (length cb.slots ≤ max_hookchain_args)
registered-given_to_plugins k cb e = go all_callbacks k all_callbacks_sound e
  where
    go :
        (cbs : List Callback) (k : ℕ)
        → all_sound cbs ≡ true
        → get_elem? cbs k ≡ some cb
        → (registered cb.slots ≡ given_to_plugins cb.slots) × (length cb.slots ≤ max_hookchain_args)
    go [] k h e = absurd (ground arith)
    go (c ∷ cbs) zero h e =
        subst
          (λ cb.
            (registered cb.slots ≡ given_to_plugins cb.slots)
            × (length cb.slots ≤ max_hookchain_args))
          (some_inj c cb e) (same_formats-registered c.slots (ground arith), ground arith)
    go (c ∷ cbs) (suc k) h e = go cbs k (ground arith) e
