-- ===== src/Natives.antt =====
-- reapi/src/natives/natives_hookchains.cpp: what a plugin can do with hook chains, and in a callback
-- with the context of the call. With it the conversions of type_conversion.h, `getAmxString` and
-- `setAmxString` of amxxmodule.cpp, and `CTempStrings` of reapi_utils.cpp.
--
-- The memory of a plugin is given as what is read at an address, and what is written there is in the
-- result. An entity is its index, which is taken to be one of the engine's; `has_private` says which
-- entities have private data. The 16 buffers that `s_tmpStrings` and `s_tmpVectors` use in turn are
-- not told apart: a value that is set is the text or the vector itself.
pub mod Context
pub mod Frame
mod Examples
pub mod Registration
use reapi.Chain.{
  AType, integer, float, string, classptr, edict, evars, bool, vector, trace, Value, number, text,
  entity, triple, result, RetVal, Arg, HookCtx,
}
use reapi.Hooks.{
  AmxxHook, FwdState, Hook, HookManager, get_hook_safe, add_to_hook, locate, get_amxx_hook,
  forwards, with_forwards, is_post,
}
use reapi.Prelude.Int.{ℤ, pos, negsuc, eqb_ℤ}
use reapi.Prelude.{
  ℕ, zero, suc, ◌+◌, ◌-◌, Bool, true, false, not, ◌&&◌, Option, none, some, List, [], ◌∷◌, length,
  get_elem?, set, take, char_cells, ◌%◌, ltb, leb, ◌==◌, if◌then◌else◌, Run, ok, fault, overflow,
  null_pointer,
}

abbrev pub atype_code : AType → ℕ
atype_code integer = 0
atype_code float = 1
atype_code string = 2
atype_code classptr = 3
atype_code edict = 4
atype_code evars = 5
atype_code bool = 6
atype_code vector = 7
atype_code trace = 8

-- `params[arg_type] == type`
unfoldable pub is_type : ℤ → AType → Bool
is_type t type = eqb_ℤ t (pos (atype_code type))

-- CTempStrings: STRINGS_MAX and STRING_SIZE.
abbrev pub strings_max : ℕ
strings_max = 16

abbrev pub string_size : ℕ
string_size = 1024

-- The array `string` of SetHookChainReturn, of which `getAmxString` is told one less.
abbrev pub return_string_size : ℕ
return_string_size = 2048

-- The characters of "<reapi error>" with the NUL.
abbrev pub fatal_err_size : ℕ
fatal_err_size = 14

-- What is read at `srcAddr`: a cell, the characters up to a zero, a vector, or, through the pointer in
-- the cell, a trace result.
pub record Source : Type 0 where
  pub cell : ℤ
  pub chars : List ℕ
  pub vec : ℤ × ℤ × ℤ
  pub trace_result : ℕ

-- The characters of some cells, as bytes, up to the first one that is zero as a byte.
unfoldable pub as_chars : List ℕ → List ℕ
as_chars [] = []
as_chars (c ∷ cs) = if c % 256 == 0 then [] else c % 256 ∷ as_chars cs

-- getAmxString with `max`: the text that is copied.
unfoldable pub get_amx_string : List ℕ → ℕ → List ℕ
unfolding as_chars
get_amx_string src max = as_chars (take (max - 1) src)

-- setAmxString: the cells of `maxlen` characters, which are signed.
unfoldable pub set_amx_string : List ℕ → ℕ → List ℕ
set_amx_string src maxlen = char_cells (take maxlen src)

-- getPrivate<T>(index)
unfoldable pub private_of : (ℕ → Bool) → ℤ → Option ℕ
private_of has_private (pos n) = if has_private n then some n else none
private_of has_private (negsuc n) = none

-- edictByIndexAmx(index) and PEV(index): a null pointer for a negative index.
unfoldable pub edict_by_index : ℤ → Option ℕ
edict_by_index (pos n) = some n
edict_by_index (negsuc n) = none

abbrev pub truth : ℤ → ℤ
truth c = if eqb_ℤ c (pos 0) then pos 0 else pos 1

-- The switch of SetHookChainReturn: `none` is its `default`.
unfoldable pub return_value : (ℕ → Bool) → AType → Source → Run (Option Value)
unfolding get_amx_string private_of edict_by_index
return_value has_private integer src = ok (some (number src.cell))
return_value has_private float src = ok (some (number src.cell))
return_value has_private bool src = ok (some (number (truth src.cell)))
return_value has_private string src =
    let s = get_amx_string src.chars (return_string_size - 1) in
    if ltb (length s) string_size then ok (some (text s)) else fault overflow
return_value has_private classptr src = ok (some (entity (private_of has_private src.cell)))
return_value has_private edict src = ok (some (entity (edict_by_index src.cell)))
return_value has_private evars src = ok (some (entity (edict_by_index src.cell)))
return_value has_private vector src = let (x, y, z) = src.vec in ok (some (triple x y z))
return_value has_private trace src = ok none

unfoldable pub store_return : HookCtx → Run (Option Value) → Run (Bool × Option HookCtx)
store_return ctx (fault e) = fault e
store_return ctx (ok none) = ok (false, some ctx)
store_return ctx (ok (some v)) = ok (
  true,
  some (record ctx { ret_val = record { is_set = true; type = ctx.ret_val.type; value = v } }),
)

-- SetHookChainReturn, on `g_hookCtx`: `none` is a null pointer.
unfoldable pub set_hook_chain_return :
    (ℕ → Bool) → Option HookCtx → ℤ → Source → Run (Bool × Option HookCtx)
unfolding is_type store_return
set_hook_chain_return has_private none t src = ok (false, none)
set_hook_chain_return has_private (some ctx) t src =
    if is_type t ctx.ret_val.type
    then store_return ctx (return_value has_private ctx.ret_val.type src)
    else ok (false, some ctx)

-- What is written at `dstAddr`.
pub data Written : Type 0 where
  nothing : Written
  chars : List ℕ → Written
  floats : ℤ → ℤ → ℤ → Written

-- `indexOfEdict` of `_classptr->pev` or `_pev`, where the pointer may be null.
unfoldable pub index_of_entity : Option ℕ → Run (ℤ × Written)
index_of_entity none = fault null_pointer
index_of_entity (some n) = ok (pos n, nothing)

-- `indexOfEdict(_edict)` reads nothing: for a null pointer it is the distance to `g_pEdicts`, which is
-- given.
unfoldable pub index_of_edict : ℤ → Option ℕ → ℤ
index_of_edict null_index none = null_index
index_of_edict null_index (some n) = pos n

-- The switch of GetHookChainReturn, with `PARAMS_COUNT` and `maxlen`.
unfoldable pub read_value : ℤ → AType → Value → ℕ → ℕ → Run (ℤ × Written)
unfolding index_of_entity index_of_edict set_amx_string
read_value null_index integer (number n) count maxlen = ok (n, nothing)
read_value null_index float (number n) count maxlen = ok (n, nothing)
read_value null_index bool (number n) count maxlen = ok (truth n, nothing)
read_value null_index string (text s) count maxlen =
    ok (if count == 3 then (pos 1, chars (set_amx_string s maxlen)) else (pos 0, nothing))
read_value null_index classptr (entity e) count maxlen = index_of_entity e
read_value null_index edict (entity e) count maxlen = ok (index_of_edict null_index e, nothing)
read_value null_index evars (entity e) count maxlen = index_of_entity e
read_value null_index vector (triple x y z) count maxlen =
    ok (if count == 2 then (pos 1, floats x y z) else (pos 0, nothing))
read_value null_index type value count maxlen = ok (pos 0, nothing)

-- GetHookChainReturn
unfoldable pub get_hook_chain_return : ℤ → Option HookCtx → ℤ → ℕ → ℕ → Run (ℤ × Written)
unfolding is_type
get_hook_chain_return null_index none t count maxlen = ok (pos 0, nothing)
get_hook_chain_return null_index (some ctx) t count maxlen =
    if is_type t ctx.ret_val.type && ctx.ret_val.is_set
    then read_value null_index ctx.ret_val.type ctx.ret_val.value count maxlen
    else ok (pos 0, nothing)

-- The temporary strings that are in use, and the context, after `get_temp_string`; with the size of
-- what its result points to.
unfoldable pub get_temp_string : ℕ → HookCtx → ℕ × HookCtx × ℕ
get_temp_string in_use ctx =
    if in_use == strings_max
    then (in_use, ctx, fatal_err_size)
    else (in_use + 1, record ctx { tempstrings_used = ctx.tempstrings_used + 1 }, string_size)

-- `*destAddr = value`
unfoldable pub store_arg : ℕ → AType → Value → HookCtx → HookCtx
store_arg i type v ctx = record ctx { args = set ctx.args i (record { type = type; value = v }) }

-- The switch of SetHookChainArg.
unfoldable pub write_arg : (ℕ → Bool) → ℕ → AType → Source → ℕ → HookCtx → Run (Bool × ℕ × HookCtx)
unfolding get_temp_string store_arg get_amx_string private_of edict_by_index
write_arg has_private i integer src n ctx = ok (true, n, store_arg i integer (number src.cell) ctx)
write_arg has_private i float src n ctx = ok (true, n, store_arg i float (number src.cell) ctx)
write_arg has_private i bool src n ctx =
    ok (true, n, store_arg i bool (number (truth src.cell)) ctx)
write_arg has_private i string src n ctx =
    let t = get_temp_string n ctx in
    let s = get_amx_string src.chars (string_size - 1) in
    if ltb (length s) t.2 then ok (true, t.0, store_arg i string (text s) t.1) else fault overflow
write_arg has_private i classptr src n ctx =
    ok (true, n, store_arg i classptr (entity (private_of has_private src.cell)) ctx)
write_arg has_private i edict src n ctx =
    ok (true, n, store_arg i edict (entity (edict_by_index src.cell)) ctx)
write_arg has_private i evars src n ctx =
    ok (true, n, store_arg i evars (entity (edict_by_index src.cell)) ctx)
write_arg has_private i trace src n ctx =
    ok (true, n, store_arg i trace (result src.trace_result) ctx)
write_arg has_private i vector src n ctx = ok (false, n, ctx)

-- SetHookChainArg on a context. `number - 1` is an unsigned number, so that 0 and less are out of
-- bounds; `n` temporary strings are in use.
unfoldable pub set_hook_chain_arg :
    (ℕ → Bool) → ℤ → ℤ → Source → ℕ → HookCtx → Run (Bool × ℕ × HookCtx)
unfolding is_type write_arg
set_hook_chain_arg has_private (negsuc i) t src n ctx = ok (false, n, ctx)
set_hook_chain_arg has_private (pos zero) t src n ctx = ok (false, n, ctx)
set_hook_chain_arg has_private (pos (suc i)) t src n ctx = elim (get_elem? ctx.args i) [
  | none ↦ ok (false, n, ctx)
  | some arg ↦
      if is_type t arg.type then write_arg has_private i arg.type src n ctx else ok (false, n, ctx)
]
