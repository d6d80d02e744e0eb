-- ===== src/Callbacks.antt =====
-- reapi/src/hook_callback.cpp, with the type functions of hook_list.cpp and hook_callback.h: the
-- function that stands in a hook chain of the engine or the game library for each API function.
--
-- Each has the same form: it turns its arguments into cells, calls `callForward` or
-- `callVoidForward`, and in `original` turns the cells back and calls the rest of the chain. A
-- function is a `Callback`, a value that says which conversion stands where; what a `Callback` does
-- is `pass_all`, `next_args` and `void_callback`. Pointers to something of an entity are the number
-- of the entity, and a client is its number from 0 on.
pub mod Engine
pub mod GameDll
pub mod Projectiles
pub mod Player
pub mod PlayerActions
pub mod PlayerItems
pub mod Rounds
pub mod Weapons
pub mod Call
pub mod GameRules
pub mod Entities
pub mod Rows
pub mod Table
pub mod Suits
pub mod Original
pub mod Formats
pub mod Arrays
pub mod Numbers
mod Examples
use reapi.Chain.{
  AType, integer, float, string, classptr, edict, evars, bool, vector, trace, Arg, Value, number,
  text, entity, triple, result, World,
}
use reapi.Chain.Calls.{Event, call_void_forward}
use reapi.Hooks.{Hook}
use reapi.Prelude.Int.{ℤ, pos, negsuc, eqb_ℤ}
use reapi.Prelude.{
  ℕ, zero, suc, ◌+◌, ◌-◌, Bool, true, false, Option, none, some, List, [], ◌∷◌, get_elem?,
  if◌then◌else◌, Run, ok, fault, null_pointer, ◌>>=◌,
}

-- The types of parameters and arguments. `enum_t` is any enumeration, `object_ptr` a pointer to a
-- CBaseEntity or a class derived from it, `pointer` one to any other structure, and `array_cell` the
-- cell that PrepareCellArrayA returns.
pub data CType : Type 0 where
  int_t size_type short_t ushort_t ulong_t uchar_t bool_t enum_t float_t float_ref : CType
  vector_ref float_ptr const_chars chars trace_ptr client_ptr edict_ptr evars_ptr object_ptr : CType
  pointer array_cell : CType

-- ForwardParam
pub data FwdParam : Type 0 where
  fp_cell fp_float fp_string fp_array : FwdParam

-- getFwdParamType
unfoldable pub fwd_param_type : CType → FwdParam
fwd_param_type float_t = fp_float
fwd_param_type float_ref = fp_float
fwd_param_type vector_ref = fp_array
fwd_param_type float_ptr = fp_array
fwd_param_type const_chars = fp_string
fwd_param_type chars = fp_string
fwd_param_type t = fp_cell

-- getApiType. An enumeration or a short integer becomes an int; a pointer to a class derived from
-- CBaseEntity takes the template, but none is passed.
unfoldable pub api_type : CType → AType
api_type float_t = float
api_type float_ref = float
api_type const_chars = string
api_type chars = string
api_type object_ptr = classptr
api_type edict_ptr = edict
api_type evars_ptr = evars
api_type bool_t = bool
api_type vector_ref = vector
api_type trace_ptr = trace
api_type t = integer

-- How an argument is handed to `callForward`: as it is; as indexOfEdict of the edict or of the
-- variables of the object; as indexOfEdictAmx; as indexOfPDataAmx; as `GetId() + 1`, also with a
-- test for null, or only for the source of a command; as the array of a copy of a vector; and a hash
-- as 0 if it is the previous one.
pub data Pass : Type 0 where
  as_is entity_index safe_index private_index client_id optional_client vector_array : Pass
  source_client : ℕ → Pass
  changed_hash : Pass

-- A parameter of the function behind `chain`, and what is made of it.
pub record Slot : Type 0 where
  pub ctype : CType
  pub pass : Pass

-- How `original` turns an argument back: edictByIndexAmx, getPrivate, PEV, clientByIndex.
pub data Back : Type 0 where
  unchanged edict_at private_at vars_at client_at : Back
  source_client_at : ℕ → Back

-- An argument of `callNext`: the argument of `original` with this number, turned back; the copy of a
-- vector that the array was made from; the function's own vector, or a copy that no array was made
-- from; or what else the lambda has captured.
pub data Next : Type 0 where
  given : ℕ → Back → Next
  copy own captured : ℕ → Next

-- What `original` makes of the value of `callNext`, and the function of that of `callForward<R>`.
pub data Result : Type 0 where
  no_value : Result
  gives : CType → Pass → Back → Result

pub record Callback : Type 0 where
  pub func : ℕ
  pub returns : Result
  pub slots : List Slot
  pub next : List Next

-- What a parameter holds: an integer, the bits of a float, the characters of a text, a vector, a
-- pointer to something of an entity, a client, or any other pointer.
pub data Datum : Type 0 where
  word real : ℤ → Datum
  characters : List ℕ → Datum
  vec : ℤ → ℤ → ℤ → Datum
  edict_of vars_of object_of client_of : Option ℕ → Datum
  address : ℕ → Datum

-- What is outside: which entities have private data, IRehldsServerStatic::GetClient, and
-- GetPrevHash.
pub record Server : Type 0 where
  pub has_private : ℕ → Bool
  pub get_client : ℕ → Option ℕ
  pub prev_hash : ℤ

-- AMX_NULLENT
abbrev pub amx_nullent : ℤ
amx_nullent = negsuc 0

abbrev pub src_client : ℤ
src_client = pos 0

-- The entity that a pointer leads to, as indexOfEdict finds it.
unfoldable pub pointed : Datum → Option ℕ
pointed (edict_of e) = e
pointed (vars_of e) = e
pointed (object_of e) = e
pointed d = none

unfoldable pub client_index : Option ℕ → ℤ
client_index none = amx_nullent
client_index (some c) = pos (c + 1)

unfoldable pub client_number : Datum → Option ℕ
client_number (client_of c) = c
client_number d = none

unfoldable pub safe_entity_index : Option ℕ → ℤ
safe_entity_index none = amx_nullent
safe_entity_index (some n) = pos n

unfoldable pub raw_value : Datum → Value
raw_value (word c) = number c
raw_value (real c) = number c
raw_value (characters s) = text s
raw_value (vec x y z) = triple x y z
raw_value (edict_of e) = entity e
raw_value (vars_of e) = entity e
raw_value (object_of e) = entity e
raw_value (client_of c) = entity c
raw_value (address a) = result a

-- indexOfEdict and GetId need a pointer.
unfoldable pub needed : Option ℕ → (ℕ → Value) → Run Value
needed none f = fault null_pointer
needed (some n) f = ok (f n)

unfoldable pub is_word : ℤ → Option Datum → Bool
is_word c none = false
is_word c (some (word d)) = eqb_ℤ d c
is_word c (some d) = false

-- The value that is passed for an argument, of all the arguments.
unfoldable pub pass_value : Server → List Datum → Pass → Datum → Run Value
unfolding pointed client_index client_number safe_entity_index raw_value needed is_word
pass_value server args as_is d = ok (raw_value d)
pass_value server args entity_index d = needed (pointed d) (λ n. number (pos n))
pass_value server args safe_index d = ok (number (safe_entity_index (pointed d)))
pass_value server args private_index d = ok (number (safe_entity_index (pointed d)))
pass_value server args client_id d = needed (client_number d) (λ c. number (pos (c + 1)))
pass_value server args optional_client d = ok (number (client_index (client_number d)))
pass_value server args vector_array d = ok (raw_value d)
pass_value server args (source_client i) d =
    if is_word src_client (get_elem? args i)
    then needed (client_number d) (λ c. number (pos (c + 1)))
    else ok (number amx_nullent)
pass_value server args changed_hash d =
    ok (if is_word server.prev_hash (some d) then number (pos 0) else raw_value d)

-- The type of the variable that is passed.
unfoldable pub passed_type : CType → Pass → CType
passed_type t as_is = t
passed_type t entity_index = size_type
passed_type t safe_index = size_type
passed_type t private_index = size_type
passed_type t client_id = int_t
passed_type t optional_client = int_t
passed_type t vector_array = array_cell
passed_type t (source_client i) = int_t
passed_type t changed_hash = size_type

unfoldable pub pass_all : Server → List Datum → List Slot → List Datum → Run (List Arg)
pass_all server args [] ds = ok []
pass_all server args (slot ∷ slots) [] = ok []
pass_all server args (slot ∷ slots) (d ∷ ds) = do
  passed ← pass_value server args slot.pass d
  rest ← pass_all server args slots ds
  ok (record { type = api_type (passed_type slot.ctype slot.pass); value = passed } ∷ rest)
