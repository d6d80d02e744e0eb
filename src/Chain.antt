-- ===== src/Chain.antt =====
-- reapi/src/hook_callback.h: how one call of a hooked API function runs the forwards of the plugins
-- around the original function.
--
-- A plugin callback, the original function and the logging are outside of the program: they are the
-- parameters of a `World`, over a state that holds whatever they touch. `g_hookCtx` points to the
-- context while a callback runs, which is why `execute` is given it, and is null while the original
-- runs. The vectors of forwards are those at the start of the call.
pub mod Void
pub mod Strings
pub mod Returns
mod Examples
pub mod Calls
use reapi.Hooks.{AmxxHook, Hook, FwdState, enabled, invalid, paused, stopped}
use reapi.Prelude.Int.{ℤ, pos, ltb_ℤ, eqb_ℤ}
use reapi.Prelude.{
  ℕ, Bool, true, false, not, ◌&&◌, ◌||◌, Option, List, [], ◌∷◌, ◌++◌, take, if◌then◌else◌,
}

-- HookChainState, as the numbers that plugins return.
abbrev pub hc_continue : ℤ
hc_continue = pos 0

abbrev pub hc_supercede : ℤ
hc_supercede = pos 1

abbrev pub hc_break : ℤ
hc_break = pos 2

abbrev pub hc_bypass : ℤ
hc_bypass = pos 3

-- enum AType
pub data AType : Type 0 where
  integer float string classptr edict evars bool vector trace : AType

-- What an argument or a return value holds: a number (the bits of a float), a text, a pointer to
-- something of an entity, by the number of the entity, three numbers, or a trace result.
pub data Value : Type 0 where
  number : ℤ → Value
  text : List ℕ → Value
  entity : Option ℕ → Value
  triple : ℤ → ℤ → ℤ → Value
  result : ℕ → Value

-- retval_t
pub record RetVal : Type 0 where
  pub is_set : Bool
  pub type : AType
  pub value : Value

-- args_t, with the variable that the handle points to.
pub record Arg : Type 0 where
  pub type : AType
  pub value : Value

abbrev pub max_hookchain_args : ℕ
max_hookchain_args = 12

-- hookctx_t
pub record HookCtx : Type 0 where
  pub index : ℤ
  pub ret_val : RetVal
  pub tempstrings_used : ℕ
  pub args : List Arg

-- The constructor.
unfoldable pub new_ctx : List Arg → HookCtx
new_ctx args = record {
  index = pos 0;
  ret_val = record { is_set = false; type = integer; value = number (pos 0) };
  tempstrings_used = 0;
  args = take max_hookchain_args args;
}

-- hookctx_t::reset
unfoldable pub reset : AType → HookCtx → HookCtx
reset type ctx = record ctx {
  ret_val = record { is_set = false; type = type; value = ctx.ret_val.value };
}

abbrev pub set_id : ℤ → HookCtx → HookCtx
set_id i ctx = record ctx { index = i }

unfoldable pub is_enabled : FwdState → Bool
is_enabled enabled = true
is_enabled invalid = false
is_enabled paused = false
is_enabled stopped = false

unfoldable pub has_string_args : List Arg → Bool
has_string_args [] = false
has_string_args (a ∷ args) = elim a.type [ string ↦ true | _ ↦ has_string_args args ]

pub record World (W : Type 0) : Type 0 where
  -- The state of a forward, as it is when it is asked.
  pub state_of : W → AmxxHook → FwdState
  -- g_amxxapi.ExecuteForward: what the callback returns, and what it has done.
  pub execute : AmxxHook → HookCtx → W → ℤ × HookCtx × W
  -- `hook->wasCalled = b`
  pub set_called : Bool → W → W
  -- CAmxxHookBase::Error
  pub log_error : AmxxHook → W → W
  -- `s_temp_strings.pop(n)`
  pub pop_strings : ℕ → W → W
