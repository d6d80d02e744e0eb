-- ===== src/Chain/Examples.antt =====
-- The theorems on hook chains in a world where callbacks return fixed codes.
use reapi.Chain.Returns.{KeepsSet, call_forward-is_set}
use reapi.Chain.Strings.{CountsStrings, call_forward-depth}
use reapi.Chain.Void.{codes, has_code, max_code, count_original, pre_events, run_void_forward-count}
use reapi.Chain.Calls.{
  run_void_forward, call_void_forward, call_forward, run_forward_value, held, misread, is_vector,
}
use reapi.Chain.{
  World, HookCtx, Value, RetVal, new_ctx, integer, string, number, text, Arg, hc_break, hc_continue,
  hc_supercede, has_string_args,
}
use reapi.Hooks.{AmxxHook, Hook, enabled}
use reapi.Prelude.Int.{pos, eqb_ℤ}
use reapi.Prelude.{
  ℕ, ◌⊎◌, ◌+◌, ◌-◌, ◌≡◌, refl, true, false, ◌||◌, List, [], ◌∷◌, if◌then◌else◌, arith,
}

-- A plugin returns the number of its forward, takes no string and sets no value. The state counts
-- the temporary strings in use.
abbrev plain_world : World ℕ
plain_world = record {
  state_of = λ w fwd. fwd.state;
  execute = λ fwd ctx w. (pos fwd.fwdindex, ctx, w);
  set_called = λ b w. w;
  log_error = λ fwd w. w;
  pop_strings = λ n w. w - n;
}

-- A plugin takes one string.
abbrev taking_world : World ℕ
taking_world = record plain_world {
  execute = λ fwd ctx w.
      (pos fwd.fwdindex, record ctx { tempstrings_used = ctx.tempstrings_used + 1 }, w + 1);
}

abbrev plugin : ℕ → AmxxHook
plugin code = record {
  fwdindex = code;
  index = pos 1;
  callback_name = [];
  state = enabled;
  amx = 0;
}

abbrev bypassing : Hook
bypassing = record { pre = plugin 0 ∷ plugin 3 ∷ []; post = plugin 0 ∷ []; was_called = false }

abbrev context : HookCtx
context = record {
  index = pos 0;
  ret_val = record { is_set = false; type = integer; value = number (pos 0) };
  tempstrings_used = 0;
  args = [];
}

abbrev hello : List Arg
hello = record { type = string; value = text (104 ∷ []) } ∷ []

run_void_forward-count_example :
    count_original (run_void_forward plain_world bypassing (λ args w. w) context 0).2 ≡ (
      if has_code hc_break (codes (pre_events plain_world bypassing context 0))
        || eqb_ℤ
            (max_code hc_continue (codes (pre_events plain_world bypassing context 0)))
            hc_supercede
      then 0
      else 1)
run_void_forward-count_example =
    run_void_forward-count plain_world bypassing (λ args w. w) context 0

plain_world-KeepsSet : KeepsSet plain_world
plain_world-KeepsSet fwd ctx w s = s

call_forward-is_set_example :
    let original : List Arg → ℕ → Value × ℕ = λ args w. (number (pos 5), w) in
    let (given, w', events) = call_forward plain_world integer bypassing original hello 0 in
    (r : RetVal) × (r.is_set ≡ true)
    × ((given ≡ held r)
        ⊎ ((is_vector integer ≡ true)
            × ((run_forward_value plain_world integer bypassing original (new_ctx hello) 0).3
                ≡ true)
            × (given ≡ misread r)))
call_forward-is_set_example =
    call_forward-is_set plain_world integer bypassing (λ args w. (number (pos 5), w)) hello 0
      plain_world-KeepsSet

taking_world-CountsStrings : CountsStrings taking_world (λ w. w)
taking_world-CountsStrings = record {
  executes = λ fwd ctx w. omega arith;
  calls = λ b w. refl;
  logs = λ fwd w. refl;
  pops = λ n w. refl;
}

hello_text : has_string_args hello ≡ true
unfolding has_string_args
hello_text = refl

call_forward-depth_example :
    ((call_void_forward taking_world bypassing (λ args w. w) hello 2).0 ≡ 2)
    × ((call_forward taking_world integer bypassing (λ args w. (number (pos 5), w)) hello 2).1 ≡ 2)
call_forward-depth_example =
    call_forward-depth taking_world (λ w. w) taking_world-CountsStrings integer bypassing
      (λ args w. w) (λ args w. (number (pos 5), w)) hello 2 (λ args u. refl) (λ args u. refl)
      hello_text
