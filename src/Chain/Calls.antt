-- ===== src/Chain/Calls.antt =====
-- reapi/src/hook_callback.h: the loops over the forwards, and the calls that they make up.
use reapi.Hooks.{AmxxHook, Hook}
use reapi.Prelude.Int.{ℤ, pos, ltb_ℤ, eqb_ℤ}
use reapi.Prelude.{Bool, true, false, not, ◌&&◌, ◌||◌, List, [], ◌∷◌, ◌++◌, if◌then◌else◌}
use reapi.Chain.{
  AType, Arg, HookCtx, RetVal, Value, World, has_string_args, hc_break, hc_bypass, hc_continue,
  hc_supercede, integer, vector, is_enabled, new_ctx, reset, set_id,
}

-- What happened, for the statements: a callback ran and returned a number, or the original ran.
pub data Event : Type 0 where
  ran : AmxxHook → ℤ → Event
  original_ran : Event

-- What a call gives back: the value in its context, through the pointer there for a reference; or, for
-- a reference, the field of the context itself taken for the object.
pub data Returned : Type 0 where
  held misread : RetVal → Returned

-- The result is `Vector &`, the only reference.
abbrev pub is_vector : AType → Bool
is_vector vector = true
is_vector t = false

-- HC_BREAK returns `*(R2 *)&retVal._integer`, also where R is a reference.
unfoldable pub returned : AType → Bool → RetVal → Returned
returned type broke r = if is_vector type && broke then misread r else held r

-- How a loop over forwards ends.
pub record Loop (W : Type 0) : Type 0 where
  pub broke : Bool
  pub hc_state : ℤ
  pub ctx : HookCtx
  pub world : W
  pub trace : List Event

abbrev pub add_event : {W : Type 0} → Event → Loop W → Loop W
add_event e l = record l { trace = e ∷ l.trace }

-- `ret == HC_BREAK || ret == HC_BYPASS`
abbrev pub void_stops : ℤ → Bool
void_stops ret = eqb_ℤ ret hc_break || eqb_ℤ ret hc_bypass

module _ {W : Type 0} (world : World W) where
  -- A callback runs with its handle in the context.
  unfoldable pub run_forward : AmxxHook → HookCtx → W → ℤ × HookCtx × W
  run_forward fwd ctx w =
      let (ret, ctx', w') = world.execute fwd (set_id fwd.index ctx) w in
      (ret, set_id (pos 0) ctx', w')

  -- The loop over `hook->pre` in `_callVoidForward`.
  unfoldable pub void_pre : List AmxxHook → ℤ → HookCtx → W → Loop W
  void_pre [] hc ctx w = record { broke = false; hc_state = hc; ctx = ctx; world = w; trace = [] }
  void_pre (fwd ∷ fs) hc ctx w = elim (is_enabled (world.state_of w fwd)) [
    | false ↦ void_pre fs hc ctx w
    | true ↦
        let r = run_forward fwd ctx w in
        let ret = r.0 in
        let hc' = if ltb_ℤ hc ret then ret else hc in
        elim (eqb_ℤ ret hc_break) [
          | true ↦ record {
            broke = true;
            hc_state = hc;
            ctx = r.1;
            world = r.2;
            trace = ran fwd ret ∷ [];
          }
          | false ↦ elim (eqb_ℤ ret hc_bypass) [
            | true ↦ record {
              broke = false;
              hc_state = hc';
              ctx = r.1;
              world = r.2;
              trace = ran fwd ret ∷ [];
            }
            | false ↦ add_event (ran fwd ret) (void_pre fs hc' r.1 r.2)
          ]
        ]
  ]

  -- A loop over `hook->post`, which ends early at the codes that `stops` names.
  unfoldable pub post_loop : (ℤ → Bool) → List AmxxHook → HookCtx → W → Loop W
  post_loop stops [] ctx w = record {
    broke = false;
    hc_state = pos 0;
    ctx = ctx;
    world = w;
    trace = [];
  }
  post_loop stops (fwd ∷ fs) ctx w = elim (is_enabled (world.state_of w fwd)) [
    | false ↦ post_loop stops fs ctx w
    | true ↦
        let r = run_forward fwd ctx w in
        elim (stops r.0) [
          | true ↦ record {
            broke = true;
            hc_state = pos 0;
            ctx = r.1;
            world = r.2;
            trace = ran fwd r.0 ∷ [];
          }
          | false ↦ add_event (ran fwd r.0) (post_loop stops fs r.1 r.2)
        ]
  ]

  -- The part of `_callVoidForward` behind the loop over `hook->pre`.
  unfoldable pub void_rest : (List Arg → W → W) → List AmxxHook → Loop W → HookCtx × W × List Event
  void_rest original post l =
      let skipped = eqb_ℤ l.hc_state hc_supercede in
      let w = if skipped then l.world else world.set_called true (original l.ctx.args l.world) in
      let called = if skipped then [] else original_ran ∷ [] in
      elim (eqb_ℤ l.hc_state hc_bypass) [
        | true ↦ (l.ctx, world.set_called false w, called)
        | false ↦
            let p = post_loop void_stops post l.ctx w in
            (p.ctx, world.set_called false p.world, called ++ p.trace)
      ]

  -- _callVoidForward, with the trace of the call.
  unfoldable pub run_void_forward :
      Hook → (List Arg → W → W) → HookCtx → W → HookCtx × W × List Event
  run_void_forward hook original ctx w =
      let l = void_pre hook.pre hc_continue (reset integer ctx) (world.set_called false w) in
      elim l.broke [
        | true ↦ (l.ctx, l.world, l.trace)
        | false ↦
            let (ctx', w', events) = void_rest original hook.post l in (ctx', w', l.trace ++ events)
      ]

  -- callVoidForward: the context lives as long as the call.
  unfoldable pub call_void_forward : Hook → (List Arg → W → W) → List Arg → W → W × List Event
  call_void_forward hook original args w =
      let (ctx, w', events) = run_void_forward hook original (new_ctx args) w in
      (if has_string_args args then world.pop_strings ctx.tempstrings_used w' else w', events)

  -- The loop over `hook->pre` in `_callForward`: a code counts only if it asks to skip the original
  -- and a return value is set.
  unfoldable pub value_pre : List AmxxHook → ℤ → HookCtx → W → Loop W
  value_pre [] hc ctx w = record { broke = false; hc_state = hc; ctx = ctx; world = w; trace = [] }
  value_pre (fwd ∷ fs) hc ctx w = elim (is_enabled (world.state_of w fwd)) [
    | false ↦ value_pre fs hc ctx w
    | true ↦
        let r = run_forward fwd ctx w in
        let ret = r.0 in
        let skips = eqb_ℤ ret hc_supercede || eqb_ℤ ret hc_break in
        elim (skips && not r.1.ret_val.is_set) [
          | true ↦ add_event (ran fwd ret) (value_pre fs hc r.1 (world.log_error fwd r.2))
          | false ↦ elim (eqb_ℤ ret hc_break) [
            | true ↦ record {
              broke = true;
              hc_state = hc;
              ctx = r.1;
              world = r.2;
              trace = ran fwd ret ∷ [];
            }
            | false ↦
                add_event (ran fwd ret)
                  (value_pre fs (if skips && ltb_ℤ hc ret then ret else hc) r.1 r.2)
          ]
        ]
  ]

  -- The call of the original, and the return value that it gives unless a plugin has set one.
  unfoldable pub call_original : (List Arg → W → Value × W) → HookCtx → W → HookCtx × W
  call_original original ctx w =
      let (value, w') = original ctx.args w in
      let given : HookCtx = record ctx {
        ret_val = record { is_set = true; type = ctx.ret_val.type; value = value };
      } in
      (if ctx.ret_val.is_set then ctx else given, world.set_called true w')

  -- The part of `_callForward` behind the loop over `hook->pre`.
  unfoldable pub value_rest :
      (List Arg → W → Value × W) → List AmxxHook → Loop W → HookCtx × W × List Event
  value_rest original post l =
      let skipped = eqb_ℤ l.hc_state hc_supercede in
      let (ctx, w) = if skipped then (l.ctx, l.world) else call_original original l.ctx l.world in
      let called = if skipped then [] else original_ran ∷ [] in
      let p = post_loop (λ ret. eqb_ℤ ret hc_break) post ctx w in
      (p.ctx, world.set_called false p.world, called ++ p.trace)

  -- _callForward<R> for a return type of kind `type`: the context, and whether a callback ended the call
  -- with HC_BREAK.
  unfoldable pub run_forward_value :
      AType → Hook → (List Arg → W → Value × W) → HookCtx → W → HookCtx × W × List Event × Bool
  run_forward_value type hook original ctx w =
      let l = value_pre hook.pre hc_continue (reset type ctx) (world.set_called false w) in
      elim l.broke [
        | true ↦ (l.ctx, l.world, l.trace, true)
        | false ↦
            let (ctx', w', events) = value_rest original hook.post l in
            (ctx', w', l.trace ++ events, false)
      ]

  -- callForward<R>
  unfoldable pub call_forward :
      AType → Hook → (List Arg → W → Value × W) → List Arg → W → Returned × W × List Event
  unfolding returned
  call_forward type hook original args w =
      let (ctx, w', events, broke) = run_forward_value type hook original (new_ctx args) w in
      (
        returned type broke ctx.ret_val,
        if has_string_args args then world.pop_strings ctx.tempstrings_used w' else w',
        events,
      )
