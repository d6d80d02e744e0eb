-- ===== src/Chain/Returns.antt =====
-- Chains with a return value: that one is always set, and which codes matter.
use reapi.Chain.Void.{codes, count_original, has_code, count_original-append, post_loop-count}
use reapi.Chain.Calls.{
  Loop, Event, ran, original_ran, run_forward, void_pre, value_pre, post_loop, call_original,
  value_rest, run_forward_value, call_forward, add_event, held, misread, is_vector, returned,
}
use reapi.Chain.{
  HookCtx, RetVal, World, hc_continue, hc_supercede, hc_break, hc_bypass, AType, Value, Arg,
  new_ctx, reset, set_id, is_enabled,
}
use reapi.Hooks.{AmxxHook, Hook}
use reapi.Prelude.Int.{ℤ, eqb_ℤ}
use reapi.Prelude.{
  ◌⊎◌, inl, inr, Bool-cases, if◌then◌else◌, ◌+◌, ◌≤◌, ◌≡◌, refl, Bool, true, false, ◌||◌, List, [],
  ◌∷◌, ◌++◌, arith,
}

-- SetHookChainReturn is the only way for a callback to touch the return value, and it sets it.
abbrev pub KeepsSet : {W : Type 0} → World W → Type 0
KeepsSet {W} world =
    (fwd : AmxxHook) (ctx : HookCtx) (w : W)
    → ctx.ret_val.is_set ≡ true
    → (world.execute fwd ctx w).1.ret_val.is_set ≡ true

module _ {W : Type 0} (world : World W) where
  break_stops : ℤ → Bool
  break_stops ret = eqb_ℤ ret hc_break

  run_forward-set :
      (fwd : AmxxHook) (ctx : HookCtx) (w : W)
      → KeepsSet world
      → ctx.ret_val.is_set ≡ true
      → (run_forward world fwd ctx w).1.ret_val.is_set ≡ true
  unfolding run_forward
  run_forward-set fwd ctx w keeps s = keeps fwd (set_id fwd.index ctx) w s

  -- Whenever the loop asks to skip the original, a value is set.
  value_pre-set :
      (fs : List AmxxHook) (hc : ℤ) (ctx : HookCtx) (w : W)
      → KeepsSet world
      → (eqb_ℤ hc hc_supercede ≡ true → ctx.ret_val.is_set ≡ true)
      → let l = value_pre world fs hc ctx w in
        (l.broke ≡ true → l.ctx.ret_val.is_set ≡ true)
        × (eqb_ℤ l.hc_state hc_supercede ≡ true → l.ctx.ret_val.is_set ≡ true)
  unfolding value_pre
  value_pre-set [] hc ctx w keeps h = (λ e. cc, h)
  value_pre-set (fwd ∷ fs) hc ctx w keeps h =
      let (ret, ctx', w') = run_forward world fwd ctx w in
      ground (
        arith,
        run_forward-set fwd ctx w keeps,
        value_pre-set fs hc ctx w keeps,
        value_pre-set fs hc ctx' w' keeps,
        value_pre-set fs hc ctx' (world.log_error fwd w') keeps,
        value_pre-set fs ret ctx' w' keeps,
      )

  post_loop-set :
      (stops : ℤ → Bool) (fs : List AmxxHook) (ctx : HookCtx) (w : W)
      → KeepsSet world
      → ctx.ret_val.is_set ≡ true
      → (post_loop world stops fs ctx w).ctx.ret_val.is_set ≡ true
  unfolding post_loop
  post_loop-set stops [] ctx w keeps h = h
  post_loop-set stops (fwd ∷ fs) ctx w keeps h =
      let (ret, ctx', w') = run_forward world fwd ctx w in
      ground (
        arith,
        run_forward-set fwd ctx w keeps,
        post_loop-set stops fs ctx w keeps,
        post_loop-set stops fs ctx' w' keeps,
      )

  value_rest-set :
      (original : List Arg → W → Value × W) (post : List AmxxHook) (l : Loop W)
      → KeepsSet world
      → (eqb_ℤ l.hc_state hc_supercede ≡ true → l.ctx.ret_val.is_set ≡ true)
      → (value_rest world original post l).0.ret_val.is_set ≡ true
  unfolding value_rest call_original
  value_rest-set original post l keeps h =
      let stops : ℤ → Bool = λ ret. eqb_ℤ ret hc_break in
      let (ctx, w) = call_original world original l.ctx l.world in
      ground
        (arith, post_loop-set stops post l.ctx l.world keeps, post_loop-set stops post ctx w keeps)

  run_forward_value-is_set :
      (type : AType) (hook : Hook) (original : List Arg → W → Value × W) (ctx : HookCtx) (w : W)
      → KeepsSet world
      → (run_forward_value world type hook original ctx w).0.ret_val.is_set ≡ true
  unfolding run_forward_value reset
  run_forward_value-is_set type hook original ctx w keeps =
      let start = world.set_called false w in
      let l = value_pre world hook.pre hc_continue (reset type ctx) start in
      ground (
        arith,
        value_pre-set hook.pre hc_continue (reset type ctx) start keeps,
        value_rest-set original hook.post l keeps,
      )

  returned-cases :
      (type : AType) (broke : Bool) (r : RetVal)
      → (returned type broke r ≡ held r)
        ⊎ ((is_vector type ≡ true) × (broke ≡ true) × (returned type broke r ≡ misread r))
  unfolding returned
  returned-cases type true r = elim (Bool-cases (is_vector type)) [
    | inl v ↦ inr (v, refl, rw v refl)
    | inr other ↦ inl (rw other refl)
  ]
  returned-cases type false r = inl (ground arith)

  -- If no callback makes a return value that is set an unset one, then, whatever the callbacks
  -- return, the return value of the context is set at the end of the call, on every way out of it, and
  -- it is what the call gives back; only a vector is misread if a callback ends the call with HC_BREAK.
  pub call_forward-is_set :
      (type : AType) (hook : Hook) (original : List Arg → W → Value × W) (args : List Arg) (w : W)
      → KeepsSet world
      → let (given, w', events) = call_forward world type hook original args w in
        (r : RetVal) × (r.is_set ≡ true)
        × ((given ≡ held r)
            ⊎ ((is_vector type ≡ true)
                × ((run_forward_value world type hook original (new_ctx args) w).3 ≡ true)
                × (given ≡ misread r)))
  unfolding call_forward
  call_forward-is_set type hook original args w keeps =
      let (ctx, w', events, broke) = run_forward_value world type hook original (new_ctx args) w in
      (
        ctx.ret_val,
        run_forward_value-is_set type hook original (new_ctx args) w keeps,
        returned-cases type broke ctx.ret_val,
      )

has_code-append :
    (c : ℤ) (es fs : List Event)
    → has_code c (codes es) ≡ true
    → has_code c (codes (es ++ fs)) ≡ true
has_code-append c [] fs h = cc
has_code-append c (ran fwd ret ∷ es) fs h = ground (arith, has_code-append c es fs)
has_code-append c (original_ran ∷ es) fs h = has_code-append c es fs h

module _ {W : Type 0} (world : World W) where
  value_pre-count :
      (fs : List AmxxHook) (hc : ℤ) (ctx : HookCtx) (w : W)
      → let l = value_pre world fs hc ctx w in
        (count_original l.trace ≡ 0)
        × (l.broke ≡ true → has_code hc_break (codes l.trace) ≡ true)
        × (eqb_ℤ l.hc_state hc_supercede ≡ true
            → (eqb_ℤ hc hc_supercede || has_code hc_supercede (codes l.trace)) ≡ true)
  unfolding value_pre
  value_pre-count [] hc ctx w = (refl, λ e. cc, λ e. ground arith)
  value_pre-count (fwd ∷ fs) hc ctx w =
      let (ret, ctx', w') = run_forward world fwd ctx w in
      ground (
        arith,
        value_pre-count fs hc ctx w,
        value_pre-count fs hc ctx' w',
        value_pre-count fs hc ctx' (world.log_error fwd w'),
        value_pre-count fs ret ctx' w',
      )

  -- HC_BYPASS is told apart only in chains without a return value: there the pre callbacks behind
  -- the one that returns it do not run, while in a chain with a return value all of them do, as
  -- after HC_CONTINUE.
  pub bypass_differs :
      (fwd : AmxxHook) (fs : List AmxxHook) (hc : ℤ) (ctx : HookCtx) (w : W)
      → is_enabled (world.state_of w fwd) ≡ true
      → (run_forward world fwd ctx w).0 ≡ hc_bypass
      → let r = run_forward world fwd ctx w in
        ((void_pre world (fwd ∷ fs) hc ctx w).trace ≡ ran fwd hc_bypass ∷ [])
        × (value_pre world (fwd ∷ fs) hc ctx w
            ≡ add_event (ran fwd hc_bypass) (value_pre world fs hc r.1 r.2))
  unfolding value_pre void_pre
  bypass_differs fwd fs hc ctx w e q = (ground arith, ground arith)

  -- The original function of a chain with a return value runs at most once, and it is skipped only
  -- if some callback returned HC_SUPERCEDE or HC_BREAK.
  run_forward_value-count :
      (type : AType) (hook : Hook) (original : List Arg → W → Value × W) (ctx : HookCtx) (w : W)
      → let events = (run_forward_value world type hook original ctx w).2 in
        (count_original events ≤ 1)
        × (1
            ≤ count_original events
              + (if has_code hc_supercede (codes events) || has_code hc_break (codes events)
                  then 1
                  else 0))
  unfolding run_forward_value value_rest
  run_forward_value-count type hook original ctx w =
      let start = world.set_called false w in
      let l = value_pre world hook.pre hc_continue (reset type ctx) start in
      let stops : ℤ → Bool = λ ret. eqb_ℤ ret hc_break in
      let (c, u) = call_original world original l.ctx l.world in
      let p = post_loop world stops hook.post l.ctx l.world in
      let q = post_loop world stops hook.post c u in
      ground (
        arith,
        value_pre-count hook.pre hc_continue (reset type ctx) start,
        post_loop-count world stops hook.post l.ctx l.world,
        post_loop-count world stops hook.post c u,
        count_original-append l.trace p.trace,
        count_original-append l.trace (original_ran ∷ q.trace),
        has_code-append hc_supercede l.trace p.trace,
      )
