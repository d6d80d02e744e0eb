-- ===== src/Chain/Strings.antt =====
-- The temporary strings that plugins take while a chain runs are given back when it ends.
use reapi.Chain.Calls.{
  Loop, run_forward, void_pre, value_pre, post_loop, void_stops, void_rest, value_rest,
  call_original, run_void_forward, run_forward_value, call_void_forward, call_forward,
}
use reapi.Chain.{
  HookCtx, World, hc_continue, hc_break, hc_supercede, AType, integer, Value, set_id, new_ctx,
  reset, has_string_args, Arg,
}
use reapi.Hooks.{AmxxHook, Hook}
use reapi.Prelude.Int.{ℤ, ltb_ℤ, eqb_ℤ}
use reapi.Prelude.{ℕ, ◌+◌, ◌-◌, ◌≡◌, refl, Bool, true, false, List, [], ◌∷◌, if◌then◌else◌, arith}

-- How the strings that are in use follow the count in the context: a callback takes strings only
-- through it, and the original, the flag and the log leave them alone.
pub record CountsStrings {W : Type 0} (world : World W) (depth : W → ℕ) : Type 0 where
  pub executes :
      (fwd : AmxxHook) (ctx : HookCtx) (w : W)
      → let r = world.execute fwd ctx w in
        depth r.2 + ctx.tempstrings_used ≡ depth w + r.1.tempstrings_used
  pub calls : (b : Bool) (w : W) → depth (world.set_called b w) ≡ depth w
  pub logs : (fwd : AmxxHook) (w : W) → depth (world.log_error fwd w) ≡ depth w
  pub pops : (n : ℕ) (w : W) → depth (world.pop_strings n w) ≡ depth w - n

module _ {W : Type 0} (world : World W) (depth : W → ℕ) (counts : CountsStrings world depth) where
  -- The strings in use beyond those that the context counts.
  abbrev Balanced : HookCtx → W → HookCtx → W → Type 0
  Balanced ctx w ctx' w' = depth w' + ctx.tempstrings_used ≡ depth w + ctx'.tempstrings_used

  run_forward-Balanced :
      (fwd : AmxxHook) (ctx : HookCtx) (w : W)
      → let r = run_forward world fwd ctx w in Balanced ctx w r.1 r.2
  unfolding run_forward
  run_forward-Balanced fwd ctx w = counts.executes fwd (set_id fwd.index ctx) w

  void_pre-Balanced :
      (fs : List AmxxHook) (hc : ℤ) (ctx : HookCtx) (w : W)
      → let l = void_pre world fs hc ctx w in Balanced ctx w l.ctx l.world
  unfolding void_pre
  void_pre-Balanced [] hc ctx w = refl
  void_pre-Balanced (fwd ∷ fs) hc ctx w =
      let (ret, ctx', w') = run_forward world fwd ctx w in
      ground (
        arith,
        run_forward-Balanced fwd ctx w,
        void_pre-Balanced fs hc ctx w,
        void_pre-Balanced fs (if ltb_ℤ hc ret then ret else hc) ctx' w',
      )

  post_loop-Balanced :
      (stops : ℤ → Bool) (fs : List AmxxHook) (ctx : HookCtx) (w : W)
      → let l = post_loop world stops fs ctx w in Balanced ctx w l.ctx l.world
  unfolding post_loop
  post_loop-Balanced stops [] ctx w = refl
  post_loop-Balanced stops (fwd ∷ fs) ctx w =
      let (ret, ctx', w') = run_forward world fwd ctx w in
      ground (
        arith,
        run_forward-Balanced fwd ctx w,
        post_loop-Balanced stops fs ctx w,
        post_loop-Balanced stops fs ctx' w',
      )

  run_void_forward-Balanced :
      (hook : Hook) (original : List Arg → W → W) (ctx : HookCtx) (w : W)
      → ((args : List Arg) (u : W) → depth (original args u) ≡ depth u)
      → let r = run_void_forward world hook original ctx w in Balanced ctx w r.0 r.1
  unfolding run_void_forward void_rest reset
  run_void_forward-Balanced hook original ctx w keeps =
      let start = world.set_called false w in
      let l = void_pre world hook.pre hc_continue (reset integer ctx) start in
      let u =
        if eqb_ℤ l.hc_state hc_supercede
        then l.world
        else world.set_called true (original l.ctx.args l.world) in
      let p = post_loop world void_stops hook.post l.ctx u in
      ground (
        arith,
        counts.calls false w,
        counts.calls false u,
        counts.calls false p.world,
        counts.calls true (original l.ctx.args l.world),
        keeps l.ctx.args l.world,
        void_pre-Balanced hook.pre hc_continue (reset integer ctx) start,
        post_loop-Balanced void_stops hook.post l.ctx u,
      )

  value_pre-Balanced :
      (fs : List AmxxHook) (hc : ℤ) (ctx : HookCtx) (w : W)
      → let l = value_pre world fs hc ctx w in Balanced ctx w l.ctx l.world
  unfolding value_pre
  value_pre-Balanced [] hc ctx w = refl
  value_pre-Balanced (fwd ∷ fs) hc ctx w =
      let (ret, ctx', w') = run_forward world fwd ctx w in
      ground (
        arith,
        run_forward-Balanced fwd ctx w,
        counts.logs fwd w',
        value_pre-Balanced fs hc ctx w,
        value_pre-Balanced fs hc ctx' w',
        value_pre-Balanced fs hc ctx' (world.log_error fwd w'),
        value_pre-Balanced fs ret ctx' w',
      )

  call_original-Balanced :
      (original : List Arg → W → Value × W) (ctx : HookCtx) (w : W)
      → ((args : List Arg) (u : W) → depth (original args u).1 ≡ depth u)
      → let r = call_original world original ctx w in Balanced ctx w r.0 r.1
  unfolding call_original
  call_original-Balanced original ctx w keeps =
      ground (arith, keeps ctx.args w, counts.calls true (original ctx.args w).1)

  value_rest-Balanced :
      (original : List Arg → W → Value × W) (post : List AmxxHook) (l : Loop W)
      → ((args : List Arg) (u : W) → depth (original args u).1 ≡ depth u)
      → let r = value_rest world original post l in Balanced l.ctx l.world r.0 r.1
  unfolding value_rest
  value_rest-Balanced original post l keeps =
      let stops : ℤ → Bool = λ ret. eqb_ℤ ret hc_break in
      let (ctx, w) = call_original world original l.ctx l.world in
      let p = post_loop world stops post l.ctx l.world in
      let q = post_loop world stops post ctx w in
      ground (
        arith,
        call_original-Balanced original l.ctx l.world keeps,
        post_loop-Balanced stops post l.ctx l.world,
        post_loop-Balanced stops post ctx w,
        counts.calls false p.world,
        counts.calls false q.world,
      )

  run_forward_value-Balanced :
      (type : AType) (hook : Hook) (original : List Arg → W → Value × W) (ctx : HookCtx) (w : W)
      → ((args : List Arg) (u : W) → depth (original args u).1 ≡ depth u)
      → let r = run_forward_value world type hook original ctx w in Balanced ctx w r.0 r.1
  unfolding run_forward_value reset
  run_forward_value-Balanced type hook original ctx w keeps =
      let start = world.set_called false w in
      let l = value_pre world hook.pre hc_continue (reset type ctx) start in
      ground (
        arith,
        counts.calls false w,
        value_pre-Balanced hook.pre hc_continue (reset type ctx) start,
        value_rest-Balanced original hook.post l keeps,
      )

  -- If callbacks take temporary strings only through the context, which counts them, and the flag,
  -- the log and the original leave the strings in use as they are, then a call with a text among its
  -- arguments ends with as many temporary strings in use as it began with, on every way out of it.
  pub call_forward-depth :
      (type : AType) (hook : Hook) (void : List Arg → W → W) (original : List Arg → W → Value × W)
      (args : List Arg) (w : W)
      → ((args : List Arg) (u : W) → depth (void args u) ≡ depth u)
      → ((args : List Arg) (u : W) → depth (original args u).1 ≡ depth u)
      → has_string_args args ≡ true
      → (depth (call_void_forward world hook void args w).0 ≡ depth w)
        × (depth (call_forward world type hook original args w).1 ≡ depth w)
  unfolding call_void_forward call_forward new_ctx
  call_forward-depth type hook void original args w k k' s =
      let r = run_void_forward world hook void (new_ctx args) w in
      let r' = run_forward_value world type hook original (new_ctx args) w in
      let b = run_void_forward-Balanced hook void (new_ctx args) w k in
      let b' = run_forward_value-Balanced type hook original (new_ctx args) w k' in
      let q = counts.pops r.0.tempstrings_used r.1 in
      let q' = counts.pops r'.0.tempstrings_used r'.1 in
      (rw s (omega (arith, q, b)), rw s (omega (arith, q', b')))
