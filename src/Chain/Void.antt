-- ===== src/Chain/Void.antt =====
-- Chains without a return value: when the original function runs, and what a code cuts short.
use reapi.Chain.Calls.{
  Event, ran, original_ran, run_forward, void_pre, post_loop, void_stops, void_rest,
  run_void_forward,
}
use reapi.Chain.{
  Arg, HookCtx, World, hc_continue, hc_supercede, hc_break, hc_bypass, integer, reset,
}
use reapi.Hooks.{AmxxHook, Hook}
use reapi.Prelude.Int.{ℤ, ltb_ℤ, eqb_ℤ}
use reapi.Prelude.{
  ℕ, suc, ◌+◌, ◌≡◌, refl, Bool, true, false, ◌||◌, List, [], ◌∷◌, ◌++◌, if◌then◌else◌, arith,
}

-- The codes that the callbacks in a trace returned.
abbrev pub codes : List Event → List ℤ
codes [] = []
codes (ran fwd ret ∷ es) = ret ∷ codes es
codes (original_ran ∷ es) = codes es

abbrev pub count_original : List Event → ℕ
count_original [] = 0
count_original (ran fwd ret ∷ es) = count_original es
count_original (original_ran ∷ es) = suc (count_original es)

abbrev pub has_code : ℤ → List ℤ → Bool
has_code c [] = false
has_code c (d ∷ ds) = eqb_ℤ d c || has_code c ds

-- The highest code, and at least the given one.
abbrev pub max_code : ℤ → List ℤ → ℤ
max_code c [] = c
max_code c (d ∷ ds) = max_code (if ltb_ℤ c d then d else c) ds

pub count_original-append :
    (es fs : List Event) → count_original (es ++ fs) ≡ count_original es + count_original fs
count_original-append [] fs = omega arith
count_original-append (ran fwd ret ∷ es) fs = count_original-append es fs
count_original-append (original_ran ∷ es) fs = omega (arith, count_original-append es fs)

module _ {W : Type 0} (world : World W) where
  -- What the loop over the pre forwards has found out, by the codes alone.
  void_pre-codes :
      (fs : List AmxxHook) (hc : ℤ) (ctx : HookCtx) (w : W)
      → let l = void_pre world fs hc ctx w in
        (l.broke ≡ has_code hc_break (codes l.trace))
        × (l.broke ≡ false → l.hc_state ≡ max_code hc (codes l.trace))
        × (count_original l.trace ≡ 0)
  unfolding void_pre
  void_pre-codes [] hc ctx w = (refl, λ _. refl, refl)
  void_pre-codes (fwd ∷ fs) hc ctx w =
      let (ret, ctx', w') = run_forward world fwd ctx w in
      ground (
        arith,
        void_pre-codes fs hc ctx w,
        void_pre-codes fs (if ltb_ℤ hc ret then ret else hc) ctx' w',
      )

  pub post_loop-count :
      (stops : ℤ → Bool) (fs : List AmxxHook) (ctx : HookCtx) (w : W)
      → count_original (post_loop world stops fs ctx w).trace ≡ 0
  unfolding post_loop
  post_loop-count stops [] ctx w = refl
  post_loop-count stops (fwd ∷ fs) ctx w =
      let (ret, ctx', w') = run_forward world fwd ctx w in
      ground (arith, post_loop-count stops fs ctx w, post_loop-count stops fs ctx' w')

  -- What ran before the original could.
  abbrev pub pre_events : Hook → HookCtx → W → List Event
  pre_events hook ctx w =
      (void_pre world hook.pre hc_continue (reset integer ctx) (world.set_called false w)).trace

  -- The original function runs at most once. It does not run exactly when a pre callback returned
  -- HC_BREAK, or the highest code that one returned is HC_SUPERCEDE.
  pub run_void_forward-count :
      (hook : Hook) (original : List Arg → W → W) (ctx : HookCtx) (w : W)
      → let cs = codes (pre_events hook ctx w) in
        count_original (run_void_forward world hook original ctx w).2
        ≡ (if has_code hc_break cs || eqb_ℤ (max_code hc_continue cs) hc_supercede then 0 else 1)
  unfolding run_void_forward void_rest
  run_void_forward-count hook original ctx w =
      let l = void_pre world hook.pre hc_continue (reset integer ctx) (world.set_called false w) in
      let u =
        if eqb_ℤ l.hc_state hc_supercede
        then l.world
        else world.set_called true (original l.ctx.args l.world) in
      let p = post_loop world void_stops hook.post l.ctx u in
      ground (
        arith,
        void_pre-codes hook.pre hc_continue (reset integer ctx) (world.set_called false w),
        post_loop-count void_stops hook.post l.ctx u,
        count_original-append l.trace (original_ran ∷ []),
        count_original-append l.trace [],
        count_original-append l.trace (original_ran ∷ p.trace),
        count_original-append l.trace p.trace,
      )

  -- After a pre callback that returned HC_BREAK nothing more runs.
  pub run_void_forward-break :
      (hook : Hook) (original : List Arg → W → W) (ctx : HookCtx) (w : W)
      → has_code hc_break (codes (pre_events hook ctx w)) ≡ true
      → (run_void_forward world hook original ctx w).2 ≡ pre_events hook ctx w
  unfolding run_void_forward void_rest
  run_void_forward-break hook original ctx w b =
      let start = world.set_called false w in
      ground (arith, void_pre-codes hook.pre hc_continue (reset integer ctx) start)

  -- If HC_BYPASS is the highest code of the pre callbacks that ran, and none of them returned
  -- HC_BREAK, then the original runs behind them and no post callback does.
  run_void_forward-bypass :
      (hook : Hook) (original : List Arg → W → W) (ctx : HookCtx) (w : W)
      → has_code hc_break (codes (pre_events hook ctx w)) ≡ false
      → eqb_ℤ (max_code hc_continue (codes (pre_events hook ctx w))) hc_bypass ≡ true
      → (run_void_forward world hook original ctx w).2 ≡ pre_events hook ctx w ++ original_ran ∷ []
  unfolding run_void_forward void_rest
  run_void_forward-bypass hook original ctx w b m =
      let start = world.set_called false w in
      ground (arith, void_pre-codes hook.pre hc_continue (reset integer ctx) start)
