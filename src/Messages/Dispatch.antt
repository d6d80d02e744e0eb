-- ===== src/Messages/Dispatch.antt =====
-- The dispatch of one game message: the active context that the callbacks and the rest of the chain
-- see, and when the chain goes on.
use reapi.Chain.{hc_continue, hc_supercede, hc_break, is_enabled}
use reapi.Chain.Void.{has_code, max_code}
use reapi.Hooks.{AmxxHook}
use reapi.Messages.Context.{
  Message, MessageWorld, MessageEvent, hook_ran, next_ran, MessageLoop, message_loop, message_rest,
  dispatch_message,
}
use reapi.Messages.{MessageHook, MessageHookManager, get_hook}
use reapi.Prelude.Int.{ℤ, ltb_ℤ, eqb_ℤ}
use reapi.Prelude.{
  ℕ, suc, ◌+◌, ◌≡◌, refl, ◌∙◌, false, ◌||◌, Option, none, some, List, [], ◌∷◌, ◌++◌, All,
  All-append, if◌then◌else◌, arith, Bool-cases, inl, inr,
}

-- The codes that the callbacks in a trace returned.
abbrev pub message_codes : List MessageEvent → List ℤ
message_codes [] = []
message_codes (hook_ran fwd active ret ∷ es) = ret ∷ message_codes es
message_codes (next_ran active ∷ es) = message_codes es

-- How often the rest of the chain ran.
abbrev pub count_next : List MessageEvent → ℕ
count_next [] = 0
count_next (hook_ran fwd active ret ∷ es) = count_next es
count_next (next_ran active ∷ es) = suc (count_next es)

-- The context that each event should see: the message in a callback, none in the rest of the chain.
abbrev pub SeesMessage : Message → MessageEvent → Type 0
SeesMessage msg (hook_ran fwd active ret) = active ≡ some msg
SeesMessage msg (next_ran active) = active ≡ none

count_next-append :
    (es fs : List MessageEvent) → count_next (es ++ fs) ≡ count_next es + count_next fs
count_next-append [] fs = omega arith
count_next-append (hook_ran fwd active ret ∷ es) fs = count_next-append es fs
count_next-append (next_ran active ∷ es) fs = omega (arith, count_next-append es fs)

module _ {W : Type 0} (world : MessageWorld W) where
  message_loop-codes :
      (fs : List AmxxHook) (msg : Message) (hs : ℤ) (active : Option Message) (w : W)
      → let l = message_loop world fs msg hs active w in
        (l.broke ≡ has_code hc_break (message_codes l.trace))
        × (l.broke ≡ false → l.hook_state ≡ max_code hs (message_codes l.trace))
        × (count_next l.trace ≡ 0)
  unfolding message_loop
  message_loop-codes [] msg hs active w = (refl, λ _. refl, refl)
  message_loop-codes (fwd ∷ fs) msg hs active w =
      let (ret, active', w') = world.execute fwd msg active w in
      ground (
        arith,
        message_loop-codes fs msg hs active w,
        message_loop-codes fs msg (if ltb_ℤ hs ret then ret else hs) active' w',
      )

  -- The callbacks before the message.
  abbrev pub pre_loop : MessageHook → Message → W → MessageLoop W
  pre_loop h msg w = message_loop world h.pre msg hc_continue (some msg) w

  -- For a message with an id from 1 to 255 the rest of the chain runs at most once. It does not run
  -- exactly when a callback before the message returned HC_BREAK, or the highest code that one
  -- returned is HC_SUPERCEDE.
  pub dispatch_message-count :
      (m : MessageHookManager) (msg : Message) (active : Option Message) (w : W) (id : ℕ)
      → get_hook msg.msg_id ≡ some id
      → let cs = message_codes (pre_loop (m.hooks id) msg w).trace in
        count_next (dispatch_message world m msg active w).2
        ≡ (if has_code hc_break cs || eqb_ℤ (max_code hc_continue cs) hc_supercede then 0 else 1)
  unfolding dispatch_message message_rest
  dispatch_message-count m msg active w id g =
      let h = m.hooks id in
      let l = pre_loop h msg w in
      let n = world.call_next msg none l.world in
      let p = message_loop world h.post msg hc_continue (some msg) n.1 in
      let q = message_loop world h.post msg hc_continue l.active l.world in
      ground (
        arith,
        g,
        message_loop-codes h.pre msg hc_continue (some msg) w,
        message_loop-codes h.post msg hc_continue (some msg) n.1,
        message_loop-codes h.post msg hc_continue l.active l.world,
        count_next-append l.trace (next_ran none ∷ p.trace),
        count_next-append l.trace q.trace,
      )

  module _
      (keeps : (fwd : AmxxHook) (msg : Message) (active : Option Message) (w : W)
        → (world.execute fwd msg active w).1 ≡ active) where
    message_loop-sees :
        (fs : List AmxxHook) (msg : Message) (hs : ℤ) (active : Option Message) (w : W)
        → active ≡ some msg
        → let l = message_loop world fs msg hs active w in
          All (SeesMessage msg) l.trace × (l.active ≡ some msg)
    unfolding message_loop
    message_loop-sees [] msg hs active w a = (tt, a)
    message_loop-sees (fwd ∷ fs) msg hs active w a =
        let r = world.execute fwd msg active w in
        let hs' = if ltb_ℤ hs r.0 then r.0 else hs in
        let kept = keeps fwd msg active w ∙ a in
        let rest = message_loop-sees fs msg hs' r.1 r.2 kept in
        elim (Bool-cases (is_enabled (world.state_of w fwd))) [
          | inr off ↦ rw (off, message_loop) (message_loop-sees fs msg hs active w a)
          | inl on ↦
              rw (on, message_loop)
                (elim (Bool-cases (eqb_ℤ r.0 hc_break)) [
                  | inl stop ↦ rw stop ((a, tt), kept)
                  | inr go ↦ rw go ((a, rest.0), rest.1)
                ])
        ]

    message_rest-sees :
        (post : List AmxxHook) (msg : Message) (l : MessageLoop W)
        → l.active ≡ some msg
        → All (SeesMessage msg) (message_rest world post msg l).1
    unfolding message_rest
    message_rest-sees post msg l a = elim (Bool-cases (eqb_ℤ l.hook_state hc_supercede)) [
      | inl s ↦ rw (s, message_rest) (message_loop-sees post msg hc_continue l.active l.world a).0
      | inr s ↦
          rw (s, message_rest)
            (
              refl,
              (message_loop-sees post msg hc_continue (some msg)
                  (world.call_next msg none l.world).1 refl).0,
            )
    ]

    -- If the callbacks leave `g_activeMessageContext` as they found it, then the dispatch of a message
    -- with an id from 1 to 255 restores it too, in every case; and in the dispatch each callback runs
    -- with the message as the active context, and the rest of the chain with none.
    pub dispatch_message-sees :
        (m : MessageHookManager) (msg : Message) (active : Option Message) (w : W) (id : ℕ)
        → get_hook msg.msg_id ≡ some id
        → let r = dispatch_message world m msg active w in
          (r.0 ≡ active) × All (SeesMessage msg) r.2
    unfolding dispatch_message message_loop
    dispatch_message-sees m msg active w id g =
        let h = m.hooks id in
        let l = pre_loop h msg w in
        let (seen, kept) = message_loop-sees h.pre msg hc_continue (some msg) w refl in
        elim (Bool-cases l.broke) [
          | inl b ↦ rw (g, dispatch_message, b) (refl, seen)
          | inr b ↦
              rw (g, dispatch_message, b)
                (
                  refl,
                  All-append (SeesMessage msg) l.trace (message_rest world h.post msg l).1 seen
                      (message_rest-sees h.post msg l kept),
                )
        ]
