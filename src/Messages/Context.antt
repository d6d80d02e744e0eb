-- ===== src/Messages/Context.antt =====
-- reapi/src/hook_message_manager.cpp: the dispatch of one game message.
--
-- The callbacks and the rest of the hook chain are the parameters of a `MessageWorld`, and what they do
-- to `g_activeMessageContext` is in their result.
use reapi.Chain.{is_enabled, hc_continue, hc_supercede, hc_break}
use reapi.Hooks.{AmxxHook, FwdState}
use reapi.Messages.{MessageHookManager, get_hook}
use reapi.Prelude.Int.{ℤ, ltb_ℤ, eqb_ℤ}
use reapi.Prelude.{ℕ, Bool, true, false, Option, none, some, List, [], ◌∷◌, ◌++◌, if◌then◌else◌}

pub record Message : Type 0 where
  pub msg_id : ℕ
  pub dest : ℕ
  pub edict : Option ℕ

pub record MessageWorld (W : Type 0) : Type 0 where
  -- The state of a forward, as it is when it is asked.
  pub state_of : W → AmxxHook → FwdState
  -- ExecuteForward, given the active context: the code returned, the context and the rest after it.
  pub execute : AmxxHook → Message → Option Message → W → ℤ × Option Message × W
  -- `chain->callNext(message)`
  pub call_next : Message → Option Message → W → Option Message × W

-- For the statements: a callback ran and returned a code, or the chain went on; with the context
-- that was active when it started.
pub data MessageEvent : Type 0 where
  hook_ran : AmxxHook → Option Message → ℤ → MessageEvent
  next_ran : Option Message → MessageEvent

-- How a loop over forwards ends: `hookState`, the context, the world, and what happened.
pub record MessageLoop (W : Type 0) : Type 0 where
  pub broke : Bool
  pub hook_state : ℤ
  pub active : Option Message
  pub world : W
  pub trace : List MessageEvent

module _ {W : Type 0} (world : MessageWorld W) where
  -- The loop over `msg->pre`, and the one over `msg->post`, where the state is not read.
  unfoldable pub message_loop : List AmxxHook → Message → ℤ → Option Message → W → MessageLoop W
  message_loop [] msg hs active w = record {
    broke = false;
    hook_state = hs;
    active = active;
    world = w;
    trace = [];
  }
  message_loop (fwd ∷ fs) msg hs active w = elim (is_enabled (world.state_of w fwd)) [
    | false ↦ message_loop fs msg hs active w
    | true ↦
        let r = world.execute fwd msg active w in
        let l = message_loop fs msg (if ltb_ℤ hs r.0 then r.0 else hs) r.1 r.2 in
        elim (eqb_ℤ r.0 hc_break) [
          | true ↦ record {
            broke = true;
            hook_state = hs;
            active = r.1;
            world = r.2;
            trace = hook_ran fwd active r.0 ∷ [];
          }
          | false ↦ record l { trace = hook_ran fwd active r.0 ∷ l.trace }
        ]
  ]

  -- Behind the first loop, unless it broke: the active context is set by hand.
  unfoldable pub message_rest : List AmxxHook → Message → MessageLoop W → W × List MessageEvent
  message_rest post msg l = elim (eqb_ℤ l.hook_state hc_supercede) [
    | true ↦ let p = message_loop post msg hc_continue l.active l.world in (p.world, p.trace)
    | false ↦
        let n = world.call_next msg none l.world in
        let p = message_loop post msg hc_continue (some msg) n.1 in
        (p.world, next_ran none ∷ p.trace)
  ]

  -- MessageHookManager::DispatchCallbacks: the active context, the world and what happened.
  unfoldable pub dispatch_message :
      MessageHookManager → Message → Option Message → W → Option Message × W × List MessageEvent
  dispatch_message m msg active w = elim (get_hook msg.msg_id) [
    | none ↦ let n = world.call_next msg active w in (n.0, n.1, next_ran active ∷ [])
    | some id ↦
        let l = message_loop (m.hooks id).pre msg hc_continue (some msg) w in
        if l.broke
        then (active, l.world, l.trace)
        else let r = message_rest (m.hooks id).post msg l in (active, r.0, l.trace ++ r.1)
  ]
