-- ===== src/Messages/Natives.antt =====
-- reapi/src/natives/natives_hookmessage.cpp: the natives that register, remove and switch message
-- hooks. `available` is what CHECK_REQUIREMENTS asks: that ReHLDS and its message manager are there.
use reapi.Hooks.{FwdState}
use reapi.Messages.{
  MessageHookManager, max_usermessages, message_forwards, with_message_forwards, update_hook,
  add_hook, unpack, is_post_handle, get_message_hook, remove_hook,
}
use reapi.Prelude.Int.{ℤ, pos, negsuc}
use reapi.Prelude.{
  ℕ, zero, suc, Bool, true, false, ◌&&◌, Option, none, some, List, set, ltb, if◌then◌else◌,
}

-- RegisterMessage; `is_public` is what `amx_FindPublic` says of the name.
unfoldable pub register_message :
    Bool → ℕ → ℤ → List ℕ → Bool → Option ℕ → Bool → MessageHookManager → ℤ × MessageHookManager
unfolding add_hook
register_message available amx (negsuc n) funcname is_public fwid post m = (pos 0, m)
register_message available amx (pos zero) funcname is_public fwid post m = (pos 0, m)
register_message available amx (pos (suc n)) funcname is_public fwid post m =
    if available && (ltb (suc n) max_usermessages && is_public)
    then add_hook amx (suc n) funcname fwid post m
    else (pos 0, m)

-- UnregisterMessage
unfoldable pub unregister_message : Bool → ℤ → MessageHookManager → Bool × MessageHookManager
unfolding remove_hook
unregister_message available handle m = if available then remove_hook handle m else (false, m)

-- The write through the pointer that `getAmxxHook` returns: EnableHookMessage with `enabled`,
-- DisableHookMessage with `stopped`.
unfoldable pub switch_hook : FwdState → Bool → ℤ → MessageHookManager → Bool × MessageHookManager
unfolding unpack is_post_handle message_forwards with_message_forwards update_hook
switch_hook state false handle m = (false, m)
switch_hook state true handle m = elim (get_message_hook handle m) [
  | none ↦ (false, m)
  | some hook ↦
      let id = (unpack handle).0 in
      let post = is_post_handle handle in
      let hooks =
        set (message_forwards post (m.hooks id)) (unpack handle).1
          (record hook { state = state }) in
      (
        true,
        record m { hooks = update_hook id (with_message_forwards post hooks (m.hooks id)) m.hooks },
      )
]
