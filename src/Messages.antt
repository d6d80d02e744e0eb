-- ===== src/Messages.antt =====
-- reapi/src/hook_message_manager.h and .cpp: the manager of the forwards on game messages.
--
-- The message manager of ReHLDS is outside of the program: what it is asked for is kept as a list of
-- calls.
pub mod Natives
pub mod Context
pub mod Removal
pub mod Api
pub mod Data
pub mod Stored
pub mod Dispatch
mod Examples
use reapi.Hooks.{AmxxHook, FwdState, new_hook, is_empty, enabled, stopped}
use reapi.Chain.{is_enabled, hc_continue, hc_supercede, hc_break}
use reapi.Prelude.Int.{ℤ, pos, negsuc, neg, ltb_ℤ, eqb_ℤ}
use reapi.Prelude.{
  ℕ, zero, suc, ◌+◌, ◌*◌, ◌/◌, ◌%◌, Bool, true, false, ◌&&◌, ◌||◌, Option, none, some, List, [],
  ◌∷◌, ◌++◌, map, length, get_elem?, set, ltb, ◌==◌, if◌then◌else◌,
}

abbrev pub max_usermessages : ℕ
max_usermessages = 256

pub record MessageHook : Type 0 where
  pub id : ℕ
  pub pre : List AmxxHook
  pub post : List AmxxHook

-- Calls of `g_RehldsMessageManager` with `RoutineMessageCallbacks`.
pub data RoutineCall : Type 0 where
  register_hook unregister_hook : ℕ → RoutineCall

-- The array of hooks, the calls, and the forwards that were unregistered.
pub record MessageHookManager : Type 0 where
  pub hooks : ℕ → MessageHook
  pub calls : List RoutineCall
  pub released : List ℕ

unfoldable pub message_forwards : Bool → MessageHook → List AmxxHook
message_forwards post h = if post then h.post else h.pre

unfoldable pub with_message_forwards : Bool → List AmxxHook → MessageHook → MessageHook
with_message_forwards post hs h = if post then record h { post = hs } else record h { pre = hs }

unfoldable pub update_hook : ℕ → MessageHook → (ℕ → MessageHook) → ℕ → MessageHook
update_hook id h f id' = if id == id' then h else f id'

-- MessageHookManager::getHook, as the index of the entry.
unfoldable pub get_hook : ℕ → Option ℕ
get_hook zero = none
get_hook (suc n) = if ltb (suc n) max_usermessages then some (suc n) else none

unfoldable pub message_handle : ℕ → ℕ → Bool → ℤ
message_handle msg_id size post =
    let handle = msg_id * max_usermessages + size + 1 in
    if post then neg (pos handle) else pos handle

-- MessageHookManager::addHook; `fwid` is what AMXX registers, or `none` for -1.
unfoldable pub add_hook :
    ℕ → ℕ → List ℕ → Option ℕ → Bool → MessageHookManager → ℤ × MessageHookManager
unfolding is_empty
add_hook amx msg_id funcname none post m = (pos 0, m)
add_hook amx msg_id funcname (some fwid) post m =
    let msg = m.hooks msg_id in
    let first = is_empty msg.post && is_empty msg.pre in
    let msg' = if first then record msg { id = msg_id } else msg in
    let dest = message_forwards post msg' in
    let hook = new_hook amx funcname fwid (negsuc 0) in
    (
      message_handle msg_id (length dest) post,
      record m {
        hooks = update_hook msg_id (with_message_forwards post (dest ++ hook ∷ []) msg') m.hooks;
        calls = if first then m.calls ++ register_hook msg_id ∷ [] else m.calls;
      },
    )

-- The message and the position that a handle names. For the handle 0 both come from -1, of which the
-- quotient is 0.
unfoldable pub unpack : ℤ → ℕ × ℕ
unpack (pos zero) = (0, 255)
unpack (pos (suc n)) = (n / max_usermessages, n % max_usermessages)
unpack (negsuc n) = (n / max_usermessages, n % max_usermessages)

unfoldable pub is_post_handle : ℤ → Bool
is_post_handle (pos n) = false
is_post_handle (negsuc n) = true

-- `forwards.erase(forwards.begin() + i)`
unfoldable pub erase_at : ℕ → List AmxxHook → List AmxxHook
erase_at i [] = []
erase_at zero (h ∷ hs) = hs
erase_at (suc i) (h ∷ hs) = h ∷ erase_at i hs

-- MessageHookManager::getAmxxHook
unfoldable pub get_message_hook : ℤ → MessageHookManager → Option AmxxHook
unfolding unpack is_post_handle message_forwards
get_message_hook handle m = elim (get_hook (unpack handle).0) [
  | none ↦ none
  | some id ↦ get_elem? (message_forwards (is_post_handle handle) (m.hooks id)) (unpack handle).1
]

-- The removal of a forward that is there.
unfoldable pub erase_forward : ℕ → Bool → ℕ → AmxxHook → MessageHookManager → MessageHookManager
unfolding message_forwards with_message_forwards update_hook erase_at
erase_forward id post i hook m =
    let msg = m.hooks id in
    record m {
      hooks =
          update_hook id (with_message_forwards post (erase_at i (message_forwards post msg)) msg)
            m.hooks;
      released = m.released ++ hook.fwdindex ∷ [];
    }

-- MessageHookManager::removeHook
unfoldable pub remove_hook : ℤ → MessageHookManager → Bool × MessageHookManager
unfolding unpack is_post_handle message_forwards
remove_hook handle m = elim (get_hook (unpack handle).0) [
  | none ↦ (false, m)
  | some id ↦
      let post = is_post_handle handle in
      let i = (unpack handle).1 in
      elim (get_elem? (message_forwards post (m.hooks id)) i) [
        | none ↦ (false, m)
        | some hook ↦ (true, erase_forward id post i hook m)
      ]
]

-- MessageHook::clear
unfoldable pub clear_message : ℕ → MessageHookManager → MessageHookManager
unfolding is_empty update_hook
clear_message id m =
    let msg = m.hooks id in
    if is_empty msg.post && is_empty msg.pre then m else record {
      hooks = update_hook id (record msg { pre = []; post = [] }) m.hooks;
      calls = m.calls ++ unregister_hook msg.id ∷ [];
      released = m.released ++ (map (λ f. f.fwdindex) msg.post ++ map (λ f. f.fwdindex) msg.pre);
    }

-- MessageHookManager::Clear, from the entry `id` on.
unfoldable pub clear_messages : ℕ → ℕ → MessageHookManager → MessageHookManager
clear_messages zero id m = m
clear_messages (suc n) id m = clear_messages n (id + 1) (clear_message id m)
