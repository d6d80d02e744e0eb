-- ===== src/Entity.antt =====
-- reapi/src/entity_callback_dispatcher.h and .cpp: the callbacks that plugins set on entities, and
-- how deletions wait while a callback runs.
--
-- An entity and an `AMX` are numbers. A callback object has the number of its allocation for its
-- address. AMXX gives the forward of a registration, or none for -1, and says nothing else here.
pub mod Counts
pub mod Invariant
pub mod Lifetimes
mod Examples
pub mod Dispatch
use reapi.Prelude.Int.{ℤ, pos}
use reapi.Prelude.{
  ℕ, suc, Bool, true, false, ◌&&◌, ◌||◌, Option, none, some, List, [], ◌∷◌, ◌++◌, ◌≡◌, ◌==◌,
  if◌then◌else◌,
}

-- CallbackType; `any_type` is `None`.
pub data CallbackType : Type 0 where
  any_type think touch on_use blocked move_done : CallbackType

type_code : CallbackType → ℕ
type_code any_type = 0
type_code think = 1
type_code touch = 2
type_code on_use = 3
type_code blocked = 4
type_code move_done = 5

unfoldable pub same_type : CallbackType → CallbackType → Bool
unfolding type_code
same_type s t = type_code s == type_code t

pub record EntityCallback : Type 0 where
  pub address : ℕ
  pub amx : ℕ
  pub callback_name : List ℕ
  pub fwdindex : ℕ
  pub entity : ℕ
  pub type : CallbackType
  -- m_pUserParams; m_nUserParamBlockSize is its length
  pub user_params : List ℤ

-- The constructor ends the parameters with a 0, if there are any.
unfoldable pub param_block : List ℤ → List ℤ
param_block [] = []
param_block (p ∷ ps) = (p ∷ ps) ++ pos 0 ∷ []

-- The dispatcher, with the next address, the forwards that were unregistered, and the member
-- functions of entities that point to the dispatcher.
pub record Dispatcher : Type 0 where
  pub is_processing : Bool
  pub callbacks : List EntityCallback
  pub mark_for_deletion : List ℕ
  pub next_address : ℕ
  pub released : List ℕ
  pub hooked : ℕ → CallbackType → Bool

unfoldable pub is_for : ℕ → CallbackType → EntityCallback → Bool
is_for e t c = (c.entity == e) && same_type c.type t

-- The test of the loop: `none` is a null entity.
unfoldable pub selects : Option ℕ → CallbackType → EntityCallback → Bool
unfolding same_type
selects none t c = true
selects (some e) t c = (c.entity == e) && (same_type c.type t || same_type any_type t)

unfoldable pub is_marked : ℕ → List ℕ → Bool
is_marked a [] = false
is_marked a (m ∷ ms) = (a == m) || is_marked a ms

-- `m_callbacksMarkForDeletion.push_back`, unless it is there already.
unfoldable pub mark : ℕ → List ℕ → List ℕ
mark a ms = if is_marked a ms then ms else ms ++ a ∷ []

-- The loop of `DeleteExistingCallbacks` while callbacks are being processed.
unfoldable pub mark_selected : Option ℕ → CallbackType → List EntityCallback → List ℕ → List ℕ
mark_selected e t [] ms = ms
mark_selected e t (c ∷ cs) ms =
    mark_selected e t cs (if selects e t c then mark c.address ms else ms)

-- The same loop otherwise: what stays, and the forwards of what goes.
unfoldable pub keep_others : Option ℕ → CallbackType → List EntityCallback → List EntityCallback
keep_others e t [] = []
keep_others e t (c ∷ cs) = if selects e t c then keep_others e t cs else c ∷ keep_others e t cs

unfoldable pub selected_forwards : Option ℕ → CallbackType → List EntityCallback → List ℕ
selected_forwards e t [] = []
selected_forwards e t (c ∷ cs) =
    if selects e t c then c.fwdindex ∷ selected_forwards e t cs else selected_forwards e t cs

-- CEntityCallbackDispatcher::DeleteExistingCallbacks. The last `clear` finds the list empty.
unfoldable pub delete_existing : Option ℕ → CallbackType → Dispatcher → Dispatcher
delete_existing e t d =
    if d.is_processing
    then record d { mark_for_deletion = mark_selected e t d.callbacks d.mark_for_deletion }
    else record d {
      callbacks = keep_others e t d.callbacks;
      released = d.released ++ selected_forwards e t d.callbacks;
    }

-- CEntityCallbackDispatcher::DeleteAllCallbacks
unfoldable pub delete_all : Dispatcher → Dispatcher
delete_all d = delete_existing none any_type d

-- `pEntity->SetThink(...)` and its like: `b` for the dispatcher's function, else null.
unfoldable pub hook_entity : ℕ → CallbackType → Bool → Dispatcher → Dispatcher
hook_entity e t b d = record d {
  hooked = λ e' t'. if (e == e') && same_type t t' then b else d.hooked e' t';
}

-- The new callback behind the others.
unfoldable pub push_callback : ℕ → ℕ → List ℕ → List ℤ → CallbackType → ℕ → Dispatcher → Dispatcher
push_callback amx e name params t fwd d =
    let callback : EntityCallback = record {
      address = d.next_address;
      amx = amx;
      callback_name = name;
      fwdindex = fwd;
      entity = e;
      type = t;
      user_params = param_block params;
    } in
    record d { callbacks = d.callbacks ++ callback ∷ []; next_address = suc d.next_address }

-- SetThink, SetTouch, SetUse and SetBlocked, which differ in the type alone.
unfoldable pub set_callback :
    CallbackType → ℕ → ℕ → List ℕ → List ℤ → Option ℕ → Dispatcher → Bool × Dispatcher
set_callback t amx e name params fwd d = elim fwd [
  | none ↦ (false, delete_existing (some e) t d)
  | some f ↦ (
    true,
    hook_entity e t true (push_callback amx e name params t f (delete_existing (some e) t d)),
  )
]

unfoldable pub set_think : ℕ → ℕ → List ℕ → List ℤ → Option ℕ → Dispatcher → Bool × Dispatcher
unfolding set_callback
set_think = set_callback think

unfoldable pub set_touch : ℕ → ℕ → List ℕ → List ℤ → Option ℕ → Dispatcher → Bool × Dispatcher
unfolding set_callback
set_touch = set_callback touch

unfoldable pub set_use : ℕ → ℕ → List ℕ → List ℤ → Option ℕ → Dispatcher → Bool × Dispatcher
unfolding set_callback
set_use = set_callback on_use

unfoldable pub set_blocked : ℕ → ℕ → List ℕ → List ℤ → Option ℕ → Dispatcher → Bool × Dispatcher
unfolding set_callback
set_blocked = set_callback blocked

-- SetMoveDone; `is_toggle` says that the entity is a `CBaseToggle`, which is asked after the forward
-- has been registered.
unfoldable pub set_move_done :
    Bool → ℕ → ℕ → List ℕ → List ℤ → Option ℕ → Dispatcher → Bool × Dispatcher
unfolding set_callback
set_move_done is_toggle amx e name params fwd d = elim fwd [
  | none ↦ (false, delete_existing (some e) move_done d)
  | some f ↦
      if is_toggle
      then set_callback move_done amx e name params (some f) d
      else (false, delete_existing (some e) move_done d)
]

-- UnsetThink, UnsetTouch, UnsetUse and UnsetBlocked
unfoldable pub unset_callback : CallbackType → ℕ → Dispatcher → Dispatcher
unset_callback t e d = delete_existing (some e) t (hook_entity e t false d)

-- UnsetMoveDone
unfoldable pub unset_move_done : Bool → ℕ → Dispatcher → Dispatcher
unfolding unset_callback
unset_move_done is_toggle e d = if is_toggle then unset_callback move_done e d else d
