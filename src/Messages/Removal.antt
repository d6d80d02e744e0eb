-- ===== src/Messages/Removal.antt =====
-- Handles of message hooks: what a registration returns, and what a removal does to the handles that
-- were given out before.
use native.Mathlib.Numerals.{add-one}
use reapi.Hooks.{AmxxHook, new_hook, is_empty}
use reapi.Messages.{
  RoutineCall, MessageHookManager, max_usermessages, message_forwards, with_message_forwards,
  update_hook, get_hook, message_handle, add_hook, unpack, is_post_handle, erase_at,
  get_message_hook, erase_forward, remove_hook, clear_message, register_hook, unregister_hook,
}
use reapi.Prelude.Int.{ℤ, negsuc}
use reapi.Prelude.{
  ℕ, zero, suc, ◌<◌, ◌≡◌, refl, sym, ap, ◌∙◌, Bool, true, false, some, List, [], ◌∷◌, ◌++◌, length,
  get_elem?, ltb, leb, ◌≤◌, ◌⊎◌, inl, inr, Bool-cases, if◌then◌else◌, arith, get_elem?-append_end,
  get_elem?-append_left,
}

get_elem?-erase_at :
    (xs : List AmxxHook) (i j : ℕ)
    → i < length xs
    → get_elem? (erase_at i xs) j ≡ get_elem? xs (if ltb j i then j else suc j)
unfolding erase_at
get_elem?-erase_at [] i j h = elim h [ ]
get_elem?-erase_at (x ∷ xs) zero j h = ground arith
get_elem?-erase_at (x ∷ xs) (suc i) zero h = ground arith
get_elem?-erase_at (x ∷ xs) (suc i) (suc j) h = ground (arith, get_elem?-erase_at xs i j)

get_elem?-within :
    (xs : List AmxxHook) (i : ℕ) → i < length xs → (x : AmxxHook) × (get_elem? xs i ≡ some x)
get_elem?-within [] i h = elim h [ ]
get_elem?-within (x ∷ xs) zero h = (x, refl)
get_elem?-within (x ∷ xs) (suc i) h = get_elem?-within xs i (omega arith)

unpack-message_handle :
    (id i : ℕ) (post : Bool)
    → i < max_usermessages
    → (unpack (message_handle id i post) ≡ (id, i))
      × (is_post_handle (message_handle id i post) ≡ post)
unfolding unpack message_handle is_post_handle
unpack-message_handle id i true h = rw add-one (ground arith)
unpack-message_handle id i false h = rw add-one (ground arith)

get_hook-within : (id : ℕ) → 0 < id → id < max_usermessages → get_hook id ≡ some id
unfolding get_hook
get_hook-within zero h k = absurd (omega arith)
get_hook-within (suc n) h k = ground arith

-- A handle is looked up at its message and position.
module _ (handle : ℤ) (id i : ℕ) (post : Bool) (m : MessageHookManager)
    (u : unpack handle ≡ (id, i)) (v : is_post_handle handle ≡ post)
    (g : get_hook id ≡ some id) where
  looked_up : get_message_hook handle m ≡ get_elem? (message_forwards post (m.hooks id)) i
  unfolding get_message_hook
  looked_up = ground arith

  removed :
      (x : AmxxHook)
      → get_elem? (message_forwards post (m.hooks id)) i ≡ some x
      → remove_hook handle m ≡ (true, erase_forward id post i x m)
  unfolding remove_hook
  removed x e = ground arith

get_message_hook_at :
    (id i : ℕ) (post : Bool) (m : MessageHookManager)
    → 0 < id
    → id < max_usermessages
    → i < max_usermessages
    → get_message_hook (message_handle id i post) m
      ≡ get_elem? (message_forwards post (m.hooks id)) i
get_message_hook_at id i post m p q h =
    let (u, v) = unpack-message_handle id i post h in
    looked_up (message_handle id i post) id i post m u v (get_hook-within id p q)

remove_hook_at :
    (id i : ℕ) (post : Bool) (x : AmxxHook) (m : MessageHookManager)
    → 0 < id
    → id < max_usermessages
    → i < max_usermessages
    → get_elem? (message_forwards post (m.hooks id)) i ≡ some x
    → remove_hook (message_handle id i post) m ≡ (true, erase_forward id post i x m)
remove_hook_at id i post x m p q h e =
    let (u, v) = unpack-message_handle id i post h in
    removed (message_handle id i post) id i post m u v (get_hook-within id p q) x e

forwards-erase_forward :
    (id i : ℕ) (post : Bool) (x : AmxxHook) (m : MessageHookManager)
    → message_forwards post ((erase_forward id post i x m).hooks id)
      ≡ erase_at i (message_forwards post (m.hooks id))
unfolding erase_forward message_forwards with_message_forwards update_hook
forwards-erase_forward id i true x m = ground arith
forwards-erase_forward id i false x m = ground arith

-- When the handle of a registered forward, for a message from 1 to 255 and a position below 256, is
-- removed, the removal returns true, and every handle of the same message and kind with a position
-- below 256 names what it named if its position is lower, and else the forward that was one further.
pub remove_hook-shift :
    (id i j : ℕ) (post : Bool) (m : MessageHookManager)
    → 0 < id
    → id < max_usermessages
    → i < max_usermessages
    → j < max_usermessages
    → i < length (message_forwards post (m.hooks id))
    → let (removed, m') = remove_hook (message_handle id i post) m in
      (removed ≡ true)
      × (get_message_hook (message_handle id j post) m'
          ≡ get_elem? (message_forwards post (m.hooks id)) (if ltb j i then j else suc j))
remove_hook-shift id i j post m p q h k l =
    let (x, e) = get_elem?-within (message_forwards post (m.hooks id)) i l in
    rw (remove_hook_at id i post x m p q h e) (
      refl,
      get_message_hook_at id j post (erase_forward id post i x m) p q k
          ∙ ap (λ hs. get_elem? hs j) (forwards-erase_forward id i post x m)
          ∙ get_elem?-erase_at (message_forwards post (m.hooks id)) i j l,
    )

module _ (amx id : ℕ) (name : List ℕ) (fwid : ℕ) (post : Bool) (m : MessageHookManager) where
  -- The forwards of a message after a registration for it.
  forwards-add_hook :
      message_forwards post ((add_hook amx id name (some fwid) post m).1.hooks id)
      ≡ message_forwards post (m.hooks id) ++ new_hook amx name fwid (negsuc 0) ∷ []
  unfolding add_hook message_forwards with_message_forwards update_hook
  forwards-add_hook = ground arith

  handle-add_hook :
      (add_hook amx id name (some fwid) post m).0
      ≡ message_handle id (length (message_forwards post (m.hooks id))) post
  unfolding add_hook message_forwards
  handle-add_hook = ground arith

-- A registration for a message from 1 to 255 that has fewer than 256 forwards of the kind, also the
-- first one, returns a handle that names the new forward, which is enabled; and the handle of that kind
-- for any position names the same forward as before, if there was one at the position.
pub get_message_hook-add_hook :
    (amx id j : ℕ) (name : List ℕ) (fwid : ℕ) (post : Bool) (m : MessageHookManager)
    → 0 < id
    → id < max_usermessages
    → length (message_forwards post (m.hooks id)) < max_usermessages
    → let (handle, m') = add_hook amx id name (some fwid) post m in
      (get_message_hook handle m' ≡ some (new_hook amx name fwid (negsuc 0)))
      × ((length (message_forwards post (m.hooks id)) ≤ j)
          ⊎ (get_message_hook (message_handle id j post) m'
              ≡ get_message_hook (message_handle id j post) m))
get_message_hook-add_hook amx id j name fwid post m p q h =
    let m' = (add_hook amx id name (some fwid) post m).1 in
    let xs = message_forwards post (m.hooks id) in
    let x = new_hook amx name fwid (negsuc 0) in
    (
      ap (λ a. get_message_hook a m') (handle-add_hook amx id name fwid post m)
          ∙ get_message_hook_at id (length xs) post m' p q h
          ∙ ap (λ hs. get_elem? hs (length xs)) (forwards-add_hook amx id name fwid post m)
          ∙ get_elem?-append_end xs x (length xs) refl,
      elim (Bool-cases (leb (length xs) j)) [
        | inl past ↦ inl (ground arith)
        | inr within ↦
            let k : j < length xs = ground arith in
            inr (
              get_message_hook_at id j post m' p q (omega arith)
              ∙ ap (λ hs. get_elem? hs j) (forwards-add_hook amx id name fwid post m)
              ∙ get_elem?-append_left xs (x ∷ []) j k
              ∙ sym (get_message_hook_at id j post m p q (omega arith)))
      ],
    )

module _ (amx id : ℕ) (name : List ℕ) (f : ℕ) (m : MessageHookManager) (r : (m.hooks id).pre ≡ [])
    (s : (m.hooks id).post ≡ []) where
  calls-add_hook :
      (post : Bool)
      → (add_hook amx id name (some f) post m).1.calls ≡ m.calls ++ register_hook id ∷ []
  unfolding add_hook is_empty
  calls-add_hook post = ground arith

  -- The removal of the only forward.
  emptied :
      (post : Bool) (x : AmxxHook)
      → let m2 = erase_forward id post 0 x (add_hook amx id name (some f) post m).1 in
        ((m2.hooks id).pre ≡ []) × ((m2.hooks id).post ≡ [])
  unfolding add_hook erase_forward message_forwards with_message_forwards update_hook erase_at
  emptied true x = ground arith
  emptied false x = ground arith

  calls-clear_message :
      (post : Bool)
      → let m1 = (add_hook amx id name (some f) post m).1 in
        (clear_message id m1).calls ≡ m1.calls ++ unregister_hook id ∷ []
  unfolding add_hook clear_message is_empty message_forwards with_message_forwards update_hook
  calls-clear_message true = ground arith
  calls-clear_message false = ground arith

  forwards_empty : (post : Bool) → message_forwards post (m.hooks id) ≡ []
  unfolding message_forwards
  forwards_empty post = ground arith

calls_assoc :
    (xs : List RoutineCall) (a b c : RoutineCall)
    → ((xs ++ a ∷ []) ++ b ∷ []) ++ c ∷ [] ≡ xs ++ a ∷ b ∷ c ∷ []
calls_assoc [] a b c = refl
calls_assoc (x ∷ xs) a b c = ap (λ l. x ∷ l) (calls_assoc xs a b c)

-- The routine is registered again: on a message without forwards, a registration, the removal of what
-- it returned, a second registration and the clearing make two calls that register and one that
-- unregisters.
add_hook-twice :
    (amx id : ℕ) (name : List ℕ) (f g : ℕ) (post : Bool) (m : MessageHookManager)
    → 0 < id
    → id < max_usermessages
    → (m.hooks id).pre ≡ []
    → (m.hooks id).post ≡ []
    → let (handle, m1) = add_hook amx id name (some f) post m in
      let m2 = (remove_hook handle m1).1 in
      let m3 = (add_hook amx id name (some g) post m2).1 in
      (clear_message id m3).calls
      ≡ m.calls ++ register_hook id ∷ register_hook id ∷ unregister_hook id ∷ []
unfolding erase_forward
add_hook-twice amx id name f g post m p q r s =
    let x = new_hook amx name f (negsuc 0) in
    let m1 = (add_hook amx id name (some f) post m).1 in
    let m2 = erase_forward id post 0 x m1 in
    let none_yet = forwards_empty amx id name f m r s post in
    let (r2, s2) = emptied amx id name f m r s post x in
    let first =
      ap (λ a. remove_hook a m1)
        (handle-add_hook amx id name f post m
          ∙ ap (λ hs. message_handle id (length hs) post) none_yet)
      ∙ remove_hook_at id 0 post x m1 p q (omega arith) (
          ap (λ hs. get_elem? hs 0)
            (forwards-add_hook amx id name f post m ∙ ap (λ hs. hs ++ x ∷ []) none_yet)) in
    ap (λ t. (clear_message id (add_hook amx id name (some g) post t.1).1).calls) first
    ∙ calls-clear_message amx id name g m2 r2 s2 post
    ∙ ap (λ cs. cs ++ unregister_hook id ∷ [])
        (calls-add_hook amx id name g m2 r2 s2 post
          ∙ ap (λ cs. cs ++ register_hook id ∷ []) (calls-add_hook amx id name f m r s post))
    ∙ calls_assoc m.calls (register_hook id) (register_hook id) (unregister_hook id)
