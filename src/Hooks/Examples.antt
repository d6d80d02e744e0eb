-- ===== src/Hooks/Examples.antt =====
-- The theorems on hook handles at a concrete table of hooks.
use reapi.Hooks.Clear.{IsRegistered, clear-get_amxx_hook}
use reapi.Hooks.Handles.{get_amxx_hook-add_handler, decode-new_handle_full}
use reapi.Hooks.{
  HookManager, Hook, new_hook, get_hook_safe, forwards, add_handler, get_amxx_hook, clear, decode,
  new_handle, has_no_forwards, is_empty, max_hook_forwards,
}
use reapi.Prelude.Int.{ℤ, pos}
use reapi.Prelude.{
  ◌<◌, ◌⊎◌, ◌≡◌, refl, true, false, none, some, [], ◌∷◌, length, arith, ◌==◌, ◌&&◌, if◌then◌else◌,
}

abbrev no_hook : Hook
no_hook = record { pre = []; post = []; was_called = false }

-- The second function of the second table, with one forward.
abbrev one_hook : HookManager
one_hook = record {
  hooks = λ t i.
      if (1 == t) && (1 == i)
      then record no_hook { pre = new_hook 7 (98 ∷ []) 3 (pos 1049601) ∷ [] }
      else no_hook;
  registered = λ t i. if (1 == t) && (1 == i) then 1 else 0;
  released = [];
}

one_hook-IsRegistered : IsRegistered one_hook
unfolding has_no_forwards is_empty
one_hook-IsRegistered t i = ground arith

known : get_hook_safe 1025 ≡ some (1, 1)
unfolding get_hook_safe
known = refl

room_left : length (forwards false (one_hook.hooks 1 1)) < max_hook_forwards
unfolding forwards
room_left = omega arith

get_amxx_hook-add_handler_example :
    (handle : ℤ) × (m' : HookManager) × (add_handler 8 1025 (99 ∷ []) 4 false one_hook
      ≡ some (handle, m'))
    × (get_amxx_hook handle m' ≡ some (new_hook 8 (99 ∷ []) 4 handle))
    × ((get_amxx_hook (pos 1049601) one_hook ≡ none)
        ⊎ (get_amxx_hook (pos 1049601) m' ≡ get_amxx_hook (pos 1049601) one_hook))
get_amxx_hook-add_handler_example =
    get_amxx_hook-add_handler 8 1025 1 1 (99 ∷ []) 4 false one_hook (pos 1049601) known room_left

clear-get_amxx_hook_example :
    (get_amxx_hook (pos 1049601) (clear one_hook) ≡ none) × ((clear one_hook).registered 1 1 ≡ 0)
clear-get_amxx_hook_example =
    clear-get_amxx_hook one_hook (pos 1049601) 1025 1 1 one_hook-IsRegistered known

decode-new_handle_full_example : decode (new_handle 1025 max_hook_forwards true) ≡ (1026, 0)
decode-new_handle_full_example = decode-new_handle_full 1025 true
