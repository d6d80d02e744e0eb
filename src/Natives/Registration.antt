-- ===== src/Natives/Registration.antt =====
-- reapi/src/natives/natives_hookchains.cpp: the natives that register and switch hooks, and those that
-- only read.
use reapi.Chain.{HookCtx}
use reapi.Hooks.{
  FwdState, HookManager, get_hook_safe, add_to_hook, locate, get_amxx_hook, forwards, with_forwards,
  is_post,
}
use reapi.Prelude.Int.{ℤ, pos, negsuc}
use reapi.Prelude.{ℕ, Bool, true, false, ◌&&◌, Option, none, some, List, set, ◌==◌, if◌then◌else◌}

-- hooklist_t::getHook for a cell.
unfoldable pub get_hook : ℤ → Option (ℕ × ℕ)
get_hook (pos n) = get_hook_safe n
get_hook (negsuc n) = none

-- RegisterHookChain; `available` is checkRequirements, `is_public` what `amx_FindPublic` says of the
-- name, and `fwid` what registerForward returns, `none` for -1.
unfoldable pub register_hook_chain :
    ℕ → ℤ → List ℕ → Bool → Bool → Option ℕ → Bool → HookManager → ℤ × HookManager
unfolding get_hook
register_hook_chain amx func name available is_public none post m = (pos 0, m)
register_hook_chain amx (negsuc n) name available is_public (some fwid) post m = (pos 0, m)
register_hook_chain amx (pos n) name available is_public (some fwid) post m =
    elim (get_hook (pos n)) [
      | none ↦ (pos 0, m)
      | some (t, i) ↦
          if available && is_public then add_to_hook t i amx n name fwid post m else (pos 0, m)
    ]

-- EnableHookChain with `enabled`, DisableHookChain with `stopped`.
unfoldable pub switch_hook_chain : FwdState → ℤ → HookManager → Bool × HookManager
switch_hook_chain state handle m = elim (locate handle m) [
  | none ↦ (false, m)
  | some (t, i, id) ↦ elim (get_amxx_hook handle m) [
    | none ↦ (false, m)
    | some hook ↦
        let post = is_post handle in
        let hs = set (forwards post (m.hooks t i)) id (record hook { state = state }) in
        let h = with_forwards post hs (m.hooks t i) in
        (true, record m { hooks = λ t' i'. if (t == t') && (i == i') then h else m.hooks t' i' })
  ]
]

-- IsReapiHookOriginalWasCalled
unfoldable pub is_original_called : ℤ → Bool → HookManager → Bool
unfolding get_hook
is_original_called func available m = elim (get_hook func) [
  | none ↦ false
  | some (t, i) ↦ available && (m.hooks t i).was_called
]

-- GetCurrentHookChainHandle
unfoldable pub current_handle : Option HookCtx → ℤ
current_handle none = pos 0
current_handle (some ctx) = ctx.index
