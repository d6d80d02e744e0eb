-- ===== src/Hooks.antt =====
-- reapi/src/amx_hook.h, hook_list.h, hook_list.cpp and hook_manager.cpp: the forwards that plugins
-- have registered for each API function, and the handles by which they name them.
pub mod Handles
pub mod Clear
mod Examples
use reapi.Prelude.Int.{ℤ, pos, negsuc, neg}
use reapi.Prelude.{
  ℕ, zero, suc, ◌+◌, ◌-◌, ◌*◌, ◌/◌, ◌%◌, Bool, true, false, ◌&&◌, Option, none, some, List, [], ◌∷◌,
  ◌++◌, map, length, get_elem?, take, ltb, ◌==◌, if◌then◌else◌,
}

-- enum fwdstate
pub data FwdState : Type 0 where
  invalid enabled paused stopped : FwdState

-- A plugin is the number of its `AMX`.
pub record AmxxHook : Type 0 where
  pub fwdindex : ℕ
  pub index : ℤ
  pub callback_name : List ℕ
  pub state : FwdState
  pub amx : ℕ

-- `m_CallbackName` has 64 characters, the NUL included.
unfoldable pub new_hook : ℕ → List ℕ → ℕ → ℤ → AmxxHook
new_hook amx funcname forward index = record {
  fwdindex = forward;
  index = index;
  callback_name = take 63 funcname;
  state = enabled;
  amx = amx;
}

abbrev pub max_hook_forwards : ℕ
max_hook_forwards = 1024

abbrev pub max_region_range : ℕ
max_region_range = 1024

-- hook_t: the forwards, and `wasCalled`.
pub record Hook : Type 0 where
  pub pre : List AmxxHook
  pub post : List AmxxHook
  pub was_called : Bool

-- The lengths of the tables hooklist_engine, _gamedll, _animating, _player, _gamerules, _rechecker,
-- _grenade, _weaponbox, _weapon, _gib, _cbaseentity, _botmanager, in the order of `hooks_tables_e`.
abbrev pub table_sizes : List ℕ
table_sizes = 22 ∷ 33 ∷ 1 ∷ 61 ∷ 29 ∷ 3 ∷ 6 ∷ 1 ∷ 7 ∷ 3 ∷ 3 ∷ 1 ∷ []

-- The tables, how often each API hook chain is registered with the engine or the game library at
-- the moment, and the AMXX forwards that have been unregistered.
pub record HookManager : Type 0 where
  pub hooks : ℕ → ℕ → Hook
  pub registered : ℕ → ℕ → ℕ
  pub released : List ℕ

-- hooklist_t::getHookSafe, as the table and the index of the entry. `hook & (1024 - 1)` is the
-- remainder.
unfoldable pub get_hook_safe : ℕ → Option (ℕ × ℕ)
get_hook_safe func =
    let table = func / max_region_range in
    let index = func % max_region_range in
    elim (get_elem? table_sizes table) [
      | none ↦ none
      | some size ↦ if ltb index size then some (table, index) else none
    ]

-- The write to one entry of the tables.
unfoldable pub update {ℓ} : {A : Type ℓ} → ℕ → ℕ → A → (ℕ → ℕ → A) → ℕ → ℕ → A
update t i a f t' i' = if (t == t') && (i == i') then a else f t' i'

unfoldable pub is_empty : List AmxxHook → Bool
is_empty [] = true
is_empty (h ∷ hs) = false

unfoldable pub has_no_forwards : Hook → Bool
unfolding is_empty
has_no_forwards h = is_empty h.post && is_empty h.pre

-- The vector that a handle or a registration means.
unfoldable pub forwards : Bool → Hook → List AmxxHook
forwards post h = if post then h.post else h.pre

unfoldable pub with_forwards : Bool → List AmxxHook → Hook → Hook
with_forwards post hs h = if post then record h { post = hs } else record h { pre = hs }

-- The handle of the next forward.
unfoldable pub new_handle : ℕ → ℕ → Bool → ℤ
new_handle func size post =
    let i = func * max_hook_forwards + size + 1 in if post then neg (pos i) else pos i

-- CHookManager::addHandler on an entry of the tables.
unfoldable pub add_to_hook : ℕ → ℕ → ℕ → ℕ → List ℕ → ℕ → Bool → HookManager → ℤ × HookManager
unfolding has_no_forwards update
add_to_hook t i amx func funcname forward post m =
    let h = m.hooks t i in
    let dest = forwards post h in
    let index = new_handle func (length dest) post in
    let hook = new_hook amx funcname forward index in
    (
      index,
      record m {
        hooks = update t i (with_forwards post (dest ++ hook ∷ []) h) m.hooks;
        registered =
            if has_no_forwards h
            then update t i (m.registered t i + 1) m.registered
            else m.registered;
      },
    )

-- CHookManager::addHandler. `none` is the use of the null pointer that `getHookSafe` returns for an
-- unknown function.
unfoldable pub add_handler : ℕ → ℕ → List ℕ → ℕ → Bool → HookManager → Option (ℤ × HookManager)
add_handler amx func funcname forward post m = elim (get_hook_safe func) [
  | none ↦ none
  | some (t, i) ↦ some (add_to_hook t i amx func funcname forward post m)
]

-- The function and the position that a handle names: `~handle` for a negative one, else
-- `handle - 1`, which is -1 for the handle 0.
unfoldable pub decode : ℤ → ℕ × ℕ
decode (pos zero) = (0, max_hook_forwards - 1)
decode (pos (suc n)) = (n / max_hook_forwards, n % max_hook_forwards)
decode (negsuc n) = (n / max_hook_forwards, n % max_hook_forwards)

unfoldable pub is_post : ℤ → Bool
is_post (pos n) = false
is_post (negsuc n) = true

-- Where the handle leads: table, index and position of the forward.
unfoldable pub locate : ℤ → HookManager → Option (ℕ × ℕ × ℕ)
unfolding decode is_post forwards
locate handle m = elim (get_hook_safe (decode handle).0) [
  | none ↦ none
  | some (t, i) ↦
      let id = (decode handle).1 in
      if ltb id (length (forwards (is_post handle) (m.hooks t i))) then some (t, i, id) else none
]

-- CHookManager::getAmxxHook
unfoldable pub get_amxx_hook : ℤ → HookManager → Option AmxxHook
unfolding locate
get_amxx_hook handle m = elim (locate handle m) [
  | none ↦ none
  | some (t, i, id) ↦ get_elem? (forwards (is_post handle) (m.hooks t i)) id
]

-- hook_t::clear: the destructors unregister the AMXX forwards.
unfoldable pub clear_hook : ℕ → ℕ → HookManager → HookManager
unfolding has_no_forwards update
clear_hook t i m =
    let h = m.hooks t i in
    if has_no_forwards h then m else record {
      hooks = update t i (record h { pre = []; post = [] }) m.hooks;
      registered = update t i (m.registered t i - 1) m.registered;
      released = m.released ++ (map (λ f. f.fwdindex) h.pre ++ map (λ f. f.fwdindex) h.post);
    }

-- `for (auto& h : hooklist_t)`, from the index `i` on.
unfoldable pub clear_table : ℕ → ℕ → ℕ → HookManager → HookManager
clear_table zero t i m = m
clear_table (suc n) t i m = clear_table n t (i + 1) (clear_hook t i m)

-- hooklist_t::clear, from the table `t` on.
unfoldable pub clear_tables : List ℕ → ℕ → HookManager → HookManager
clear_tables [] t m = m
clear_tables (size ∷ sizes) t m = clear_tables sizes (t + 1) (clear_table size t 0 m)

-- CHookManager::Clear
unfoldable pub clear : HookManager → HookManager
clear = clear_tables table_sizes 0
