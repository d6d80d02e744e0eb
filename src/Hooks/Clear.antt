-- ===== src/Hooks/Clear.antt =====
-- When an API hook chain is registered, and what `Clear` leaves.
use reapi.Hooks.Handles.{get_amxx_hook_at, get_amxx_hook_unknown}
use reapi.Hooks.{
  AmxxHook, Hook, HookManager, max_region_range, table_sizes, new_hook, get_hook_safe, is_empty,
  has_no_forwards, forwards, with_forwards, add_to_hook, add_handler, decode, is_post,
  get_amxx_hook, clear_hook, clear_table, clear_tables, clear,
}
use reapi.Prelude.Int.{ℤ}
use reapi.Prelude.{
  ℕ, zero, suc, ◌+◌, ◌/◌, ◌≡◌, refl, subst, ◌∙◌, Bool, true, false, ◌&&◌, ◌||◌, none, some,
  Option-cases, some_inj, List, [], ◌∷◌, ◌++◌, get_elem?, ltb, leb, ◌==◌, if◌then◌else◌, arith, inl,
  inr,
}

-- An API hook chain is registered once while the function has forwards, and not at all otherwise.
abbrev pub IsRegistered : HookManager → Type 0
IsRegistered m = (t i : ℕ) → m.registered t i ≡ (if has_no_forwards (m.hooks t i) then 0 else 1)

not-is_empty : (hs : List AmxxHook) (h : AmxxHook) → is_empty (hs ++ h ∷ []) ≡ false
unfolding is_empty
not-is_empty [] h = refl
not-is_empty (x ∷ hs) h = refl

add_to_hook-IsRegistered :
    (t i amx func : ℕ) (name : List ℕ) (fwd : ℕ) (post : Bool) (m : HookManager)
    → IsRegistered m
    → IsRegistered (add_to_hook t i amx func name fwd post m).1
unfolding add_to_hook with_forwards forwards
add_to_hook-IsRegistered t i amx func name fwd post m r t' i' =
    let h = m.hooks t i in
    let hook = new_hook amx name fwd (add_to_hook t i amx func name fwd post m).0 in
    ground (arith, r t' i', r t i, not-is_empty h.pre hook, not-is_empty h.post hook)

clear_hook-IsRegistered :
    (t i : ℕ) (m : HookManager) → IsRegistered m → IsRegistered (clear_hook t i m)
unfolding clear_hook
clear_hook-IsRegistered t i m r t' i' = ground (arith, r t' i', r t i)

clear_table-IsRegistered :
    (n t i : ℕ) (m : HookManager) → IsRegistered m → IsRegistered (clear_table n t i m)
unfolding clear_table
clear_table-IsRegistered zero t i m r = r
clear_table-IsRegistered (suc n) t i m r =
    clear_table-IsRegistered n t (i + 1) (clear_hook t i m) (clear_hook-IsRegistered t i m r)

clear_tables-IsRegistered :
    (sizes : List ℕ) (t : ℕ) (m : HookManager)
    → IsRegistered m
    → IsRegistered (clear_tables sizes t m)
unfolding clear_tables
clear_tables-IsRegistered [] t m r = r
clear_tables-IsRegistered (n ∷ sizes) t m r =
    clear_tables-IsRegistered sizes (t + 1) (clear_table n t 0 m)
      (clear_table-IsRegistered n t 0 m r)

-- The vectors of an entry, emptied if the test says so.
abbrev emptied : Bool → Hook → Bool → List AmxxHook
emptied b h post = if b then [] else forwards post h

clear_hook-forwards :
    (t i : ℕ) (m : HookManager) (t' i' : ℕ) (p : Bool)
    → forwards p ((clear_hook t i m).hooks t' i')
      ≡ emptied ((t == t') && (i == i')) (m.hooks t' i') p
unfolding clear_hook forwards is_empty
clear_hook-forwards t i m t' i' p = ground arith

clear_table-forwards :
    (n t i : ℕ) (m : HookManager) (t' i' : ℕ) (p : Bool)
    → forwards p ((clear_table n t i m).hooks t' i')
      ≡ emptied ((t == t') && (leb i i' && ltb i' (i + n))) (m.hooks t' i') p
unfolding clear_table
clear_table-forwards zero t i m t' i' p = ground arith
clear_table-forwards (suc n) t i m t' i' p = ground (
  arith,
  clear_table-forwards n t (i + 1) (clear_hook t i m) t' i' p,
  clear_hook-forwards t i m t' i' p,
)

-- The entry stands in one of the tables from `t` on.
abbrev covered : List ℕ → ℕ → ℕ → ℕ → Bool
covered [] t t' i' = false
covered (n ∷ sizes) t t' i' = ((t == t') && ltb i' n) || covered sizes (t + 1) t' i'

clear_tables-forwards :
    (sizes : List ℕ) (t : ℕ) (m : HookManager) (t' i' : ℕ) (p : Bool)
    → forwards p ((clear_tables sizes t m).hooks t' i')
      ≡ emptied (covered sizes t t' i') (m.hooks t' i') p
unfolding clear_tables
clear_tables-forwards [] t m t' i' p = refl
clear_tables-forwards (n ∷ sizes) t m t' i' p = ground (
  arith,
  clear_tables-forwards sizes (t + 1) (clear_table n t 0 m) t' i' p,
  clear_table-forwards n t 0 m t' i' p,
)

covered-get_elem? :
    (sizes : List ℕ) (k t t' i n : ℕ)
    → get_elem? sizes k ≡ some n
    → ltb i n ≡ true
    → t + k ≡ t'
    → covered sizes t t' i ≡ true
covered-get_elem? [] k t t' i n e h s = cc
covered-get_elem? (m ∷ sizes) zero t t' i n e h s = ground arith
covered-get_elem? (m ∷ sizes) (suc k) t t' i n e h s =
    ground (arith, covered-get_elem? sizes k (t + 1) t' i n)

covered-get_hook_safe :
    (func t i : ℕ) → get_hook_safe func ≡ some (t, i) → covered table_sizes 0 t i ≡ true
unfolding get_hook_safe
covered-get_hook_safe func t i e =
    elim (Option-cases (get_elem? table_sizes (func / max_region_range))) [
      | inl n ↦ absurd (ground arith)
      | inr (size, q) ↦
          covered-get_elem? table_sizes (func / max_region_range) 0 t i size q (ground arith)
            (ground arith)
    ]

has_no_forwards_lem : (h : Hook) → ((p : Bool) → forwards p h ≡ []) → has_no_forwards h ≡ true
unfolding has_no_forwards forwards
has_no_forwards_lem h e = ground (arith, e true, e false)

-- A registration for any function keeps each API hook chain registered once while its function has
-- forwards, and not at all otherwise.
add_handler-IsRegistered :
    (m : HookManager) (amx func : ℕ) (name : List ℕ) (fwd : ℕ) (post : Bool)
    (result : ℤ × HookManager)
    → IsRegistered m
    → add_handler amx func name fwd post m ≡ some result
    → IsRegistered result.1
unfolding add_handler
add_handler-IsRegistered m amx func name fwd post result r e =
    elim (Option-cases (get_hook_safe func)) [
      | inl n ↦ absurd (ground arith)
      | inr ((t, i), s) ↦
          let e' : some (add_to_hook t i amx func name fwd post m) ≡ some result = ground arith in
          subst (λ x. IsRegistered x.1) (some_inj _ result e')
            (add_to_hook-IsRegistered t i amx func name fwd post m r)
    ]

-- If each API hook chain was registered once while its function had forwards, and not at all
-- otherwise, then after `Clear` no handle leads to a forward, and the API hook chain of a function
-- of the tables is not registered.
pub clear-get_amxx_hook :
    (m : HookManager) (handle : ℤ) (func t i : ℕ)
    → IsRegistered m
    → get_hook_safe func ≡ some (t, i)
    → (get_amxx_hook handle (clear m) ≡ none) × ((clear m).registered t i ≡ 0)
unfolding clear
clear-get_amxx_hook m handle func t i r s = (
  elim (Option-cases (get_hook_safe (decode handle).0)) [
    | inl n ↦ get_amxx_hook_unknown handle (clear m) n
    | inr ((t', i'), s') ↦
        get_amxx_hook_at handle (clear m) t' i' s'
        ∙ rw
            (
              clear_tables-forwards table_sizes 0 m t' i' (is_post handle),
              covered-get_hook_safe (decode handle).0 t' i' s',
            )
            refl
  ],
  (let c = covered-get_hook_safe func t i s in
      clear_tables-IsRegistered table_sizes 0 m r t i
      ∙ rw
          (has_no_forwards_lem ((clear m).hooks t i)
            (λ p. clear_tables-forwards table_sizes 0 m t i p ∙ rw c))
          refl),
)
