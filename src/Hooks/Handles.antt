-- ===== src/Hooks/Handles.antt =====
-- Handles of hook chains: what `addHandler` returns leads `getAmxxHook` to the new forward, and the
-- handles given out before lead where they led.
use native.Mathlib.Numerals.{add-one}
use reapi.Hooks.{
  AmxxHook, HookManager, max_hook_forwards, new_hook, get_hook_safe, forwards, with_forwards,
  new_handle, add_to_hook, add_handler, decode, is_post, get_amxx_hook,
}
use reapi.Prelude.Int.{ℤ}
use reapi.Prelude.{
  ℕ, zero, suc, ◌+◌, ◌<◌, ◌≡◌, refl, sym, ap, ap₂, ◌∙◌, Bool, true, false, not, ◌&&◌, ◌||◌,
  Option-cases, none, some, List, [], ◌∷◌, ◌++◌, length, get_elem?, ltb, ◌==◌, if◌then◌else◌, arith,
  get_elem?-append_end, Bool-cases, inl, inr, ◌⊎◌,
}

pub decode-new_handle :
    (func size : ℕ) (post : Bool)
    → size < max_hook_forwards
    → (decode (new_handle func size post) ≡ (func, size))
      × (is_post (new_handle func size post) ≡ post)
unfolding decode new_handle is_post
decode-new_handle func size true h = rw add-one (ground arith)
decode-new_handle func size false h = rw add-one (ground arith)

-- With the 1025th forward of one kind the handles of a function run into those of the next: the
-- handle of that forward is read as the first of the function behind.
pub decode-new_handle_full :
    (func : ℕ) (post : Bool) → decode (new_handle func max_hook_forwards post) ≡ (func + 1, 0)
unfolding decode new_handle
decode-new_handle_full func true = rw add-one (ground arith)
decode-new_handle_full func false = rw add-one (ground arith)

get_elem?-none : (xs : List AmxxHook) (i : ℕ) → ltb i (length xs) ≡ false → get_elem? xs i ≡ none
get_elem?-none [] i h = refl
get_elem?-none (x ∷ xs) zero h = ground arith
get_elem?-none (x ∷ xs) (suc i) h = get_elem?-none xs i (ground arith)

-- The entry of the tables and the position are all that a look-up depends on.
pub get_amxx_hook_at :
    (handle : ℤ) (m : HookManager) (t i : ℕ)
    → get_hook_safe (decode handle).0 ≡ some (t, i)
    → get_amxx_hook handle m ≡ get_elem? (forwards (is_post handle) (m.hooks t i)) (decode handle).1
unfolding get_amxx_hook
get_amxx_hook_at handle m t i e =
    let hs = forwards (is_post handle) (m.hooks t i) in
    let id = (decode handle).1 in
    elim (Bool-cases (ltb id (length hs))) [
      | inl b ↦ ground arith
      | inr b ↦ ground (arith, get_elem?-none hs id b)
    ]

pub get_amxx_hook_unknown :
    (handle : ℤ) (m : HookManager)
    → get_hook_safe (decode handle).0 ≡ none
    → get_amxx_hook handle m ≡ none
unfolding get_amxx_hook
get_amxx_hook_unknown handle m e = ground arith

get_elem?-append_some :
    (xs ys : List AmxxHook) (x : AmxxHook) (n : ℕ)
    → get_elem? xs n ≡ some x
    → get_elem? (xs ++ ys) n ≡ some x
get_elem?-append_some [] ys x n e = cc
get_elem?-append_some (y ∷ xs) ys x zero e = e
get_elem?-append_some (y ∷ xs) ys x (suc n) e = get_elem?-append_some xs ys x n e

module _ (t i amx func : ℕ) (name : List ℕ) (fwd : ℕ) (post : Bool) (m : HookManager) where
  abbrev added : ℤ × HookManager
  added = add_to_hook t i amx func name fwd post m

  abbrev dest : List AmxxHook
  dest = forwards post (m.hooks t i)

  added_handle : added.0 ≡ new_handle func (length dest) post
  unfolding add_to_hook
  added_handle = refl

  -- The vectors after a registration.
  forwards-added :
      (p : Bool) (t' i' : ℕ)
      → forwards p (added.1.hooks t' i') ≡ (
          if (t == t') && (i == i') && ((p && post) || (not p && not post))
          then forwards p (m.hooks t' i') ++ new_hook amx name fwd added.0 ∷ []
          else forwards p (m.hooks t' i'))
  unfolding add_to_hook forwards with_forwards
  forwards-added p t' i' = ground arith

  found-added :
      (handle : ℤ) (x : AmxxHook)
      → get_amxx_hook handle m ≡ some x
      → get_amxx_hook handle added.1 ≡ some x
  found-added handle x e = elim (Option-cases (get_hook_safe (decode handle).0)) [
    | inl n ↦ absurd (ground (arith, get_amxx_hook_unknown handle m n))
    | inr ((t', i'), s) ↦
        let post' = is_post handle in
        let old : get_elem? (forwards post' (m.hooks t' i')) (decode handle).1 ≡ some x =
          sym (get_amxx_hook_at handle m t' i' s) ∙ e in
        rw (get_amxx_hook_at handle added.1 t' i' s, forwards-added post' t' i')
          (elim (Bool-cases
            ((t == t') && (i == i') && ((post' && post) || (not post' && not post)))) [
              | inl b ↦ rw b (get_elem?-append_some (forwards post' (m.hooks t' i')) _ x _ old)
              | inr b ↦ rw b old
            ])
  ]

  found_new :
      get_hook_safe func ≡ some (t, i)
      → length dest < max_hook_forwards
      → get_amxx_hook added.0 added.1 ≡ some (new_hook amx name fwd added.0)
  found_new s h =
      let d : decode added.0 ≡ (func, length dest) =
        ap decode added_handle ∙ (decode-new_handle func (length dest) post h).0 in
      let q : is_post added.0 ≡ post =
        ap is_post added_handle ∙ (decode-new_handle func (length dest) post h).1 in
      get_amxx_hook_at added.0 added.1 t i (ap (λ p. get_hook_safe p.0) d ∙ s)
      ∙ ap₂ (λ p n. get_elem? (forwards p (added.1.hooks t i)) n) q (ap (λ p. p.1) d)
      ∙ ap (λ hs. get_elem? hs (length dest)) (forwards-added post t i ∙ same post)
      ∙ get_elem?-append_end dest (new_hook amx name fwd added.0) (length dest) refl
    where
      same :
          (p : Bool)
          → (if (t == t) && (i == i) && ((p && p) || (not p && not p))
              then dest ++ new_hook amx name fwd added.0 ∷ []
              else dest)
            ≡ dest ++ new_hook amx name fwd added.0 ∷ []
      same true = ground arith
      same false = ground arith

-- A registration for a known function of which fewer than `max_hook_forwards` forwards of its kind
-- are registered, also the first one, succeeds: the handle that it returns leads to the new forward,
-- which is enabled; and any handle led nowhere before, or leads to the same forward as before.
pub get_amxx_hook-add_handler :
    (amx func t i : ℕ) (name : List ℕ) (fwd : ℕ) (post : Bool) (m : HookManager) (other : ℤ)
    → get_hook_safe func ≡ some (t, i)
    → length (forwards post (m.hooks t i)) < max_hook_forwards
    → (handle : ℤ) × (m' : HookManager) × (add_handler amx func name fwd post m ≡ some (handle, m'))
      × (get_amxx_hook handle m' ≡ some (new_hook amx name fwd handle))
      × ((get_amxx_hook other m ≡ none) ⊎ (get_amxx_hook other m' ≡ get_amxx_hook other m))
unfolding add_handler
get_amxx_hook-add_handler amx func t i name fwd post m other s h = (
  (added t i amx func name fwd post m).0,
  (added t i amx func name fwd post m).1,
  rw (s, add_handler),
  found_new t i amx func name fwd post m s h,
  elim (Option-cases (get_amxx_hook other m)) [
    | inl nowhere ↦ inl nowhere
    | inr (x, e) ↦ inr (found-added t i amx func name fwd post m other x e ∙ sym e)
  ],
)
