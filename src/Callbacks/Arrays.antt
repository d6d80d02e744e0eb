-- ===== src/Callbacks/Arrays.antt =====
-- reapi/src/hook_callback.cpp: which of the vectors that plugins can change reach the rest of the chain.
use reapi.Callbacks.Call.{next_arg, next_args, prepend, vector_in}
use reapi.Callbacks.PlayerActions.{c_base_player_start_observer}
use reapi.Callbacks.Suits.{is_array}
use reapi.Callbacks.Table.{all_callbacks}
use reapi.Callbacks.{Callback, Datum, Next, Server, Slot, captured, copy, given, own, vec}
use reapi.Chain.{Arg, triple}
use reapi.Prelude.Int.{ℤ}
use reapi.Prelude.{
  ℕ, zero, suc, ◌+◌, ◌≡◌, ◌≢◌, refl, sym, ap, subst, some_inj, Bool, true, false, not, ◌&&◌, ◌||◌,
  Option, none, some, List, [], ◌∷◌, get_elem?, ◌==◌, inl, inr, Option-cases, Bool-cases, arith,
}

-- The list has a copy of the vector of this argument.
abbrev has_copy : ℕ → List Next → Bool
has_copy i [] = false
has_copy i (copy j ∷ ns) = i == j || has_copy i ns
has_copy i (n ∷ ns) = has_copy i ns

abbrev copies_all : ℕ → List Slot → List Next → Bool
copies_all i [] ns = true
copies_all i (slot ∷ slots) ns =
    (not (is_array (some slot)) || has_copy i ns) && copies_all (suc i) slots ns

abbrev all_copied : List Callback → Bool
all_copied [] = true
all_copied (cb ∷ cbs) =
    (cb.func == c_base_player_start_observer.func || copies_all 0 cb.slots cb.next)
    && all_copied cbs

all_callbacks-copied : all_copied all_callbacks ≡ true
all_callbacks-copied = refl

copies_all_at :
    (slots : List Slot) (ns : List Next) (first i : ℕ) (slot : Slot)
    → copies_all first slots ns ≡ true
    → get_elem? slots i ≡ some slot
    → is_array (some slot) ≡ true
    → has_copy (first + i) ns ≡ true
copies_all_at [] ns first i slot h e a = absurd (ground arith)
copies_all_at (s ∷ slots) ns first zero slot h e a = ground (arith, some_inj s slot e)
copies_all_at (s ∷ slots) ns first (suc i) slot h e a =
    ground (arith, copies_all_at slots ns (suc first) i slot)

all_copied_at :
    (cbs : List Callback) (k : ℕ) (cb : Callback)
    → all_copied cbs ≡ true
    → get_elem? cbs k ≡ some cb
    → cb.func ≢ c_base_player_start_observer.func
    → copies_all 0 cb.slots cb.next ≡ true
all_copied_at [] k cb h e d = absurd (ground arith)
all_copied_at (c ∷ cbs) zero cb h e d = ground (arith, some_inj c cb e)
all_copied_at (c ∷ cbs) (suc k) cb h e d = all_copied_at cbs k cb (ground arith) e d

prepend-some :
    (d : Option Datum) (r : Option (List Datum)) (ds : List Datum)
    → prepend d r ≡ some ds
    → (e : Datum) × (es : List Datum) × (d ≡ some e) × (r ≡ some es) × (ds ≡ e ∷ es)
unfolding prepend
prepend-some none r ds h = absurd (ground arith)
prepend-some (some d) none ds h = absurd (ground arith)
prepend-some (some d) (some es) ds h = (d, es, refl, refl, sym (some_inj (d ∷ es) ds h))

next_arg-copy :
    (server : Server) (slots : List Slot) (args held : List Datum) (cells : List Arg) (i : ℕ)
    (a : Arg) (x y z : ℤ) (d : Datum)
    → get_elem? cells i ≡ some a
    → a.value ≡ triple x y z
    → next_arg server slots args held cells (copy i) ≡ some d
    → d ≡ vec x y z
unfolding next_arg vector_in
next_arg-copy server slots args held cells i a x y z d here v e =
    elim (Option-cases (get_elem? args i)) [
      | inl p ↦ absurd (ground arith)
      | inr (o, p) ↦ some_inj d (vec x y z) (ground arith)
    ]

next_args-has_copy :
    (server : Server) (slots : List Slot) (args held : List Datum) (cells : List Arg) (i : ℕ)
    (a : Arg) (x y z : ℤ) (ns : List Next) (ds : List Datum)
    → get_elem? cells i ≡ some a
    → a.value ≡ triple x y z
    → has_copy i ns ≡ true
    → next_args server slots args held cells ns ≡ some ds
    → (j : ℕ) × (get_elem? ds j ≡ some (vec x y z))
unfolding next_args
next_args-has_copy server slots args held cells i a x y z [] ds here v h e = absurd (ground arith)
next_args-has_copy server slots args held cells i a x y z (n ∷ ns) ds here v h e =
    let (d, es, first, others, whole) = prepend-some _ _ ds e in
    let later : has_copy i ns ≡ true → (j : ℕ) × (get_elem? ds j ≡ some (vec x y z)) = λ h'.
      let (j, there) =
        next_args-has_copy server slots args held cells i a x y z ns es here v h' others in
      (suc j, rw whole there) in
    at n d es first whole h later
  where
    at :
        (n : Next) (d : Datum) (es' : List Datum)
        → next_arg server slots args held cells n ≡ some d
        → ds ≡ d ∷ es'
        → has_copy i (n ∷ ns) ≡ true
        → (has_copy i ns ≡ true → (j : ℕ) × (get_elem? ds j ≡ some (vec x y z)))
        → (j : ℕ) × (get_elem? ds j ≡ some (vec x y z))
    at (given k b) d es' first whole h later = later h
    at (own k) d es' first whole h later = later h
    at (captured k) d es' first whole h later = later h
    at (copy k) d es' first whole h later = elim (Bool-cases (i == k)) [
      | inl same ↦
          let read =
            next_arg-copy server slots args held cells k a x y z d (ground arith) v first in
          (0, rw whole (ap some read))
      | inr other ↦ later (ground arith)
    ]

-- In each function of the tables but CBasePlayer_StartObserver, if `original` calls the rest of the
-- chain, then the vector that the array of an argument holds at that time, whatever plugins have put
-- into it, is among the arguments of the call.
pub arrays_reach :
    (server : Server) (args held ds : List Datum) (cells : List Arg) (k i : ℕ) (cb : Callback)
    (slot : Slot) (a : Arg) (x y z : ℤ)
    → get_elem? all_callbacks k ≡ some cb
    → cb.func ≢ c_base_player_start_observer.func
    → get_elem? cb.slots i ≡ some slot
    → is_array (some slot) ≡ true
    → get_elem? cells i ≡ some a
    → a.value ≡ triple x y z
    → next_args server cb.slots args held cells cb.next ≡ some ds
    → (j : ℕ) × (get_elem? ds j ≡ some (vec x y z))
arrays_reach server args held ds cells k i cb slot a x y z e d s t here v calls =
    let all = all_copied_at all_callbacks k cb all_callbacks-copied e d in
    let zero_first : 0 + i ≡ i = omega arith in
    let has =
      subst (λ m. has_copy m cb.next ≡ true) zero_first
        (copies_all_at cb.slots cb.next 0 i slot all s t) in
    next_args-has_copy server cb.slots args held cells i a x y z cb.next ds here v has calls

-- Whatever plugins have put into the arrays of the two vectors of CBasePlayer_StartObserver, if
-- `original` calls the rest of the chain, it does so with the vectors that the function itself was
-- called with.
pub start_observer_own :
    (server : Server) (args held ds : List Datum) (cells : List Arg)
    → let cb = c_base_player_start_observer in
      next_args server cb.slots args held cells cb.next ≡ some ds
      → (get_elem? ds 1 ≡ get_elem? args 1) × (get_elem? ds 2 ≡ get_elem? args 2)
unfolding next_args next_arg
start_observer_own server args held ds cells e =
    let (d, es, first, others, whole) = prepend-some _ _ ds e in
    let (d', es', first', others', whole') = prepend-some _ _ es others in
    let (d'', es'', first'', others'', whole'') = prepend-some _ _ es' others' in
    (rw whole (rw whole' (sym first')), rw whole (rw whole' (rw whole'' (sym first''))))
