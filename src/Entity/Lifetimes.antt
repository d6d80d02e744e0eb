-- ===== src/Entity/Lifetimes.antt =====
-- What the deletions, the new callbacks and the end of a dispatch do to the callbacks that are live.
use reapi.Entity.Counts.{
  is_marked-append, to_nat, count_address, count_live, has_selected, is_marked-mark_selected,
  has_selected-count, count_live-append, count_live-prune, prune-gone,
}
use reapi.Entity.Invariant.{Inv, delete_existing-Inv, delete_existing-live, Steps-Inv_lem}
use reapi.Entity.Dispatch.{
  Steps, begin_dispatch, end_dispatch, find_callback, prune, pruned_forwards,
}
use reapi.Entity.{
  CallbackType, same_type, EntityCallback, Dispatcher, is_for, selects, is_marked, param_block,
  mark_selected, keep_others, selected_forwards, delete_existing, hook_entity, push_callback,
  set_callback, unset_callback,
}
use reapi.Prelude.Int.{ℤ}
use reapi.Prelude.{
  ℕ, ◌+◌, ◌≤◌, ◌≡◌, refl, ◌∙◌, ◌⊎◌, inl, inr, Bool, true, false, ◌&&◌, ◌||◌, some, List, [], ◌∷◌,
  ◌++◌, ◌==◌, arith, Bool-cases,
}

-- The dispatcher before anything is set.
abbrev pub new_dispatcher : Dispatcher
new_dispatcher = record {
  is_processing = false;
  callbacks = [];
  mark_for_deletion = [];
  next_address = 0;
  released = [];
  hooked = λ _ _. false;
}

new_dispatcher-Inv : Inv new_dispatcher
unfolding count_address count_live is_marked
new_dispatcher-Inv = record {
  distinct = λ a. omega arith;
  fresh = λ a h. refl;
  marks = λ a h. cc;
  idle = λ _. refl;
  single = λ e t. omega arith;
}

-- Whatever plugins set, unset, delete and dispatch, in callbacks and in callbacks of callbacks too,
-- in the dispatcher that results no two callbacks share an address, every mark is the address of a
-- registered callback, nothing is marked unless a dispatch is going on, and every entity has at
-- most one live callback of each type.
pub reachable-Inv : (d : Dispatcher) → Steps new_dispatcher d → Inv d
reachable-Inv d steps = Steps-Inv_lem steps new_dispatcher-Inv

-- `ns` marks, besides what `ms` marks, what is selected in `cs` and what is not in it any more.
count_live-apart :
    (e e' : ℕ) (t t' : CallbackType) (gone : ℕ → Bool) (ms ns : List ℕ) (cs : List EntityCallback)
    → ((c : EntityCallback) → selects (some e) t c ≡ true → is_for e' t' c ≡ false)
    → ((a : ℕ) → count_address a cs ≤ 1)
    → ((a : ℕ) → gone a ≡ true → count_address a cs ≡ 0)
    → ((a : ℕ) → is_marked a ns ≡ (is_marked a ms || (gone a || has_selected a (some e) t cs)))
    → count_live e' t' ns cs ≡ count_live e' t' ms cs
unfolding count_live count_address has_selected
count_live-apart e e' t t' gone ms ns [] sep h g m = refl
count_live-apart e e' t t' gone ms ns (c ∷ cs) sep h g m =
    elim (Bool-cases (selects (some e) t c)) [
      | inl q ↦
          let rest =
            count_live-apart e e' t t' (λ a. gone a || (a == c.address)) ms ns cs sep
              (λ a. ground (arith, h a)) (λ a. ground (arith, h a, g a))
              (λ a. ground (arith, m a)) in
          ground (arith, rest, sep c q)
      | inr q ↦
          let rest =
            count_live-apart e e' t t' gone ms ns cs sep (λ a. ground (arith, h a))
              (λ a. ground (arith, g a)) (λ a. ground (arith, m a)) in
          ground (
            arith,
            rest,
            m c.address,
            g c.address,
            h c.address,
            has_selected-count c.address (some e) t cs,
          )
    ]

count_live-keep_apart :
    (e e' : ℕ) (t t' : CallbackType) (ms : List ℕ) (cs : List EntityCallback)
    → ((c : EntityCallback) → selects (some e) t c ≡ true → is_for e' t' c ≡ false)
    → count_live e' t' ms (keep_others (some e) t cs) ≡ count_live e' t' ms cs
unfolding count_live keep_others
count_live-keep_apart e e' t t' ms [] sep = refl
count_live-keep_apart e e' t t' ms (c ∷ cs) sep =
    ground (arith, sep c, count_live-keep_apart e e' t t' ms cs sep)

-- A removal for an entity and a type leaves what is for another entity or another type live.
delete_existing-apart :
    (e e' : ℕ) (t t' : CallbackType) (d : Dispatcher)
    → Inv d
    → ((c : EntityCallback) → selects (some e) t c ≡ true → is_for e' t' c ≡ false)
    → let d' = delete_existing (some e) t d in
      count_live e' t' d'.mark_for_deletion d'.callbacks
      ≡ count_live e' t' d.mark_for_deletion d.callbacks
unfolding delete_existing
delete_existing-apart e e' t t' d v sep = elim (Bool-cases d.is_processing) [
  | inl p ↦
      rw (p, delete_existing)
        (count_live-apart e e' t t' (λ _. false) d.mark_for_deletion
          (mark_selected (some e) t d.callbacks d.mark_for_deletion) d.callbacks sep v.distinct
          (λ a. ground arith)
          (λ a.
            ground (arith, is_marked-mark_selected a (some e) t d.callbacks d.mark_for_deletion)))
  | inr p ↦
      rw (p, delete_existing) (count_live-keep_apart e e' t t' d.mark_for_deletion d.callbacks sep)
]

-- A type other than `None` selects only callbacks of that type.
is_for-apart :
    (e e' : ℕ) (t t' : CallbackType) (c : EntityCallback)
    → same_type CallbackType.any_type t ≡ false
    → ((e == e') && same_type t t') ≡ false
    → selects (some e) t c ≡ true
    → is_for e' t' c ≡ false
unfolding selects is_for same_type
is_for-apart e e' t t' c h k s = ground arith

-- The new callback is live, and it is one more.
push_callback-live :
    (amx e : ℕ) (name : List ℕ) (params : List ℤ) (t : CallbackType) (f : ℕ) (d : Dispatcher)
    → Inv d
    → (e' : ℕ) (t' : CallbackType)
    → let d' = push_callback amx e name params t f d in
      count_live e' t' d'.mark_for_deletion d'.callbacks
      ≡ count_live e' t' d.mark_for_deletion d.callbacks + to_nat ((e == e') && same_type t t')
unfolding push_callback count_live is_for
push_callback-live amx e name params t f d v e' t' =
    let c : EntityCallback = record {
      address = d.next_address;
      amx = amx;
      callback_name = name;
      fwdindex = f;
      entity = e;
      type = t;
      user_params = param_block params;
    } in
    ground (
      arith,
      v.marks d.next_address,
      v.fresh d.next_address,
      count_live-append e' t' d.mark_for_deletion d.callbacks (c ∷ []),
    )

-- When AMXX gives a forward, then in every dispatcher that satisfies the invariant, `SetThink` and
-- its like, for a type other than `None`, return true and leave exactly one live callback for the
-- entity and the type, a dispatch going on or not, and for any other entity or type as many live
-- callbacks as before.
pub set_callback-live :
    (t : CallbackType) (amx e : ℕ) (name : List ℕ) (params : List ℤ) (f : ℕ) (d : Dispatcher)
    (e' : ℕ) (t' : CallbackType)
    → Inv d
    → same_type CallbackType.any_type t ≡ false
    → ((e == e') && same_type t t') ≡ false
    → let (returned, d') = set_callback t amx e name params (some f) d in
      (returned ≡ true)
      × (count_live e t d'.mark_for_deletion d'.callbacks ≡ 1)
      × (count_live e' t' d'.mark_for_deletion d'.callbacks
          ≡ count_live e' t' d.mark_for_deletion d.callbacks)
unfolding set_callback hook_entity same_type
set_callback-live t amx e name params f d e' t' v h k =
    let d1 = delete_existing (some e) t d in
    let v1 = delete_existing-Inv (some e) t d v in
    (
      refl,
      ground
          (arith, push_callback-live amx e name params t f d1 v1 e t, delete_existing-live e t d),
      ground (
        arith,
        push_callback-live amx e name params t f d1 v1 e' t',
        delete_existing-apart e e' t t' d v (λ c. is_for-apart e e' t t' c h k),
      ),
    )

-- At the end of a dispatch in a dispatcher that satisfies the invariant, marked or not, nothing is
-- marked and no dispatch goes on, each address was not marked or has no callback any more, and for each
-- entity and type as many callbacks are live as before.
pub end_dispatch-live :
    (d : Dispatcher) (a e : ℕ) (t : CallbackType)
    → Inv d
    → let d' = end_dispatch d in
      (d'.mark_for_deletion ≡ [])
      × (d'.is_processing ≡ false)
      × ((is_marked a d.mark_for_deletion ≡ false) ⊎ (count_address a d'.callbacks ≡ 0))
      × (count_live e t d'.mark_for_deletion d'.callbacks
          ≡ count_live e t d.mark_for_deletion d.callbacks)
unfolding end_dispatch
end_dispatch-live d a e t v = (
  refl,
  refl,
  elim (Bool-cases (is_marked a d.mark_for_deletion)) [
    | inl m ↦ inr (prune-gone a d.mark_for_deletion d.callbacks (v.distinct a) m)
    | inr unmarked ↦ inl unmarked
  ],
  count_live-prune e t d.mark_for_deletion d.callbacks v.distinct,
)

-- The forward is among those that were unregistered.
selected_forwards-find :
    (e : ℕ) (t : CallbackType) (c : EntityCallback) (cs : List EntityCallback)
    → find_callback e t cs ≡ some c
    → is_marked c.fwdindex (selected_forwards (some e) t cs) ≡ true
unfolding find_callback selected_forwards selects is_for is_marked
selected_forwards-find e t c [] h = cc
selected_forwards-find e t c (b ∷ cs) h = ground (arith, selected_forwards-find e t c cs)

-- While the callback of an entity runs, a removal of it unregisters nothing, if it comes first; after
-- the dispatch of another callback within it, whatever that one does (`nested` is the dispatcher that it
-- leaves behind), the removal unregisters the forward that runs, if it is still set.
pub nested_unregisters :
    (e : ℕ) (t : CallbackType) (c : EntityCallback) (d nested : Dispatcher)
    → find_callback e t (end_dispatch nested).callbacks ≡ some c
    → ((unset_callback t e (begin_dispatch d)).released ≡ d.released)
      × (is_marked c.fwdindex (unset_callback t e (end_dispatch nested)).released ≡ true)
unfolding begin_dispatch end_dispatch unset_callback delete_existing hook_entity
nested_unregisters e t c d nested h =
    let others = prune nested.mark_for_deletion nested.callbacks in
    let before = nested.released ++ pruned_forwards nested.mark_for_deletion nested.callbacks in
    (
      refl,
      is_marked-append c.fwdindex before (selected_forwards (some e) t others)
          ∙ ground (arith, selected_forwards-find e t c others h),
    )
