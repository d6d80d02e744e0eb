-- ===== src/Entity/Invariant.antt =====
-- The invariant of the dispatcher, over everything that plugins can do, in callbacks too.
use reapi.Entity.Counts.{
  count_address, count_live, is_marked-mark_selected, has_selected-count, count_address-keep_others,
  count_live_mono, count_live-keep_others, count_live-append, count_address-append, count_live-kept,
  count_live-selected, count_address-prune, count_live-prune,
}
use reapi.Entity.Dispatch.{
  Step, Steps, begin_dispatch, end_dispatch, sets, sets_move_done, unsets, unsets_move_done,
  deletes, dispatches, dispatches_nothing, done, next,
}
use reapi.Entity.{
  CallbackType, move_done, same_type, EntityCallback, Dispatcher, is_for, is_marked, param_block,
  mark_selected, delete_existing, hook_entity, push_callback, set_callback, set_move_done,
  unset_callback, unset_move_done,
}
use reapi.Prelude.Int.{ℤ}
use reapi.Prelude.{
  ℕ, ◌≤◌, ◌<◌, ◌≡◌, refl, inl, inr, Bool, true, false, Option, none, some, List, [], ◌∷◌, arith,
  Bool-cases,
}

-- No two callbacks share an address, and new addresses are above all of them; every mark is the
-- address of a callback that is still there; nothing is marked outside of a dispatch; and for each
-- entity and type at most one callback is live, that is, not marked.
pub record Inv (d : Dispatcher) : Type 0 where
  pub distinct : (a : ℕ) → count_address a d.callbacks ≤ 1
  pub fresh : (a : ℕ) → d.next_address ≤ a → count_address a d.callbacks ≡ 0
  pub marks : (a : ℕ) → is_marked a d.mark_for_deletion ≡ true → 0 < count_address a d.callbacks
  pub idle : d.is_processing ≡ false → d.mark_for_deletion ≡ []
  pub single : (e : ℕ) (t : CallbackType) → count_live e t d.mark_for_deletion d.callbacks ≤ 1

pub delete_existing-Inv :
    (e : Option ℕ) (t : CallbackType) (d : Dispatcher) → Inv d → Inv (delete_existing e t d)
unfolding delete_existing is_marked
delete_existing-Inv e t d v = elim (Bool-cases d.is_processing) [
  | inl p ↦
      rw (p, delete_existing)
        (record {
          distinct = v.distinct;
          fresh = v.fresh;
          marks = λ a. ground (
            arith,
            v.marks a,
            is_marked-mark_selected a e t d.callbacks d.mark_for_deletion,
            has_selected-count a e t d.callbacks,
          );
          idle = λ q. ground arith;
          single = λ e' t'. omega (
            arith,
            v.single e' t',
            count_live_mono e' t' d.mark_for_deletion
                (mark_selected e t d.callbacks d.mark_for_deletion) d.callbacks
                (λ a.
                  ground (arith, is_marked-mark_selected a e t d.callbacks d.mark_for_deletion)),
          );
        })
  | inr p ↦
      rw (p, delete_existing)
        (record {
          distinct = λ a. omega (arith, v.distinct a, count_address-keep_others a e t d.callbacks);
          fresh = λ a h. omega (arith, v.fresh a h, count_address-keep_others a e t d.callbacks);
          marks = λ a. ground (arith, v.idle p);
          idle = λ _. v.idle p;
          single = λ e' t'. omega (
            arith,
            v.single e' t',
            count_live-keep_others e' t' d.mark_for_deletion e t d.callbacks,
          );
        })
]

-- No live callback is left for the entity and the type.
pub delete_existing-live :
    (e : ℕ) (t : CallbackType) (d : Dispatcher)
    → let d' = delete_existing (some e) t d in count_live e t d'.mark_for_deletion d'.callbacks ≡ 0
unfolding delete_existing
delete_existing-live e t d = elim (Bool-cases d.is_processing) [
  | inl p ↦
      rw (p, delete_existing)
        (count_live-selected e t (mark_selected (some e) t d.callbacks d.mark_for_deletion)
          d.callbacks
          (λ a.
            ground (arith, is_marked-mark_selected a (some e) t d.callbacks d.mark_for_deletion)))
  | inr p ↦ rw (p, delete_existing) (count_live-kept e t d.mark_for_deletion d.callbacks)
]

hook_entity-Inv :
    (e : ℕ) (t : CallbackType) (b : Bool) (d : Dispatcher) → Inv d → Inv (hook_entity e t b d)
unfolding hook_entity
hook_entity-Inv e t b d v = record {
  distinct = v.distinct;
  fresh = v.fresh;
  marks = v.marks;
  idle = v.idle;
  single = v.single;
}

count_live-same_type :
    (e : ℕ) (t t' : CallbackType) (ms : List ℕ) (cs : List EntityCallback)
    → same_type t t' ≡ true
    → count_live e t' ms cs ≡ count_live e t ms cs
unfolding count_live is_for same_type
count_live-same_type e t t' ms [] h = refl
count_live-same_type e t t' ms (c ∷ cs) h = ground (arith, count_live-same_type e t t' ms cs)

push_callback-Inv :
    (amx e : ℕ) (name : List ℕ) (params : List ℤ) (t : CallbackType) (fwd : ℕ) (d : Dispatcher)
    → Inv d
    → count_live e t d.mark_for_deletion d.callbacks ≡ 0
    → Inv (push_callback amx e name params t fwd d)
unfolding push_callback count_address count_live is_for
push_callback-Inv amx e name params t fwd d v free =
    let c : EntityCallback = record {
      address = d.next_address;
      amx = amx;
      callback_name = name;
      fwdindex = fwd;
      entity = e;
      type = t;
      user_params = param_block params;
    } in
    record {
      distinct =
          λ a. ground (arith, v.distinct a, v.fresh a, count_address-append a d.callbacks (c ∷ []));
      fresh = λ a h. ground (arith, v.fresh a, count_address-append a d.callbacks (c ∷ []));
      marks = λ a h. ground (arith, v.marks a, count_address-append a d.callbacks (c ∷ []));
      idle = v.idle;
      single = λ e' t'. ground (
        arith,
        v.single e' t',
        free,
        count_live-same_type e t t' d.mark_for_deletion d.callbacks,
        count_live-append e' t' d.mark_for_deletion d.callbacks (c ∷ []),
      );
    }

set_callback-Inv :
    (t : CallbackType) (amx e : ℕ) (name : List ℕ) (params : List ℤ) (fwd : Option ℕ)
    (d : Dispatcher)
    → Inv d
    → Inv (set_callback t amx e name params fwd d).1
unfolding set_callback
set_callback-Inv t amx e name params none d v = delete_existing-Inv (some e) t d v
set_callback-Inv t amx e name params (some f) d v = hook_entity-Inv e t true _ (
    push_callback-Inv amx e name params t f (delete_existing (some e) t d)
      (delete_existing-Inv (some e) t d v) (delete_existing-live e t d))

set_move_done-Inv :
    (b : Bool) (amx e : ℕ) (name : List ℕ) (params : List ℤ) (fwd : Option ℕ) (d : Dispatcher)
    → Inv d
    → Inv (set_move_done b amx e name params fwd d).1
unfolding set_move_done
set_move_done-Inv b amx e name params none d v = delete_existing-Inv (some e) move_done d v
set_move_done-Inv true amx e name params (some f) d v =
    set_callback-Inv move_done amx e name params (some f) d v
set_move_done-Inv false amx e name params (some f) d v = delete_existing-Inv (some e) move_done d v

pub unset_callback-Inv :
    (t : CallbackType) (e : ℕ) (d : Dispatcher) → Inv d → Inv (unset_callback t e d)
unfolding unset_callback
unset_callback-Inv t e d v = delete_existing-Inv (some e) t _ (hook_entity-Inv e t false d v)

unset_move_done-Inv : (b : Bool) (e : ℕ) (d : Dispatcher) → Inv d → Inv (unset_move_done b e d)
unfolding unset_move_done
unset_move_done-Inv true e d v = unset_callback-Inv move_done e d v
unset_move_done-Inv false e d v = v

pub begin_dispatch-Inv : (d : Dispatcher) → Inv d → Inv (begin_dispatch d)
unfolding begin_dispatch
begin_dispatch-Inv d v = record {
  distinct = v.distinct;
  fresh = v.fresh;
  marks = v.marks;
  idle = λ e. cc;
  single = v.single;
}

end_dispatch-Inv : (d : Dispatcher) → Inv d → Inv (end_dispatch d)
unfolding end_dispatch is_marked
end_dispatch-Inv d v =
    let ms = d.mark_for_deletion in
    record {
      distinct = λ a. omega (arith, v.distinct a, count_address-prune a ms d.callbacks);
      fresh = λ a h. omega (arith, v.fresh a h, count_address-prune a ms d.callbacks);
      marks = λ a h. cc;
      idle = λ _. refl;
      single = λ e t. rw (count_live-prune e t ms d.callbacks v.distinct) (v.single e t);
    }

mutual
  pub Step-Inv : {d d' : Dispatcher} → Step d d' → Inv d → Inv d'
  Step-Inv (sets t amx e name params fwd d) v = set_callback-Inv t amx e name params fwd d v
  Step-Inv (sets_move_done b amx e name params fwd d) v =
      set_move_done-Inv b amx e name params fwd d v
  Step-Inv (unsets t e d) v = unset_callback-Inv t e d v
  Step-Inv (unsets_move_done b e d) v = unset_move_done-Inv b e d v
  Step-Inv (deletes e t d) v = delete_existing-Inv e t d v
  Step-Inv (dispatches e t c d d' q steps) v =
      end_dispatch-Inv d' (Steps-Inv_lem steps (begin_dispatch-Inv d v))
  Step-Inv (dispatches_nothing e t d q) v = end_dispatch-Inv _ (begin_dispatch-Inv d v)

  pub Steps-Inv_lem : {d d' : Dispatcher} → Steps d d' → Inv d → Inv d'
  Steps-Inv_lem (done d) v = v
  Steps-Inv_lem (next d d' d'' s ss) v = Steps-Inv_lem ss (Step-Inv s v)
