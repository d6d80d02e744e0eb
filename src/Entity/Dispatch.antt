-- ===== src/Entity/Dispatch.antt =====
-- reapi/src/entity_callback_dispatcher.h: the dispatch of a callback, and everything that plugins can do
-- as a relation between dispatchers.
use reapi.Prelude.Int.{ℤ}
use reapi.Prelude.{
  ℕ, Bool, true, false, Option, none, some, List, [], ◌∷◌, ◌++◌, ◌≡◌, ◌==◌, if◌then◌else◌,
}
use reapi.Entity.{
  CallbackType, Dispatcher, EntityCallback, delete_existing, is_for, set_callback, set_move_done,
  unset_callback, unset_move_done,
}

-- DispatchCallbacks: the callback that it runs is the first one for the entity and the type.
unfoldable pub find_callback : ℕ → CallbackType → List EntityCallback → Option EntityCallback
find_callback e t [] = none
find_callback e t (c ∷ cs) = if is_for e t c then some c else find_callback e t cs

-- Up to the callback.
unfoldable pub begin_dispatch : Dispatcher → Dispatcher
begin_dispatch d = record d { is_processing = true }

-- `std::find` and `erase`
unfoldable pub erase_address : ℕ → List EntityCallback → List EntityCallback
erase_address a [] = []
erase_address a (c ∷ cs) = if c.address == a then cs else c ∷ erase_address a cs

unfoldable pub forward_at : ℕ → List EntityCallback → List ℕ
forward_at a [] = []
forward_at a (c ∷ cs) = if c.address == a then c.fwdindex ∷ [] else forward_at a cs

-- The loop over the marks.
unfoldable pub prune : List ℕ → List EntityCallback → List EntityCallback
prune [] cs = cs
prune (m ∷ ms) cs = prune ms (erase_address m cs)

unfoldable pub pruned_forwards : List ℕ → List EntityCallback → List ℕ
pruned_forwards [] cs = []
pruned_forwards (m ∷ ms) cs = forward_at m cs ++ pruned_forwards ms (erase_address m cs)

-- Behind the callback.
unfoldable pub end_dispatch : Dispatcher → Dispatcher
end_dispatch d = record d {
  is_processing = false;
  callbacks = prune d.mark_for_deletion d.callbacks;
  mark_for_deletion = [];
  released = d.released ++ pruned_forwards d.mark_for_deletion d.callbacks;
}

-- What a plugin can do, a dispatch within a callback included. The callback of a dispatch does some
-- steps; if there is no callback it does none.
mutual
  pub data Step : Dispatcher → Dispatcher → Type 0 where
    sets :
        (t : CallbackType) (amx e : ℕ) (name : List ℕ) (params : List ℤ) (fwd : Option ℕ)
        (d : Dispatcher)
        → Step d (set_callback t amx e name params fwd d).1
    sets_move_done :
        (b : Bool) (amx e : ℕ) (name : List ℕ) (params : List ℤ) (fwd : Option ℕ) (d : Dispatcher)
        → Step d (set_move_done b amx e name params fwd d).1
    unsets : (t : CallbackType) (e : ℕ) (d : Dispatcher) → Step d (unset_callback t e d)
    unsets_move_done : (b : Bool) (e : ℕ) (d : Dispatcher) → Step d (unset_move_done b e d)
    deletes : (e : Option ℕ) (t : CallbackType) (d : Dispatcher) → Step d (delete_existing e t d)
    dispatches :
        (e : ℕ) (t : CallbackType) (c : EntityCallback) (d d' : Dispatcher)
        → find_callback e t d.callbacks ≡ some c
        → Steps (begin_dispatch d) d'
        → Step d (end_dispatch d')
    dispatches_nothing :
        (e : ℕ) (t : CallbackType) (d : Dispatcher)
        → find_callback e t d.callbacks ≡ none
        → Step d (end_dispatch (begin_dispatch d))

  pub data Steps : Dispatcher → Dispatcher → Type 0 where
    done : (d : Dispatcher) → Steps d d
    next : (d d' d'' : Dispatcher) → Step d d' → Steps d' d'' → Steps d d''
