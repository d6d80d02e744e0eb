-- ===== src/Entity/Examples.antt =====
-- The theorems on entity callbacks at concrete dispatchers.
use reapi.Entity.Counts.{count_address, count_live}
use reapi.Entity.Invariant.{Inv, unset_callback-Inv, begin_dispatch-Inv}
use reapi.Entity.Lifetimes.{
  new_dispatcher, reachable-Inv, set_callback-live, end_dispatch-live, nested_unregisters,
}
use reapi.Entity.Dispatch.{
  prune, Steps, find_callback, begin_dispatch, end_dispatch, done, next, sets, unsets, dispatches,
}
use reapi.Entity.{
  any_type, think, touch, EntityCallback, Dispatcher, same_type, is_marked, set_callback,
  unset_callback, delete_existing, push_callback, is_for, keep_others, hook_entity, param_block,
}
use reapi.Prelude.Int.{pos}
use reapi.Prelude.{◌⊎◌, ◌≡◌, refl, true, false, ◌&&◌, some, [], ◌∷◌, ◌==◌}

abbrev thinking : Dispatcher
thinking = (set_callback think 1 5 (116 ∷ []) (pos 9 ∷ []) (some 3) new_dispatcher).1

abbrev thinker : EntityCallback
thinker = record {
  address = 0;
  amx = 1;
  callback_name = 116 ∷ [];
  fwdindex = 3;
  entity = 5;
  type = think;
  user_params = pos 9 ∷ pos 0 ∷ [];
}

-- The callback runs, and removes itself.
abbrev removing : Dispatcher
removing = unset_callback think 5 (begin_dispatch thinking)

finds_thinker : find_callback 5 think thinking.callbacks ≡ some thinker
unfolding set_callback delete_existing push_callback find_callback keep_others hook_entity is_for
    same_type param_block
finds_thinker = refl

thinks : Steps new_dispatcher thinking
thinks =
    next new_dispatcher thinking thinking
      (sets think 1 5 (116 ∷ []) (pos 9 ∷ []) (some 3) new_dispatcher) (done thinking)

removes_itself : Steps new_dispatcher (end_dispatch removing)
removes_itself =
    next new_dispatcher thinking (end_dispatch removing)
      (sets think 1 5 (116 ∷ []) (pos 9 ∷ []) (some 3) new_dispatcher)
      (next thinking (end_dispatch removing) (end_dispatch removing)
        (dispatches 5 think thinker thinking removing finds_thinker (
          next (begin_dispatch thinking) removing removing
            (unsets think 5 (begin_dispatch thinking)) (done removing)))
        (done (end_dispatch removing)))

reachable-Inv_example : Inv (end_dispatch removing)
reachable-Inv_example = reachable-Inv (end_dispatch removing) removes_itself

not_any : same_type any_type touch ≡ false
unfolding same_type
not_any = refl

other_type : ((5 == 5) && same_type touch think) ≡ false
unfolding same_type
other_type = refl

set_callback-live_example :
    let (returned, d') = set_callback touch 1 5 (117 ∷ []) [] (some 4) thinking in
    (returned ≡ true)
    × (count_live 5 touch d'.mark_for_deletion d'.callbacks ≡ 1)
    × (count_live 5 think d'.mark_for_deletion d'.callbacks
        ≡ count_live 5 think thinking.mark_for_deletion thinking.callbacks)
set_callback-live_example =
    set_callback-live touch 1 5 (117 ∷ []) [] 4 thinking 5 think (reachable-Inv thinking thinks)
      not_any other_type

removing-Inv : Inv removing
removing-Inv =
    unset_callback-Inv think 5 (begin_dispatch thinking)
      (begin_dispatch-Inv thinking (reachable-Inv thinking thinks))

end_dispatch-live_example :
    let d' = end_dispatch removing in
    (d'.mark_for_deletion ≡ [])
    × (d'.is_processing ≡ false)
    × ((is_marked 0 removing.mark_for_deletion ≡ false) ⊎ (count_address 0 d'.callbacks ≡ 0))
    × (count_live 5 think d'.mark_for_deletion d'.callbacks
        ≡ count_live 5 think removing.mark_for_deletion removing.callbacks)
end_dispatch-live_example = end_dispatch-live removing 0 5 think removing-Inv

-- Another callback that does nothing is dispatched within.
still_set :
    find_callback 5 think (end_dispatch (begin_dispatch (begin_dispatch thinking))).callbacks
    ≡ some thinker
unfolding end_dispatch begin_dispatch prune set_callback delete_existing push_callback hook_entity
    find_callback is_for same_type keep_others param_block
still_set = refl

nested_unregisters_example :
    let running = begin_dispatch thinking in
    let nested = begin_dispatch running in
    ((unset_callback think 5 running).released ≡ thinking.released)
    × (is_marked 3 (unset_callback think 5 (end_dispatch nested)).released ≡ true)
nested_unregisters_example =
    nested_unregisters 5 think thinker thinking (begin_dispatch (begin_dispatch thinking)) still_set
