-- ===== src/Misc/InRounds/Items.antt =====
-- reapi/src/natives/natives_misc.cpp: the natives that visit the items of a player return.
use reapi.Misc.Items.{
  remove_or_drop, clear_slot, entity_index, rg_give_item, give_named_item_internal,
  rg_give_custom_item, look_for, find_by_name, rg_find_weapon_bpack_by_name, has_equipment,
  rg_has_item_by_name, for_all_items, rg_remove_items_by_slot, rg_drop_items_by_slot,
}
use reapi.Misc.Ammo.{
  is_that_weapon, known_weapon, rg_set_user_bpammo, rg_get_user_bpammo, rg_set_user_ammo,
  rg_get_user_ammo,
}
use reapi.Misc.InRounds.{
  is_short, IsAllowed, InRounds, run-InRounds, ask-InRounds, link-InRounds, inner_call-InRounds,
  finish-InRounds, if-InRounds, refuse-InRounds, connected_player-InRounds, VisitInRounds,
  short_from, each_item-InRounds, each_slot-InRounds,
}
use reapi.Members.Natives.{Call}
use reapi.Misc.Calls.{player_items, Effect, get, Server}
use reapi.Misc.{Native, Statement}
use reapi.Misc.NullSafe.{NativeCode}
use reapi.Prelude.Programs.{perform, run}
use reapi.Prelude.{
  ◌⊗◌, ℕ, zero, suc, ◌≡◌, ◌≢◌, inl, inr, true, none, List, [], ◌∷◌, ◌==◌, if◌then◌else◌, All,
  Bool-cases,
}

module _ (next : ℕ → ℕ) (n : ℕ) where
  ruleset rounds = (
    refuse-InRounds, connected_player-InRounds, each_item-InRounds, each_slot-InRounds,
    inner_call-InRounds, if-InRounds, ask-InRounds, finish-InRounds,
  )

  pub look_for-InRounds :
      (m item : ℕ) (name : List ℕ) (rest : ℕ → Native)
      → is_short next m item ≡ true
      → ((r : ℕ) → InRounds next n (rest r))
      → InRounds next n (look_for m item name rest)
  unfolding look_for
  look_for-InRounds zero item name rest short r = rw short (r 0)
  look_for-InRounds (suc m) item name rest short r = elim (Bool-cases (item == 0)) [
    | inl over ↦ rw over (r 0)
    | inr there ↦ rw there (
        ask-InRounds next n _ _ (λ same.
          if-InRounds next n (same == 0) _ _
            (link-InRounds next n item _
              (look_for-InRounds m (next item) name rest (short_from next n m item short there) r))
            (r item)))
  ]

  pub for_all_items-InRounds :
      (m success item : ℕ) (act : ℕ → Statement) (rest : ℕ → Native)
      → is_short next m item ≡ true
      → VisitInRounds next n act
      → ((r : ℕ) → InRounds next n (rest r))
      → InRounds next n (for_all_items m act success item rest)
  unfolding for_all_items
  for_all_items-InRounds zero success item act rest short v r = rw short (r success)
  for_all_items-InRounds (suc m) success item act rest short v r = elim (Bool-cases (item == 0)) [
    | inl over ↦ rw over (r success)
    | inr there ↦ rw there (
        link-InRounds next n item _ (
          v item _ (λ done.
            for_all_items-InRounds m (if done == 0 then 0 else success) (next item) act rest
              (short_from next n m item short there) v r)))
  ]

  pub head-InRounds :
      (index p : ℕ) (rest : ℕ → Native)
      → ((head : ℕ) → is_short next n head ≡ true → InRounds next n (rest head))
      → InRounds next n (perform (get (player_items index) p) rest)
  unfolding InRounds
  head-InRounds index p rest r = r

  pub is_that_weapon-InRounds :
      (info item : ℕ) (rest : ℕ → Native)
      → ((r : ℕ) → InRounds next n (rest r))
      → InRounds next n (is_that_weapon info item rest)
  unfolding is_that_weapon
  is_that_weapon-InRounds info item rest r = search (rounds) depth 24

  pub known_weapon-InRounds :
      (args : Call) (rest : ℕ → Native)
      → ((r : ℕ) → InRounds next n (rest r))
      → InRounds next n (known_weapon args rest)
  unfolding known_weapon
  known_weapon-InRounds args rest r = search (rounds) depth 24

  pub remove_or_drop-InRounds :
      (p kind item : ℕ) (rest : ℕ → Native)
      → ((r : ℕ) → InRounds next n (rest r))
      → InRounds next n (remove_or_drop p kind item rest)
  unfolding remove_or_drop
  remove_or_drop-InRounds p kind item rest r = search (rounds) depth 24

  pub clear_slot-InRounds :
      (p : ℕ) (args : Call) (rest : ℕ → Native)
      → ((r : ℕ) → InRounds next n (rest r))
      → InRounds next n (clear_slot n p args rest)
  unfolding clear_slot
  clear_slot-InRounds p args rest r = search (rounds, remove_or_drop-InRounds) depth 24

  pub entity_index-InRounds : (e : ℕ) → InRounds next n (entity_index e)
  unfolding entity_index
  entity_index-InRounds e = search (rounds) depth 24

  pub find_by_name-InRounds :
      (p : ℕ) (name : List ℕ) (rest : ℕ → Native)
      → ((r : ℕ) → InRounds next n (rest r))
      → InRounds next n (find_by_name n p name rest)
  unfolding find_by_name
  find_by_name-InRounds p name rest r = search (rounds, head-InRounds, look_for-InRounds) depth 24

  pub give_named_item_internal-InRounds :
      (p : ℕ) (name : List ℕ) (uid : ℕ) (rest : ℕ → Native)
      → ((r : ℕ) → InRounds next n (rest r))
      → InRounds next n (give_named_item_internal p name uid rest)
  unfolding give_named_item_internal
  give_named_item_internal-InRounds p name uid rest r = search (rounds) depth 24

  pub has_equipment-InRounds :
      (name : List ℕ) (p : ℕ) (otherwise : Native)
      → InRounds next n otherwise
      → InRounds next n (has_equipment name p otherwise)
  unfolding has_equipment
  has_equipment-InRounds name p otherwise r = search (rounds) depth 24

  ruleset item_rounds = (
    rounds, is_that_weapon-InRounds, known_weapon-InRounds, clear_slot-InRounds,
    entity_index-InRounds, find_by_name-InRounds, give_named_item_internal-InRounds,
    has_equipment-InRounds, head-InRounds, for_all_items-InRounds,
  )

  rg_give_item-InRounds :
      (server : Server) (args : Call) → InRounds next n (rg_give_item n server args)
  unfolding rg_give_item
  rg_give_item-InRounds server args = search item_rounds depth 24

  rg_give_custom_item-InRounds :
      (server : Server) (args : Call) → InRounds next n (rg_give_custom_item n server args)
  unfolding rg_give_custom_item
  rg_give_custom_item-InRounds server args = search item_rounds depth 24

  rg_find_weapon_bpack_by_name-InRounds :
      (server : Server) (args : Call) → InRounds next n (rg_find_weapon_bpack_by_name n server args)
  unfolding rg_find_weapon_bpack_by_name
  rg_find_weapon_bpack_by_name-InRounds server args = search item_rounds depth 24

  rg_has_item_by_name-InRounds :
      (server : Server) (args : Call) → InRounds next n (rg_has_item_by_name n server args)
  unfolding rg_has_item_by_name
  rg_has_item_by_name-InRounds server args = search item_rounds depth 24

  rg_remove_items_by_slot-InRounds :
      (server : Server) (args : Call) → InRounds next n (rg_remove_items_by_slot n server args)
  unfolding rg_remove_items_by_slot
  rg_remove_items_by_slot-InRounds server args = search item_rounds depth 24

  rg_drop_items_by_slot-InRounds :
      (server : Server) (args : Call) → InRounds next n (rg_drop_items_by_slot n server args)
  unfolding rg_drop_items_by_slot
  rg_drop_items_by_slot-InRounds server args = search item_rounds depth 24

  rg_set_user_bpammo-InRounds :
      (server : Server) (args : Call) → InRounds next n (rg_set_user_bpammo n server args)
  unfolding rg_set_user_bpammo
  rg_set_user_bpammo-InRounds server args = search item_rounds depth 24

  rg_get_user_bpammo-InRounds :
      (server : Server) (args : Call) → InRounds next n (rg_get_user_bpammo n server args)
  unfolding rg_get_user_bpammo
  rg_get_user_bpammo-InRounds server args = search item_rounds depth 24

  rg_set_user_ammo-InRounds :
      (server : Server) (args : Call) → InRounds next n (rg_set_user_ammo n server args)
  unfolding rg_set_user_ammo
  rg_set_user_ammo-InRounds server args = search item_rounds depth 24

  rg_get_user_ammo-InRounds :
      (server : Server) (args : Call) → InRounds next n (rg_get_user_ammo n server args)
  unfolding rg_get_user_ammo
  rg_get_user_ammo-InRounds server args = search item_rounds depth 24

-- The natives that visit the items of a player.
unfoldable pub looping_natives : List NativeCode
looping_natives =
    rg_give_item ∷ rg_give_custom_item ∷ rg_find_weapon_bpack_by_name ∷ rg_has_item_by_name
    ∷ rg_remove_items_by_slot ∷ rg_drop_items_by_slot ∷ rg_set_user_bpammo ∷ rg_get_user_bpammo
    ∷ rg_set_user_ammo ∷ rg_get_user_ammo ∷ []

-- The ten natives that visit the items of a player return, on any call and in any world, if they are
-- given as many rounds as the slot with the most items needs: that is, if the game always answers the
-- same to what item follows another, and in every slot at most so many items follow each other.
pub looping_natives-return :
    {W : Type 0} (next : ℕ → ℕ) (n : ℕ) (answer : Effect → W → ℕ × W) (w : W) (server : Server)
    (args : Call)
    → ((e : Effect) (v : W) → IsAllowed next n e (answer e v).0)
    → All (λ native. (run answer (native n server args) w).0 ≢ none) looping_natives
unfolding looping_natives
looping_natives-return next n answer w server args allowed =
    let returns =
      λ (code : Native) (r : InRounds next n code). run-InRounds next n answer code w allowed r in
    returns _ (rg_give_item-InRounds next n server args)
    ⊗ returns _ (rg_give_custom_item-InRounds next n server args)
    ⊗ returns _ (rg_find_weapon_bpack_by_name-InRounds next n server args)
    ⊗ returns _ (rg_has_item_by_name-InRounds next n server args)
    ⊗ returns _ (rg_remove_items_by_slot-InRounds next n server args)
    ⊗ returns _ (rg_drop_items_by_slot-InRounds next n server args)
    ⊗ returns _ (rg_set_user_bpammo-InRounds next n server args)
    ⊗ returns _ (rg_get_user_bpammo-InRounds next n server args)
    ⊗ returns _ (rg_set_user_ammo-InRounds next n server args)
    ⊗ returns _ (rg_get_user_ammo-InRounds next n server args)
    ⊗ tt
