-- ===== src/Misc/NullSafe/Items.antt =====
-- reapi/src/natives/natives_misc.cpp: natives that use no null pointer (Misc.Items, Misc.Ammo).
use reapi.Misc.Items.{
  remove_or_drop, clear_slot, entity_index, rg_give_item, look_for, find_by_name,
  rg_find_weapon_bpack_by_name, has_equipment, rg_has_item_by_name, for_all_items,
  rg_remove_items_by_slot, rg_drop_items_by_slot,
}
use reapi.Misc.Ammo.{
  is_that_weapon, known_weapon, rg_set_user_bpammo, rg_get_user_bpammo, rg_set_user_ammo,
  rg_get_user_ammo,
}
use reapi.Misc.NullSafe.Players.{player_rules}
use reapi.Misc.NullSafe.Guards.{StatementIsSafe, null_safe}
use reapi.Misc.NullSafe.{
  NullSafe, get-NullSafe, invoke-NullSafe, out_of_rounds-NullSafe, if-NullSafe, test-NullSafe,
  NativeCode,
}
use reapi.Members.Natives.{Call}
use reapi.Misc.Calls.{next_item, is_class_name, Server}
use reapi.Misc.{Native, Statement}
use reapi.Prelude.{◌⊗◌, ℕ, zero, suc, ◌≢◌, List, [], ◌∷◌, ◌==◌, if◌then◌else◌, All}
use reapi.Misc.Items.{
  remove_or_drop, clear_slot, entity_index, rg_give_item, look_for, find_by_name,
  rg_find_weapon_bpack_by_name, has_equipment, rg_has_item_by_name, for_all_items,
  rg_remove_items_by_slot, rg_drop_items_by_slot,
}

pub entity_index-NullSafe : (e : ℕ) → NullSafe (entity_index e)
unfolding entity_index
entity_index-NullSafe e = search (null_safe) depth 24

pub remove_or_drop-NullSafe :
    (p kind item : ℕ) (rest : ℕ → Native)
    → p ≢ 0
    → item ≢ 0
    → ((r : ℕ) → NullSafe (rest r))
    → NullSafe (remove_or_drop p kind item rest)
unfolding remove_or_drop
remove_or_drop-NullSafe p kind item rest ne0 ne1 safe = search (null_safe) depth 24

pub clear_slot-NullSafe :
    (n p : ℕ) (args : Call) (rest : ℕ → Native)
    → p ≢ 0
    → ((r : ℕ) → NullSafe (rest r))
    → NullSafe (clear_slot n p args rest)
unfolding clear_slot
clear_slot-NullSafe n p args rest ne0 safe = search (null_safe, remove_or_drop-NullSafe) depth 24

pub look_for-NullSafe :
    (n item : ℕ) (name : List ℕ) (rest : ℕ → Native)
    → ((r : ℕ) → NullSafe (rest r))
    → NullSafe (look_for n item name rest)
unfolding look_for
look_for-NullSafe zero item name rest safe =
    if-NullSafe (item == 0) _ _ (safe 0) out_of_rounds-NullSafe
look_for-NullSafe (suc n) item name rest safe = test-NullSafe item _ _ (safe 0) (λ ne.
    invoke-NullSafe is_class_name item _ _ ne (λ same.
      if-NullSafe (same == 0) _ _
        (get-NullSafe next_item item _ ne (λ next. look_for-NullSafe n next name rest safe))
        (safe item)))

pub find_by_name-NullSafe :
    (n p : ℕ) (name : List ℕ) (rest : ℕ → Native)
    → p ≢ 0
    → ((r : ℕ) → NullSafe (rest r))
    → NullSafe (find_by_name n p name rest)
unfolding find_by_name
find_by_name-NullSafe n p name rest ne0 safe = search (null_safe, look_for-NullSafe) depth 24

pub is_that_weapon-NullSafe :
    (info item : ℕ) (rest : ℕ → Native)
    → info ≢ 0
    → item ≢ 0
    → ((r : ℕ) → NullSafe (rest r))
    → NullSafe (is_that_weapon info item rest)
unfolding is_that_weapon
is_that_weapon-NullSafe info item rest ne0 ne1 safe = search (null_safe) depth 24

pub known_weapon-NullSafe :
    (args : Call) (rest : ℕ → Native)
    → ((p : ℕ) → p ≢ 0 → NullSafe (rest p))
    → NullSafe (known_weapon args rest)
unfolding known_weapon
known_weapon-NullSafe args rest safe = search (null_safe) depth 24

pub has_equipment-NullSafe :
    (name : List ℕ) (p : ℕ) (otherwise : Native)
    → p ≢ 0
    → NullSafe otherwise
    → NullSafe (has_equipment name p otherwise)
unfolding has_equipment
has_equipment-NullSafe name p otherwise ne0 safe = search (null_safe) depth 24

pub for_all_items-NullSafe :
    (n : ℕ) (act : ℕ → Statement) (success item : ℕ) (rest : ℕ → Native)
    → StatementIsSafe act
    → ((r : ℕ) → NullSafe (rest r))
    → NullSafe (for_all_items n act success item rest)
unfolding for_all_items
for_all_items-NullSafe zero act success item rest sa safe =
    if-NullSafe (item == 0) _ _ (safe success) out_of_rounds-NullSafe
for_all_items-NullSafe (suc n) act success item rest sa safe =
    test-NullSafe item _ _ (safe success) (λ ne. get-NullSafe next_item item _ ne (λ next.
      sa item _ ne (λ done.
        for_all_items-NullSafe n act (if done == 0 then 0 else success) next rest sa safe)))

pub ruleset item_rules = (
  null_safe, player_rules, entity_index-NullSafe, remove_or_drop-NullSafe, clear_slot-NullSafe,
  look_for-NullSafe, find_by_name-NullSafe, is_that_weapon-NullSafe, known_weapon-NullSafe,
  has_equipment-NullSafe, for_all_items-NullSafe,
)

pub rg_give_item-NullSafe :
    (n : ℕ) (server : Server) (args : Call) → NullSafe (rg_give_item n server args)
unfolding rg_give_item
rg_give_item-NullSafe n server args = search item_rules depth 24

pub rg_find_weapon_bpack_by_name-NullSafe :
    (n : ℕ) (server : Server) (args : Call) → NullSafe (rg_find_weapon_bpack_by_name n server args)
unfolding rg_find_weapon_bpack_by_name
rg_find_weapon_bpack_by_name-NullSafe n server args = search item_rules depth 24

pub rg_has_item_by_name-NullSafe :
    (n : ℕ) (server : Server) (args : Call) → NullSafe (rg_has_item_by_name n server args)
unfolding rg_has_item_by_name
rg_has_item_by_name-NullSafe n server args = search item_rules depth 24

pub rg_remove_items_by_slot-NullSafe :
    (n : ℕ) (server : Server) (args : Call) → NullSafe (rg_remove_items_by_slot n server args)
unfolding rg_remove_items_by_slot
rg_remove_items_by_slot-NullSafe n server args = search item_rules depth 24

pub rg_drop_items_by_slot-NullSafe :
    (n : ℕ) (server : Server) (args : Call) → NullSafe (rg_drop_items_by_slot n server args)
unfolding rg_drop_items_by_slot
rg_drop_items_by_slot-NullSafe n server args = search item_rules depth 24

pub rg_set_user_bpammo-NullSafe :
    (n : ℕ) (server : Server) (args : Call) → NullSafe (rg_set_user_bpammo n server args)
unfolding rg_set_user_bpammo
rg_set_user_bpammo-NullSafe n server args = search item_rules depth 24

pub rg_get_user_bpammo-NullSafe :
    (n : ℕ) (server : Server) (args : Call) → NullSafe (rg_get_user_bpammo n server args)
unfolding rg_get_user_bpammo
rg_get_user_bpammo-NullSafe n server args = search item_rules depth 24

pub rg_set_user_ammo-NullSafe :
    (n : ℕ) (server : Server) (args : Call) → NullSafe (rg_set_user_ammo n server args)
unfolding rg_set_user_ammo
rg_set_user_ammo-NullSafe n server args = search item_rules depth 24

pub rg_get_user_ammo-NullSafe :
    (n : ℕ) (server : Server) (args : Call) → NullSafe (rg_get_user_ammo n server args)
unfolding rg_get_user_ammo
rg_get_user_ammo-NullSafe n server args = search item_rules depth 24

-- The natives above.
unfoldable pub item_natives : List NativeCode
item_natives =
    (λ n server args. rg_give_item n server args)
    ∷ (λ n server args. rg_find_weapon_bpack_by_name n server args)
    ∷ (λ n server args. rg_has_item_by_name n server args)
    ∷ (λ n server args. rg_remove_items_by_slot n server args)
    ∷ (λ n server args. rg_drop_items_by_slot n server args)
    ∷ (λ n server args. rg_set_user_bpammo n server args)
    ∷ (λ n server args. rg_get_user_bpammo n server args)
    ∷ (λ n server args. rg_set_user_ammo n server args)
    ∷ (λ n server args. rg_get_user_ammo n server args)
    ∷ []

pub item_natives-NullSafe :
    (n : ℕ) (server : Server) (args : Call)
    → All (λ native. NullSafe (native n server args)) item_natives
unfolding item_natives
item_natives-NullSafe n server args =
    rg_give_item-NullSafe n server args
    ⊗ rg_find_weapon_bpack_by_name-NullSafe n server args
    ⊗ rg_has_item_by_name-NullSafe n server args
    ⊗ rg_remove_items_by_slot-NullSafe n server args
    ⊗ rg_drop_items_by_slot-NullSafe n server args
    ⊗ rg_set_user_bpammo-NullSafe n server args
    ⊗ rg_get_user_bpammo-NullSafe n server args
    ⊗ rg_set_user_ammo-NullSafe n server args
    ⊗ rg_get_user_ammo-NullSafe n server args
    ⊗ tt
