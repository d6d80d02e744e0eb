-- ===== src/Misc/Items.antt =====
-- reapi/src/natives/natives_misc.cpp: the natives that give, find and remove the items of a player.
--
-- The number `n` of rounds is for the items in one slot, which are linked by `m_pNext`.
use reapi.Members.Natives.{Call}
use reapi.Misc.Calls.{
  cell, text, with_bit, without_bit, kevlar, has_defuser, long_jump, owns_shield, flags, weapons,
  player_items, next_item, class_name, item_id, slot, containing, owner, private_data, origin,
  spawn_flags, impulse, target_name, pev, edict_of, give_named_item_ex, remove_player_item_ex,
  remove_item_pointer, drop_player_item, kill, is_class_name, weapon_slot_by_name, index_of_private,
  index_of_edict, alloc_string, create_named_entity, spawn, touch, is_null_entity, log_error, get,
  put, invoke, call, Server, null_entity, truth, flag, text_arg, is_positive,
}
use reapi.Misc.{Native, Statement, false_cell, true_cell, inner_call, connected_player, each_item}
use reapi.Prelude.Programs.{finish, out_of_rounds, perform, ◌>>=◌, ◌>>◌}
use reapi.Prelude.{ℕ, zero, suc, Bool, true, false, ◌&&◌, List, [], ◌∷◌, ltb, ◌==◌, if◌then◌else◌}

-- RemoveOrDropItem of reapi_utils.cpp: GT_DROP_AND_REPLACE is 2 and GT_REPLACE 1. The bit of the item
-- is cleared in `weapons`, which `without_bit` stands for.
unfoldable pub remove_or_drop : ℕ → ℕ → ℕ → Statement
remove_or_drop p kind item rest =
    if kind == 2
    then (do
      name ← perform (get class_name item)
      inner_call drop_player_item p (cell name ∷ []) rest)
    else if kind == 1
    then (do
      bits ← perform (get weapons p)
      id ← perform (get item_id item)
      perform (put weapons p (without_bit bits id))
      perform (invoke remove_item_pointer p (cell item ∷ []))
      perform (invoke kill item []) rest)
    else rest 0

-- The removal of what is in the slot of the new item, unless it is only added (GT_APPEND, 0).
-- GiveType is compared as a signed number, as MSVC compares enumerations.
unfoldable pub clear_slot : ℕ → ℕ → Call → Statement
unfolding remove_or_drop
clear_slot n p args rest =
    if is_positive (args.params 3)
    then (do
      info ← perform (call weapon_slot_by_name (text (text_arg args 2) ∷ []))
      if info == 0 then rest 0 else (do
        index ← perform (get slot info)
        each_item n p index (λ item visited. remove_or_drop p (args.params 3) item (λ r. visited 0))
            rest))
    else rest 0

-- `if (pEntity) return indexOfPDataAmx(pEntity); return AMX_NULLENT`
unfoldable pub entity_index : ℕ → Native
entity_index e =
    if e == 0 then finish null_entity else perform (call index_of_private (cell e ∷ [])) finish

unfoldable pub rg_give_item : ℕ → Server → Call → Native
unfolding clear_slot entity_index
rg_give_item n server args = do
  p ← connected_player server 1 args
  clear_slot n p args
  e ← (inner_call give_named_item_ex p (text (text_arg args 2) ∷ []))
  entity_index e

-- GiveNamedItemInternal of reapi_utils.cpp. SF_NORESPAWN is 1 << 30 and FL_KILLME 1 << 30.
unfoldable pub give_named_item_internal : ℕ → List ℕ → ℕ → Statement
give_named_item_internal p name uid rest = do
  iname ← perform (call alloc_string (text name ∷ []))
  e ← perform (call create_named_entity (cell iname ∷ []))
  missing ← perform (call is_null_entity (cell e ∷ []))
  if missing == 0
      then (do
        place ← perform (get origin p)
        perform (put origin e (cell place))
        bits ← perform (get spawn_flags e)
        perform (put spawn_flags e (with_bit bits 30))
        perform (put impulse e (cell uid))
        perform (call spawn (cell e ∷ []))
        perform (call touch (cell e ∷ cell p ∷ []))
        pdata ← perform (get private_data e)
        holder ← perform (get owner pdata)
        without ← perform (call is_null_entity (cell holder ∷ []))
        own ← perform (get edict_of p)
        if (without == 0) && (holder == own) then rest pdata else (do
          perform (put target_name pdata (cell 0))
          now ← perform (get flags pdata)
          perform (put flags pdata (with_bit now 30))
          rest 0))
      else (do perform log_error; rest 0)

unfoldable pub rg_give_custom_item : ℕ → Server → Call → Native
unfolding clear_slot entity_index give_named_item_internal
rg_give_custom_item n server args = do
  p ← connected_player server 1 args
  clear_slot n p args
  e ← give_named_item_internal p (text_arg args 2) (args.params 4)
  entity_index e

-- The items from one on, up to the first of the class: FClassnameIs reads `pItem->pev`.
unfoldable pub look_for : ℕ → ℕ → List ℕ → Statement
look_for zero item name rest = if item == 0 then rest 0 else out_of_rounds
look_for (suc n) item name rest = if item == 0 then rest 0 else (do
  same ← perform (invoke is_class_name item (text name ∷ []))
  if same == 0 then perform (get next_item item) (λ next. look_for n next name rest) else rest item)

-- The search in the slot of the weapons of a name.
unfoldable pub find_by_name : ℕ → ℕ → List ℕ → Statement
unfolding look_for
find_by_name n p name rest = do
  info ← perform (call weapon_slot_by_name (text name ∷ []))
  if info == 0 then rest 0 else (do
    index ← perform (get slot info)
    item ← perform (get (player_items index) p)
    look_for n item name rest)

unfoldable pub rg_find_weapon_bpack_by_name : ℕ → Server → Call → Native
unfolding find_by_name
rg_find_weapon_bpack_by_name n server args = do
  p ← connected_player server 1 args
  item ← find_by_name n p (text_arg args 2)
  if item == 0 then finish false_cell else (do
    place ← perform (get pev item)
    e ← perform (get containing place)
    perform (call index_of_edict (cell e ∷ [])) finish)

-- The names in `itemInfoStruct`.
abbrev item_thighpack : List ℕ
item_thighpack = 105 ∷ 116 ∷ 101 ∷ 109 ∷ 95 ∷ 116 ∷ 104 ∷ 105 ∷ 103 ∷ 104 ∷ 112 ∷ 97 ∷ 99 ∷ 107 ∷ []

abbrev item_longjump : List ℕ
item_longjump = 105 ∷ 116 ∷ 101 ∷ 109 ∷ 95 ∷ 108 ∷ 111 ∷ 110 ∷ 103 ∷ 106 ∷ 117 ∷ 109 ∷ 112 ∷ []

abbrev item_assaultsuit : List ℕ
item_assaultsuit =
    105 ∷ 116 ∷ 101 ∷ 109 ∷ 95 ∷ 97 ∷ 115 ∷ 115 ∷ 97 ∷ 117 ∷ 108 ∷ 116 ∷ 115 ∷ 117 ∷ 105 ∷ 116 ∷ []

abbrev item_kevlar : List ℕ
item_kevlar = 105 ∷ 116 ∷ 101 ∷ 109 ∷ 95 ∷ 107 ∷ 101 ∷ 118 ∷ 108 ∷ 97 ∷ 114 ∷ []

abbrev weapon_shield : List ℕ
weapon_shield = 119 ∷ 101 ∷ 97 ∷ 112 ∷ 111 ∷ 110 ∷ 95 ∷ 115 ∷ 104 ∷ 105 ∷ 101 ∷ 108 ∷ 100 ∷ []

unfoldable pub is_text : List ℕ → List ℕ → Bool
is_text [] [] = true
is_text [] (d ∷ t) = false
is_text (c ∷ s) [] = false
is_text (c ∷ s) (d ∷ t) = (c == d) && is_text s t

-- `itemInfoStruct`: the items that are no weapons, by their names, and what is done for other names.
unfoldable pub has_equipment : List ℕ → ℕ → Native → Native
unfolding is_text
has_equipment name p otherwise =
    if is_text item_thighpack name
    then perform (get has_defuser p) finish
    else if is_text item_longjump name
    then perform (get long_jump p) (λ c. finish (truth (c == 1)))
    else if is_text item_assaultsuit name
    then perform (get kevlar p) (λ c. finish (truth (c == 2)))
    else if is_text item_kevlar name
    then perform (get kevlar p) (λ c. finish (truth (c == 1)))
    else if is_text weapon_shield name
    then perform (get owns_shield p) finish
    else otherwise

unfoldable pub rg_has_item_by_name : ℕ → Server → Call → Native
unfolding find_by_name has_equipment
rg_has_item_by_name n server args = do
  p ← connected_player server 1 args
  has_equipment (text_arg args 2) p (do
    item ← find_by_name n p (text_arg args 2)
    finish (if item == 0 then false_cell else true_cell))

-- ForEachItem for the natives that do something to every item of a slot: `success` stays TRUE while
-- the method returns something for each.
unfoldable pub for_all_items : ℕ → (ℕ → Statement) → ℕ → ℕ → Statement
for_all_items zero act success item rest = if item == 0 then rest success else out_of_rounds
for_all_items (suc n) act success item rest = if item == 0 then rest success else (do
  next ← perform (get next_item item)
  done ← act item
  for_all_items n act (if done == 0 then 0 else success) next rest)

unfoldable pub rg_remove_items_by_slot : ℕ → Server → Call → Native
unfolding for_all_items
rg_remove_items_by_slot n server args = do
  p ← connected_player server 1 args
  item ← perform (get (player_items (args.params 2)) p)
  success ←
      for_all_items n
        (λ it rest. do
          name ← perform (get class_name it)
          inner_call remove_player_item_ex p
              (cell name ∷ cell (if ltb args.count 3 then 1 else flag args 3) ∷ []) rest)
        1 item
  finish success

unfoldable pub rg_drop_items_by_slot : ℕ → Server → Call → Native
unfolding for_all_items
rg_drop_items_by_slot n server args = do
  p ← connected_player server 1 args
  item ← perform (get (player_items (args.params 2)) p)
  success ←
      for_all_items n
        (λ it rest. do
          name ← perform (get class_name it)
          inner_call drop_player_item p (cell name ∷ []) rest)
        1 item
  finish success
