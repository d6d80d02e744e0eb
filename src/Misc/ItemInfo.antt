-- ===== src/Misc/ItemInfo.antt =====
-- reapi/src/natives/natives_misc.cpp: the natives on the ItemInfo of an item and of a kind of weapon.
use reapi.Members.Natives.{Call, arg_cell}
use reapi.Misc.Players.{is_empty_text}
use reapi.Misc.Weapons.{weapon_info_range}
use reapi.Misc.Calls.{
  cell, text, string_at, Field, item_slot, item_position, ammo1, max_ammo1, ammo2, max_ammo2,
  item_name, max_clip, info_id, item_flags, item_weight, item_of, item_info, alloc_string,
  write_text, get, put, invoke, call, Server, text_arg, cell_arg,
}
use reapi.Misc.{
  Native, Statement, true_cell, refuse, for_field, check_entity, check_private, check_weapon,
}
use reapi.Prelude.Programs.{finish, perform, ◌>>=◌, ◌>>◌}
use reapi.Prelude.{
  ℕ, Bool, false, not, Option, none, some, [], ◌∷◌, ◌==◌, if◌then◌else◌, get_elem?, get_or,
}

-- ItemInfo_e: the numbers and the texts of an ItemInfo by their code.
unfoldable pub item_number : ℕ → Option Field
item_number c =
    let fields =
      some item_slot
      ∷ some item_position
      ∷ none
      ∷ some max_ammo1
      ∷ none
      ∷ some max_ammo2
      ∷ none
      ∷ some max_clip
      ∷ some info_id
      ∷ some item_flags
      ∷ some item_weight
      ∷ [] in
    get_or (get_elem? fields c) none

unfoldable pub item_text : ℕ → Option Field
item_text c =
    let fields = none ∷ none ∷ some ammo1 ∷ none ∷ some ammo2 ∷ none ∷ some item_name ∷ [] in
    get_or (get_elem? fields c) none

-- getAmxStringAlloc: no string for an empty text.
unfoldable pub alloc_arg : Call → ℕ → Statement
alloc_arg args i rest =
    if is_empty_text (text_arg args i)
    then rest 0
    else perform (call alloc_string (text (text_arg args i) ∷ [])) rest

-- The switch of rg_set_iteminfo and of rg_set_global_iteminfo on an ItemInfo.
unfoldable pub change_item_info : ℕ → ℕ → Call → Native
unfolding alloc_arg
change_item_info kind info args =
    for_field (item_number kind)
      (λ field. perform (put field info (cell (arg_cell args 3))) (λ r. finish true_cell))
      (for_field (item_text kind)
        (λ field.
          alloc_arg args 3 (λ s. perform (put field info (string_at s)) (λ r. finish true_cell)))
        refuse)

-- The switch of rg_get_iteminfo and of rg_get_global_iteminfo.
unfoldable pub read_item_info : ℕ → ℕ → Call → Native
read_item_info kind info args =
    for_field (item_number kind) (λ field. perform (get field info) finish)
      (for_field (item_text kind)
        (λ field. do
          s ← perform (get field info)
          perform (
              call write_text (
                if s == 0
                then cell_arg args 3 ∷ text [] ∷ cell 1 ∷ []
                else cell_arg args 3
                  ∷ cell s
                  ∷ cell (if args.count == 4 then arg_cell args 4 else 0)
                  ∷ []))
          finish true_cell)
        refuse)

-- `CSPlayerItem()` of a weapon, and the refusal where it has none.
unfoldable pub weapon_item : ℕ → Statement
weapon_item p rest = do
  item ← perform (invoke item_of p [])
  if item == 0 then refuse else rest item

-- A text is asked for without its length.
unfoldable pub lacks_length : ℕ → Call → Bool
lacks_length kind args = elim (item_text kind) [ some field ↦ not (args.count == 4) | none ↦ false ]

unfoldable pub rg_set_iteminfo : Server → Call → Native
unfolding weapon_item change_item_info
rg_set_iteminfo server args = do
  check_entity server 1 args
  p ← check_private 1 args
  check_weapon p
  item ← weapon_item p
  change_item_info (args.params 2) item args

unfoldable pub rg_get_iteminfo : Server → Call → Native
unfolding weapon_item read_item_info lacks_length
rg_get_iteminfo server args = do
  check_entity server 1 args
  p ← check_private 1 args
  if lacks_length (args.params 2) args
      then refuse
      else (do check_weapon p; item ← weapon_item p; read_item_info (args.params 2) item args)

unfoldable pub rg_set_global_iteminfo : Call → Native
unfolding change_item_info
rg_set_global_iteminfo args =
    if weapon_info_range (args.params 1) false
    then (do
      info ← perform (call item_info (cell_arg args 1 ∷ []))
      change_item_info (args.params 2) info args)
    else refuse

unfoldable pub rg_get_global_iteminfo : Call → Native
unfolding read_item_info lacks_length
rg_get_global_iteminfo args =
    if weapon_info_range (args.params 1) false
    then (if lacks_length (args.params 2) args then refuse else (do
      info ← perform (call item_info (cell_arg args 1 ∷ []))
      read_item_info (args.params 2) info args))
    else refuse
