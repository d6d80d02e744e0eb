-- ===== src/Misc/Weapons.antt =====
-- reapi/src/natives/natives_misc.cpp: the natives on the table of weapons and on what items are.
use reapi.Members.Natives.{Call, arg_cell}
use reapi.Misc.Calls.{
  cell, text, Field, slot, weapon_id, cost, clip_cost, buy_clip_size, gun_clip_size, max_rounds,
  ammo_type, ammo_name, entity_name, weapon_slot_by_id, weapon_info_by_id, weapon_info_by_name,
  write_text, log_error, get, put, call, null_entity, text_arg, cell_arg,
}
use reapi.Misc.{Native, true_cell, refuse, for_field}
use reapi.Prelude.Programs.{finish, perform, ◌>>=◌, ◌>>◌}
use reapi.Prelude.{
  ℕ, Bool, true, false, ◌&&◌, ◌||◌, Option, none, some, [], ◌∷◌, ltb, leb, ◌==◌, if◌then◌else◌,
  get_elem?, get_or,
}

-- WEAPON_SHIELDGUN is 99, WEAPON_KNIFE 29, WEAPON_C4 6 and WEAPON_P90 30.
unfoldable pub weapon_info_range : ℕ → Bool → Bool
weapon_info_range id set_info =
    if id == 99
    then true
    else if set_info && ((id == 29) || (id == 6))
    then false
    else ltb 0 id && leb id 30

-- WpnInfo
pub data WpnInfo : Type 0 where
  wi_id wi_cost wi_clip_cost wi_buy_clip_size wi_gun_clip_size wi_max_rounds wi_ammo_type : WpnInfo
  wi_ammo_name wi_name wi_slot wi_unknown : WpnInfo

unfoldable pub wpn_info : ℕ → WpnInfo
wpn_info c =
    let codes =
      wi_id ∷ wi_cost ∷ wi_clip_cost ∷ wi_buy_clip_size ∷ wi_gun_clip_size ∷ wi_max_rounds
      ∷ wi_ammo_type ∷ wi_ammo_name ∷ wi_name ∷ wi_slot ∷ [] in
    get_or (get_elem? codes c) wi_unknown

-- The cells that hold a number: the field of WeaponInfoStruct.
unfoldable pub number_field : WpnInfo → Option Field
number_field wi_cost = some cost
number_field wi_clip_cost = some clip_cost
number_field wi_buy_clip_size = some buy_clip_size
number_field wi_gun_clip_size = some gun_clip_size
number_field wi_max_rounds = some max_rounds
number_field wi_ammo_type = some ammo_type
number_field t = none

-- The copy of a name to the plugin, or of "" for none.
unfoldable pub give_name : Field → ℕ → Call → Native
give_name field info args =
    if args.count == 4
    then (do
      name ← perform (get field info)
      if name == 0
          then (do perform (call write_text (cell_arg args 3 ∷ text [] ∷ cell 1 ∷ [])); finish 0)
          else (do
            perform (call write_text (cell_arg args 3 ∷ cell name ∷ cell (arg_cell args 4) ∷ []))
            finish 1))
    else (do perform log_error; finish null_entity)

-- The switch of rg_get_weapon_info; the weapon and its name are read from the same cells.
unfoldable pub weapon_info : WpnInfo → ℕ → Call → Native
unfolding give_name number_field
weapon_info wi_id info args = do
  named ← perform (call weapon_info_by_name (text (text_arg args 1) ∷ []))
  if named == 0 then finish 0 else perform (get weapon_id named) finish
weapon_info wi_cost info args = perform (get cost info) finish
weapon_info wi_clip_cost info args = perform (get clip_cost info) finish
weapon_info wi_buy_clip_size info args = perform (get buy_clip_size info) finish
weapon_info wi_gun_clip_size info args = perform (get gun_clip_size info) finish
weapon_info wi_max_rounds info args = perform (get max_rounds info) finish
weapon_info wi_ammo_type info args = perform (get ammo_type info) finish
weapon_info wi_ammo_name info args = give_name ammo_name info args
weapon_info wi_name info args = give_name entity_name info args
weapon_info wi_slot info args = do
  place ← perform (call weapon_slot_by_id (cell (arg_cell args 1) ∷ []))
  if place == 0 then finish 0 else perform (get slot place) finish
weapon_info wi_unknown info args = do perform log_error; finish null_entity

abbrev pub is_wi_id : WpnInfo → Bool
is_wi_id wi_id = true
is_wi_id t = false

unfoldable pub rg_get_weapon_info : Call → Native
unfolding weapon_info
rg_get_weapon_info args =
    let t = wpn_info (arg_cell args 2) in
    if weapon_info_range (arg_cell args 1) false || is_wi_id t
    then (do
      info ← perform (call weapon_info_by_id (cell (arg_cell args 1) ∷ []))
      weapon_info t info args)
    else refuse

-- The switch of rg_set_weapon_info.
unfoldable pub change_weapon_info : WpnInfo → ℕ → Call → Native
change_weapon_info wi_slot info args = do
  place ← perform (call weapon_slot_by_id (cell_arg args 1 ∷ []))
  perform (put slot place (cell (arg_cell args 3)))
  finish true_cell
change_weapon_info t info args =
    for_field (number_field t)
      (λ field. perform (put field info (cell (arg_cell args 3))) (λ r. finish true_cell)) refuse

unfoldable pub rg_set_weapon_info : Call → Native
unfolding change_weapon_info
rg_set_weapon_info args =
    if weapon_info_range (args.params 1) true
    then (do
      info ← perform (call weapon_info_by_id (cell_arg args 1 ∷ []))
      change_weapon_info (wpn_info (args.params 2)) info args)
    else refuse
