-- ===== src/Callbacks/GameDll.antt =====
-- reapi/src/hook_callback.cpp: the functions that hook the free functions of the game library and of the movement code.
use reapi.Callbacks.Rows.{edict, gamedll, object, same, slot, vars}
use reapi.Callbacks.{
  Callback, as_is, bool_t, captured, chars, copy, edict_ptr, entity_index, enum_t, evars_ptr,
  float_t, gives, int_t, no_value, object_ptr, private_at, private_index, safe_index, trace_ptr,
  unchanged, ushort_t, vector_array, vector_ref,
}
use reapi.Prelude.{◌+◌, List, [], ◌∷◌}

abbrev pub get_force_camera : Callback
get_force_camera = record {
  func = gamedll + 0;
  returns = gives int_t as_is unchanged;
  slots = slot object_ptr entity_index ∷ [];
  next = object 0 ∷ [];
}

abbrev pub player_blind : Callback
player_blind = record {
  func = gamedll + 1;
  returns = no_value;
  slots =
      slot object_ptr entity_index
      ∷ slot evars_ptr entity_index
      ∷ slot evars_ptr entity_index
      ∷ slot float_t as_is
      ∷ slot float_t as_is
      ∷ slot int_t as_is
      ∷ slot vector_ref vector_array
      ∷ [];
  next = object 0 ∷ vars 1 ∷ vars 2 ∷ same 3 ∷ same 4 ∷ same 5 ∷ copy 6 ∷ [];
}

abbrev pub radius_flash_trace_line : Callback
radius_flash_trace_line = record {
  func = gamedll + 2;
  returns = no_value;
  slots =
      slot object_ptr entity_index
      ∷ slot evars_ptr entity_index
      ∷ slot evars_ptr entity_index
      ∷ slot vector_ref vector_array
      ∷ slot vector_ref vector_array
      ∷ slot trace_ptr as_is
      ∷ [];
  next = object 0 ∷ vars 1 ∷ vars 2 ∷ copy 3 ∷ copy 4 ∷ same 5 ∷ [];
}

abbrev pub round_end : Callback
round_end = record {
  func = gamedll + 3;
  returns = gives bool_t as_is unchanged;
  slots = slot int_t as_is ∷ slot enum_t as_is ∷ slot float_t as_is ∷ [];
  next = same 0 ∷ same 1 ∷ same 2 ∷ [];
}

abbrev pub pm_move : Callback
pm_move = record {
  func = gamedll + 4;
  returns = no_value;
  slots = slot int_t as_is ∷ [];
  next = captured 0 ∷ captured 1 ∷ [];
}

abbrev pub pm_air_move : Callback
pm_air_move = record {
  func = gamedll + 5;
  returns = no_value;
  slots = slot int_t as_is ∷ [];
  next = same 0 ∷ [];
}

abbrev pub handle_menu_choose_appearance : Callback
handle_menu_choose_appearance = record {
  func = gamedll + 6;
  returns = no_value;
  slots = slot object_ptr entity_index ∷ slot int_t as_is ∷ [];
  next = object 0 ∷ same 1 ∷ [];
}

abbrev pub handle_menu_choose_team : Callback
handle_menu_choose_team = record {
  func = gamedll + 7;
  returns = gives int_t as_is unchanged;
  slots = slot object_ptr entity_index ∷ slot int_t as_is ∷ [];
  next = object 0 ∷ same 1 ∷ [];
}

abbrev pub show_menu : Callback
show_menu = record {
  func = gamedll + 8;
  returns = no_value;
  slots =
      slot object_ptr entity_index
      ∷ slot int_t as_is
      ∷ slot int_t as_is
      ∷ slot int_t as_is
      ∷ slot chars as_is
      ∷ [];
  next = object 0 ∷ same 1 ∷ same 2 ∷ same 3 ∷ same 4 ∷ [];
}

abbrev pub show_vgui_menu : Callback
show_vgui_menu = record {
  func = gamedll + 9;
  returns = no_value;
  slots =
      slot object_ptr entity_index ∷ slot int_t as_is ∷ slot int_t as_is ∷ slot chars as_is ∷ [];
  next = object 0 ∷ same 1 ∷ same 2 ∷ same 3 ∷ [];
}

abbrev pub buy_gun_ammo : Callback
buy_gun_ammo = record {
  func = gamedll + 10;
  returns = gives bool_t as_is unchanged;
  slots = slot object_ptr entity_index ∷ slot object_ptr entity_index ∷ slot bool_t as_is ∷ [];
  next = object 0 ∷ object 1 ∷ same 2 ∷ [];
}

abbrev pub buy_weapon_by_weapon_id : Callback
buy_weapon_by_weapon_id = record {
  func = gamedll + 11;
  returns = gives object_ptr private_index private_at;
  slots = slot object_ptr entity_index ∷ slot enum_t as_is ∷ [];
  next = object 0 ∷ same 1 ∷ [];
}

abbrev pub throw_he_grenade : Callback
throw_he_grenade = record {
  func = gamedll + 12;
  returns = gives object_ptr private_index private_at;
  slots =
      slot evars_ptr entity_index
      ∷ slot vector_ref vector_array
      ∷ slot vector_ref vector_array
      ∷ slot float_t as_is
      ∷ slot int_t as_is
      ∷ slot ushort_t as_is
      ∷ [];
  next = vars 0 ∷ copy 1 ∷ copy 2 ∷ same 3 ∷ same 4 ∷ same 5 ∷ [];
}

abbrev pub throw_flashbang : Callback
throw_flashbang = record {
  func = gamedll + 13;
  returns = gives object_ptr private_index private_at;
  slots =
      slot evars_ptr entity_index
      ∷ slot vector_ref vector_array
      ∷ slot vector_ref vector_array
      ∷ slot float_t as_is
      ∷ [];
  next = vars 0 ∷ copy 1 ∷ copy 2 ∷ same 3 ∷ [];
}

abbrev pub throw_smoke_grenade : Callback
throw_smoke_grenade = record {
  func = gamedll + 14;
  returns = gives object_ptr private_index private_at;
  slots =
      slot evars_ptr entity_index
      ∷ slot vector_ref vector_array
      ∷ slot vector_ref vector_array
      ∷ slot float_t as_is
      ∷ slot ushort_t as_is
      ∷ [];
  next = vars 0 ∷ copy 1 ∷ copy 2 ∷ same 3 ∷ same 4 ∷ [];
}

abbrev pub plant_bomb : Callback
plant_bomb = record {
  func = gamedll + 15;
  returns = gives object_ptr private_index private_at;
  slots =
      slot evars_ptr safe_index ∷ slot vector_ref vector_array ∷ slot vector_ref vector_array ∷ [];
  next = vars 0 ∷ copy 1 ∷ copy 2 ∷ [];
}

abbrev pub is_penetrable_entity : Callback
is_penetrable_entity = record {
  func = gamedll + 16;
  returns = gives bool_t as_is unchanged;
  slots =
      slot vector_ref vector_array
      ∷ slot vector_ref vector_array
      ∷ slot evars_ptr entity_index
      ∷ slot edict_ptr entity_index
      ∷ [];
  next = copy 0 ∷ copy 1 ∷ vars 2 ∷ edict 3 ∷ [];
}

abbrev pub game_dll_callbacks : List Callback
game_dll_callbacks =
    get_force_camera ∷ player_blind ∷ radius_flash_trace_line ∷ round_end ∷ pm_move ∷ pm_air_move
    ∷ handle_menu_choose_appearance ∷ handle_menu_choose_team ∷ show_menu ∷ show_vgui_menu
    ∷ buy_gun_ammo ∷ buy_weapon_by_weapon_id ∷ throw_he_grenade ∷ throw_flashbang
    ∷ throw_smoke_grenade ∷ plant_bomb ∷ is_penetrable_entity ∷ []
