-- ===== src/Callbacks/GameRules.antt =====
-- reapi/src/hook_callback.cpp: the functions that hook CHalfLifeMultiplay.
use reapi.Callbacks.Rows.{gamerules, object, same, slot, vars}
use reapi.Callbacks.{
  Callback, as_is, chars, edict_at, edict_ptr, entity_index, evars_ptr, float_t, gives, int_t,
  no_value, object_ptr, safe_index, unchanged,
}
use reapi.Prelude.{◌+◌, List, [], ◌∷◌}

abbrev pub cs_game_rules_f_should_switch_weapon : Callback
cs_game_rules_f_should_switch_weapon = record {
  func = gamerules + 0;
  returns = gives int_t as_is unchanged;
  slots = slot object_ptr entity_index ∷ slot object_ptr entity_index ∷ [];
  next = object 0 ∷ object 1 ∷ [];
}

abbrev pub cs_game_rules_get_next_best_weapon : Callback
cs_game_rules_get_next_best_weapon = record {
  func = gamerules + 1;
  returns = gives int_t as_is unchanged;
  slots = slot object_ptr entity_index ∷ slot object_ptr entity_index ∷ [];
  next = object 0 ∷ object 1 ∷ [];
}

abbrev pub cs_game_rules_fl_player_fall_damage : Callback
cs_game_rules_fl_player_fall_damage = record {
  func = gamerules + 2;
  returns = gives float_t as_is unchanged;
  slots = slot object_ptr entity_index ∷ [];
  next = object 0 ∷ [];
}

abbrev pub cs_game_rules_f_player_can_take_damage : Callback
cs_game_rules_f_player_can_take_damage = record {
  func = gamerules + 3;
  returns = gives int_t as_is unchanged;
  slots = slot object_ptr entity_index ∷ slot object_ptr entity_index ∷ [];
  next = object 0 ∷ object 1 ∷ [];
}

abbrev pub cs_game_rules_player_spawn : Callback
cs_game_rules_player_spawn = record {
  func = gamerules + 4;
  returns = no_value;
  slots = slot object_ptr entity_index ∷ [];
  next = object 0 ∷ [];
}

abbrev pub cs_game_rules_f_player_can_respawn : Callback
cs_game_rules_f_player_can_respawn = record {
  func = gamerules + 5;
  returns = gives int_t as_is unchanged;
  slots = slot object_ptr entity_index ∷ [];
  next = object 0 ∷ [];
}

abbrev pub cs_game_rules_get_player_spawn_spot : Callback
cs_game_rules_get_player_spawn_spot = record {
  func = gamerules + 6;
  returns = gives edict_ptr entity_index edict_at;
  slots = slot object_ptr entity_index ∷ [];
  next = object 0 ∷ [];
}

abbrev pub cs_game_rules_client_user_info_changed : Callback
cs_game_rules_client_user_info_changed = record {
  func = gamerules + 7;
  returns = no_value;
  slots = slot object_ptr entity_index ∷ slot chars as_is ∷ [];
  next = object 0 ∷ same 1 ∷ [];
}

abbrev pub cs_game_rules_player_killed : Callback
cs_game_rules_player_killed = record {
  func = gamerules + 8;
  returns = no_value;
  slots =
      slot object_ptr entity_index ∷ slot evars_ptr entity_index ∷ slot evars_ptr safe_index ∷ [];
  next = object 0 ∷ vars 1 ∷ vars 2 ∷ [];
}

abbrev pub cs_game_rules_death_notice : Callback
cs_game_rules_death_notice = record {
  func = gamerules + 9;
  returns = no_value;
  slots =
      slot object_ptr entity_index ∷ slot evars_ptr entity_index ∷ slot evars_ptr safe_index ∷ [];
  next = object 0 ∷ vars 1 ∷ vars 2 ∷ [];
}

abbrev pub cs_game_rules_can_have_player_item : Callback
cs_game_rules_can_have_player_item = record {
  func = gamerules + 10;
  returns = gives int_t as_is unchanged;
  slots = slot object_ptr entity_index ∷ slot object_ptr entity_index ∷ [];
  next = object 0 ∷ object 1 ∷ [];
}

abbrev pub cs_game_rules_dead_player_weapons : Callback
cs_game_rules_dead_player_weapons = record {
  func = gamerules + 11;
  returns = gives int_t as_is unchanged;
  slots = slot object_ptr entity_index ∷ [];
  next = object 0 ∷ [];
}

abbrev pub cs_game_rules_server_deactivate : Callback
cs_game_rules_server_deactivate = record {
  func = gamerules + 12;
  returns = no_value;
  slots = [];
  next = [];
}

abbrev pub cs_game_rules_check_map_conditions : Callback
cs_game_rules_check_map_conditions = record {
  func = gamerules + 13;
  returns = no_value;
  slots = [];
  next = [];
}

abbrev pub cs_game_rules_clean_up_map : Callback
cs_game_rules_clean_up_map = record {
  func = gamerules + 14;
  returns = no_value;
  slots = [];
  next = [];
}

abbrev pub game_rules_callbacks : List Callback
game_rules_callbacks =
    cs_game_rules_f_should_switch_weapon ∷ cs_game_rules_get_next_best_weapon
    ∷ cs_game_rules_fl_player_fall_damage ∷ cs_game_rules_f_player_can_take_damage
    ∷ cs_game_rules_player_spawn ∷ cs_game_rules_f_player_can_respawn
    ∷ cs_game_rules_get_player_spawn_spot ∷ cs_game_rules_client_user_info_changed
    ∷ cs_game_rules_player_killed ∷ cs_game_rules_death_notice ∷ cs_game_rules_can_have_player_item
    ∷ cs_game_rules_dead_player_weapons ∷ cs_game_rules_server_deactivate
    ∷ cs_game_rules_check_map_conditions ∷ cs_game_rules_clean_up_map ∷ []
