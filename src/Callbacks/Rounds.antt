-- ===== src/Callbacks/Rounds.antt =====
-- reapi/src/hook_callback.cpp: the later functions that hook CHalfLifeMultiplay.
use reapi.Callbacks.Rows.{gamerules, object, same, slot, vars}
use reapi.Callbacks.{
  Callback, as_is, bool_t, const_chars, entity_index, evars_ptr, gives, int_t, no_value, object_ptr,
  private_at, private_index, safe_index, unchanged,
}
use reapi.Prelude.{◌+◌, List, [], ◌∷◌}

abbrev pub cs_game_rules_restart_round : Callback
cs_game_rules_restart_round = record {
  func = gamerules + 15;
  returns = no_value;
  slots = [];
  next = [];
}

abbrev pub cs_game_rules_check_win_conditions : Callback
cs_game_rules_check_win_conditions = record {
  func = gamerules + 16;
  returns = no_value;
  slots = [];
  next = [];
}

abbrev pub cs_game_rules_remove_guns : Callback
cs_game_rules_remove_guns = record {
  func = gamerules + 17;
  returns = no_value;
  slots = [];
  next = [];
}

abbrev pub cs_game_rules_give_c4 : Callback
cs_game_rules_give_c4 = record {
  func = gamerules + 18;
  returns = gives object_ptr private_index private_at;
  slots = [];
  next = [];
}

abbrev pub cs_game_rules_change_level : Callback
cs_game_rules_change_level = record {
  func = gamerules + 19;
  returns = no_value;
  slots = [];
  next = [];
}

abbrev pub cs_game_rules_go_to_intermission : Callback
cs_game_rules_go_to_intermission = record {
  func = gamerules + 20;
  returns = no_value;
  slots = [];
  next = [];
}

abbrev pub cs_game_rules_balance_teams : Callback
cs_game_rules_balance_teams = record {
  func = gamerules + 21;
  returns = no_value;
  slots = [];
  next = [];
}

abbrev pub cs_game_rules_on_round_freeze_end : Callback
cs_game_rules_on_round_freeze_end = record {
  func = gamerules + 22;
  returns = no_value;
  slots = [];
  next = [];
}

abbrev pub cs_game_rules_can_player_hear_player : Callback
cs_game_rules_can_player_hear_player = record {
  func = gamerules + 23;
  returns = gives bool_t as_is unchanged;
  slots = slot object_ptr entity_index ∷ slot object_ptr entity_index ∷ [];
  next = object 0 ∷ object 1 ∷ [];
}

abbrev pub cs_game_rules_think : Callback
cs_game_rules_think = record { func = gamerules + 24; returns = no_value; slots = []; next = [] }

abbrev pub cs_game_rules_team_full : Callback
cs_game_rules_team_full = record {
  func = gamerules + 25;
  returns = gives int_t as_is unchanged;
  slots = slot int_t as_is ∷ [];
  next = same 0 ∷ [];
}

abbrev pub cs_game_rules_team_stacked : Callback
cs_game_rules_team_stacked = record {
  func = gamerules + 26;
  returns = gives int_t as_is unchanged;
  slots = slot int_t as_is ∷ slot int_t as_is ∷ [];
  next = same 0 ∷ same 1 ∷ [];
}

abbrev pub cs_game_rules_player_got_weapon : Callback
cs_game_rules_player_got_weapon = record {
  func = gamerules + 27;
  returns = no_value;
  slots = slot object_ptr entity_index ∷ slot object_ptr entity_index ∷ [];
  next = object 0 ∷ object 1 ∷ [];
}

abbrev pub cs_game_rules_send_death_message : Callback
cs_game_rules_send_death_message = record {
  func = gamerules + 28;
  returns = no_value;
  slots =
      slot object_ptr private_index
      ∷ slot object_ptr entity_index
      ∷ slot object_ptr private_index
      ∷ slot evars_ptr safe_index
      ∷ slot const_chars as_is
      ∷ slot int_t as_is
      ∷ slot int_t as_is
      ∷ [];
  next = object 0 ∷ object 1 ∷ object 2 ∷ vars 3 ∷ same 4 ∷ same 5 ∷ same 6 ∷ [];
}

abbrev pub rounds_callbacks : List Callback
rounds_callbacks =
    cs_game_rules_restart_round ∷ cs_game_rules_check_win_conditions ∷ cs_game_rules_remove_guns
    ∷ cs_game_rules_give_c4 ∷ cs_game_rules_change_level ∷ cs_game_rules_go_to_intermission
    ∷ cs_game_rules_balance_teams ∷ cs_game_rules_on_round_freeze_end
    ∷ cs_game_rules_can_player_hear_player ∷ cs_game_rules_think ∷ cs_game_rules_team_full
    ∷ cs_game_rules_team_stacked ∷ cs_game_rules_player_got_weapon
    ∷ cs_game_rules_send_death_message ∷ []
