-- ===== src/Callbacks/Player.antt =====
-- reapi/src/hook_callback.cpp: the functions that hook CBaseAnimating and CBasePlayer.
use reapi.Callbacks.Rows.{animating, object, player, same, slot, vars}
use reapi.Callbacks.{
  Callback, as_is, const_chars, copy, entity_index, evars_ptr, float_ref, float_t, gives, int_t,
  no_value, object_ptr, trace_ptr, unchanged, vector_array, vector_ref,
}
use reapi.Prelude.{◌+◌, List, [], ◌∷◌}

abbrev pub c_base_animating_reset_sequence_info : Callback
c_base_animating_reset_sequence_info = record {
  func = animating + 0;
  returns = no_value;
  slots = slot object_ptr entity_index ∷ [];
  next = object 0 ∷ [];
}

abbrev pub c_base_player_spawn : Callback
c_base_player_spawn = record {
  func = player + 0;
  returns = no_value;
  slots = slot object_ptr entity_index ∷ [];
  next = object 0 ∷ [];
}

abbrev pub c_base_player_precache : Callback
c_base_player_precache = record {
  func = player + 1;
  returns = no_value;
  slots = slot object_ptr entity_index ∷ [];
  next = object 0 ∷ [];
}

abbrev pub c_base_player_object_caps : Callback
c_base_player_object_caps = record {
  func = player + 2;
  returns = gives int_t as_is unchanged;
  slots = slot object_ptr entity_index ∷ [];
  next = object 0 ∷ [];
}

abbrev pub c_base_player_classify : Callback
c_base_player_classify = record {
  func = player + 3;
  returns = gives int_t as_is unchanged;
  slots = slot object_ptr entity_index ∷ [];
  next = object 0 ∷ [];
}

abbrev pub c_base_player_trace_attack : Callback
c_base_player_trace_attack = record {
  func = player + 4;
  returns = no_value;
  slots =
      slot object_ptr entity_index
      ∷ slot evars_ptr entity_index
      ∷ slot float_t as_is
      ∷ slot vector_ref vector_array
      ∷ slot trace_ptr as_is
      ∷ slot int_t as_is
      ∷ [];
  next = object 0 ∷ vars 1 ∷ same 2 ∷ copy 3 ∷ same 4 ∷ same 5 ∷ [];
}

abbrev pub c_base_player_take_damage : Callback
c_base_player_take_damage = record {
  func = player + 5;
  returns = gives int_t as_is unchanged;
  slots =
      slot object_ptr entity_index
      ∷ slot evars_ptr entity_index
      ∷ slot evars_ptr entity_index
      ∷ slot float_ref as_is
      ∷ slot int_t as_is
      ∷ [];
  next = object 0 ∷ vars 1 ∷ vars 2 ∷ same 3 ∷ same 4 ∷ [];
}

abbrev pub c_base_player_take_health : Callback
c_base_player_take_health = record {
  func = player + 6;
  returns = gives int_t as_is unchanged;
  slots = slot object_ptr entity_index ∷ slot float_t as_is ∷ slot int_t as_is ∷ [];
  next = object 0 ∷ same 1 ∷ same 2 ∷ [];
}

abbrev pub c_base_player_killed : Callback
c_base_player_killed = record {
  func = player + 7;
  returns = no_value;
  slots = slot object_ptr entity_index ∷ slot evars_ptr entity_index ∷ slot int_t as_is ∷ [];
  next = object 0 ∷ vars 1 ∷ same 2 ∷ [];
}

abbrev pub c_base_player_add_points : Callback
c_base_player_add_points = record {
  func = player + 8;
  returns = no_value;
  slots = slot object_ptr entity_index ∷ slot int_t as_is ∷ slot int_t as_is ∷ [];
  next = object 0 ∷ same 1 ∷ same 2 ∷ [];
}

abbrev pub c_base_player_add_points_to_team : Callback
c_base_player_add_points_to_team = record {
  func = player + 9;
  returns = no_value;
  slots = slot object_ptr entity_index ∷ slot int_t as_is ∷ slot int_t as_is ∷ [];
  next = object 0 ∷ same 1 ∷ same 2 ∷ [];
}

abbrev pub c_base_player_add_player_item : Callback
c_base_player_add_player_item = record {
  func = player + 10;
  returns = gives int_t as_is unchanged;
  slots = slot object_ptr entity_index ∷ slot object_ptr entity_index ∷ [];
  next = object 0 ∷ object 1 ∷ [];
}

abbrev pub c_base_player_remove_player_item : Callback
c_base_player_remove_player_item = record {
  func = player + 11;
  returns = gives int_t as_is unchanged;
  slots = slot object_ptr entity_index ∷ slot object_ptr entity_index ∷ [];
  next = object 0 ∷ object 1 ∷ [];
}

abbrev pub c_base_player_give_ammo : Callback
c_base_player_give_ammo = record {
  func = player + 12;
  returns = gives int_t as_is unchanged;
  slots =
      slot object_ptr entity_index
      ∷ slot int_t as_is
      ∷ slot const_chars as_is
      ∷ slot int_t as_is
      ∷ [];
  next = object 0 ∷ same 1 ∷ same 2 ∷ same 3 ∷ [];
}

abbrev pub c_base_player_reset_max_speed : Callback
c_base_player_reset_max_speed = record {
  func = player + 13;
  returns = no_value;
  slots = slot object_ptr entity_index ∷ [];
  next = object 0 ∷ [];
}

abbrev pub c_base_player_jump : Callback
c_base_player_jump = record {
  func = player + 14;
  returns = no_value;
  slots = slot object_ptr entity_index ∷ [];
  next = object 0 ∷ [];
}

abbrev pub c_base_player_duck : Callback
c_base_player_duck = record {
  func = player + 15;
  returns = no_value;
  slots = slot object_ptr entity_index ∷ [];
  next = object 0 ∷ [];
}

abbrev pub c_base_player_pre_think : Callback
c_base_player_pre_think = record {
  func = player + 16;
  returns = no_value;
  slots = slot object_ptr entity_index ∷ [];
  next = object 0 ∷ [];
}

abbrev pub c_base_player_post_think : Callback
c_base_player_post_think = record {
  func = player + 17;
  returns = no_value;
  slots = slot object_ptr entity_index ∷ [];
  next = object 0 ∷ [];
}

abbrev pub c_base_player_update_client_data : Callback
c_base_player_update_client_data = record {
  func = player + 18;
  returns = no_value;
  slots = slot object_ptr entity_index ∷ [];
  next = object 0 ∷ [];
}

abbrev pub c_base_player_impulse_commands : Callback
c_base_player_impulse_commands = record {
  func = player + 19;
  returns = no_value;
  slots = slot object_ptr entity_index ∷ [];
  next = object 0 ∷ [];
}

abbrev pub player_callbacks : List Callback
player_callbacks =
    c_base_animating_reset_sequence_info ∷ c_base_player_spawn ∷ c_base_player_precache
    ∷ c_base_player_object_caps ∷ c_base_player_classify ∷ c_base_player_trace_attack
    ∷ c_base_player_take_damage ∷ c_base_player_take_health ∷ c_base_player_killed
    ∷ c_base_player_add_points ∷ c_base_player_add_points_to_team ∷ c_base_player_add_player_item
    ∷ c_base_player_remove_player_item ∷ c_base_player_give_ammo ∷ c_base_player_reset_max_speed
    ∷ c_base_player_jump ∷ c_base_player_duck ∷ c_base_player_pre_think ∷ c_base_player_post_think
    ∷ c_base_player_update_client_data ∷ c_base_player_impulse_commands ∷ []
