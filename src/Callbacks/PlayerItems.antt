-- ===== src/Callbacks/PlayerItems.antt =====
-- reapi/src/hook_callback.cpp: the last functions that hook CBasePlayer.
use reapi.Callbacks.Rows.{object, player, same, slot}
use reapi.Callbacks.{
  Callback, as_is, bool_t, const_chars, copy, edict_at, edict_ptr, entity_index, enum_t, float_t,
  gives, int_t, no_value, object_ptr, private_at, private_index, unchanged, ushort_t, vector_array,
  vector_ref,
}
use reapi.Prelude.{◌+◌, List, [], ◌∷◌}

abbrev pub c_base_player_switch_team : Callback
c_base_player_switch_team = record {
  func = player + 41;
  returns = no_value;
  slots = slot object_ptr entity_index ∷ [];
  next = object 0 ∷ [];
}

abbrev pub c_base_player_can_switch_team : Callback
c_base_player_can_switch_team = record {
  func = player + 42;
  returns = gives bool_t as_is unchanged;
  slots = slot object_ptr entity_index ∷ slot enum_t as_is ∷ [];
  next = object 0 ∷ same 1 ∷ [];
}

abbrev pub c_base_player_throw_grenade : Callback
c_base_player_throw_grenade = record {
  func = player + 43;
  returns = gives object_ptr private_index private_at;
  slots =
      slot object_ptr entity_index
      ∷ slot object_ptr entity_index
      ∷ slot vector_ref vector_array
      ∷ slot vector_ref vector_array
      ∷ slot float_t as_is
      ∷ slot ushort_t as_is
      ∷ [];
  next = object 0 ∷ object 1 ∷ copy 2 ∷ copy 3 ∷ same 4 ∷ same 5 ∷ [];
}

abbrev pub c_base_player_set_spawn_protection : Callback
c_base_player_set_spawn_protection = record {
  func = player + 44;
  returns = no_value;
  slots = slot object_ptr entity_index ∷ slot float_t as_is ∷ [];
  next = object 0 ∷ same 1 ∷ [];
}

abbrev pub c_base_player_remove_spawn_protection : Callback
c_base_player_remove_spawn_protection = record {
  func = player + 45;
  returns = no_value;
  slots = slot object_ptr entity_index ∷ [];
  next = object 0 ∷ [];
}

abbrev pub c_base_player_hint_message_ex : Callback
c_base_player_hint_message_ex = record {
  func = player + 46;
  returns = gives bool_t as_is unchanged;
  slots =
      slot object_ptr entity_index
      ∷ slot const_chars as_is
      ∷ slot float_t as_is
      ∷ slot bool_t as_is
      ∷ slot bool_t as_is
      ∷ [];
  next = object 0 ∷ same 1 ∷ same 2 ∷ same 3 ∷ same 4 ∷ [];
}

abbrev pub c_base_player_use_empty : Callback
c_base_player_use_empty = record {
  func = player + 47;
  returns = no_value;
  slots = slot object_ptr entity_index ∷ [];
  next = object 0 ∷ [];
}

abbrev pub c_base_player_drop_idle_player : Callback
c_base_player_drop_idle_player = record {
  func = player + 48;
  returns = no_value;
  slots = slot object_ptr entity_index ∷ slot const_chars as_is ∷ [];
  next = object 0 ∷ same 1 ∷ [];
}

abbrev pub c_base_player_observer_set_mode : Callback
c_base_player_observer_set_mode = record {
  func = player + 49;
  returns = no_value;
  slots = slot object_ptr entity_index ∷ slot int_t as_is ∷ [];
  next = object 0 ∷ same 1 ∷ [];
}

abbrev pub c_base_player_observer_find_next_player : Callback
c_base_player_observer_find_next_player = record {
  func = player + 50;
  returns = no_value;
  slots = slot object_ptr entity_index ∷ slot bool_t as_is ∷ slot const_chars as_is ∷ [];
  next = object 0 ∷ same 1 ∷ same 2 ∷ [];
}

abbrev pub c_base_player_pain : Callback
c_base_player_pain = record {
  func = player + 51;
  returns = no_value;
  slots = slot object_ptr entity_index ∷ slot int_t as_is ∷ slot bool_t as_is ∷ [];
  next = object 0 ∷ same 1 ∷ same 2 ∷ [];
}

abbrev pub c_base_player_death_sound : Callback
c_base_player_death_sound = record {
  func = player + 52;
  returns = no_value;
  slots = slot object_ptr entity_index ∷ [];
  next = object 0 ∷ [];
}

abbrev pub c_base_player_joining_think : Callback
c_base_player_joining_think = record {
  func = player + 53;
  returns = no_value;
  slots = slot object_ptr entity_index ∷ [];
  next = object 0 ∷ [];
}

abbrev pub c_base_player_check_time_based_damage : Callback
c_base_player_check_time_based_damage = record {
  func = player + 54;
  returns = no_value;
  slots = slot object_ptr entity_index ∷ [];
  next = object 0 ∷ [];
}

abbrev pub c_base_player_ent_select_spawn_point : Callback
c_base_player_ent_select_spawn_point = record {
  func = player + 55;
  returns = gives edict_ptr entity_index edict_at;
  slots = slot object_ptr entity_index ∷ [];
  next = object 0 ∷ [];
}

abbrev pub c_base_player_player_death_think : Callback
c_base_player_player_death_think = record {
  func = player + 56;
  returns = no_value;
  slots = slot object_ptr entity_index ∷ [];
  next = object 0 ∷ [];
}

abbrev pub c_base_player_observer_think : Callback
c_base_player_observer_think = record {
  func = player + 57;
  returns = no_value;
  slots = slot object_ptr entity_index ∷ [];
  next = object 0 ∷ [];
}

abbrev pub c_base_player_remove_all_items : Callback
c_base_player_remove_all_items = record {
  func = player + 58;
  returns = no_value;
  slots = slot object_ptr entity_index ∷ slot int_t as_is ∷ [];
  next = object 0 ∷ same 1 ∷ [];
}

abbrev pub c_base_player_update_status_bar : Callback
c_base_player_update_status_bar = record {
  func = player + 59;
  returns = no_value;
  slots = slot object_ptr entity_index ∷ [];
  next = object 0 ∷ [];
}

abbrev pub c_base_player_take_damage_impulse : Callback
c_base_player_take_damage_impulse = record {
  func = player + 60;
  returns = no_value;
  slots =
      slot object_ptr entity_index
      ∷ slot object_ptr entity_index
      ∷ slot float_t as_is
      ∷ slot float_t as_is
      ∷ [];
  next = object 0 ∷ object 1 ∷ same 2 ∷ same 3 ∷ [];
}

abbrev pub player_items_callbacks : List Callback
player_items_callbacks =
    c_base_player_switch_team ∷ c_base_player_can_switch_team ∷ c_base_player_throw_grenade
    ∷ c_base_player_set_spawn_protection ∷ c_base_player_remove_spawn_protection
    ∷ c_base_player_hint_message_ex ∷ c_base_player_use_empty ∷ c_base_player_drop_idle_player
    ∷ c_base_player_observer_set_mode ∷ c_base_player_observer_find_next_player ∷ c_base_player_pain
    ∷ c_base_player_death_sound ∷ c_base_player_joining_think
    ∷ c_base_player_check_time_based_damage ∷ c_base_player_ent_select_spawn_point
    ∷ c_base_player_player_death_think ∷ c_base_player_observer_think
    ∷ c_base_player_remove_all_items ∷ c_base_player_update_status_bar
    ∷ c_base_player_take_damage_impulse ∷ []
