-- ===== src/Callbacks/PlayerActions.antt =====
-- reapi/src/hook_callback.cpp: the later functions that hook CBasePlayer.
use reapi.Callbacks.Rows.{object, player, same, slot}
use reapi.Callbacks.{
  Callback, as_is, bool_t, chars, const_chars, entity_index, enum_t, float_t, gives, int_t,
  no_value, object_ptr, own, private_at, private_index, short_t, unchanged, vector_array,
  vector_ref,
}
use reapi.Prelude.{◌+◌, List, [], ◌∷◌}

abbrev pub c_base_player_round_respawn : Callback
c_base_player_round_respawn = record {
  func = player + 20;
  returns = no_value;
  slots = slot object_ptr entity_index ∷ [];
  next = object 0 ∷ [];
}

abbrev pub c_base_player_blind : Callback
c_base_player_blind = record {
  func = player + 21;
  returns = no_value;
  slots =
      slot object_ptr entity_index
      ∷ slot float_t as_is
      ∷ slot float_t as_is
      ∷ slot float_t as_is
      ∷ slot int_t as_is
      ∷ [];
  next = object 0 ∷ same 1 ∷ same 2 ∷ same 3 ∷ same 4 ∷ [];
}

abbrev pub c_base_player_set_client_user_info_model : Callback
c_base_player_set_client_user_info_model = record {
  func = player + 22;
  returns = no_value;
  slots = slot object_ptr entity_index ∷ slot chars as_is ∷ slot chars as_is ∷ [];
  next = object 0 ∷ same 1 ∷ same 2 ∷ [];
}

abbrev pub c_base_player_set_client_user_info_name : Callback
c_base_player_set_client_user_info_name = record {
  func = player + 23;
  returns = gives bool_t as_is unchanged;
  slots = slot object_ptr entity_index ∷ slot chars as_is ∷ slot chars as_is ∷ [];
  next = object 0 ∷ same 1 ∷ same 2 ∷ [];
}

abbrev pub c_base_player_observer_is_valid_target : Callback
c_base_player_observer_is_valid_target = record {
  func = player + 24;
  returns = gives object_ptr private_index private_at;
  slots = slot object_ptr entity_index ∷ slot int_t as_is ∷ slot bool_t as_is ∷ [];
  next = object 0 ∷ same 1 ∷ same 2 ∷ [];
}

abbrev pub c_base_player_set_animation : Callback
c_base_player_set_animation = record {
  func = player + 25;
  returns = no_value;
  slots = slot object_ptr entity_index ∷ slot enum_t as_is ∷ [];
  next = object 0 ∷ same 1 ∷ [];
}

abbrev pub c_base_player_give_default_items : Callback
c_base_player_give_default_items = record {
  func = player + 26;
  returns = no_value;
  slots = slot object_ptr entity_index ∷ [];
  next = object 0 ∷ [];
}

abbrev pub c_base_player_give_named_item : Callback
c_base_player_give_named_item = record {
  func = player + 27;
  returns = gives object_ptr private_index private_at;
  slots = slot object_ptr entity_index ∷ slot const_chars as_is ∷ [];
  next = object 0 ∷ same 1 ∷ [];
}

abbrev pub c_base_player_add_account : Callback
c_base_player_add_account = record {
  func = player + 28;
  returns = no_value;
  slots =
      slot object_ptr entity_index ∷ slot int_t as_is ∷ slot enum_t as_is ∷ slot bool_t as_is ∷ [];
  next = object 0 ∷ same 1 ∷ same 2 ∷ same 3 ∷ [];
}

abbrev pub c_base_player_give_shield : Callback
c_base_player_give_shield = record {
  func = player + 29;
  returns = no_value;
  slots = slot object_ptr entity_index ∷ slot bool_t as_is ∷ [];
  next = object 0 ∷ same 1 ∷ [];
}

abbrev pub c_base_player_drop_player_item : Callback
c_base_player_drop_player_item = record {
  func = player + 30;
  returns = gives object_ptr private_index private_at;
  slots = slot object_ptr entity_index ∷ slot const_chars as_is ∷ [];
  next = object 0 ∷ same 1 ∷ [];
}

abbrev pub c_base_player_has_restrict_item : Callback
c_base_player_has_restrict_item = record {
  func = player + 31;
  returns = gives bool_t as_is unchanged;
  slots = slot object_ptr entity_index ∷ slot enum_t as_is ∷ slot enum_t as_is ∷ [];
  next = object 0 ∷ same 1 ∷ same 2 ∷ [];
}

abbrev pub c_base_player_drop_shield : Callback
c_base_player_drop_shield = record {
  func = player + 32;
  returns = gives object_ptr private_index private_at;
  slots = slot object_ptr entity_index ∷ slot bool_t as_is ∷ [];
  next = object 0 ∷ same 1 ∷ [];
}

abbrev pub c_base_player_on_spawn_equip : Callback
c_base_player_on_spawn_equip = record {
  func = player + 33;
  returns = no_value;
  slots = slot object_ptr entity_index ∷ slot bool_t as_is ∷ slot bool_t as_is ∷ [];
  next = object 0 ∷ same 1 ∷ same 2 ∷ [];
}

abbrev pub c_base_player_radio : Callback
c_base_player_radio = record {
  func = player + 34;
  returns = no_value;
  slots =
      slot object_ptr entity_index
      ∷ slot const_chars as_is
      ∷ slot const_chars as_is
      ∷ slot short_t as_is
      ∷ slot bool_t as_is
      ∷ [];
  next = object 0 ∷ same 1 ∷ same 2 ∷ same 3 ∷ same 4 ∷ [];
}

abbrev pub c_base_player_disappear : Callback
c_base_player_disappear = record {
  func = player + 35;
  returns = no_value;
  slots = slot object_ptr entity_index ∷ [];
  next = object 0 ∷ [];
}

abbrev pub c_base_player_make_vip : Callback
c_base_player_make_vip = record {
  func = player + 36;
  returns = no_value;
  slots = slot object_ptr entity_index ∷ [];
  next = object 0 ∷ [];
}

abbrev pub c_base_player_make_bomber : Callback
c_base_player_make_bomber = record {
  func = player + 37;
  returns = gives bool_t as_is unchanged;
  slots = slot object_ptr entity_index ∷ [];
  next = object 0 ∷ [];
}

abbrev pub c_base_player_start_observer : Callback
c_base_player_start_observer = record {
  func = player + 38;
  returns = no_value;
  slots =
      slot object_ptr entity_index
      ∷ slot vector_ref vector_array
      ∷ slot vector_ref vector_array
      ∷ [];
  next = object 0 ∷ own 1 ∷ own 2 ∷ [];
}

abbrev pub c_base_player_get_into_game : Callback
c_base_player_get_into_game = record {
  func = player + 39;
  returns = gives bool_t as_is unchanged;
  slots = slot object_ptr entity_index ∷ [];
  next = object 0 ∷ [];
}

abbrev pub c_base_player_start_death_cam : Callback
c_base_player_start_death_cam = record {
  func = player + 40;
  returns = no_value;
  slots = slot object_ptr entity_index ∷ [];
  next = object 0 ∷ [];
}

abbrev pub player_actions_callbacks : List Callback
player_actions_callbacks =
    c_base_player_round_respawn ∷ c_base_player_blind ∷ c_base_player_set_client_user_info_model
    ∷ c_base_player_set_client_user_info_name ∷ c_base_player_observer_is_valid_target
    ∷ c_base_player_set_animation ∷ c_base_player_give_default_items ∷ c_base_player_give_named_item
    ∷ c_base_player_add_account ∷ c_base_player_give_shield ∷ c_base_player_drop_player_item
    ∷ c_base_player_has_restrict_item ∷ c_base_player_drop_shield ∷ c_base_player_on_spawn_equip
    ∷ c_base_player_radio ∷ c_base_player_disappear ∷ c_base_player_make_vip
    ∷ c_base_player_make_bomber ∷ c_base_player_start_observer ∷ c_base_player_get_into_game
    ∷ c_base_player_start_death_cam ∷ []
