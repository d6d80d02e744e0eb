-- ===== src/Callbacks/Weapons.antt =====
-- reapi/src/hook_callback.cpp: the functions that hook ReChecker, the grenades and the weapons.
use reapi.Callbacks.Rows.{client, grenade, object, rechecker, same, slot, weapon, weaponbox}
use reapi.Callbacks.{
  Callback, as_is, bool_t, captured, changed_hash, chars, client_id, client_ptr, const_chars,
  entity_index, enum_t, float_t, gives, int_t, no_value, object_ptr, size_type, trace_ptr,
  unchanged,
}
use reapi.Prelude.{◌+◌, List, [], ◌∷◌}

abbrev pub file_consistency_process : Callback
file_consistency_process = record {
  func = rechecker + 0;
  returns = no_value;
  slots =
      slot client_ptr client_id
      ∷ slot const_chars as_is
      ∷ slot const_chars as_is
      ∷ slot enum_t as_is
      ∷ slot size_type changed_hash
      ∷ slot bool_t as_is
      ∷ [];
  next = client 0 ∷ captured 0 ∷ same 3 ∷ captured 1 ∷ [];
}

abbrev pub file_consistency_final : Callback
file_consistency_final = record {
  func = rechecker + 1;
  returns = no_value;
  slots = slot client_ptr client_id ∷ [];
  next = client 0 ∷ [];
}

abbrev pub cmd_exec : Callback
cmd_exec = record {
  func = rechecker + 2;
  returns = no_value;
  slots =
      slot client_ptr client_id
      ∷ slot const_chars as_is
      ∷ slot chars as_is
      ∷ slot size_type changed_hash
      ∷ [];
  next = client 0 ∷ captured 0 ∷ same 2 ∷ captured 1 ∷ [];
}

abbrev pub c_grenade_defuse_bomb_start : Callback
c_grenade_defuse_bomb_start = record {
  func = grenade + 0;
  returns = no_value;
  slots = slot object_ptr entity_index ∷ slot object_ptr entity_index ∷ [];
  next = object 0 ∷ object 1 ∷ [];
}

abbrev pub c_grenade_defuse_bomb_end : Callback
c_grenade_defuse_bomb_end = record {
  func = grenade + 1;
  returns = no_value;
  slots = slot object_ptr entity_index ∷ slot object_ptr entity_index ∷ slot bool_t as_is ∷ [];
  next = object 0 ∷ object 1 ∷ same 2 ∷ [];
}

abbrev pub c_grenade_explode_he_grenade : Callback
c_grenade_explode_he_grenade = record {
  func = grenade + 2;
  returns = no_value;
  slots = slot object_ptr entity_index ∷ slot trace_ptr as_is ∷ slot int_t as_is ∷ [];
  next = object 0 ∷ same 1 ∷ same 2 ∷ [];
}

abbrev pub c_grenade_explode_flashbang : Callback
c_grenade_explode_flashbang = record {
  func = grenade + 3;
  returns = no_value;
  slots = slot object_ptr entity_index ∷ slot trace_ptr as_is ∷ slot int_t as_is ∷ [];
  next = object 0 ∷ same 1 ∷ same 2 ∷ [];
}

abbrev pub c_grenade_explode_smoke_grenade : Callback
c_grenade_explode_smoke_grenade = record {
  func = grenade + 4;
  returns = no_value;
  slots = slot object_ptr entity_index ∷ [];
  next = object 0 ∷ [];
}

abbrev pub c_grenade_explode_bomb : Callback
c_grenade_explode_bomb = record {
  func = grenade + 5;
  returns = no_value;
  slots = slot object_ptr entity_index ∷ slot trace_ptr as_is ∷ slot int_t as_is ∷ [];
  next = object 0 ∷ same 1 ∷ same 2 ∷ [];
}

abbrev pub c_weapon_box_set_model : Callback
c_weapon_box_set_model = record {
  func = weaponbox + 0;
  returns = no_value;
  slots = slot object_ptr entity_index ∷ slot const_chars as_is ∷ [];
  next = object 0 ∷ same 1 ∷ [];
}

abbrev pub c_base_player_weapon_can_deploy : Callback
c_base_player_weapon_can_deploy = record {
  func = weapon + 0;
  returns = gives int_t as_is unchanged;
  slots = slot object_ptr entity_index ∷ [];
  next = object 0 ∷ [];
}

abbrev pub c_base_player_weapon_default_deploy : Callback
c_base_player_weapon_default_deploy = record {
  func = weapon + 1;
  returns = gives int_t as_is unchanged;
  slots =
      slot object_ptr entity_index
      ∷ slot chars as_is
      ∷ slot chars as_is
      ∷ slot int_t as_is
      ∷ slot chars as_is
      ∷ slot int_t as_is
      ∷ [];
  next = object 0 ∷ same 1 ∷ same 2 ∷ same 3 ∷ same 4 ∷ same 5 ∷ [];
}

abbrev pub c_base_player_weapon_default_reload : Callback
c_base_player_weapon_default_reload = record {
  func = weapon + 2;
  returns = gives int_t as_is unchanged;
  slots =
      slot object_ptr entity_index ∷ slot int_t as_is ∷ slot int_t as_is ∷ slot float_t as_is ∷ [];
  next = object 0 ∷ same 1 ∷ same 2 ∷ same 3 ∷ [];
}

abbrev pub c_base_player_weapon_default_shotgun_reload : Callback
c_base_player_weapon_default_shotgun_reload = record {
  func = weapon + 3;
  returns = gives bool_t as_is unchanged;
  slots =
      slot object_ptr entity_index
      ∷ slot int_t as_is
      ∷ slot int_t as_is
      ∷ slot float_t as_is
      ∷ slot float_t as_is
      ∷ slot const_chars as_is
      ∷ slot const_chars as_is
      ∷ [];
  next = object 0 ∷ same 1 ∷ same 2 ∷ same 3 ∷ same 4 ∷ same 5 ∷ same 6 ∷ [];
}

abbrev pub c_base_player_weapon_item_post_frame : Callback
c_base_player_weapon_item_post_frame = record {
  func = weapon + 4;
  returns = no_value;
  slots = slot object_ptr entity_index ∷ [];
  next = object 0 ∷ [];
}

abbrev pub c_base_player_weapon_kick_back : Callback
c_base_player_weapon_kick_back = record {
  func = weapon + 5;
  returns = no_value;
  slots =
      slot object_ptr entity_index
      ∷ slot float_t as_is
      ∷ slot float_t as_is
      ∷ slot float_t as_is
      ∷ slot float_t as_is
      ∷ slot float_t as_is
      ∷ slot float_t as_is
      ∷ slot int_t as_is
      ∷ [];
  next = object 0 ∷ same 1 ∷ same 2 ∷ same 3 ∷ same 4 ∷ same 5 ∷ same 6 ∷ same 7 ∷ [];
}

abbrev pub c_base_player_weapon_send_weapon_anim : Callback
c_base_player_weapon_send_weapon_anim = record {
  func = weapon + 6;
  returns = no_value;
  slots = slot object_ptr entity_index ∷ slot int_t as_is ∷ slot int_t as_is ∷ [];
  next = object 0 ∷ same 1 ∷ same 2 ∷ [];
}

abbrev pub weapons_callbacks : List Callback
weapons_callbacks =
    file_consistency_process ∷ file_consistency_final ∷ cmd_exec ∷ c_grenade_defuse_bomb_start
    ∷ c_grenade_defuse_bomb_end ∷ c_grenade_explode_he_grenade ∷ c_grenade_explode_flashbang
    ∷ c_grenade_explode_smoke_grenade ∷ c_grenade_explode_bomb ∷ c_weapon_box_set_model
    ∷ c_base_player_weapon_can_deploy ∷ c_base_player_weapon_default_deploy
    ∷ c_base_player_weapon_default_reload ∷ c_base_player_weapon_default_shotgun_reload
    ∷ c_base_player_weapon_item_post_frame ∷ c_base_player_weapon_kick_back
    ∷ c_base_player_weapon_send_weapon_anim ∷ []
