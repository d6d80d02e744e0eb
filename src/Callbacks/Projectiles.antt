-- ===== src/Callbacks/Projectiles.antt =====
-- reapi/src/hook_callback.cpp: the later functions of the free functions of the game library.
use reapi.Callbacks.Rows.{gamedll, object, same, slot, vars}
use reapi.Callbacks.{
  Callback, as_is, bool_t, const_chars, copy, entity_index, evars_ptr, float_ptr, float_t, gives,
  int_t, no_value, object_ptr, pointer, private_at, private_index, vector_array, vector_ref,
}
use reapi.Prelude.{◌+◌, List, [], ◌∷◌}

abbrev pub spawn_head_gib : Callback
spawn_head_gib = record {
  func = gamedll + 17;
  returns = gives object_ptr private_index private_at;
  slots = slot evars_ptr entity_index ∷ [];
  next = vars 0 ∷ [];
}

abbrev pub spawn_random_gibs : Callback
spawn_random_gibs = record {
  func = gamedll + 18;
  returns = no_value;
  slots = slot evars_ptr entity_index ∷ slot int_t as_is ∷ slot int_t as_is ∷ [];
  next = vars 0 ∷ same 1 ∷ same 2 ∷ [];
}

abbrev pub create_weapon_box : Callback
create_weapon_box = record {
  func = gamedll + 19;
  returns = gives object_ptr private_index private_at;
  slots =
      slot object_ptr private_index
      ∷ slot object_ptr private_index
      ∷ slot const_chars as_is
      ∷ slot vector_ref vector_array
      ∷ slot vector_ref vector_array
      ∷ slot vector_ref vector_array
      ∷ slot float_t as_is
      ∷ slot bool_t as_is
      ∷ [];
  next = object 0 ∷ object 1 ∷ same 2 ∷ copy 3 ∷ copy 4 ∷ copy 5 ∷ same 6 ∷ same 7 ∷ [];
}

abbrev pub pm_ladder_move : Callback
pm_ladder_move = record {
  func = gamedll + 20;
  returns = no_value;
  slots = slot pointer as_is ∷ slot int_t as_is ∷ [];
  next = same 0 ∷ [];
}

abbrev pub pm_water_jump : Callback
pm_water_jump = record {
  func = gamedll + 21;
  returns = no_value;
  slots = slot int_t as_is ∷ [];
  next = [];
}

abbrev pub pm_check_water_jump : Callback
pm_check_water_jump = record {
  func = gamedll + 22;
  returns = no_value;
  slots = slot int_t as_is ∷ [];
  next = [];
}

abbrev pub pm_jump : Callback
pm_jump = record {
  func = gamedll + 23;
  returns = no_value;
  slots = slot int_t as_is ∷ [];
  next = [];
}

abbrev pub pm_duck : Callback
pm_duck = record {
  func = gamedll + 24;
  returns = no_value;
  slots = slot int_t as_is ∷ [];
  next = [];
}

abbrev pub pm_un_duck : Callback
pm_un_duck = record {
  func = gamedll + 25;
  returns = no_value;
  slots = slot int_t as_is ∷ [];
  next = [];
}

abbrev pub pm_play_step_sound : Callback
pm_play_step_sound = record {
  func = gamedll + 26;
  returns = no_value;
  slots = slot int_t as_is ∷ slot float_t as_is ∷ slot int_t as_is ∷ [];
  next = same 0 ∷ same 1 ∷ [];
}

abbrev pub pm_air_accelerate : Callback
pm_air_accelerate = record {
  func = gamedll + 27;
  returns = no_value;
  slots =
      slot float_ptr vector_array ∷ slot float_t as_is ∷ slot float_t as_is ∷ slot int_t as_is ∷ [];
  next = copy 0 ∷ same 1 ∷ same 2 ∷ [];
}

abbrev pub clear_multi_damage : Callback
clear_multi_damage = record { func = gamedll + 28; returns = no_value; slots = []; next = [] }

abbrev pub add_multi_damage : Callback
add_multi_damage = record {
  func = gamedll + 29;
  returns = no_value;
  slots =
      slot evars_ptr entity_index
      ∷ slot object_ptr entity_index
      ∷ slot float_t as_is
      ∷ slot int_t as_is
      ∷ [];
  next = vars 0 ∷ object 1 ∷ same 2 ∷ same 3 ∷ [];
}

abbrev pub apply_multi_damage : Callback
apply_multi_damage = record {
  func = gamedll + 30;
  returns = no_value;
  slots = slot evars_ptr entity_index ∷ slot evars_ptr entity_index ∷ [];
  next = vars 0 ∷ vars 1 ∷ [];
}

abbrev pub buy_item : Callback
buy_item = record {
  func = gamedll + 31;
  returns = no_value;
  slots = slot object_ptr entity_index ∷ slot int_t as_is ∷ [];
  next = object 0 ∷ same 1 ∷ [];
}

abbrev pub send_say_message : Callback
send_say_message = record {
  func = gamedll + 32;
  returns = no_value;
  slots =
      slot object_ptr entity_index
      ∷ slot const_chars as_is
      ∷ slot int_t as_is
      ∷ slot const_chars as_is
      ∷ slot const_chars as_is
      ∷ slot const_chars as_is
      ∷ slot bool_t as_is
      ∷ slot const_chars as_is
      ∷ slot bool_t as_is
      ∷ [];
  next = object 0 ∷ same 1 ∷ same 2 ∷ same 3 ∷ same 4 ∷ same 5 ∷ same 6 ∷ same 7 ∷ same 8 ∷ [];
}

abbrev pub projectiles_callbacks : List Callback
projectiles_callbacks =
    spawn_head_gib ∷ spawn_random_gibs ∷ create_weapon_box ∷ pm_ladder_move ∷ pm_water_jump
    ∷ pm_check_water_jump ∷ pm_jump ∷ pm_duck ∷ pm_un_duck ∷ pm_play_step_sound ∷ pm_air_accelerate
    ∷ clear_multi_damage ∷ add_multi_damage ∷ apply_multi_damage ∷ buy_item ∷ send_say_message ∷ []
