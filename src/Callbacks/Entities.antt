-- ===== src/Callbacks/Entities.antt =====
-- reapi/src/hook_callback.cpp: the functions that hook other entities and the bots.
use reapi.Callbacks.Rows.{botmanager, cbaseentity, gib, object, same, slot, vars}
use reapi.Callbacks.{
  Callback, as_is, bool_t, const_chars, copy, entity_index, enum_t, evars_ptr, float_t, gives,
  int_t, no_value, object_ptr, ulong_t, unchanged, vector_array, vector_ref,
}
use reapi.Prelude.{◌+◌, List, [], ◌∷◌}

abbrev pub c_gib_spawn : Callback
c_gib_spawn = record {
  func = gib + 0;
  returns = no_value;
  slots = slot object_ptr entity_index ∷ slot const_chars as_is ∷ [];
  next = object 0 ∷ same 1 ∷ [];
}

abbrev pub c_gib_bounce_gib_touch : Callback
c_gib_bounce_gib_touch = record {
  func = gib + 1;
  returns = no_value;
  slots = slot object_ptr entity_index ∷ slot object_ptr entity_index ∷ [];
  next = object 0 ∷ object 1 ∷ [];
}

abbrev pub c_gib_wait_till_land : Callback
c_gib_wait_till_land = record {
  func = gib + 2;
  returns = no_value;
  slots = slot object_ptr entity_index ∷ [];
  next = object 0 ∷ [];
}

abbrev pub c_base_entity_fire_bullets : Callback
c_base_entity_fire_bullets = record {
  func = cbaseentity + 0;
  returns = no_value;
  slots =
      slot object_ptr entity_index
      ∷ slot ulong_t as_is
      ∷ slot vector_ref vector_array
      ∷ slot vector_ref vector_array
      ∷ slot vector_ref vector_array
      ∷ slot float_t as_is
      ∷ slot int_t as_is
      ∷ slot int_t as_is
      ∷ slot int_t as_is
      ∷ slot evars_ptr entity_index
      ∷ [];
  next =
      object 0
      ∷ same 1
      ∷ copy 2
      ∷ copy 3
      ∷ copy 4
      ∷ same 5
      ∷ same 6
      ∷ same 7
      ∷ same 8
      ∷ vars 9
      ∷ [];
}

abbrev pub c_base_entity_fire_buckshots : Callback
c_base_entity_fire_buckshots = record {
  func = cbaseentity + 1;
  returns = no_value;
  slots =
      slot object_ptr entity_index
      ∷ slot ulong_t as_is
      ∷ slot vector_ref vector_array
      ∷ slot vector_ref vector_array
      ∷ slot vector_ref vector_array
      ∷ slot float_t as_is
      ∷ slot int_t as_is
      ∷ slot int_t as_is
      ∷ slot evars_ptr entity_index
      ∷ [];
  next = object 0 ∷ same 1 ∷ copy 2 ∷ copy 3 ∷ copy 4 ∷ same 5 ∷ same 6 ∷ same 7 ∷ vars 8 ∷ [];
}

abbrev pub c_base_entity_fire_bullets3 : Callback
c_base_entity_fire_bullets3 = record {
  func = cbaseentity + 2;
  returns = gives vector_ref as_is unchanged;
  slots =
      slot object_ptr entity_index
      ∷ slot vector_ref vector_array
      ∷ slot vector_ref vector_array
      ∷ slot float_t as_is
      ∷ slot float_t as_is
      ∷ slot int_t as_is
      ∷ slot int_t as_is
      ∷ slot int_t as_is
      ∷ slot float_t as_is
      ∷ slot evars_ptr entity_index
      ∷ slot bool_t as_is
      ∷ slot int_t as_is
      ∷ [];
  next =
      object 0
      ∷ copy 1
      ∷ copy 2
      ∷ same 3
      ∷ same 4
      ∷ same 5
      ∷ same 6
      ∷ same 7
      ∷ same 8
      ∷ vars 9
      ∷ same 10
      ∷ same 11
      ∷ [];
}

abbrev pub c_bot_manager_on_event : Callback
c_bot_manager_on_event = record {
  func = botmanager + 0;
  returns = no_value;
  slots = slot enum_t as_is ∷ slot object_ptr entity_index ∷ slot object_ptr entity_index ∷ [];
  next = same 0 ∷ object 1 ∷ object 2 ∷ [];
}

abbrev pub entities_callbacks : List Callback
entities_callbacks =
    c_gib_spawn ∷ c_gib_bounce_gib_touch ∷ c_gib_wait_till_land ∷ c_base_entity_fire_bullets
    ∷ c_base_entity_fire_buckshots ∷ c_base_entity_fire_bullets3 ∷ c_bot_manager_on_event ∷ []
