-- ===== src/Callbacks/Engine.antt =====
-- reapi/src/hook_callback.cpp: the functions that hook the engine.
use reapi.Callbacks.Rows.{client, edict, engine, same, slot}
use reapi.Callbacks.{
  Callback, as_is, bool_t, captured, chars, client_id, client_ptr, const_chars, edict_at, edict_ptr,
  entity_index, enum_t, float_t, given, gives, int_t, no_value, optional_client, pointer, size_type,
  source_client, source_client_at, uchar_t, unchanged, ushort_t,
}
use reapi.Prelude.{◌+◌, List, [], ◌∷◌}

abbrev pub sv_start_sound : Callback
sv_start_sound = record {
  func = engine + 0;
  returns = no_value;
  slots =
      slot int_t as_is
      ∷ slot edict_ptr entity_index
      ∷ slot int_t as_is
      ∷ slot const_chars as_is
      ∷ slot int_t as_is
      ∷ slot float_t as_is
      ∷ slot int_t as_is
      ∷ slot int_t as_is
      ∷ [];
  next = same 0 ∷ edict 1 ∷ same 2 ∷ same 3 ∷ same 4 ∷ same 5 ∷ same 6 ∷ same 7 ∷ [];
}

abbrev pub sv_drop_client : Callback
sv_drop_client = record {
  func = engine + 1;
  returns = no_value;
  slots = slot client_ptr client_id ∷ slot bool_t as_is ∷ slot const_chars as_is ∷ [];
  next = client 0 ∷ same 1 ∷ same 2 ∷ [];
}

abbrev pub sv_activate_server : Callback
sv_activate_server = record {
  func = engine + 2;
  returns = no_value;
  slots = slot int_t as_is ∷ [];
  next = same 0 ∷ [];
}

abbrev pub cvar_direct_set : Callback
cvar_direct_set = record {
  func = engine + 3;
  returns = no_value;
  slots = slot pointer as_is ∷ slot const_chars as_is ∷ [];
  next = same 0 ∷ same 1 ∷ [];
}

abbrev pub sv_write_full_client_update : Callback
sv_write_full_client_update = record {
  func = engine + 4;
  returns = no_value;
  slots = slot client_ptr client_id ∷ slot size_type as_is ∷ slot client_ptr optional_client ∷ [];
  next = client 0 ∷ same 1 ∷ captured 0 ∷ captured 1 ∷ client 2 ∷ [];
}

abbrev pub get_entity_init : Callback
get_entity_init = record {
  func = engine + 5;
  returns = gives pointer as_is unchanged;
  slots = slot chars as_is ∷ [];
  next = same 0 ∷ [];
}

abbrev pub client_connected : Callback
client_connected = record {
  func = engine + 6;
  returns = no_value;
  slots = slot client_ptr client_id ∷ [];
  next = client 0 ∷ [];
}

abbrev pub sv_connect_client : Callback
sv_connect_client = record { func = engine + 7; returns = no_value; slots = []; next = [] }

abbrev pub sv_emit_pings : Callback
sv_emit_pings = record {
  func = engine + 8;
  returns = no_value;
  slots = slot client_ptr client_id ∷ [];
  next = client 0 ∷ captured 0 ∷ [];
}

abbrev pub ed_alloc : Callback
ed_alloc = record {
  func = engine + 9;
  returns = gives edict_ptr entity_index edict_at;
  slots = [];
  next = [];
}

abbrev pub ed_free : Callback
ed_free = record {
  func = engine + 10;
  returns = no_value;
  slots = slot edict_ptr entity_index ∷ [];
  next = edict 0 ∷ [];
}

abbrev pub con_printf : Callback
con_printf = record {
  func = engine + 11;
  returns = no_value;
  slots = slot const_chars as_is ∷ [];
  next = same 0 ∷ [];
}

abbrev pub sv_check_user_info : Callback
sv_check_user_info = record {
  func = engine + 12;
  returns = gives int_t as_is unchanged;
  slots =
      slot pointer as_is
      ∷ slot size_type as_is
      ∷ slot int_t as_is
      ∷ slot int_t as_is
      ∷ slot chars as_is
      ∷ [];
  next = same 0 ∷ same 1 ∷ same 2 ∷ same 3 ∷ same 4 ∷ [];
}

abbrev pub pf_precache_generic_i : Callback
pf_precache_generic_i = record {
  func = engine + 13;
  returns = gives int_t as_is unchanged;
  slots = slot const_chars as_is ∷ [];
  next = same 0 ∷ [];
}

abbrev pub pf_precache_model_i : Callback
pf_precache_model_i = record {
  func = engine + 14;
  returns = gives int_t as_is unchanged;
  slots = slot const_chars as_is ∷ [];
  next = same 0 ∷ [];
}

abbrev pub pf_precache_sound_i : Callback
pf_precache_sound_i = record {
  func = engine + 15;
  returns = gives int_t as_is unchanged;
  slots = slot const_chars as_is ∷ [];
  next = same 0 ∷ [];
}

abbrev pub ev_precache : Callback
ev_precache = record {
  func = engine + 16;
  returns = gives ushort_t as_is unchanged;
  slots = slot const_chars as_is ∷ [];
  next = captured 0 ∷ same 0 ∷ [];
}

abbrev pub sv_add_resource : Callback
sv_add_resource = record {
  func = engine + 17;
  returns = no_value;
  slots =
      slot enum_t as_is
      ∷ slot const_chars as_is
      ∷ slot int_t as_is
      ∷ slot uchar_t as_is
      ∷ slot int_t as_is
      ∷ [];
  next = same 0 ∷ same 1 ∷ same 2 ∷ same 3 ∷ same 4 ∷ [];
}

abbrev pub sv_client_printf : Callback
sv_client_printf = record {
  func = engine + 18;
  returns = no_value;
  slots = slot const_chars as_is ∷ [];
  next = same 0 ∷ [];
}

abbrev pub sv_allow_physent : Callback
sv_allow_physent = record {
  func = engine + 19;
  returns = gives bool_t as_is unchanged;
  slots = slot edict_ptr entity_index ∷ slot edict_ptr entity_index ∷ [];
  next = edict 0 ∷ edict 1 ∷ [];
}

abbrev pub execute_server_string_cmd : Callback
execute_server_string_cmd = record {
  func = engine + 20;
  returns = no_value;
  slots = slot const_chars as_is ∷ slot enum_t as_is ∷ slot client_ptr (source_client 1) ∷ [];
  next = same 0 ∷ same 1 ∷ given 2 (source_client_at 1) ∷ [];
}

abbrev pub sv_send_resources : Callback
sv_send_resources = record {
  func = engine + 21;
  returns = no_value;
  slots = slot client_ptr optional_client ∷ [];
  next = captured 0 ∷ [];
}

abbrev pub engine_callbacks : List Callback
engine_callbacks =
    sv_start_sound ∷ sv_drop_client ∷ sv_activate_server ∷ cvar_direct_set
    ∷ sv_write_full_client_update ∷ get_entity_init ∷ client_connected ∷ sv_connect_client
    ∷ sv_emit_pings ∷ ed_alloc ∷ ed_free ∷ con_printf ∷ sv_check_user_info ∷ pf_precache_generic_i
    ∷ pf_precache_model_i ∷ pf_precache_sound_i ∷ ev_precache ∷ sv_add_resource ∷ sv_client_printf
    ∷ sv_allow_physent ∷ execute_server_string_cmd ∷ sv_send_resources ∷ []
