-- ===== src/Misc/Calls.antt =====
-- reapi/src/natives/natives_misc.cpp: what the natives call and read outside of the program, that is in
-- the engine, the game library and AMXX. Pointers and cells are numbers, and null is 0.
use reapi.Members.Natives.{Call}
use reapi.Members.Setter.{chars_from}
use reapi.Prelude.{ℕ, ◌-◌, ◌^◌, Bool, true, false, List, ltb, leb, ◌==◌, if◌then◌else◌}

-- A value that is passed: a number, a text, three floats, the entvars_t and the edict_t of an entity,
-- null for none, a float that is converted from a number, and a message by its name.
pub data UserMessage : Type 0 where
  status_icon armor_type bar_time bar_time2 send_audio : UserMessage

pub data Arg : Type 0 where
  cell : ℕ → Arg
  text : List ℕ → Arg
  vector : ℕ → ℕ → ℕ → Arg
  vars edict : ℕ → Arg
  -- `models/player/%s/%s.mdl` with the text at a pointer twice, cut off at 259 characters
  model_file : ℕ → Arg
  -- the number with a bit set, and with the bit `1 << i` cleared
  with_bit without_bit : ℕ → ℕ → Arg
  -- STRING of a string_t
  string_at : ℕ → Arg
  -- so many percent, a float, of a number
  percent_of : ℕ → ℕ → Arg
  no_vars no_edict : Arg
  float_of : ℕ → Arg
  message : UserMessage → Arg

-- Members of objects; those of `pev` stand for themselves, but for `pContainingEntity`, `containing`, and
-- where its pointer is passed on. `inner` is `m_pEntity`, `voice_helper`
-- `m_VoiceGameMgr.m_pHelper`, and the members with a number are elements: of a frame with this number
-- the count and the pointer of its entities, and the number of the entity there.
pub data Field : Type 0 where
  has_disconnected account kevlar armor_value team model_name has_c4 has_defuser long_jump : Field
  owns_shield body flags weapons time_step_sound pev_time_step_sound : Field
  player_items rg_ammo : ℕ → Field
  next_item class_name item_id primary_ammo_type clip slot weapon_id : Field
  cost clip_cost buy_clip_size gun_clip_size max_rounds ammo_type ammo_name entity_name : Field
  item_slot item_position ammo1 max_ammo1 ammo2 max_ammo2 item_name max_clip : Field
  info_id item_flags item_weight : Field
  num_terrorist num_ct num_ct_wins num_terrorist_wins : Field
  restart_round_time map_has_bomb_target map_has_bomb_zone : Field
  inner voice_helper frames containing : Field
  frame_count frame_entities packed_number : ℕ → Field
  owner private_data is_free origin spawn_flags impulse target_name pev edict_of active_item : Field
  active spawned connected fake_client outgoing_sequence connect_time : Field

-- Methods of objects. Those of CCSPlayer and of CCSEntity are called on the field `inner`.
pub data Method : Type 0 where
  set_animation add_account give_named_item_ex give_default_items give_shield : Method
  remove_player_item remove_player_item_ex remove_item_pointer drop_player_item kill : Method
  remove_all_items client_command is_weapon is_class_name is_alive is_instance : Method
  set_bomb_icon set_progress_bar_time set_progress_bar_time2 send_item_status : Method
  set_player_model set_player_model_ex : Method
  set_new_player_model team_change_update start_death_cam make_bomber reload_weapons : Method
  join_team switch_team switch_weapon round_respawn reset_max_speed hint_message_ex : Method
  fire_bullets fire_buckshots fire_bullets3 item_of : Method
  end_round_message terminate_round update_team_scores check_win_conditions give_c4 : Method
  initialize_player_counts set_account_rules get_account_rules is_bomb_planted : Method
  balance_teams swap_all_players select_default_team can_take_damage can_respawn : Method
  restart_round reset_can_hear set_can_hear get_can_hear get_next_best_weapon : Method
  death_notice player_relationship send_death_message take_damage_impulse : Method
  disappear observer_set_mode observer_find_next_player is_net_client : Method
  client_is_active client_is_spawned client_is_connected weapon_of : Method
  default_deploy default_reload default_shotgun_reload send_weapon_anim kick_back : Method

-- Functions; `truncated` is the conversion of a float to a number, `is_float_equal` the test `==`,
-- and `alive_terrorists` the number that InitializePlayerCounts has found.
pub data Routine : Type 0 where
  player_by_index game_rules weapon_slot_by_name weapon_slot_by_id : Routine
  weapon_info_by_id weapon_info_by_name item_info index_of_private : Routine
  index_of_edict alloc_string create_named_entity create_named_entity2 : Routine
  edict_owner edict_private edict_free edict_is_class edict_at : Routine
  find_entity_by_string private_find_by_string spawn touch is_null_entity : Routine
  radius_damage clear_multi_damage apply_multi_damage add_multi_damage : Routine
  plant_bomb spawn_head_gib spawn_random_gibs spawn_grenade : Routine
  alive_terrorists random_long info_buffer key_value set_player_team_info round_end_chain : Routine
  write_cell write_text write_vector truncated is_float_equal : Routine
  message_begin write_byte write_string write_short message_end : Routine
  create_weapon_box remove decal_trace texture_sound add_ammo_name : Routine
  set_trace_flags trace_line trace_hull set_map_name get_map_name : Routine
  set_reset_global_state emit_sound2 client_at client_t_at update_user_info drop_client : Routine
  net_from_text real_time time_since is_paused set_server_pause has_flag : Routine

pub data Effect : Type 0 where
  -- AMXX_LogError
  log_error : Effect
  -- `p->field`, `p->field = x` and `p->method(xs)`
  get : Field → ℕ → Effect
  put : Field → ℕ → Arg → Effect
  invoke : Method → ℕ → List Arg → Effect
  call : Routine → List Arg → Effect

-- `gpGlobals->maxClients` and `gpGlobals->maxEntities`
pub record Server : Type 0 where
  pub max_clients : ℕ
  pub max_entities : ℕ

abbrev pub null_entity : ℕ
null_entity = 2 ^ 32 - 1

abbrev pub is_negative : ℕ → Bool
is_negative c = leb (2 ^ 31) c

abbrev pub truth : Bool → ℕ
truth true = 1
truth false = 0

-- `params[i] != 0`
abbrev pub flag : Call → ℕ → ℕ
flag args i = if args.params i == 0 then 0 else 1

-- getAmxString into a buffer of 256 characters, of which it is told one less, and of 190.
unfoldable pub text_arg : Call → ℕ → List ℕ
text_arg args i = chars_from 254 0 (args.input (args.params i))

unfoldable pub short_text_arg : Call → ℕ → List ℕ
short_text_arg args i = chars_from 188 0 (args.input (args.params i))

-- getAmxString into a buffer for so many characters and two more.
unfoldable pub chars_arg : ℕ → Call → ℕ → List ℕ
chars_arg n args i = chars_from n 0 (args.input (args.params i))

-- The conversions of CAmxArg to a vector, to entvars_t and to edict_t.
unfoldable pub vector_arg : Call → ℕ → Arg
vector_arg args i =
    let words = (args.input (args.params i)).words in vector (words 0) (words 1) (words 2)

unfoldable pub vars_arg : Call → ℕ → Arg
vars_arg args i = if is_negative (args.params i) then no_vars else vars (args.params i)

-- edictByIndexAmx
unfoldable pub edict_arg : Call → ℕ → Arg
edict_arg args i = if is_negative (args.params i) then no_edict else edict (args.params i)

abbrev pub cell_arg : Call → ℕ → Arg
cell_arg args i = cell (args.params i)

-- A number that is compared as a signed one: `0 < c`.
abbrev pub is_positive : ℕ → Bool
is_positive c = if is_negative c then false else ltb 0 c

-- `c < n` for a signed number and one that is not negative
abbrev pub is_below : ℕ → ℕ → Bool
is_below c n = if is_negative c then true else ltb c n
