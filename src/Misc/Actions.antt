-- ===== src/Misc/Actions.antt =====
-- reapi/src/natives/natives_misc.cpp: more natives that call a method of a player, and those that
-- show something to players or spawn something.
use reapi.Members.Natives.{Call}
use reapi.Misc.Players.{as_bool, is_empty_text}
use reapi.Misc.Items.{entity_index}
use reapi.Misc.Calls.{
  bar_time, bar_time2, send_audio, cell, text, edict, percent_of, no_edict, message, player_items,
  item_id, pev, set_progress_bar_time, set_progress_bar_time2, reload_weapons, join_team,
  switch_team, switch_weapon, round_respawn, reset_max_speed, hint_message_ex, spawn_head_gib,
  spawn_random_gibs, spawn_grenade, truncated, message_begin, write_byte, write_string, write_short,
  message_end, get, invoke, call, Server, is_negative, flag, text_arg, short_text_arg, vector_arg,
  cell_arg,
}
use reapi.Misc.{
  Native, true_cell, refuse, present_player, inner_call, connected_player, check_entity,
  check_private, check_weapon, max_item_types,
}
use reapi.Prelude.Programs.{finish, perform, ◌>>=◌, ◌>>◌}
use reapi.Prelude.{ℕ, zero, suc, ◌%◌, ◌^◌, [], ◌∷◌, ◌==◌, if◌then◌else◌}

unfoldable pub rg_join_team : Server → Call → Native
rg_join_team server args = do
  p ← connected_player server 1 args
  inner_call join_team p (cell_arg args 2 ∷ []) finish

unfoldable pub rg_switch_team : Server → Call → Native
rg_switch_team server args = do
  p ← connected_player server 1 args
  inner_call switch_team p []
  finish true_cell

unfoldable pub rg_switch_weapon : Server → Call → Native
rg_switch_weapon server args = do
  p ← connected_player server 1 args
  weapon ← check_private 2 args
  check_weapon weapon
  inner_call switch_weapon p (cell weapon ∷ []) finish

-- The two flags of the native are not read: both are passed as `true`.
unfoldable pub rg_instant_reload_weapons : Server → Call → Native
rg_instant_reload_weapons server args = do
  p ← connected_player server 1 args
  weapon ← (λ next.
      if args.params 2 == 0
      then next 0
      else (do given ← check_private 2 args; check_weapon given next))
  inner_call reload_weapons p (cell weapon ∷ cell 1 ∷ cell 1 ∷ [])
  finish true_cell

-- The items of a weapon box, in the order of the slots.
unfoldable pub first_item : ℕ → ℕ → ℕ → Native
first_item zero i box = finish 0
first_item (suc n) i box = do
  item ← perform (get (player_items i) box)
  if item == 0 then first_item n (suc i) box else perform (get item_id item) finish

unfoldable pub rg_get_weaponbox_id : Server → Call → Native
unfolding first_item
rg_get_weaponbox_id server args = do
  check_entity server 1 args
  box ← check_private 1 args
  first_item max_item_types 0 box

-- The index is not checked here, but UTIL_PlayerByIndex has no player for a wrong one.
unfoldable pub rg_round_respawn : Call → Native
rg_round_respawn args = do
  p ← present_player 1 args
  perform (invoke round_respawn p [])
  finish true_cell

unfoldable pub rg_reset_maxspeed : Call → Native
rg_reset_maxspeed args = do
  p ← present_player 1 args
  perform (invoke reset_max_speed p [])
  finish true_cell

-- MSG_ONE_UNRELIABLE is 8.
unfoldable pub rg_send_bartime : Call → Native
rg_send_bartime args = do
  p ← present_player 1 args
  if args.params 3 == 0
      then (do
        perform (call message_begin (cell 8 ∷ message bar_time ∷ cell p ∷ []))
        perform (call write_short (cell_arg args 2 ∷ []))
        perform (call message_end [])
        finish true_cell)
      else (do (inner_call set_progress_bar_time p (cell_arg args 2 ∷ [])); finish true_cell)

-- `(startPercent / 100.0f) * duration` is the last argument of SetProgressBarTime2.
unfoldable pub rg_send_bartime2 : Call → Native
rg_send_bartime2 args = do
  p ← present_player 1 args
  if args.params 4 == 0
      then (do
        perform (call message_begin (cell 8 ∷ message bar_time2 ∷ cell p ∷ []))
        perform (call write_short (cell_arg args 2 ∷ []))
        percent ← perform (call truncated (cell_arg args 3 ∷ []))
        perform (call write_short (cell percent ∷ []))
        perform (call message_end [])
        finish true_cell)
      else (do
        inner_call set_progress_bar_time2 p
            (cell_arg args 2 ∷ percent_of (args.params 3) (args.params 2) ∷ [])
        finish true_cell)

-- A negative index stands for all players, as 0 does; MSG_BROADCAST is 0.
unfoldable pub rg_send_audio : Call → Native
rg_send_audio args =
    let index = if is_negative (args.params 1) then 0 else args.params 1 in
    do
      perform (
          call message_begin (
            cell (if index == 0 then 0 else 8)
            ∷ message send_audio
            ∷ (if index == 0 then no_edict else edict index)
            ∷ []))
      perform (call write_byte (cell index ∷ []))
      perform (call write_string (text (text_arg args 2) ∷ []))
      perform (call write_short (cell_arg args 3 ∷ []))
      perform (call message_end [])
      finish true_cell

unfoldable pub rg_hint_message : Server → Call → Native
rg_hint_message server args = do
  p ← connected_player server 1 args
  if is_empty_text (short_text_arg args 2) then refuse else (do
    shown ←
        (inner_call hint_message_ex p (
          text (short_text_arg args 2)
          ∷ cell_arg args 3
          ∷ cell (flag args 4)
          ∷ cell (flag args 5)
          ∷ []))
    as_bool shown)

unfoldable pub rg_spawn_head_gib : Server → Call → Native
rg_spawn_head_gib server args = do
  check_entity server 1 args
  e ← check_private 1 args
  place ← perform (get pev e)
  gib ← perform (call spawn_head_gib (cell place ∷ []))
  entity_index gib

unfoldable pub rg_spawn_random_gibs : Server → Call → Native
rg_spawn_random_gibs server args = do
  check_entity server 1 args
  e ← check_private 1 args
  place ← perform (get pev e)
  perform (call spawn_random_gibs (cell place ∷ cell_arg args 2 ∷ cell_arg args 3 ∷ []))
  finish true_cell

unfoldable pub rg_spawn_grenade : Server → Call → Native
rg_spawn_grenade server args = do
  p ← connected_player server 2 args
  place ← perform (get pev p)
  grenade ← perform (
      call spawn_grenade (
        cell_arg args 1
        ∷ cell place
        ∷ vector_arg args 3
        ∷ vector_arg args 4
        ∷ cell_arg args 5
        ∷ cell_arg args 6
        ∷ cell (args.params 7 % 2 ^ 16)
        ∷ []))
  entity_index grenade
