-- ===== src/Misc/Deaths.antt =====
-- reapi/src/natives/natives_misc.cpp: the natives on dead players, observers and damage.
use reapi.Members.Natives.{Call}
use reapi.Misc.Players.{is_empty_text}
use reapi.Misc.Calls.{
  cell, text, is_alive, death_notice, player_relationship, send_death_message, take_damage_impulse,
  disappear, observer_set_mode, observer_find_next_player, invoke, Server, flag, chars_arg,
  vars_arg, cell_arg,
}
use reapi.Misc.{
  Native, Statement, true_cell, refuse, present_player, inner_call, is_player, is_entity,
  connected_player, check_entity, check_game_rules, private_arg,
}
use reapi.Prelude.Programs.{finish, perform, ◌>>=◌, ◌>>◌}
use reapi.Prelude.{ℕ, ◌&&◌, [], ◌∷◌, ◌==◌, if◌then◌else◌}

unfoldable pub rg_disappear : Server → Call → Native
rg_disappear server args = do
  p ← connected_player server 1 args
  inner_call disappear p []
  finish true_cell

unfoldable pub rg_set_observer_mode : Server → Call → Native
rg_set_observer_mode server args = do
  p ← connected_player server 1 args
  inner_call observer_set_mode p (cell_arg args 2 ∷ [])
  finish true_cell

-- A buffer of MAX_PLAYER_NAME_LENGTH, 32; no name for an empty one.
unfoldable pub rg_observer_find_next_player : Server → Call → Native
rg_observer_find_next_player server args = do
  p ← connected_player server 1 args
  inner_call observer_find_next_player p (
      cell (flag args 2)
      ∷ (if is_empty_text (chars_arg 30 args 3) then cell 0 else text (chars_arg 30 args 3))
      ∷ [])
  finish true_cell

unfoldable pub rg_death_notice : Server → Call → Native
rg_death_notice server args = do
  rules ← check_game_rules
  p ← connected_player server 1 args
  check_entity server 2 args
  perform (invoke death_notice rules (cell p ∷ vars_arg args 2 ∷ vars_arg args 3 ∷ []))
  finish true_cell

-- Both indices are checked before the player is looked up.
unfoldable pub rg_player_relationship : Server → Call → Native
rg_player_relationship server args = do
  rules ← check_game_rules
  if is_player server (args.params 1) && is_entity server (args.params 2)
      then (do
        p ← present_player 1 args
        target ← private_arg 2 args
        perform (invoke player_relationship rules (cell p ∷ cell target ∷ [])) finish)
      else refuse

-- A player who need not be named: 0 stands for none.
unfoldable pub optional_player : Server → ℕ → Call → Statement
optional_player server i args rest =
    if args.params i == 0 then rest 0 else connected_player server i args rest

-- The buffer of the name of the weapon is for 32 characters.
unfoldable pub rg_send_death_message : Server → Call → Native
unfolding optional_player
rg_send_death_message server args = do
  rules ← check_game_rules
  victim ← connected_player server 2 args
  killer ← optional_player server 1 args
  assister ← optional_player server 3 args
  perform (
      invoke send_death_message rules (
        cell killer
        ∷ cell victim
        ∷ cell assister
        ∷ vars_arg args 4
        ∷ text (chars_arg 30 args 5)
        ∷ cell_arg args 6
        ∷ cell_arg args 7
        ∷ []))
  finish true_cell

unfoldable pub rg_player_takedamage_impulse : Server → Call → Native
rg_player_takedamage_impulse server args =
    if is_player server (args.params 1) && is_player server (args.params 2)
    then (do
      p ← present_player 1 args
      alive ← perform (invoke is_alive p [])
      if alive == 0 then refuse else (do
        attacker ← present_player 2 args
        armed ← perform (invoke is_alive attacker [])
        if armed == 0 then refuse else (do
          inner_call take_damage_impulse p (cell attacker ∷ cell_arg args 3 ∷ cell_arg args 4 ∷ [])
          finish true_cell)))
    else refuse
