-- ===== src/Misc/Rounds.antt =====
-- reapi/src/natives/natives_misc.cpp: the natives on the rules of the game and on the rounds.
use reapi.Members.Natives.{Call}
use reapi.Misc.Calls.{
  cell, Field, num_ct_wins, num_terrorist_wins, voice_helper, update_team_scores,
  check_win_conditions, initialize_player_counts, set_account_rules, get_account_rules,
  balance_teams, swap_all_players, select_default_team, can_take_damage, can_respawn, restart_round,
  reset_can_hear, set_can_hear, get_can_hear, get, put, invoke, Server, flag, cell_arg,
}
use reapi.Misc.{
  Native, Statement, true_cell, refuse, present_player, is_player, connected_player,
  check_game_rules, check_private,
}
use reapi.Prelude.Programs.{finish, perform, ◌>>=◌, ◌>>◌}
use reapi.Prelude.{ℕ, ◌+◌, ◌%◌, ◌^◌, ◌&&◌, [], ◌∷◌, ◌==◌, if◌then◌else◌}

-- The number of wins that is shown: added to what there is, or instead of it.
unfoldable pub change_wins : Field → ℕ → ℕ → Call → Statement
change_wins field i rules args rest = do
  now ← (λ next. if args.params 3 == 0 then next 0 else perform (get field rules) next)
  perform (put field rules (cell ((now + args.params i) % 2 ^ 32))) rest

unfoldable pub rg_update_teamscores : Call → Native
unfolding change_wins
rg_update_teamscores args = do
  rules ← check_game_rules
  change_wins num_ct_wins 1 rules args
  change_wins num_terrorist_wins 2 rules args
  perform (invoke update_team_scores rules [])
  finish true_cell

unfoldable pub rg_set_account_rules : Call → Native
rg_set_account_rules args = do
  rules ← check_game_rules
  perform (invoke set_account_rules rules (cell_arg args 1 ∷ cell_arg args 2 ∷ []))
  finish true_cell

unfoldable pub rg_get_account_rules : Call → Native
rg_get_account_rules args = do
  rules ← check_game_rules
  perform (invoke get_account_rules rules (cell_arg args 1 ∷ [])) finish

unfoldable pub rg_balance_teams : Native
rg_balance_teams = do
  rules ← check_game_rules
  perform (invoke balance_teams rules [])
  finish true_cell

unfoldable pub rg_swap_all_players : Native
rg_swap_all_players = do
  rules ← check_game_rules
  perform (invoke swap_all_players rules [])
  finish true_cell

unfoldable pub rg_get_join_team_priority : Native
rg_get_join_team_priority = do
  rules ← check_game_rules
  perform (invoke select_default_team rules []) finish

unfoldable pub rg_is_player_can_takedamage : Server → Call → Native
rg_is_player_can_takedamage server args = do
  rules ← check_game_rules
  p ← connected_player server 1 args
  attacker ← check_private 2 args
  perform (invoke can_take_damage rules (cell p ∷ cell attacker ∷ [])) finish

unfoldable pub rg_is_player_can_respawn : Server → Call → Native
rg_is_player_can_respawn server args = do
  rules ← check_game_rules
  p ← connected_player server 1 args
  perform (invoke can_respawn rules (cell p ∷ [])) finish

unfoldable pub rg_restart_round : Native
rg_restart_round = do
  rules ← check_game_rules
  perform (invoke restart_round rules [])
  finish true_cell

unfoldable pub rg_check_win_conditions : Native
rg_check_win_conditions = do
  rules ← check_game_rules
  perform (invoke check_win_conditions rules [])
  finish true_cell

-- The four cells that are written are passed by reference.
unfoldable pub rg_initialize_player_counts : Call → Native
rg_initialize_player_counts args = do
  rules ← check_game_rules
  perform (
      invoke initialize_player_counts rules
        (cell_arg args 1 ∷ cell_arg args 2 ∷ cell_arg args 3 ∷ cell_arg args 4 ∷ []))
  finish true_cell

unfoldable pub rg_reset_can_hear_player : Server → Call → Native
rg_reset_can_hear_player server args = do
  rules ← check_game_rules
  p ← connected_player server 1 args
  helper ← perform (get voice_helper rules)
  perform (invoke reset_can_hear helper (cell p ∷ []))
  finish true_cell

-- Both indices are checked before the first player is looked up.
unfoldable pub two_players : Server → Call → (ℕ → ℕ → Native) → Native
two_players server args rest =
    if is_player server (args.params 1) && is_player server (args.params 2)
    then (do listener ← present_player 1 args; sender ← present_player 2 args; rest listener sender)
    else refuse

unfoldable pub rg_set_can_hear_player : Server → Call → Native
unfolding two_players
rg_set_can_hear_player server args = do
  rules ← check_game_rules
  two_players server args (λ listener sender. do
    helper ← perform (get voice_helper rules)
    perform (invoke set_can_hear helper (cell listener ∷ cell sender ∷ cell (flag args 3) ∷ []))
    finish true_cell)

unfoldable pub rg_get_can_hear_player : Server → Call → Native
unfolding two_players
rg_get_can_hear_player server args = do
  rules ← check_game_rules
  two_players server args (λ listener sender. do
    helper ← perform (get voice_helper rules)
    perform (invoke get_can_hear helper (cell listener ∷ cell sender ∷ [])) finish)
