-- ===== src/Misc/NullSafe/Rounds.antt =====
-- reapi/src/natives/natives_misc.cpp: natives that use no null pointer (Misc.Rounds, Misc.RoundEnd).
use reapi.Misc.Rounds.{
  change_wins, rg_update_teamscores, rg_set_account_rules, rg_get_account_rules, rg_balance_teams,
  rg_swap_all_players, rg_get_join_team_priority, rg_is_player_can_takedamage,
  rg_is_player_can_respawn, rg_restart_round, rg_check_win_conditions, rg_initialize_player_counts,
  rg_reset_can_hear_player, rg_set_can_hear_player, rg_get_can_hear_player,
}
use reapi.Misc.RoundEnd.{broadcast, end_round, rg_round_end}
use reapi.Misc.NullSafe.Players.{player_rules}
use reapi.Misc.NullSafe.Items.{item_rules}
use reapi.Misc.NullSafe.Guards.{null_safe}
use reapi.Misc.NullSafe.{NullSafe, NativeCode}
use reapi.Members.Natives.{Call}
use reapi.Misc.Calls.{Field, Server}
use reapi.Misc.{Native}
use reapi.Prelude.{◌⊗◌, ℕ, ◌≢◌, List, [], ◌∷◌, All}

pub change_wins-NullSafe :
    (field : Field) (i rules : ℕ) (args : Call) (rest : ℕ → Native)
    → rules ≢ 0
    → ((r : ℕ) → NullSafe (rest r))
    → NullSafe (change_wins field i rules args rest)
unfolding change_wins
change_wins-NullSafe field i rules args rest ne0 safe = search (null_safe) depth 24

pub broadcast-NullSafe :
    (spoken : List ℕ) (rest : ℕ → Native)
    → ((r : ℕ) → NullSafe (rest r))
    → NullSafe (broadcast spoken rest)
unfolding broadcast
broadcast-NullSafe spoken rest safe = search (null_safe) depth 24

pub end_round-NullSafe :
    (rules : ℕ) (said : List ℕ) (event delay status : ℕ)
    → rules ≢ 0
    → NullSafe (end_round rules said event delay status)
unfolding end_round
end_round-NullSafe rules said event delay status ne0 = search (null_safe) depth 24

pub ruleset round_rules = (
  null_safe, player_rules, item_rules, change_wins-NullSafe, broadcast-NullSafe, end_round-NullSafe,
)

pub rg_update_teamscores-NullSafe : (args : Call) → NullSafe (rg_update_teamscores args)
unfolding rg_update_teamscores
rg_update_teamscores-NullSafe args = search round_rules depth 24

pub rg_set_account_rules-NullSafe : (args : Call) → NullSafe (rg_set_account_rules args)
unfolding rg_set_account_rules
rg_set_account_rules-NullSafe args = search round_rules depth 24

pub rg_get_account_rules-NullSafe : (args : Call) → NullSafe (rg_get_account_rules args)
unfolding rg_get_account_rules
rg_get_account_rules-NullSafe args = search round_rules depth 24

pub rg_balance_teams-NullSafe : NullSafe (rg_balance_teams)
unfolding rg_balance_teams
rg_balance_teams-NullSafe = search round_rules depth 24

pub rg_swap_all_players-NullSafe : NullSafe (rg_swap_all_players)
unfolding rg_swap_all_players
rg_swap_all_players-NullSafe = search round_rules depth 24

pub rg_get_join_team_priority-NullSafe : NullSafe (rg_get_join_team_priority)
unfolding rg_get_join_team_priority
rg_get_join_team_priority-NullSafe = search round_rules depth 24

pub rg_is_player_can_takedamage-NullSafe :
    (server : Server) (args : Call) → NullSafe (rg_is_player_can_takedamage server args)
unfolding rg_is_player_can_takedamage
rg_is_player_can_takedamage-NullSafe server args = search round_rules depth 24

pub rg_is_player_can_respawn-NullSafe :
    (server : Server) (args : Call) → NullSafe (rg_is_player_can_respawn server args)
unfolding rg_is_player_can_respawn
rg_is_player_can_respawn-NullSafe server args = search round_rules depth 24

pub rg_restart_round-NullSafe : NullSafe (rg_restart_round)
unfolding rg_restart_round
rg_restart_round-NullSafe = search round_rules depth 24

pub rg_check_win_conditions-NullSafe : NullSafe (rg_check_win_conditions)
unfolding rg_check_win_conditions
rg_check_win_conditions-NullSafe = search round_rules depth 24

pub rg_initialize_player_counts-NullSafe :
    (args : Call) → NullSafe (rg_initialize_player_counts args)
unfolding rg_initialize_player_counts
rg_initialize_player_counts-NullSafe args = search round_rules depth 24

pub rg_reset_can_hear_player-NullSafe :
    (server : Server) (args : Call) → NullSafe (rg_reset_can_hear_player server args)
unfolding rg_reset_can_hear_player
rg_reset_can_hear_player-NullSafe server args = search round_rules depth 24

pub rg_set_can_hear_player-NullSafe :
    (server : Server) (args : Call) → NullSafe (rg_set_can_hear_player server args)
unfolding rg_set_can_hear_player
rg_set_can_hear_player-NullSafe server args = search round_rules depth 24

pub rg_get_can_hear_player-NullSafe :
    (server : Server) (args : Call) → NullSafe (rg_get_can_hear_player server args)
unfolding rg_get_can_hear_player
rg_get_can_hear_player-NullSafe server args = search round_rules depth 24

pub rg_round_end-NullSafe : (args : Call) → NullSafe (rg_round_end args)
unfolding rg_round_end
rg_round_end-NullSafe args = search round_rules depth 24

-- The natives above.
unfoldable pub round_natives : List NativeCode
round_natives =
    (λ n server args. rg_update_teamscores args)
    ∷ (λ n server args. rg_set_account_rules args)
    ∷ (λ n server args. rg_get_account_rules args)
    ∷ (λ n server args. rg_balance_teams)
    ∷ (λ n server args. rg_swap_all_players)
    ∷ (λ n server args. rg_get_join_team_priority)
    ∷ (λ n server args. rg_is_player_can_takedamage server args)
    ∷ (λ n server args. rg_is_player_can_respawn server args)
    ∷ (λ n server args. rg_restart_round)
    ∷ (λ n server args. rg_check_win_conditions)
    ∷ (λ n server args. rg_initialize_player_counts args)
    ∷ (λ n server args. rg_reset_can_hear_player server args)
    ∷ (λ n server args. rg_set_can_hear_player server args)
    ∷ (λ n server args. rg_get_can_hear_player server args)
    ∷ (λ n server args. rg_round_end args)
    ∷ []

pub round_natives-NullSafe :
    (n : ℕ) (server : Server) (args : Call)
    → All (λ native. NullSafe (native n server args)) round_natives
unfolding round_natives
round_natives-NullSafe n server args =
    rg_update_teamscores-NullSafe args
    ⊗ rg_set_account_rules-NullSafe args
    ⊗ rg_get_account_rules-NullSafe args
    ⊗ rg_balance_teams-NullSafe
    ⊗ rg_swap_all_players-NullSafe
    ⊗ rg_get_join_team_priority-NullSafe
    ⊗ rg_is_player_can_takedamage-NullSafe server args
    ⊗ rg_is_player_can_respawn-NullSafe server args
    ⊗ rg_restart_round-NullSafe
    ⊗ rg_check_win_conditions-NullSafe
    ⊗ rg_initialize_player_counts-NullSafe args
    ⊗ rg_reset_can_hear_player-NullSafe server args
    ⊗ rg_set_can_hear_player-NullSafe server args
    ⊗ rg_get_can_hear_player-NullSafe server args
    ⊗ rg_round_end-NullSafe args
    ⊗ tt
