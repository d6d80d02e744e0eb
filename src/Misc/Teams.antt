-- ===== src/Misc/Teams.antt =====
-- reapi/src/natives/natives_misc.cpp: rg_set_user_team. Numbers of players are 32-bit.
use reapi.Members.Natives.{Call}
use reapi.Misc.Calls.{
  status_icon, cell, text, message, Field, team, model_name, has_c4, has_defuser, body,
  num_terrorist, num_ct, restart_round_time, map_has_bomb_target, remove_player_item,
  drop_player_item, is_alive, set_bomb_icon, set_progress_bar_time, send_item_status,
  set_player_model, team_change_update, start_death_cam, check_win_conditions, give_c4, random_long,
  set_player_team_info, message_begin, write_byte, write_string, message_end, get, put, invoke,
  call, Server, cell_arg, is_positive,
}
use reapi.Misc.{Native, Statement, true_cell, inner_call, connected_player, check_game_rules}
use reapi.Prelude.Programs.{finish, perform, ◌>>=◌, ◌>>◌, when}
use reapi.Prelude.{
  ℕ, ◌+◌, ◌-◌, ◌%◌, ◌^◌, not, ◌&&◌, List, [], ◌∷◌, leb, ◌==◌, if◌then◌else◌, get_elem?, get_or,
}

-- TeamName
abbrev pub terrorist : ℕ
terrorist = 1

abbrev pub ct : ℕ
ct = 2

abbrev pub spectator : ℕ
spectator = 3

-- `modelStruct` of reapi_utils.cpp: the team and the model of each entry.
unfoldable pub model_struct : List (ℕ × ℕ)
model_struct =
    (terrorist, 2)
    ∷ (terrorist, 3)
    ∷ (terrorist, 4)
    ∷ (terrorist, 8)
    ∷ (ct, 1)
    ∷ (ct, 5)
    ∷ (ct, 6)
    ∷ (ct, 7)
    ∷ []

-- GetModelAuto: the loop over the table, with `cur`, and `RANDOM_LONG(cur, cur + 3)`.
unfoldable pub model_from : List (ℕ × ℕ) → ℕ → ℕ → Statement
unfolding model_struct
model_from [] cur wanted rest = rest 0
model_from (entry ∷ entries) cur wanted rest =
    if entry.0 == wanted
    then (do
      i ← perform (call random_long (cell cur ∷ cell (cur + 3) ∷ []))
      rest (get_or (get_elem? model_struct i) (0, 0)).1)
    else model_from entries (cur + 1) wanted rest

unfoldable pub get_model_auto : ℕ → Statement
unfolding model_from model_struct
get_model_auto wanted rest = model_from model_struct 0 wanted rest

-- `++` and `--` on a number of players
unfoldable pub count_up : Field → ℕ → Statement
count_up field rules rest = do
  n ← perform (get field rules)
  perform (put field rules (cell ((n + 1) % 2 ^ 32))) rest

unfoldable pub count_down : Field → ℕ → Statement
count_down field rules rest = do
  n ← perform (get field rules)
  perform (put field rules (cell ((n + (2 ^ 32 - 1)) % 2 ^ 32))) rest

-- "weapon_c4" and "defuser"
abbrev pub weapon_c4 : List ℕ
weapon_c4 = 119 ∷ 101 ∷ 97 ∷ 112 ∷ 111 ∷ 110 ∷ 95 ∷ 99 ∷ 52 ∷ []

abbrev pub defuser : List ℕ
defuser = 100 ∷ 101 ∷ 102 ∷ 117 ∷ 115 ∷ 101 ∷ 114 ∷ []

-- The status icon of the defuser is hidden (STATUSICON_HIDE, 0); MSG_ONE is 1.
unfoldable pub hide_defuser : ℕ → Statement
hide_defuser p rest = do
  perform (call message_begin (cell 1 ∷ message status_icon ∷ cell p ∷ []))
  perform (call write_byte (cell 0 ∷ []))
  perform (call write_string (text defuser ∷ []))
  perform (call message_end []) rest

unfoldable pub drop_bomb : ℕ → Statement
drop_bomb p rest = do
  alive ← perform (invoke is_alive p [])
  if alive == 0 then rest 0 else (inner_call drop_player_item p (text weapon_c4 ∷ [])) rest

-- The bomb of a player who leaves the terrorists, where the map has a target and the round is not
-- restarting: another terrorist gets it, or it is dropped.
unfoldable pub pass_on_bomb : ℕ → ℕ → Statement
unfolding drop_bomb
pass_on_bomb rules p rest = do
  remaining ← perform (get num_terrorist rules)
  if is_positive remaining
      then (do
        removed ← (inner_call remove_player_item p (text weapon_c4 ∷ []))
        if removed == 0 then drop_bomb p rest else (do
          perform (put has_c4 p (cell 0))
          perform (put body p (cell 0))
          inner_call set_bomb_icon p []
          inner_call set_progress_bar_time p (cell 0 ∷ [])
          perform (invoke give_c4 rules []) rest))
      else drop_bomb p rest

-- The two switches, on the new team and on the one before.
unfoldable pub join_count : ℕ → ℕ → Statement
unfolding count_up
join_count rules new rest =
    if new == terrorist
    then count_up num_terrorist rules rest
    else if new == ct
    then count_up num_ct rules rest
    else rest 0

unfoldable pub leave_team : ℕ → ℕ → ℕ → Statement
unfolding count_down hide_defuser pass_on_bomb
leave_team rules p old rest =
    if old == terrorist
    then (do
      count_down num_terrorist rules
      bomb ← perform (get has_c4 p)
      if bomb == 0 then rest 0 else (do
        restarting ← perform (get restart_round_time rules)
        if not (restarting == 0) then rest 0 else (do
          target ← perform (get map_has_bomb_target rules)
          if target == 0 then rest 0 else pass_on_bomb rules p rest)))
    else if old == ct
    then (do
      count_down num_ct rules
      kit ← perform (get has_defuser p)
      if kit == 0 then rest 0 else (do
        perform (put has_defuser p (cell 0))
        perform (put body p (cell 0))
        hide_defuser p
        inner_call send_item_status p [] rest))
    else rest 0

-- MODEL_AUTO is 12. ModelName is compared as a signed number, as MSVC compares enumerations.
unfoldable pub change_model : ℕ → ℕ → ℕ → Statement
unfolding get_model_auto
change_model p new model rest =
    if is_positive model
    then (do
      chosen ← (λ next. if model == 12 then get_model_auto new next else next model)
      perform (put model_name p (cell chosen))
      bomb ← perform (get has_c4 p)
      inner_call set_player_model p (cell bomb ∷ []) rest)
    else rest 0

-- GetTeamName of reapi_utils.h
unfoldable pub team_name : ℕ → List ℕ
team_name c =
    if c == ct
    then 67 ∷ 84 ∷ []
    else if c == terrorist
    then 84 ∷ 69 ∷ 82 ∷ 82 ∷ 79 ∷ 82 ∷ 73 ∷ 83 ∷ 84 ∷ []
    else if c == spectator
    then 83 ∷ 80 ∷ 69 ∷ 67 ∷ 84 ∷ 65 ∷ 84 ∷ 79 ∷ 82 ∷ []
    else 85 ∷ 78 ∷ 65 ∷ 83 ∷ 83 ∷ 73 ∷ 71 ∷ 78 ∷ 69 ∷ 68 ∷ []

-- From the model on: what is told, and to whom.
unfoldable pub announce_team : ℕ → ℕ → Call → Native
unfolding change_model team_name
announce_team rules p args = do
  change_model p (args.params 2) (args.params 3)
  when (not (args.params 4 == 0)) ((inner_call team_change_update p []))
  perform (
      call set_player_team_info
        (cell_arg args 1 ∷ cell_arg args 2 ∷ text (team_name (args.params 2)) ∷ []))
  when (args.params 2 == spectator) (λ rest. do
    alive ← perform (invoke is_alive p [])
    when (alive == 0) ((inner_call start_death_cam p [])) rest)
  when (leb 5 args.count && not (args.params 5 == 0))
      (perform (invoke check_win_conditions rules []))
  finish true_cell

unfoldable pub rg_set_user_team : Server → Call → Native
unfolding join_count leave_team announce_team
rg_set_user_team server args = do
  rules ← check_game_rules
  p ← connected_player server 1 args
  old ← perform (get team p)
  perform (put team p (cell_arg args 2))
  when (not (old == args.params 2))
      (λ rest. do join_count rules (args.params 2); leave_team rules p old rest)
  announce_team rules p args
