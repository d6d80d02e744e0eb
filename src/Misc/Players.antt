-- ===== src/Misc/Players.antt =====
-- reapi/src/natives/natives_misc.cpp: the natives that call a method of a player.
use reapi.Members.Natives.{Call}
use reapi.Misc.Calls.{
  armor_type, cell, text, model_file, float_of, message, has_disconnected, account, kevlar,
  armor_value, has_c4, time_step_sound, pev_time_step_sound, set_animation, add_account,
  give_default_items, give_shield, remove_player_item_ex, drop_player_item, remove_all_items,
  client_command, set_player_model, set_player_model_ex, set_new_player_model, player_by_index,
  index_of_private, info_buffer, key_value, write_cell, truncated, is_float_equal, message_begin,
  write_byte, message_end, get, put, call, Server, null_entity, truth, flag, text_arg, cell_arg,
}
use reapi.Misc.{Native, false_cell, true_cell, refuse, inner_call, is_player, connected_player}
use reapi.Prelude.Programs.{finish, perform, ◌>>=◌, ◌>>◌, when}
use reapi.Prelude.{ℕ, Bool, true, false, not, ◌||◌, List, [], ◌∷◌, ◌++◌, ◌==◌, if◌then◌else◌, take}

-- `return value ? TRUE : FALSE` for the value of a call
unfoldable pub as_bool : ℕ → Native
as_bool c = finish (if c == 0 then false_cell else true_cell)

unfoldable pub rg_set_animation : Server → Call → Native
rg_set_animation server args = do
  p ← connected_player server 1 args
  inner_call set_animation p (cell_arg args 2 ∷ [])
  finish true_cell

-- With AS_SET, 0, the account is emptied first; the reason is RT_NONE, 0.
unfoldable pub rg_add_account : Server → Call → Native
rg_add_account server args = do
  p ← connected_player server 1 args
  when (args.params 3 == 0) (perform (put account p (cell 0)))
  inner_call add_account p (cell_arg args 2 ∷ cell 0 ∷ cell (flag args 4) ∷ [])
  finish true_cell

unfoldable pub rg_give_default_items : Server → Call → Native
rg_give_default_items server args = do
  p ← connected_player server 1 args
  inner_call give_default_items p []
  finish true_cell

unfoldable pub rg_give_shield : Server → Call → Native
rg_give_shield server args = do
  p ← connected_player server 1 args
  inner_call give_shield p (cell (flag args 2) ∷ [])
  finish true_cell

unfoldable pub rg_remove_all_items : Server → Call → Native
rg_remove_all_items server args = do
  p ← connected_player server 1 args
  inner_call remove_all_items p (cell (flag args 2) ∷ [])
  finish true_cell

unfoldable pub rg_drop_item : Server → Call → Native
rg_drop_item server args = do
  p ← connected_player server 1 args
  e ← (inner_call drop_player_item p (text (text_arg args 2) ∷ []))
  if e == 0 then finish null_entity else perform (call index_of_private (cell e ∷ [])) finish

-- Here a player who is not there is no error: nothing is logged.
unfoldable pub rg_internal_cmd : Server → Call → Native
rg_internal_cmd server args =
    if is_player server (args.params 1)
    then (do
      p ← perform (call player_by_index (cell_arg args 1 ∷ []))
      if p == 0 then finish false_cell else (do
        gone ← perform (get has_disconnected p)
        if gone == 0
            then (do
              inner_call client_command p (text (text_arg args 2) ∷ text (text_arg args 3) ∷ [])
              finish true_cell)
            else finish false_cell))
    else refuse

unfoldable pub rg_remove_item : Server → Call → Native
unfolding as_bool
rg_remove_item server args = do
  p ← connected_player server 1 args
  removed ← inner_call remove_player_item_ex p (text (text_arg args 2) ∷ cell (flag args 3) ∷ [])
  as_bool removed

unfoldable pub rg_get_user_armor : Server → Call → Native
rg_get_user_armor server args = do
  p ← connected_player server 1 args
  kind ← perform (get kevlar p)
  perform (call write_cell (cell_arg args 2 ∷ cell kind ∷ []))
  value ← perform (get armor_value p)
  perform (call truncated (cell value ∷ [])) finish

-- ARMOR_KEVLAR is 1 and ARMOR_VESTHELM 2; MSG_ONE is 1.
unfoldable pub rg_set_user_armor : Server → Call → Native
rg_set_user_armor server args = do
  p ← connected_player server 1 args
  perform (put armor_value p (float_of (args.params 2)))
  perform (put kevlar p (cell_arg args 3))
  when ((args.params 3 == 1) || (args.params 3 == 2)) (λ rest. do
    perform (call message_begin (cell 1 ∷ message armor_type ∷ cell p ∷ []))
    perform (call write_byte (cell (truth (args.params 3 == 2)) ∷ []))
    perform (call message_end []) rest)
  finish true_cell

-- `models/player/%s/%s.mdl`
unfoldable pub model_path : List ℕ → List ℕ
model_path name =
    (109 ∷ 111 ∷ 100 ∷ 101 ∷ 108 ∷ 115 ∷ 47 ∷ 112 ∷ 108 ∷ 97 ∷ 121 ∷ 101 ∷ 114 ∷ 47 ∷ [])
    ++ name
    ++ (47 ∷ [])
    ++ name
    ++ (46 ∷ 109 ∷ 100 ∷ 108 ∷ [])

unfoldable pub is_empty_text : List ℕ → Bool
is_empty_text [] = true
is_empty_text (c ∷ s) = false

-- `snprintf` cuts the path off at MAX_PATH - 1 = 259 characters.
unfoldable pub rg_set_user_model : Server → Call → Native
unfolding model_path is_empty_text refuse
rg_set_user_model server args = do
  p ← connected_player server 1 args
  if is_empty_text (text_arg args 2) then refuse else (do
    inner_call set_player_model_ex p (text (text_arg args 2) ∷ [])
    bomb ← perform (get has_c4 p)
    inner_call set_player_model p (cell bomb ∷ [])
    when (not (args.params 3 == 0))
        (inner_call set_new_player_model p (text (take 259 (model_path (text_arg args 2))) ∷ []))
    finish true_cell)

-- The path of the model is made by `snprintf` from the model of the info buffer.
unfoldable pub rg_reset_user_model : Server → Call → Native
rg_reset_user_model server args = do
  p ← connected_player server 1 args
  inner_call set_player_model_ex p (text [] ∷ [])
  bomb ← perform (get has_c4 p)
  inner_call set_player_model p (cell bomb ∷ [])
  when (not (args.params 2 == 0)) (λ rest. do
    buffer ← perform (call info_buffer (cell p ∷ []))
    model ← perform (call key_value (cell buffer ∷ text (109 ∷ 111 ∷ 100 ∷ 101 ∷ 108 ∷ []) ∷ []))
    inner_call set_new_player_model p (model_file model ∷ []) rest)
  finish true_cell

unfoldable pub rg_set_user_footsteps : Server → Call → Native
rg_set_user_footsteps server args = do
  p ← connected_player server 1 args
  if args.params 2 == 0
      then (do
        perform (put time_step_sound p (float_of 0))
        perform (put pev_time_step_sound p (cell 400))
        finish true_cell)
      else (do
        perform (put time_step_sound p (float_of 999))
        perform (put pev_time_step_sound p (cell 999))
        finish true_cell)

-- The comparison of the float with 999.
unfoldable pub rg_get_user_footsteps : Server → Call → Native
rg_get_user_footsteps server args = do
  p ← connected_player server 1 args
  time ← perform (get time_step_sound p)
  perform (call is_float_equal (cell time ∷ float_of 999 ∷ [])) finish
