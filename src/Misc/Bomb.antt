-- ===== src/Misc/Bomb.antt =====
-- reapi/src/natives/natives_misc.cpp: the natives on the bomb and on defuse kits.
use reapi.Members.Natives.{Call}
use reapi.Misc.Teams.{terrorist, ct, weapon_c4, hide_defuser}
use reapi.Misc.Calls.{
  status_icon, cell, text, with_bit, message, team, has_c4, has_defuser, body, flags,
  map_has_bomb_target, map_has_bomb_zone, pev, remove_player_item_ex, make_bomber, give_c4,
  initialize_player_counts, is_bomb_planted, index_of_private, plant_bomb, alive_terrorists,
  truncated, message_begin, write_byte, write_string, message_end, get, put, invoke, call, Server,
  null_entity, flag, text_arg, vector_arg, is_below,
}
use reapi.Misc.{
  Native, Statement, false_cell, true_cell, present_player, inner_call, is_player, connected_player,
  check_game_rules,
}
use reapi.Prelude.Programs.{finish, perform, ◌>>=◌, ◌>>◌}
use reapi.Prelude.{ℕ, not, ◌&&◌, [], ◌∷◌, ◌==◌, if◌then◌else◌}

-- STATUSICON_SHOW is 1 and STATUSICON_FLASH 2; the bytes of the colour are converted from floats.
unfoldable pub show_kit : ℕ → Call → Statement
show_kit p args rest =
    let words = (args.input (args.params 3)).words in
    do
      perform (call message_begin (cell 1 ∷ message status_icon ∷ cell p ∷ []))
      perform (call write_byte (cell (if args.params 5 == 0 then 1 else 2) ∷ []))
      perform (call write_string (text (text_arg args 4) ∷ []))
      red ← perform (call truncated (cell (words 0) ∷ []))
      perform (call write_byte (cell red ∷ []))
      green ← perform (call truncated (cell (words 1) ∷ []))
      perform (call write_byte (cell green ∷ []))
      blue ← perform (call truncated (cell (words 2) ∷ []))
      perform (call write_byte (cell blue ∷ []))
      perform (call message_end []) rest

unfoldable pub rg_give_defusekit : Server → Call → Native
unfolding show_kit hide_defuser
rg_give_defusekit server args = do
  rules ← check_game_rules
  p ← connected_player server 1 args
  target ← perform (get map_has_bomb_target rules)
  zone ← (λ next. if target == 0 then perform (get map_has_bomb_zone rules) next else next 1)
  if zone == 0 then finish false_cell else (do
    side ← perform (get team p)
    if not (side == ct) then finish false_cell else (do
      perform (put has_defuser p (cell (flag args 2)))
      perform (put body p (cell (flag args 2)))
      (λ rest. if args.params 2 == 0 then hide_defuser p rest else show_kit p args rest)
      finish true_cell))

-- To whom the bomb goes when no player is named: FL_DORMANT is 1 << 31, and it hides the player who
-- gives the bomb away from the choice.
unfoldable pub give_to_another : ℕ → ℕ → Statement
give_to_another rules p rest = do
  perform (invoke initialize_player_counts rules [])
  alive ← perform (call alive_terrorists [])
  side ← perform (get team p)
  if (side == ct) && is_below alive 1
      then finish false_cell
      else if (side == terrorist) && is_below alive 2
      then finish false_cell
      else (do
        removed ← (inner_call remove_player_item_ex p (text weapon_c4 ∷ cell 1 ∷ []))
        if removed == 0 then finish false_cell else (do
          before ← perform (get flags p)
          perform (put flags p (with_bit before 31))
          receiver ← perform (invoke give_c4 rules [])
          perform (put flags p (cell before))
          rest receiver))

unfoldable pub give_to_player : ℕ → Call → Statement
give_to_player p args rest = do
  receiver ← present_player 2 args
  removed ← (inner_call remove_player_item_ex p (text weapon_c4 ∷ cell 1 ∷ []))
  if removed == 0 then finish false_cell else (do
    made ← (inner_call make_bomber receiver [])
    if made == 0 then finish false_cell else rest receiver)

unfoldable pub rg_transfer_c4 : Server → Call → Native
unfolding give_to_another give_to_player
rg_transfer_c4 server args = do
  rules ← check_game_rules
  p ← connected_player server 1 args
  bomb ← perform (get has_c4 p)
  if bomb == 0 then finish false_cell else (do
    receiver ← (λ next.
        if is_player server (args.params 2)
        then give_to_player p args next
        else give_to_another rules p next)
    if receiver == 0
        then finish false_cell
        else perform (call index_of_private (cell receiver ∷ [])) finish)

unfoldable pub rg_plant_bomb : Server → Call → Native
rg_plant_bomb server args = do
  holder ← (λ next.
      if args.params 1 == 0
      then next 0
      else connected_player server 1 args (λ p. perform (get pev p) next))
  bomb ← perform (call plant_bomb (cell holder ∷ vector_arg args 2 ∷ vector_arg args 3 ∷ []))
  if bomb == 0 then finish null_entity else perform (call index_of_private (cell bomb ∷ [])) finish

unfoldable pub rg_is_bomb_planted : Native
rg_is_bomb_planted = do rules ← check_game_rules; perform (invoke is_bomb_planted rules []) finish
