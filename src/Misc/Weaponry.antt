-- ===== src/Misc/Weaponry.antt =====
-- reapi/src/natives/natives_misc.cpp: the natives on the weapon that a player holds or that is given.
use reapi.Members.Natives.{Call}
use reapi.Misc.Players.{as_bool}
use reapi.Misc.Calls.{
  cell, text, max_clip, active_item, is_alive, item_of, get_next_best_weapon, weapon_of,
  default_deploy, default_reload, default_shotgun_reload, send_weapon_anim, kick_back, get, invoke,
  Server, chars_arg, cell_arg, is_positive,
}
use reapi.Misc.{
  Native, Statement, false_cell, true_cell, refuse, is_player, connected_player, check_entity,
  check_game_rules, private_arg, check_weapon,
}
use reapi.Prelude.Programs.{finish, perform, ◌>>=◌, ◌>>◌}
use reapi.Prelude.{ℕ, [], ◌∷◌, ◌==◌, if◌then◌else◌}

-- The weapon that an index names: what the player at the index holds, if he is alive, or the entity.
unfoldable pub named_weapon : Server → Call → Statement
named_weapon server args rest =
    if is_player server (args.params 1)
    then (do
      p ← connected_player server 1 args
      alive ← perform (invoke is_alive p [])
      if alive == 0 then refuse else (do weapon ← perform (get active_item p); rest weapon))
    else (do check_entity server 1 args; private_arg 1 args rest)

-- The refusals of what is no weapon, and its CSPlayerWeapon().
unfoldable pub game_weapon : ℕ → (ℕ → ℕ → Native) → Native
game_weapon weapon rest = if weapon == 0 then refuse else (do
  w ← check_weapon weapon
  device ← perform (invoke weapon_of w [])
  if device == 0 then refuse else rest w device)

-- The buffer of the animation is for 32 characters, and those of the models for MAX_PATH, 260.
unfoldable pub rg_weapon_deploy : Server → Call → Native
unfolding game_weapon
rg_weapon_deploy server args = do
  check_entity server 1 args
  weapon ← private_arg 1 args
  game_weapon weapon (λ w device. do
    done ← perform (
        invoke default_deploy device (
          text (chars_arg 258 args 2)
          ∷ text (chars_arg 258 args 3)
          ∷ cell_arg args 4
          ∷ text (chars_arg 30 args 5)
          ∷ cell_arg args 6
          ∷ []))
    as_bool done)

unfoldable pub rg_weapon_reload : Server → Call → Native
unfolding named_weapon game_weapon
rg_weapon_reload server args = do
  weapon ← named_weapon server args
  game_weapon weapon (λ w device. do
    size ← (λ next.
        if is_positive (args.params 2)
        then next (args.params 2)
        else (do item ← perform (invoke item_of w []); perform (get max_clip item) next))
    done ←
        perform (invoke default_reload device (cell size ∷ cell_arg args 3 ∷ cell_arg args 4 ∷ []))
    as_bool done)

unfoldable pub rg_weapon_shotgun_reload : Server → Call → Native
unfolding named_weapon game_weapon
rg_weapon_shotgun_reload server args = do
  weapon ← named_weapon server args
  game_weapon weapon (λ w device. do
    done ← perform (
        invoke default_shotgun_reload device (
          cell_arg args 2
          ∷ cell_arg args 3
          ∷ cell_arg args 4
          ∷ cell_arg args 5
          ∷ text (chars_arg 258 args 6)
          ∷ text (chars_arg 258 args 7)
          ∷ []))
    as_bool done)

unfoldable pub rg_weapon_send_animation : Server → Call → Native
unfolding named_weapon game_weapon
rg_weapon_send_animation server args = do
  weapon ← named_weapon server args
  game_weapon weapon (λ w device. do
    perform (invoke send_weapon_anim device (cell_arg args 2 ∷ cell_arg args 3 ∷ []))
    finish true_cell)

unfoldable pub rg_weapon_kickback : Server → Call → Native
unfolding named_weapon game_weapon
rg_weapon_kickback server args = do
  weapon ← named_weapon server args
  game_weapon weapon (λ w device. do
    perform (
        invoke kick_back device (
          cell_arg args 2
          ∷ cell_arg args 3
          ∷ cell_arg args 4
          ∷ cell_arg args 5
          ∷ cell_arg args 6
          ∷ cell_arg args 7
          ∷ cell_arg args 8
          ∷ []))
    finish true_cell)

unfoldable pub rg_switch_best_weapon : Server → Call → Native
rg_switch_best_weapon server args = do
  rules ← check_game_rules
  p ← connected_player server 1 args
  alive ← perform (invoke is_alive p [])
  if alive == 0 then finish false_cell else (do
    weapon ← (λ next.
        if args.params 2 == 0
        then perform (get active_item p) next
        else (do check_entity server 2 args; private_arg 2 args next))
    if weapon == 0 then refuse else (do
      w ← check_weapon weapon
      perform (invoke get_next_best_weapon rules (cell p ∷ cell w ∷ [])) finish))
