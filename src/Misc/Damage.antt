-- ===== src/Misc/Damage.antt =====
-- reapi/src/natives/natives_misc.cpp: the natives that deal damage and fire bullets.
use reapi.Members.Natives.{Call}
use reapi.Misc.Calls.{
  cell, fire_bullets, fire_buckshots, fire_bullets3, radius_damage, clear_multi_damage,
  apply_multi_damage, add_multi_damage, write_vector, call, Server, is_negative, flag, vector_arg,
  vars_arg, cell_arg,
}
use reapi.Misc.{Native, true_cell, refuse, inner_call, check_entity, private_arg}
use reapi.Prelude.Programs.{finish, perform, ◌>>=◌, ◌>>◌}
use reapi.Prelude.{[], ◌∷◌, if◌then◌else◌}

unfoldable pub rg_dmg_radius : Server → Call → Native
rg_dmg_radius server args = do
  check_entity server 2 args
  check_entity server 3 args
  perform (
      call radius_damage (
        vector_arg args 1
        ∷ vars_arg args 2
        ∷ vars_arg args 3
        ∷ cell_arg args 4
        ∷ cell_arg args 5
        ∷ cell_arg args 6
        ∷ cell_arg args 7
        ∷ []))
  finish true_cell

unfoldable pub rg_multidmg_clear : Native
rg_multidmg_clear = do perform (call clear_multi_damage []); finish true_cell

unfoldable pub rg_multidmg_apply : Server → Call → Native
rg_multidmg_apply server args = do
  check_entity server 1 args
  check_entity server 2 args
  perform (call apply_multi_damage (vars_arg args 1 ∷ vars_arg args 2 ∷ []))
  finish true_cell

unfoldable pub rg_multidmg_add : Server → Call → Native
rg_multidmg_add server args = do
  check_entity server 1 args
  check_entity server 2 args
  if is_negative (args.params 2) then refuse else (do
    victim ← private_arg 2 args
    perform (
        call add_multi_damage
          (vars_arg args 1 ∷ cell victim ∷ cell_arg args 3 ∷ cell_arg args 4 ∷ []))
    finish true_cell)

-- The inflictor is not compared with null.
unfoldable pub rg_fire_bullets : Server → Call → Native
rg_fire_bullets server args = do
  check_entity server 1 args
  check_entity server 2 args
  inflictor ← private_arg 1 args
  inner_call fire_bullets inflictor (
      cell_arg args 3
      ∷ vector_arg args 4
      ∷ vector_arg args 5
      ∷ vector_arg args 6
      ∷ cell_arg args 7
      ∷ cell_arg args 8
      ∷ cell_arg args 9
      ∷ cell_arg args 10
      ∷ vars_arg args 2
      ∷ [])
  finish true_cell

unfoldable pub rg_fire_buckshots : Server → Call → Native
rg_fire_buckshots server args = do
  check_entity server 1 args
  check_entity server 2 args
  inflictor ← private_arg 1 args
  inner_call fire_buckshots inflictor (
      cell_arg args 3
      ∷ vector_arg args 4
      ∷ vector_arg args 5
      ∷ vector_arg args 6
      ∷ cell_arg args 7
      ∷ cell_arg args 8
      ∷ cell_arg args 9
      ∷ vars_arg args 2
      ∷ [])
  finish true_cell

-- The result is the place of a vector, which is copied to the plugin.
unfoldable pub rg_fire_bullets3 : Server → Call → Native
rg_fire_bullets3 server args = do
  check_entity server 1 args
  check_entity server 2 args
  inflictor ← private_arg 1 args
  place ← inner_call fire_bullets3 inflictor (
      vector_arg args 3
      ∷ vector_arg args 4
      ∷ cell_arg args 5
      ∷ cell_arg args 6
      ∷ cell_arg args 7
      ∷ cell_arg args 8
      ∷ cell_arg args 9
      ∷ cell_arg args 10
      ∷ vars_arg args 2
      ∷ cell (flag args 11)
      ∷ cell_arg args 12
      ∷ [])
  perform (call write_vector (cell_arg args 13 ∷ cell place ∷ []))
  finish true_cell
