-- ===== src/Misc/World.antt =====
-- reapi/src/natives/natives_misc.cpp: the natives on entities and traces.
use reapi.Members.Natives.{Call}
use reapi.Misc.Players.{as_bool, is_empty_text}
use reapi.Misc.Items.{entity_index}
use reapi.Misc.Calls.{
  cell, text, string_at, has_disconnected, flags, alloc_string, create_weapon_box, remove,
  decal_trace, texture_sound, add_ammo_name, set_trace_flags, trace_line, trace_hull, has_flag, get,
  call, Server, flag, short_text_arg, chars_arg, vector_arg, edict_arg, cell_arg, is_positive,
}
use reapi.Misc.{
  Native, Statement, false_cell, true_cell, refuse, is_player, check_entity, private_arg,
  check_private,
}
use reapi.Prelude.Programs.{finish, perform, ◌>>=◌, ◌>>◌}
use reapi.Prelude.{ℕ, not, [], ◌∷◌, ◌==◌, if◌then◌else◌}

-- The player of a weapon box is the private data at the index, and need not be named.
unfoldable pub box_owner : Server → Call → Statement
box_owner server args rest =
    if is_positive (args.params 2)
    then (if is_player server (args.params 2)
        then (do
          p ← private_arg 2 args
          if p == 0 then refuse else (do
            gone ← perform (get has_disconnected p)
            if gone == 0 then rest p else refuse))
        else refuse)
    else rest 0

unfoldable pub rg_create_weaponbox : Server → Call → Native
unfolding box_owner
rg_create_weaponbox server args = do
  check_entity server 1 args
  item ← check_private 1 args
  p ← box_owner server args
  box ← perform (
      call create_weapon_box (
        cell item
        ∷ cell p
        ∷ text (chars_arg 258 args 3)
        ∷ vector_arg args 4
        ∷ vector_arg args 5
        ∷ vector_arg args 6
        ∷ cell_arg args 7
        ∷ cell (flag args 8)
        ∷ []))
  entity_index box

-- FL_KILLME is 1 << 30.
unfoldable pub is_killed : ℕ → Statement
is_killed e rest = do
  bits ← perform (get flags e)
  perform (call has_flag (cell bits ∷ cell 30 ∷ [])) rest

unfoldable pub rg_remove_entity : Server → Call → Native
unfolding is_killed
rg_remove_entity server args = do
  check_entity server 1 args
  e ← private_arg 1 args
  if e == 0 then finish false_cell else (do
    before ← is_killed e
    if not (before == 0)
        then finish false_cell
        else (do perform (call remove (cell e ∷ [])); after ← is_killed e; as_bool after))

unfoldable pub rg_decal_trace : Call → Native
rg_decal_trace args = do
  perform (call decal_trace (cell_arg args 1 ∷ cell_arg args 2 ∷ []))
  finish true_cell

unfoldable pub rg_emit_texture_sound : Call → Native
rg_emit_texture_sound args = do
  perform (
      call texture_sound
        (cell_arg args 1 ∷ vector_arg args 2 ∷ vector_arg args 3 ∷ cell_arg args 4 ∷ []))
  finish true_cell

-- No string is allocated for an empty name.
unfoldable pub rg_add_ammo_registry : Call → Native
rg_add_ammo_registry args = if is_empty_text (short_text_arg args 1) then refuse else (do
  name ← perform (call alloc_string (text (short_text_arg args 1) ∷ []))
  perform (call add_ammo_name (string_at name ∷ [])) finish)

unfoldable pub rg_trace_line : Call → Native
rg_trace_line args = do
  perform (call set_trace_flags (cell_arg args 6 ∷ []))
  perform (
      call trace_line (
        vector_arg args 1
        ∷ vector_arg args 2
        ∷ cell_arg args 3
        ∷ edict_arg args 4
        ∷ cell_arg args 5
        ∷ []))
  finish true_cell

unfoldable pub rg_trace_hull : Call → Native
rg_trace_hull args = do
  perform (call set_trace_flags (cell_arg args 7 ∷ []))
  perform (
      call trace_hull (
        vector_arg args 1
        ∷ vector_arg args 2
        ∷ cell_arg args 3
        ∷ cell_arg args 4
        ∷ edict_arg args 5
        ∷ cell_arg args 6
        ∷ []))
  perform (call set_trace_flags (cell 0 ∷ []))
  finish true_cell
