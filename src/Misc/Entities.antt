-- ===== src/Misc/Entities.antt =====
-- reapi/src/natives/natives_misc.cpp: the natives that create and find entities.
use reapi.Members.Natives.{Call, arg_cell}
use reapi.Misc.ItemInfo.{alloc_arg}
use reapi.Misc.Calls.{
  cell, text, edict, containing, pev, index_of_edict, create_named_entity, create_named_entity2,
  edict_owner, edict_private, edict_free, edict_is_class, edict_at, find_entity_by_string,
  private_find_by_string, write_cell, get, call, Server, null_entity, is_negative, text_arg,
  edict_arg, cell_arg,
}
use reapi.Misc.{Native, Statement, false_cell, true_cell, check_entity, private_arg}
use reapi.Prelude.Programs.{finish, perform, ◌>>=◌, ◌>>◌}
use reapi.Prelude.{ℕ, zero, suc, ◌-◌, not, ◌||◌, List, [], ◌∷◌, leb, ◌==◌, if◌then◌else◌}

unfoldable pub rg_create_entity : Call → Native
rg_create_entity args = do
  name ← alloc_arg args 1
  e ← perform (
      call (if args.params 2 == 0 then create_named_entity else create_named_entity2)
        (cell name ∷ []))
  if e == 0 then finish 0 else perform (call index_of_edict (cell e ∷ [])) finish

unfoldable pub rg_find_ent_by_class : Call → Native
rg_find_ent_by_class args =
    if args.params 3 == 0
    then (do
      found ← perform (call find_entity_by_string (edict_arg args 1 ∷ text (text_arg args 2) ∷ []))
      if found == 0 then finish 0 else perform (call index_of_edict (cell found ∷ [])) finish)
    else (do
      start ← private_arg 1 args
      found ← perform (call private_find_by_string (cell start ∷ text (text_arg args 2) ∷ []))
      if found == 0 then finish 0 else (do
        place ← perform (get pev found)
        e ← perform (get containing place)
        perform (call index_of_edict (cell e ∷ [])) finish))

-- `clamp(startIndex, AMX_NULLENT, maxEntities - 1)`, plus one: where the search starts.
unfoldable pub first_index : Server → ℕ → ℕ
first_index server c =
    if is_negative c then 0 else if leb server.max_entities c then server.max_entities else suc c

-- The clamped index, as it is written back before the search.
unfoldable pub clamped_index : Server → ℕ → ℕ
clamped_index server c =
    if is_negative c
    then null_entity
    else if leb server.max_entities c
    then server.max_entities - 1
    else c

-- The loop of rg_find_ent_by_owner: so many entities from one on. The entity at an index is the edict
-- `g_pEdicts + index`, which is not null.
unfoldable pub find_by_owner : ℕ → ℕ → ℕ → List ℕ → Statement
find_by_owner zero i wanted name rest = rest 0
find_by_owner (suc n) i wanted name rest = do
  held ← perform (call edict_owner (edict i ∷ []))
  if held == wanted
      then (do
        pdata ← perform (call edict_private (edict i ∷ []))
        freed ← perform (call edict_free (edict i ∷ []))
        if (pdata == 0) || not (freed == 0) then find_by_owner n (suc i) wanted name rest else (do
          same ← perform (call edict_is_class (edict i ∷ text name ∷ []))
          if same == 0 then find_by_owner n (suc i) wanted name rest else rest (suc i)))
      else find_by_owner n (suc i) wanted name rest

-- The start index is a cell of the plugin, which is written before the search and again with what was
-- found.
unfoldable pub rg_find_ent_by_owner : Server → Call → Native
unfolding find_by_owner first_index clamped_index
rg_find_ent_by_owner server args = do
  check_entity server 3 args
  perform (call write_cell (cell_arg args 1 ∷ cell (clamped_index server (arg_cell args 1)) ∷ []))
  wanted ← perform (call edict_at (cell_arg args 3 ∷ []))
  let first = first_index server (arg_cell args 1) in
      do
        found ← find_by_owner (server.max_entities - first) first wanted (text_arg args 2)
        if found == 0 then finish false_cell else (do
          perform (call write_cell (cell_arg args 1 ∷ cell (found - 1) ∷ []))
          finish true_cell)
