-- ===== src/Misc/Ammo.antt =====
-- reapi/src/natives/natives_misc.cpp: the natives on the ammunition of a player.
--
-- The number `n` of rounds is for the items in one slot, which are linked by `m_pNext`.
use reapi.Members.Natives.{Call}
use reapi.Misc.Calls.{
  rg_ammo, item_id, primary_ammo_type, clip, slot, weapon_id, is_weapon, weapon_slot_by_id, get,
  put, invoke, call, Server, truth, cell_arg,
}
use reapi.Misc.{
  Native, Statement, false_cell, true_cell, connected_player, each_item, each_slot, max_item_types,
}
use reapi.Prelude.Programs.{finish, perform, ◌>>=◌, ◌>>◌}
use reapi.Prelude.{ℕ, [], ◌∷◌, ◌==◌, if◌then◌else◌}

-- The functor of the loops: `IsWeapon() && m_iId == pInfo->id`, where the second is asked only behind
-- the first.
unfoldable pub is_that_weapon : ℕ → ℕ → Statement
is_that_weapon info item rest = do
  weapon ← perform (invoke is_weapon item [])
  if weapon == 0 then rest 0 else (do
    id ← perform (get item_id item)
    wanted ← perform (get weapon_id info)
    rest (truth (id == wanted)))

-- GetWeaponSlot of the weapon that the second argument names.
unfoldable pub known_weapon : Call → Statement
known_weapon args rest = do
  info ← perform (call weapon_slot_by_id (cell_arg args 2 ∷ []))
  if info == 0 then finish false_cell else rest info

unfoldable pub rg_set_user_bpammo : ℕ → Server → Call → Native
unfolding is_that_weapon known_weapon
rg_set_user_bpammo n server args = do
  p ← connected_player server 1 args
  info ← known_weapon args
  weapon ← each_slot n max_item_types p 0 (is_that_weapon info)
  if weapon == 0 then finish false_cell else (do
    kind ← perform (get primary_ammo_type weapon)
    perform (put (rg_ammo kind) p (cell_arg args 3))
    finish true_cell)

unfoldable pub rg_get_user_bpammo : ℕ → Server → Call → Native
unfolding is_that_weapon known_weapon
rg_get_user_bpammo n server args = do
  p ← connected_player server 1 args
  info ← known_weapon args
  weapon ← each_slot n max_item_types p 0 (is_that_weapon info)
  if weapon == 0
      then finish false_cell
      else (do kind ← perform (get primary_ammo_type weapon); perform (get (rg_ammo kind) p) finish)

unfoldable pub rg_set_user_ammo : ℕ → Server → Call → Native
unfolding is_that_weapon known_weapon
rg_set_user_ammo n server args = do
  p ← connected_player server 1 args
  info ← known_weapon args
  index ← perform (get slot info)
  weapon ← each_item n p index (is_that_weapon info)
  if weapon == 0
      then finish false_cell
      else (do perform (put clip weapon (cell_arg args 3)); finish true_cell)

unfoldable pub rg_get_user_ammo : ℕ → Server → Call → Native
unfolding is_that_weapon known_weapon
rg_get_user_ammo n server args = do
  p ← connected_player server 1 args
  info ← known_weapon args
  index ← perform (get slot info)
  weapon ← each_item n p index (is_that_weapon info)
  if weapon == 0 then finish false_cell else perform (get clip weapon) finish
