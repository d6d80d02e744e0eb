-- ===== src/Misc.antt =====
-- reapi/src/natives/natives_misc.cpp: the natives on players, items, weapons and rounds.
--
-- Each is the tree of its calls of the game library. Here stand the checks with which they begin
-- (reapi/src/natives/natives_helper.h) and the loops over the items of a player.
pub mod Calls
mod Examples
pub mod Players
pub mod Ammo
pub mod Items
pub mod Weapons
pub mod ItemInfo
pub mod Damage
pub mod Entities
pub mod RoundEnd
pub mod Rounds
pub mod Teams
pub mod Bomb
pub mod Actions
pub mod Weaponry
pub mod Deaths
pub mod World
pub mod Engine
pub mod NullSafe
pub mod FindOwner
pub mod Search
pub mod Steady
pub mod AmmoKept
pub mod Careless
pub mod Refusals
pub mod InRounds
use reapi.Members.Natives.{Call}
use reapi.Misc.Calls.{
  Arg, cell, edict, Field, has_disconnected, player_items, next_item, inner, Method, is_weapon,
  is_instance, player_by_index, game_rules, edict_private, Effect, log_error, get, invoke, call,
  Server, is_negative, is_positive,
}
use reapi.Prelude.Programs.{Program, finish, out_of_rounds, perform, ◌>>=◌, ◌>>◌}
use reapi.Prelude.{
  ℕ, zero, suc, Bool, false, Option, none, some, List, [], ◌∷◌, leb, ◌==◌, if◌then◌else◌,
}

abbrev pub Native : Type 0
Native = Program Effect

-- A statement that gives a number to the code behind it.
abbrev pub Statement : Type 0
Statement = (ℕ → Native) → Native

abbrev pub false_cell : ℕ
false_cell = 0

abbrev pub true_cell : ℕ
true_cell = 1

-- AMXX_LogError and `return FALSE`
unfoldable pub refuse : Native
refuse = do perform log_error; finish false_cell

-- A switch over the fields that some cases stand for.
abbrev pub for_field : Option Field → (Field → Native) → Native → Native
for_field none use_field otherwise = otherwise
for_field (some field) use_field otherwise = use_field field

-- CHECK_CONNECTED, behind UTIL_PlayerByIndex
unfoldable pub present_player : ℕ → Call → Statement
unfolding refuse
present_player i args rest = do
  p ← perform (call player_by_index (cell (args.params i) ∷ []))
  if p == 0
      then refuse
      else (do gone ← perform (get has_disconnected p); if gone == 0 then rest p else refuse)

-- `p->CSPlayer()->method(xs)`, where CSPlayer() is `m_pEntity`.
unfoldable pub inner_call : Method → ℕ → List Arg → Statement
inner_call method p xs rest = do e ← perform (get inner p); perform (invoke method e xs) rest

-- CHECK_ISPLAYER and CHECK_ISENTITY
unfoldable pub is_player : Server → ℕ → Bool
is_player server c = if is_positive c then leb c server.max_clients else false

unfoldable pub is_entity : Server → ℕ → Bool
is_entity server c = if is_negative c then false else leb c server.max_entities

unfoldable pub connected_player : Server → ℕ → Call → Statement
unfolding refuse is_player present_player
connected_player server i args rest =
    if is_player server (args.params i) then present_player i args rest else refuse

unfoldable pub check_entity : Server → ℕ → Call → Statement
unfolding refuse is_entity
check_entity server i args rest = if is_entity server (args.params i) then rest 0 else refuse

-- CHECK_GAMERULES; the value is CSGameRules().
unfoldable pub check_game_rules : Statement
unfolding refuse
check_game_rules rest = do
  rules ← perform (call game_rules [])
  if rules == 0 then refuse else rest rules

-- getPrivate of the entity at an index.
unfoldable pub private_arg : ℕ → Call → Statement
private_arg i args rest =
    if is_negative (args.params i)
    then rest 0
    else perform (call edict_private (edict (args.params i) ∷ [])) rest

-- getPrivate and the refusal of an entity without private data.
unfoldable pub check_private : ℕ → Call → Statement
unfolding refuse private_arg
check_private i args rest = do p ← private_arg i args; if p == 0 then refuse else rest p

-- CHECK_INSTANCE_OF(CBasePlayerWeapon) and the refusal of what is no weapon.
unfoldable pub check_weapon : ℕ → Statement
unfolding refuse
check_weapon p rest = do
  castable ← perform (invoke is_instance p [])
  if castable == 0
      then refuse
      else (do weapon ← perform (invoke is_weapon p []); if weapon == 0 then refuse else rest p)

-- CBasePlayer::ForEachItem for the items from one on: what is done with each gives a number, and a
-- number other than 0 ends the loop with the item. At most so many items are visited.
unfoldable pub each_from : ℕ → (ℕ → Statement) → ℕ → Statement
each_from zero visit item rest = if item == 0 then rest 0 else out_of_rounds
each_from (suc n) visit item rest = if item == 0 then rest 0 else (do
  next ← perform (get next_item item)
  found ← visit item
  if found == 0 then each_from n visit next rest else rest item)

-- ForEachItem for a slot of a player.
unfoldable pub each_item : ℕ → ℕ → ℕ → (ℕ → Statement) → Statement
unfolding each_from
each_item n p index visit rest = do
  item ← perform (get (player_items index) p)
  each_from n visit item rest

-- ForEachItem for so many slots from one on.
unfoldable pub each_slot : ℕ → ℕ → ℕ → ℕ → (ℕ → Statement) → Statement
unfolding each_item
each_slot n zero p index visit rest = rest 0
each_slot n (suc more) p index visit rest = do
  item ← each_item n p index visit
  if item == 0 then each_slot n more p (suc index) visit rest else rest item

-- `m_rgpPlayerItems` has MAX_ITEM_TYPES entries.
abbrev pub max_item_types : ℕ
max_item_types = 6
