-- ===== src/Callbacks/Rows.antt =====
-- reapi/src/hook_list.h and hook_callback.cpp: the words in which the functions are written down.
use reapi.Callbacks.{
  CType, Pass, Slot, Next, given, unchanged, edict_at, private_at, vars_at, client_at,
}
use reapi.Prelude.{ℕ, ◌*◌}

-- BEGIN_FUNC_REGION
abbrev begin_func_region : ℕ → ℕ
begin_func_region table = table * 1024

abbrev pub engine : ℕ
engine = begin_func_region 0

abbrev pub gamedll : ℕ
gamedll = begin_func_region 1

abbrev pub animating : ℕ
animating = begin_func_region 2

abbrev pub player : ℕ
player = begin_func_region 3

abbrev pub gamerules : ℕ
gamerules = begin_func_region 4

abbrev pub rechecker : ℕ
rechecker = begin_func_region 5

abbrev pub grenade : ℕ
grenade = begin_func_region 6

abbrev pub weaponbox : ℕ
weaponbox = begin_func_region 7

abbrev pub weapon : ℕ
weapon = begin_func_region 8

abbrev pub gib : ℕ
gib = begin_func_region 9

abbrev pub cbaseentity : ℕ
cbaseentity = begin_func_region 10

abbrev pub botmanager : ℕ
botmanager = begin_func_region 11

abbrev pub slot : CType → Pass → Slot
slot t p = record { ctype = t; pass = p }

-- `_x`, `edictByIndexAmx(_x)`, `getPrivate<T>(_x)`, `PEV(_x)` and `clientByIndex(_x)`
abbrev pub same : ℕ → Next
same i = given i unchanged

abbrev pub edict : ℕ → Next
edict i = given i edict_at

abbrev pub object : ℕ → Next
object i = given i private_at

abbrev pub vars : ℕ → Next
vars i = given i vars_at

abbrev pub client : ℕ → Next
client i = given i client_at
