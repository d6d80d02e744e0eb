-- ===== src/Misc/NullSafe/ItemInfo.antt =====
-- reapi/src/natives/natives_misc.cpp: natives that use no null pointer (Misc.ItemInfo).
use reapi.Misc.ItemInfo.{
  alloc_arg, change_item_info, read_item_info, weapon_item, rg_set_iteminfo, rg_get_iteminfo,
}
use reapi.Misc.NullSafe.Players.{player_rules}
use reapi.Misc.NullSafe.Guards.{null_safe}
use reapi.Misc.NullSafe.{NullSafe, for_field-NullSafe, NativeCode}
use reapi.Members.Natives.{Call}
use reapi.Misc.Calls.{Server}
use reapi.Misc.{Native}
use reapi.Prelude.{ℕ, ◌≢◌, List, [], ◌∷◌, All}

pub alloc_arg-NullSafe :
    (args : Call) (i : ℕ) (rest : ℕ → Native)
    → ((r : ℕ) → NullSafe (rest r))
    → NullSafe (alloc_arg args i rest)
unfolding alloc_arg
alloc_arg-NullSafe args i rest safe = search (null_safe) depth 24

pub change_item_info-NullSafe :
    (kind info : ℕ) (args : Call) → info ≢ 0 → NullSafe (change_item_info kind info args)
unfolding change_item_info
change_item_info-NullSafe kind info args ne0 =
    search (null_safe, for_field-NullSafe, alloc_arg-NullSafe) depth 24

pub read_item_info-NullSafe :
    (kind info : ℕ) (args : Call) → info ≢ 0 → NullSafe (read_item_info kind info args)
unfolding read_item_info
read_item_info-NullSafe kind info args ne0 = search (null_safe, for_field-NullSafe) depth 24

pub weapon_item-NullSafe :
    (p : ℕ) (rest : ℕ → Native)
    → p ≢ 0
    → ((p : ℕ) → p ≢ 0 → NullSafe (rest p))
    → NullSafe (weapon_item p rest)
unfolding weapon_item
weapon_item-NullSafe p rest ne0 safe = search (null_safe) depth 24

pub ruleset info_rules = (
  null_safe, player_rules, alloc_arg-NullSafe, change_item_info-NullSafe, read_item_info-NullSafe,
  weapon_item-NullSafe,
)

pub rg_set_iteminfo-NullSafe :
    (server : Server) (args : Call) → NullSafe (rg_set_iteminfo server args)
unfolding rg_set_iteminfo
rg_set_iteminfo-NullSafe server args = search info_rules depth 24

pub rg_get_iteminfo-NullSafe :
    (server : Server) (args : Call) → NullSafe (rg_get_iteminfo server args)
unfolding rg_get_iteminfo
rg_get_iteminfo-NullSafe server args = search info_rules depth 24

-- The natives above.
unfoldable pub info_natives : List NativeCode
info_natives =
    (λ n server args. rg_set_iteminfo server args)
    ∷ (λ n server args. rg_get_iteminfo server args)
    ∷ []

pub info_natives-NullSafe :
    (n : ℕ) (server : Server) (args : Call)
    → All (λ native. NullSafe (native n server args)) info_natives
unfolding info_natives
info_natives-NullSafe n server args =
    (rg_set_iteminfo-NullSafe server args, (rg_get_iteminfo-NullSafe server args, tt))
