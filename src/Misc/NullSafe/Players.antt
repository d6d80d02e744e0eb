-- ===== src/Misc/NullSafe/Players.antt =====
-- reapi/src/natives/natives_misc.cpp: natives that use no null pointer (Misc.Players).
use reapi.Misc.Players.{
  as_bool, rg_set_animation, rg_add_account, rg_give_default_items, rg_give_shield,
  rg_remove_all_items, rg_drop_item, rg_internal_cmd, rg_remove_item, rg_get_user_armor,
  rg_set_user_armor, rg_set_user_model, rg_reset_user_model, rg_set_user_footsteps,
  rg_get_user_footsteps,
}
use reapi.Misc.NullSafe.Guards.{null_safe}
use reapi.Misc.NullSafe.{NullSafe, finish-NullSafe, NativeCode}
use reapi.Members.Natives.{Call}
use reapi.Misc.Calls.{Server}
use reapi.Prelude.{◌⊗◌, ℕ, List, [], ◌∷◌, All}
use reapi.Misc.Players.{
  as_bool, rg_set_animation, rg_add_account, rg_give_default_items, rg_give_shield,
  rg_remove_all_items, rg_drop_item, rg_internal_cmd, rg_remove_item, rg_get_user_armor,
  rg_set_user_armor, rg_set_user_model, rg_reset_user_model, rg_set_user_footsteps,
  rg_get_user_footsteps,
}

pub as_bool-NullSafe : (c : ℕ) → NullSafe (as_bool c)
unfolding as_bool
as_bool-NullSafe c = finish-NullSafe _

pub ruleset player_rules = (null_safe, as_bool-NullSafe)

pub rg_set_animation-NullSafe :
    (server : Server) (args : Call) → NullSafe (rg_set_animation server args)
unfolding rg_set_animation
rg_set_animation-NullSafe server args = search player_rules depth 24

pub rg_add_account-NullSafe :
    (server : Server) (args : Call) → NullSafe (rg_add_account server args)
unfolding rg_add_account
rg_add_account-NullSafe server args = search player_rules depth 24

pub rg_give_default_items-NullSafe :
    (server : Server) (args : Call) → NullSafe (rg_give_default_items server args)
unfolding rg_give_default_items
rg_give_default_items-NullSafe server args = search player_rules depth 24

pub rg_give_shield-NullSafe :
    (server : Server) (args : Call) → NullSafe (rg_give_shield server args)
unfolding rg_give_shield
rg_give_shield-NullSafe server args = search player_rules depth 24

pub rg_remove_all_items-NullSafe :
    (server : Server) (args : Call) → NullSafe (rg_remove_all_items server args)
unfolding rg_remove_all_items
rg_remove_all_items-NullSafe server args = search player_rules depth 24

pub rg_drop_item-NullSafe : (server : Server) (args : Call) → NullSafe (rg_drop_item server args)
unfolding rg_drop_item
rg_drop_item-NullSafe server args = search player_rules depth 24

pub rg_internal_cmd-NullSafe :
    (server : Server) (args : Call) → NullSafe (rg_internal_cmd server args)
unfolding rg_internal_cmd
rg_internal_cmd-NullSafe server args = search player_rules depth 24

pub rg_remove_item-NullSafe :
    (server : Server) (args : Call) → NullSafe (rg_remove_item server args)
unfolding rg_remove_item
rg_remove_item-NullSafe server args = search player_rules depth 24

pub rg_get_user_armor-NullSafe :
    (server : Server) (args : Call) → NullSafe (rg_get_user_armor server args)
unfolding rg_get_user_armor
rg_get_user_armor-NullSafe server args = search player_rules depth 24

pub rg_set_user_armor-NullSafe :
    (server : Server) (args : Call) → NullSafe (rg_set_user_armor server args)
unfolding rg_set_user_armor
rg_set_user_armor-NullSafe server args = search player_rules depth 24

pub rg_set_user_model-NullSafe :
    (server : Server) (args : Call) → NullSafe (rg_set_user_model server args)
unfolding rg_set_user_model
rg_set_user_model-NullSafe server args = search player_rules depth 24

pub rg_reset_user_model-NullSafe :
    (server : Server) (args : Call) → NullSafe (rg_reset_user_model server args)
unfolding rg_reset_user_model
rg_reset_user_model-NullSafe server args = search player_rules depth 24

pub rg_set_user_footsteps-NullSafe :
    (server : Server) (args : Call) → NullSafe (rg_set_user_footsteps server args)
unfolding rg_set_user_footsteps
rg_set_user_footsteps-NullSafe server args = search player_rules depth 24

pub rg_get_user_footsteps-NullSafe :
    (server : Server) (args : Call) → NullSafe (rg_get_user_footsteps server args)
unfolding rg_get_user_footsteps
rg_get_user_footsteps-NullSafe server args = search player_rules depth 24

-- The natives above.
unfoldable pub player_natives : List NativeCode
player_natives =
    (λ n server args. rg_set_animation server args)
    ∷ (λ n server args. rg_add_account server args)
    ∷ (λ n server args. rg_give_default_items server args)
    ∷ (λ n server args. rg_give_shield server args)
    ∷ (λ n server args. rg_remove_all_items server args)
    ∷ (λ n server args. rg_drop_item server args)
    ∷ (λ n server args. rg_internal_cmd server args)
    ∷ (λ n server args. rg_remove_item server args)
    ∷ (λ n server args. rg_get_user_armor server args)
    ∷ (λ n server args. rg_set_user_armor server args)
    ∷ (λ n server args. rg_set_user_model server args)
    ∷ (λ n server args. rg_reset_user_model server args)
    ∷ (λ n server args. rg_set_user_footsteps server args)
    ∷ (λ n server args. rg_get_user_footsteps server args)
    ∷ []

pub player_natives-NullSafe :
    (n : ℕ) (server : Server) (args : Call)
    → All (λ native. NullSafe (native n server args)) player_natives
unfolding player_natives
player_natives-NullSafe n server args =
    rg_set_animation-NullSafe server args
    ⊗ rg_add_account-NullSafe server args
    ⊗ rg_give_default_items-NullSafe server args
    ⊗ rg_give_shield-NullSafe server args
    ⊗ rg_remove_all_items-NullSafe server args
    ⊗ rg_drop_item-NullSafe server args
    ⊗ rg_internal_cmd-NullSafe server args
    ⊗ rg_remove_item-NullSafe server args
    ⊗ rg_get_user_armor-NullSafe server args
    ⊗ rg_set_user_armor-NullSafe server args
    ⊗ rg_set_user_model-NullSafe server args
    ⊗ rg_reset_user_model-NullSafe server args
    ⊗ rg_set_user_footsteps-NullSafe server args
    ⊗ rg_get_user_footsteps-NullSafe server args
    ⊗ tt
