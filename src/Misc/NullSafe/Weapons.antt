-- ===== src/Misc/NullSafe/Weapons.antt =====
-- reapi/src/natives/natives_misc.cpp: natives that use no null pointer (Misc.Weaponry, Misc.Deaths, Misc.Weapons).
use reapi.Misc.Weaponry.{
  named_weapon, game_weapon, rg_weapon_deploy, rg_weapon_shotgun_reload, rg_weapon_send_animation,
  rg_weapon_kickback, rg_switch_best_weapon,
}
use reapi.Misc.Deaths.{
  rg_disappear, rg_set_observer_mode, rg_observer_find_next_player, rg_death_notice,
  rg_player_relationship, optional_player, rg_send_death_message, rg_player_takedamage_impulse,
}
use reapi.Misc.NullSafe.Players.{player_rules}
use reapi.Misc.NullSafe.Guards.{null_safe}
use reapi.Misc.NullSafe.{NullSafe, NativeCode}
use reapi.Members.Natives.{Call}
use reapi.Misc.Calls.{Server}
use reapi.Misc.{Native}
use reapi.Prelude.{◌⊗◌, ℕ, ◌≢◌, List, [], ◌∷◌, All}

pub named_weapon-NullSafe :
    (server : Server) (args : Call) (rest : ℕ → Native)
    → ((r : ℕ) → NullSafe (rest r))
    → NullSafe (named_weapon server args rest)
unfolding named_weapon
named_weapon-NullSafe server args rest safe = search (null_safe) depth 24

pub optional_player-NullSafe :
    (server : Server) (i : ℕ) (args : Call) (rest : ℕ → Native)
    → ((r : ℕ) → NullSafe (rest r))
    → NullSafe (optional_player server i args rest)
unfolding optional_player
optional_player-NullSafe server i args rest safe = search (null_safe) depth 24

pub game_weapon-NullSafe :
    (weapon : ℕ) (rest : ℕ → ℕ → Native)
    → ((w device : ℕ) → w ≢ 0 → device ≢ 0 → NullSafe (rest w device))
    → NullSafe (game_weapon weapon rest)
unfolding game_weapon
game_weapon-NullSafe weapon rest safe = search (null_safe) depth 24

pub ruleset weapon_rules =
    (null_safe, player_rules, named_weapon-NullSafe, optional_player-NullSafe, game_weapon-NullSafe)

pub rg_weapon_deploy-NullSafe :
    (server : Server) (args : Call) → NullSafe (rg_weapon_deploy server args)
unfolding rg_weapon_deploy
rg_weapon_deploy-NullSafe server args = search weapon_rules depth 24

pub rg_weapon_shotgun_reload-NullSafe :
    (server : Server) (args : Call) → NullSafe (rg_weapon_shotgun_reload server args)
unfolding rg_weapon_shotgun_reload
rg_weapon_shotgun_reload-NullSafe server args = search weapon_rules depth 24

pub rg_weapon_send_animation-NullSafe :
    (server : Server) (args : Call) → NullSafe (rg_weapon_send_animation server args)
unfolding rg_weapon_send_animation
rg_weapon_send_animation-NullSafe server args = search weapon_rules depth 24

pub rg_weapon_kickback-NullSafe :
    (server : Server) (args : Call) → NullSafe (rg_weapon_kickback server args)
unfolding rg_weapon_kickback
rg_weapon_kickback-NullSafe server args = search weapon_rules depth 24

pub rg_switch_best_weapon-NullSafe :
    (server : Server) (args : Call) → NullSafe (rg_switch_best_weapon server args)
unfolding rg_switch_best_weapon
rg_switch_best_weapon-NullSafe server args = search weapon_rules depth 24

pub rg_disappear-NullSafe : (server : Server) (args : Call) → NullSafe (rg_disappear server args)
unfolding rg_disappear
rg_disappear-NullSafe server args = search weapon_rules depth 24

pub rg_set_observer_mode-NullSafe :
    (server : Server) (args : Call) → NullSafe (rg_set_observer_mode server args)
unfolding rg_set_observer_mode
rg_set_observer_mode-NullSafe server args = search weapon_rules depth 24

pub rg_observer_find_next_player-NullSafe :
    (server : Server) (args : Call) → NullSafe (rg_observer_find_next_player server args)
unfolding rg_observer_find_next_player
rg_observer_find_next_player-NullSafe server args = search weapon_rules depth 24

pub rg_death_notice-NullSafe :
    (server : Server) (args : Call) → NullSafe (rg_death_notice server args)
unfolding rg_death_notice
rg_death_notice-NullSafe server args = search weapon_rules depth 24

pub rg_player_relationship-NullSafe :
    (server : Server) (args : Call) → NullSafe (rg_player_relationship server args)
unfolding rg_player_relationship
rg_player_relationship-NullSafe server args = search weapon_rules depth 24

pub rg_send_death_message-NullSafe :
    (server : Server) (args : Call) → NullSafe (rg_send_death_message server args)
unfolding rg_send_death_message
rg_send_death_message-NullSafe server args = search weapon_rules depth 24

pub rg_player_takedamage_impulse-NullSafe :
    (server : Server) (args : Call) → NullSafe (rg_player_takedamage_impulse server args)
unfolding rg_player_takedamage_impulse
rg_player_takedamage_impulse-NullSafe server args = search weapon_rules depth 24

-- The natives above.
unfoldable pub weapon_natives : List NativeCode
weapon_natives =
    (λ n server args. rg_weapon_deploy server args)
    ∷ (λ n server args. rg_weapon_shotgun_reload server args)
    ∷ (λ n server args. rg_weapon_send_animation server args)
    ∷ (λ n server args. rg_weapon_kickback server args)
    ∷ (λ n server args. rg_switch_best_weapon server args)
    ∷ (λ n server args. rg_disappear server args)
    ∷ (λ n server args. rg_set_observer_mode server args)
    ∷ (λ n server args. rg_observer_find_next_player server args)
    ∷ (λ n server args. rg_death_notice server args)
    ∷ (λ n server args. rg_player_relationship server args)
    ∷ (λ n server args. rg_send_death_message server args)
    ∷ (λ n server args. rg_player_takedamage_impulse server args)
    ∷ []

pub weapon_natives-NullSafe :
    (n : ℕ) (server : Server) (args : Call)
    → All (λ native. NullSafe (native n server args)) weapon_natives
unfolding weapon_natives
weapon_natives-NullSafe n server args =
    rg_weapon_deploy-NullSafe server args
    ⊗ rg_weapon_shotgun_reload-NullSafe server args
    ⊗ rg_weapon_send_animation-NullSafe server args
    ⊗ rg_weapon_kickback-NullSafe server args
    ⊗ rg_switch_best_weapon-NullSafe server args
    ⊗ rg_disappear-NullSafe server args
    ⊗ rg_set_observer_mode-NullSafe server args
    ⊗ rg_observer_find_next_player-NullSafe server args
    ⊗ rg_death_notice-NullSafe server args
    ⊗ rg_player_relationship-NullSafe server args
    ⊗ rg_send_death_message-NullSafe server args
    ⊗ rg_player_takedamage_impulse-NullSafe server args
    ⊗ tt
