-- ===== src/Misc/NullSafe/Actions.antt =====
-- reapi/src/natives/natives_misc.cpp: natives that use no null pointer (Misc.Actions).
use reapi.Misc.Actions.{
  rg_join_team, rg_switch_team, rg_switch_weapon, rg_instant_reload_weapons, first_item,
  rg_get_weaponbox_id, rg_round_respawn, rg_reset_maxspeed, rg_send_bartime, rg_send_bartime2,
  rg_send_audio, rg_hint_message, rg_spawn_head_gib, rg_spawn_random_gibs, rg_spawn_grenade,
}
use reapi.Misc.NullSafe.Players.{player_rules}
use reapi.Misc.NullSafe.Items.{item_rules}
use reapi.Misc.NullSafe.Guards.{null_safe}
use reapi.Misc.NullSafe.{NullSafe, get-NullSafe, finish-NullSafe, test-NullSafe, NativeCode}
use reapi.Members.Natives.{Call}
use reapi.Misc.Calls.{player_items, item_id, Server}
use reapi.Prelude.{◌⊗◌, ℕ, zero, suc, ◌≢◌, List, [], ◌∷◌, All}

pub first_item-NullSafe : (n i box : ℕ) → box ≢ 0 → NullSafe (first_item n i box)
unfolding first_item
first_item-NullSafe zero i box ne = finish-NullSafe 0
first_item-NullSafe (suc n) i box ne = get-NullSafe (player_items i) box _ ne (λ item.
    test-NullSafe item _ _ (first_item-NullSafe n (suc i) box ne)
      (λ there. get-NullSafe item_id item _ there finish-NullSafe))

pub ruleset action_rules = (null_safe, player_rules, item_rules, first_item-NullSafe)

pub rg_join_team-NullSafe : (server : Server) (args : Call) → NullSafe (rg_join_team server args)
unfolding rg_join_team
rg_join_team-NullSafe server args = search action_rules depth 24

pub rg_switch_team-NullSafe :
    (server : Server) (args : Call) → NullSafe (rg_switch_team server args)
unfolding rg_switch_team
rg_switch_team-NullSafe server args = search action_rules depth 24

pub rg_switch_weapon-NullSafe :
    (server : Server) (args : Call) → NullSafe (rg_switch_weapon server args)
unfolding rg_switch_weapon
rg_switch_weapon-NullSafe server args = search action_rules depth 24

pub rg_instant_reload_weapons-NullSafe :
    (server : Server) (args : Call) → NullSafe (rg_instant_reload_weapons server args)
unfolding rg_instant_reload_weapons
rg_instant_reload_weapons-NullSafe server args = search action_rules depth 24

pub rg_get_weaponbox_id-NullSafe :
    (server : Server) (args : Call) → NullSafe (rg_get_weaponbox_id server args)
unfolding rg_get_weaponbox_id
rg_get_weaponbox_id-NullSafe server args = search action_rules depth 24

pub rg_round_respawn-NullSafe : (args : Call) → NullSafe (rg_round_respawn args)
unfolding rg_round_respawn
rg_round_respawn-NullSafe args = search action_rules depth 24

pub rg_reset_maxspeed-NullSafe : (args : Call) → NullSafe (rg_reset_maxspeed args)
unfolding rg_reset_maxspeed
rg_reset_maxspeed-NullSafe args = search action_rules depth 24

pub rg_send_bartime-NullSafe : (args : Call) → NullSafe (rg_send_bartime args)
unfolding rg_send_bartime
rg_send_bartime-NullSafe args = search action_rules depth 24

pub rg_send_bartime2-NullSafe : (args : Call) → NullSafe (rg_send_bartime2 args)
unfolding rg_send_bartime2
rg_send_bartime2-NullSafe args = search action_rules depth 24

pub rg_send_audio-NullSafe : (args : Call) → NullSafe (rg_send_audio args)
unfolding rg_send_audio
rg_send_audio-NullSafe args = search action_rules depth 24

pub rg_hint_message-NullSafe :
    (server : Server) (args : Call) → NullSafe (rg_hint_message server args)
unfolding rg_hint_message
rg_hint_message-NullSafe server args = search action_rules depth 24

pub rg_spawn_head_gib-NullSafe :
    (server : Server) (args : Call) → NullSafe (rg_spawn_head_gib server args)
unfolding rg_spawn_head_gib
rg_spawn_head_gib-NullSafe server args = search action_rules depth 24

pub rg_spawn_random_gibs-NullSafe :
    (server : Server) (args : Call) → NullSafe (rg_spawn_random_gibs server args)
unfolding rg_spawn_random_gibs
rg_spawn_random_gibs-NullSafe server args = search action_rules depth 24

pub rg_spawn_grenade-NullSafe :
    (server : Server) (args : Call) → NullSafe (rg_spawn_grenade server args)
unfolding rg_spawn_grenade
rg_spawn_grenade-NullSafe server args = search action_rules depth 24

-- The natives above.
unfoldable pub action_natives : List NativeCode
action_natives =
    (λ n server args. rg_join_team server args)
    ∷ (λ n server args. rg_switch_team server args)
    ∷ (λ n server args. rg_switch_weapon server args)
    ∷ (λ n server args. rg_instant_reload_weapons server args)
    ∷ (λ n server args. rg_get_weaponbox_id server args)
    ∷ (λ n server args. rg_round_respawn args)
    ∷ (λ n server args. rg_reset_maxspeed args)
    ∷ (λ n server args. rg_send_bartime args)
    ∷ (λ n server args. rg_send_bartime2 args)
    ∷ (λ n server args. rg_send_audio args)
    ∷ (λ n server args. rg_hint_message server args)
    ∷ (λ n server args. rg_spawn_head_gib server args)
    ∷ (λ n server args. rg_spawn_random_gibs server args)
    ∷ (λ n server args. rg_spawn_grenade server args)
    ∷ []

pub action_natives-NullSafe :
    (n : ℕ) (server : Server) (args : Call)
    → All (λ native. NullSafe (native n server args)) action_natives
unfolding action_natives
action_natives-NullSafe n server args =
    rg_join_team-NullSafe server args
    ⊗ rg_switch_team-NullSafe server args
    ⊗ rg_switch_weapon-NullSafe server args
    ⊗ rg_instant_reload_weapons-NullSafe server args
    ⊗ rg_get_weaponbox_id-NullSafe server args
    ⊗ rg_round_respawn-NullSafe args
    ⊗ rg_reset_maxspeed-NullSafe args
    ⊗ rg_send_bartime-NullSafe args
    ⊗ rg_send_bartime2-NullSafe args
    ⊗ rg_send_audio-NullSafe args
    ⊗ rg_hint_message-NullSafe server args
    ⊗ rg_spawn_head_gib-NullSafe server args
    ⊗ rg_spawn_random_gibs-NullSafe server args
    ⊗ rg_spawn_grenade-NullSafe server args
    ⊗ tt
