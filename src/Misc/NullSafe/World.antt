-- ===== src/Misc/NullSafe/World.antt =====
-- reapi/src/natives/natives_misc.cpp: natives that use no null pointer (Misc.Damage, Misc.Entities, Misc.World).
use reapi.Misc.Damage.{rg_dmg_radius, rg_multidmg_clear, rg_multidmg_apply, rg_multidmg_add}
use reapi.Misc.Entities.{
  rg_create_entity, rg_find_ent_by_class, find_by_owner, rg_find_ent_by_owner,
}
use reapi.Misc.World.{
  box_owner, rg_create_weaponbox, is_killed, rg_remove_entity, rg_decal_trace,
  rg_emit_texture_sound, rg_add_ammo_registry, rg_trace_line, rg_trace_hull,
}
use reapi.Misc.NullSafe.Players.{player_rules}
use reapi.Misc.NullSafe.Items.{item_rules}
use reapi.Misc.NullSafe.ItemInfo.{info_rules}
use reapi.Misc.NullSafe.Guards.{null_safe}
use reapi.Misc.NullSafe.{NullSafe, NativeCode}
use reapi.Members.Natives.{Call}
use reapi.Misc.Calls.{Server}
use reapi.Misc.{Native}
use reapi.Prelude.{◌⊗◌, ℕ, zero, suc, ◌≢◌, List, [], ◌∷◌, All}

pub is_killed-NullSafe :
    (e : ℕ) (rest : ℕ → Native)
    → e ≢ 0
    → ((r : ℕ) → NullSafe (rest r))
    → NullSafe (is_killed e rest)
unfolding is_killed
is_killed-NullSafe e rest ne0 safe = search (null_safe) depth 24

pub box_owner-NullSafe :
    (server : Server) (args : Call) (rest : ℕ → Native)
    → ((r : ℕ) → NullSafe (rest r))
    → NullSafe (box_owner server args rest)
unfolding box_owner
box_owner-NullSafe server args rest safe = search (null_safe) depth 24

pub find_by_owner-NullSafe :
    (n i wanted : ℕ) (name : List ℕ) (rest : ℕ → Native)
    → ((r : ℕ) → NullSafe (rest r))
    → NullSafe (find_by_owner n i wanted name rest)
unfolding find_by_owner
find_by_owner-NullSafe zero i wanted name rest safe = safe 0
find_by_owner-NullSafe (suc n) i wanted name rest safe =
    search (null_safe, find_by_owner-NullSafe n (suc i) wanted name rest safe) depth 16

pub ruleset world_rules = (
  null_safe, player_rules, item_rules, info_rules, is_killed-NullSafe, box_owner-NullSafe,
  find_by_owner-NullSafe,
)

pub rg_dmg_radius-NullSafe : (server : Server) (args : Call) → NullSafe (rg_dmg_radius server args)
unfolding rg_dmg_radius
rg_dmg_radius-NullSafe server args = search world_rules depth 24

pub rg_multidmg_clear-NullSafe : NullSafe (rg_multidmg_clear)
unfolding rg_multidmg_clear
rg_multidmg_clear-NullSafe = search world_rules depth 24

pub rg_multidmg_apply-NullSafe :
    (server : Server) (args : Call) → NullSafe (rg_multidmg_apply server args)
unfolding rg_multidmg_apply
rg_multidmg_apply-NullSafe server args = search world_rules depth 24

pub rg_multidmg_add-NullSafe :
    (server : Server) (args : Call) → NullSafe (rg_multidmg_add server args)
unfolding rg_multidmg_add
rg_multidmg_add-NullSafe server args = search world_rules depth 24

pub rg_create_entity-NullSafe : (args : Call) → NullSafe (rg_create_entity args)
unfolding rg_create_entity
rg_create_entity-NullSafe args = search world_rules depth 24

pub rg_find_ent_by_class-NullSafe : (args : Call) → NullSafe (rg_find_ent_by_class args)
unfolding rg_find_ent_by_class
rg_find_ent_by_class-NullSafe args = search world_rules depth 24

pub rg_find_ent_by_owner-NullSafe :
    (server : Server) (args : Call) → NullSafe (rg_find_ent_by_owner server args)
unfolding rg_find_ent_by_owner
rg_find_ent_by_owner-NullSafe server args = search world_rules depth 24

pub rg_create_weaponbox-NullSafe :
    (server : Server) (args : Call) → NullSafe (rg_create_weaponbox server args)
unfolding rg_create_weaponbox
rg_create_weaponbox-NullSafe server args = search world_rules depth 24

pub rg_remove_entity-NullSafe :
    (server : Server) (args : Call) → NullSafe (rg_remove_entity server args)
unfolding rg_remove_entity
rg_remove_entity-NullSafe server args = search world_rules depth 24

pub rg_decal_trace-NullSafe : (args : Call) → NullSafe (rg_decal_trace args)
unfolding rg_decal_trace
rg_decal_trace-NullSafe args = search world_rules depth 24

pub rg_emit_texture_sound-NullSafe : (args : Call) → NullSafe (rg_emit_texture_sound args)
unfolding rg_emit_texture_sound
rg_emit_texture_sound-NullSafe args = search world_rules depth 24

pub rg_add_ammo_registry-NullSafe : (args : Call) → NullSafe (rg_add_ammo_registry args)
unfolding rg_add_ammo_registry
rg_add_ammo_registry-NullSafe args = search world_rules depth 24

pub rg_trace_line-NullSafe : (args : Call) → NullSafe (rg_trace_line args)
unfolding rg_trace_line
rg_trace_line-NullSafe args = search world_rules depth 24

pub rg_trace_hull-NullSafe : (args : Call) → NullSafe (rg_trace_hull args)
unfolding rg_trace_hull
rg_trace_hull-NullSafe args = search world_rules depth 24

-- The natives above.
unfoldable pub world_natives : List NativeCode
world_natives =
    (λ n server args. rg_dmg_radius server args)
    ∷ (λ n server args. rg_multidmg_clear)
    ∷ (λ n server args. rg_multidmg_apply server args)
    ∷ (λ n server args. rg_multidmg_add server args)
    ∷ (λ n server args. rg_create_entity args)
    ∷ (λ n server args. rg_find_ent_by_class args)
    ∷ (λ n server args. rg_find_ent_by_owner server args)
    ∷ (λ n server args. rg_create_weaponbox server args)
    ∷ (λ n server args. rg_remove_entity server args)
    ∷ (λ n server args. rg_decal_trace args)
    ∷ (λ n server args. rg_emit_texture_sound args)
    ∷ (λ n server args. rg_add_ammo_registry args)
    ∷ (λ n server args. rg_trace_line args)
    ∷ (λ n server args. rg_trace_hull args)
    ∷ []

pub world_natives-NullSafe :
    (n : ℕ) (server : Server) (args : Call)
    → All (λ native. NullSafe (native n server args)) world_natives
unfolding world_natives
world_natives-NullSafe n server args =
    rg_dmg_radius-NullSafe server args
    ⊗ rg_multidmg_clear-NullSafe
    ⊗ rg_multidmg_apply-NullSafe server args
    ⊗ rg_multidmg_add-NullSafe server args
    ⊗ rg_create_entity-NullSafe args
    ⊗ rg_find_ent_by_class-NullSafe args
    ⊗ rg_find_ent_by_owner-NullSafe server args
    ⊗ rg_create_weaponbox-NullSafe server args
    ⊗ rg_remove_entity-NullSafe server args
    ⊗ rg_decal_trace-NullSafe args
    ⊗ rg_emit_texture_sound-NullSafe args
    ⊗ rg_add_ammo_registry-NullSafe args
    ⊗ rg_trace_line-NullSafe args
    ⊗ rg_trace_hull-NullSafe args
    ⊗ tt
