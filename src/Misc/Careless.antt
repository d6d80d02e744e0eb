-- ===== src/Misc/Careless.antt =====
-- reapi/src/natives/natives_misc.cpp: natives that use a null pointer.
use reapi.Misc.Damage.{rg_fire_bullets}
use reapi.Misc.Weapons.{weapon_info_range, wpn_info, change_weapon_info, rg_set_weapon_info}
use reapi.Misc.NullSafe.{IsSafe}
use reapi.Members.Natives.{Call}
use reapi.Misc.Calls.{
  cell, edict, weapon_slot_by_id, edict_private, Effect, call, Server, is_negative,
}
use reapi.Misc.{inner_call, is_entity, check_entity, private_arg}
use reapi.Prelude.Programs.{run}
use reapi.Prelude.{ℕ, ◌≡◌, true, false, [], ◌∷◌, All}

module _ {W : Type 0} (answer : Effect → W → ℕ × W) where
  -- The two entities of a call pass the checks, and the first one has no private data.
  pub record HasNoData (server : Server) (args : Call) (w : W) : Type 0 where
    pub inflictor : is_entity server (args.params 1) ≡ true
    pub attacker : is_entity server (args.params 2) ≡ true
    pub not_negative : is_negative (args.params 1) ≡ false
    pub no_data : (answer (call edict_private (edict (args.params 1) ∷ [])) w).0 ≡ 0

  -- rg_fire_bullets for an inflictor whose index is one of an entity that has no private data calls
  -- FireBullets on a null pointer.
  rg_fire_bullets-null :
      (server : Server) (args : Call) (w : W)
      → HasNoData server args w
      → ¬ All IsSafe (run answer (rg_fire_bullets server args) w).2
  unfolding rg_fire_bullets check_entity private_arg inner_call run
  rg_fire_bullets-null server args w h =
      rw (h.inflictor, h.attacker, h.not_negative) (λ safe. safe.1.0 h.no_data)

  -- rg_set_weapon_info for the slot of a weapon writes to a null pointer if the game has no entry for
  -- the weapon in the table of slots.
  pub rg_set_weapon_info-null :
      (args : Call) (w : W)
      → weapon_info_range (args.params 1) true ≡ true
      → args.params 2 ≡ 9
      → ((v : W) → (answer (call weapon_slot_by_id (cell (args.params 1) ∷ [])) v).0 ≡ 0)
      → ¬ All IsSafe (run answer (rg_set_weapon_info args) w).2
  unfolding rg_set_weapon_info change_weapon_info wpn_info run
  rg_set_weapon_info-null args w range slots none_there =
      rw (range, slots) (λ safe. safe.1.1.0 (none_there _))
