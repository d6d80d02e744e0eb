-- ===== src/Misc/NullSafe/Table.antt =====
-- reapi/src/natives/natives_misc.cpp: all the natives that use no null pointer, whatever the game library
-- answers.
--
-- Not among them are rg_fire_bullets, rg_fire_buckshots and rg_fire_bullets3 (the inflictor), the natives
-- on the tables of weapons and of items (the entry), rg_give_custom_item and rg_weapon_reload.
use reapi.Misc.NullSafe.Players.{player_natives, player_natives-NullSafe}
use reapi.Misc.NullSafe.Items.{item_natives, item_natives-NullSafe}
use reapi.Misc.NullSafe.ItemInfo.{info_natives, info_natives-NullSafe}
use reapi.Misc.NullSafe.Rounds.{round_natives, round_natives-NullSafe}
use reapi.Misc.NullSafe.Teams.{team_natives, team_natives-NullSafe}
use reapi.Misc.NullSafe.Actions.{action_natives, action_natives-NullSafe}
use reapi.Misc.NullSafe.World.{world_natives, world_natives-NullSafe}
use reapi.Misc.NullSafe.Engine.{engine_natives, engine_natives-NullSafe}
use reapi.Misc.NullSafe.Weapons.{weapon_natives, weapon_natives-NullSafe}
use reapi.Misc.NullSafe.{IsSafe, IsInitialised, NullSafe, run-NullSafe, NativeCode}
use reapi.Members.Natives.{Call}
use reapi.Misc.Calls.{Effect, Server}
use reapi.Prelude.Programs.{run}
use reapi.Prelude.{ℕ, List, [], ◌∷◌, ◌++◌, set, All, All-append}

unfoldable pub careful_natives : List NativeCode
careful_natives =
    player_natives
    ++ (item_natives
        ++ (round_natives
            ++ (team_natives
                ++ (world_natives
                    ++ (engine_natives ++ (weapon_natives ++ (action_natives ++ info_natives)))))))

pub careful_natives-NullSafe :
    (n : ℕ) (server : Server) (args : Call)
    → All (λ native. NullSafe (native n server args)) careful_natives
unfolding careful_natives
careful_natives-NullSafe n server args =
    let join = λ (front back : List NativeCode).
      All-append (λ native. NullSafe (native n server args)) front back in
    join player_natives _ (player_natives-NullSafe n server args) (
      join item_natives _ (item_natives-NullSafe n server args) (
        join round_natives _ (round_natives-NullSafe n server args) (
          join team_natives _ (team_natives-NullSafe n server args) (
            join world_natives _ (world_natives-NullSafe n server args) (
              join engine_natives _ (engine_natives-NullSafe n server args) (
                join weapon_natives _ (weapon_natives-NullSafe n server args) (
                  join action_natives _ (action_natives-NullSafe n server args)
                    (info_natives-NullSafe n server args))))))))

-- Each of the 97 natives of `careful_natives`, on any call, with any world and any answers of the engine,
-- the game library and AMXX in which the members of `IsInitialised` are not null, reads, writes and calls
-- members only through pointers that are not null. What the functions do that it calls is left out.
pub careful_natives-IsSafe :
    {W : Type 0} (answer : Effect → W → ℕ × W) (w : W) (n : ℕ) (server : Server) (args : Call)
    → ((e : Effect) (v : W) → IsInitialised e (answer e v).0)
    → All (λ native. All IsSafe (run answer (native n server args) w).2) careful_natives
careful_natives-IsSafe answer w n server args set =
    safe_runs careful_natives (careful_natives-NullSafe n server args)
  where
    safe_runs :
        (natives : List NativeCode)
        → All (λ native. NullSafe (native n server args)) natives
        → All (λ native. All IsSafe (run answer (native n server args) w).2) natives
    safe_runs [] safe = tt
    safe_runs (native ∷ natives) (first, others) =
        (run-NullSafe answer (native n server args) w set first, safe_runs natives others)
