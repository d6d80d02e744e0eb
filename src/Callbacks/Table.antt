-- ===== src/Callbacks/Table.antt =====
-- reapi/src/hook_list.cpp: the functions of all tables.
use reapi.Callbacks.{Callback}
use reapi.Callbacks.Engine.{engine_callbacks}
use reapi.Callbacks.GameDll.{game_dll_callbacks}
use reapi.Callbacks.Projectiles.{projectiles_callbacks}
use reapi.Callbacks.Player.{player_callbacks}
use reapi.Callbacks.PlayerActions.{player_actions_callbacks}
use reapi.Callbacks.PlayerItems.{player_items_callbacks}
use reapi.Callbacks.GameRules.{game_rules_callbacks}
use reapi.Callbacks.Rounds.{rounds_callbacks}
use reapi.Callbacks.Weapons.{weapons_callbacks}
use reapi.Callbacks.Entities.{entities_callbacks}
use reapi.Prelude.{List, ◌++◌}

abbrev pub all_callbacks : List Callback
all_callbacks =
    engine_callbacks
    ++ (game_dll_callbacks
        ++ (projectiles_callbacks
            ++ (player_callbacks
                ++ (player_actions_callbacks
                    ++ (player_items_callbacks
                        ++ (game_rules_callbacks
                            ++ (rounds_callbacks
                                ++ (weapons_callbacks ++ (entities_callbacks)))))))))
