-- ===== src/Misc/Refusals.antt =====
-- reapi/src/natives/natives_misc.cpp: what the natives on a player do when he is not there.
use reapi.Misc.Players.{
  rg_set_animation, rg_add_account, rg_give_default_items, rg_give_shield, rg_remove_all_items,
  rg_drop_item, rg_remove_item, rg_get_user_armor, rg_set_user_armor, rg_set_user_model,
  rg_reset_user_model, rg_set_user_footsteps, rg_get_user_footsteps,
}
use reapi.Misc.Items.{
  rg_give_item, rg_give_custom_item, rg_find_weapon_bpack_by_name, rg_has_item_by_name,
  rg_remove_items_by_slot, rg_drop_items_by_slot,
}
use reapi.Misc.Ammo.{rg_set_user_bpammo, rg_get_user_bpammo, rg_set_user_ammo, rg_get_user_ammo}
use reapi.Misc.Actions.{
  rg_join_team, rg_switch_team, rg_switch_weapon, rg_instant_reload_weapons, rg_hint_message,
}
use reapi.Misc.Deaths.{rg_disappear, rg_set_observer_mode, rg_observer_find_next_player}
use reapi.Misc.NullSafe.{NativeCode}
use reapi.Members.Natives.{Call}
use reapi.Misc.Calls.{cell, has_disconnected, player_by_index, Effect, log_error, get, call, Server}
use reapi.Misc.{Native, refuse, present_player, is_player, connected_player}
use reapi.Prelude.Programs.{perform, run}
use reapi.Prelude.{
  ◌⊗◌, ℕ, ◌≡◌, refl, Bool, true, false, ◌||◌, some, List, [], ◌∷◌, arith, ◌==◌, if◌then◌else◌, All,
}

-- Calls that change nothing of the game.
abbrev pub IsQuiet : Effect → Type 0
IsQuiet log_error = Unit
IsQuiet (get field p) = Unit
IsQuiet (call player_by_index xs) = Unit
IsQuiet e = ⊥

-- The error is logged.
abbrev is_log : Effect → Bool
is_log log_error = true
is_log e = false

abbrev pub is_logged : List Effect → Bool
is_logged [] = false
is_logged (e ∷ es) = is_log e || is_logged es

-- The natives that begin with the look-up of the player whom their first argument names.
unfoldable pub natives_on_players : List NativeCode
natives_on_players =
    (λ n server args. rg_set_animation server args)
    ∷ (λ n server args. rg_add_account server args)
    ∷ (λ n server args. rg_give_default_items server args)
    ∷ (λ n server args. rg_give_shield server args)
    ∷ (λ n server args. rg_remove_all_items server args)
    ∷ (λ n server args. rg_drop_item server args)
    ∷ (λ n server args. rg_remove_item server args)
    ∷ (λ n server args. rg_get_user_armor server args)
    ∷ (λ n server args. rg_set_user_armor server args)
    ∷ (λ n server args. rg_set_user_model server args)
    ∷ (λ n server args. rg_reset_user_model server args)
    ∷ (λ n server args. rg_set_user_footsteps server args)
    ∷ (λ n server args. rg_get_user_footsteps server args)
    ∷ (λ n server args. rg_give_item n server args)
    ∷ (λ n server args. rg_give_custom_item n server args)
    ∷ (λ n server args. rg_find_weapon_bpack_by_name n server args)
    ∷ (λ n server args. rg_has_item_by_name n server args)
    ∷ (λ n server args. rg_remove_items_by_slot n server args)
    ∷ (λ n server args. rg_drop_items_by_slot n server args)
    ∷ (λ n server args. rg_set_user_bpammo n server args)
    ∷ (λ n server args. rg_get_user_bpammo n server args)
    ∷ (λ n server args. rg_set_user_ammo n server args)
    ∷ (λ n server args. rg_get_user_ammo n server args)
    ∷ (λ n server args. rg_join_team server args)
    ∷ (λ n server args. rg_switch_team server args)
    ∷ (λ n server args. rg_switch_weapon server args)
    ∷ (λ n server args. rg_instant_reload_weapons server args)
    ∷ (λ n server args. rg_hint_message server args)
    ∷ (λ n server args. rg_disappear server args)
    ∷ (λ n server args. rg_set_observer_mode server args)
    ∷ (λ n server args. rg_observer_find_next_player server args)
    ∷ []

module _ {W : Type 0} (answer : Effect → W → ℕ × W) where
  -- FALSE is returned, the error is logged, and all else that is done is to look the player up.
  abbrev pub Refuses : Native → W → Type 0
  Refuses code w =
      ((run answer code w).0 ≡ some 0)
      × (is_logged (run answer code w).2 ≡ true)
      × All IsQuiet (run answer code w).2

  -- The player whom an index names is there.
  abbrev pub is_there : Server → ℕ → W → Bool
  is_there server c w =
      if is_player server c
      then (let (p, w') = answer (call player_by_index (cell c ∷ [])) w in
          if p == 0 then false else (answer (get has_disconnected p) w').0 == 0)
      else false

  refuse-Refuses : (w : W) → Refuses refuse w
  unfolding refuse run
  refuse-Refuses w = (refl, refl, (tt, tt))

  perform-Refuses :
      (e : Effect) (rest : ℕ → Native) (w : W)
      → IsQuiet e
      → Refuses (rest (answer e w).0) (answer e w).1
      → Refuses (perform e rest) w
  unfolding run
  perform-Refuses e rest w quiet (result, logged, calls) =
      (result, ground (arith, logged), (quiet, calls))

  if-Refuses :
      (b : Bool) (x y : Native) (w : W)
      → (b ≡ true → Refuses x w)
      → (b ≡ false → Refuses y w)
      → Refuses (if b then x else y) w
  if-Refuses true x y w rx ry = rx refl
  if-Refuses false x y w rx ry = ry refl

  connected_player-Refuses :
      (server : Server) (args : Call) (rest : ℕ → Native) (w : W)
      → is_there server (args.params 1) w ≡ false
      → Refuses (connected_player server 1 args rest) w
  unfolding connected_player present_player
  connected_player-Refuses server args rest w absent =
      let c = args.params 1 in
      let (p, w') = answer (call player_by_index (cell c ∷ [])) w in
      if-Refuses (is_player server c) _ _ w
        (λ index. perform-Refuses (call player_by_index (cell c ∷ [])) _ w tt (
          if-Refuses (p == 0) _ _ w' (λ missing. refuse-Refuses w')
            (λ found. perform-Refuses (get has_disconnected p) _ w' tt (
              if-Refuses ((answer (get has_disconnected p) w').0 == 0) _ _
                (answer (get has_disconnected p) w').1
                (λ present. absurd (not_there index found present)) (λ gone. refuse-Refuses _)))))
        (λ no_player. refuse-Refuses w)
    where
      not_there :
          is_player server (args.params 1) ≡ true
          → ((answer (call player_by_index (cell (args.params 1) ∷ [])) w).0 == 0) ≡ false
          → ((answer
                (get has_disconnected
                  (answer (call player_by_index (cell (args.params 1) ∷ [])) w).0)
                (answer (call player_by_index (cell (args.params 1) ∷ [])) w).1).0
              == 0)
            ≡ true
          → ⊥
      not_there index found present = ground arith

  -- Each of the 31 natives of `natives_on_players`, called for a player who is not there, because the
  -- index is none of a player, or there is no object for it, or the player has disconnected, returns
  -- FALSE, logs an error, writes nothing and calls no method: all else it does is to look the player up.
  pub natives_on_players-Refuses :
      (n : ℕ) (server : Server) (args : Call) (w : W)
      → is_there server (args.params 1) w ≡ false
      → All (λ native. Refuses (native n server args) w) natives_on_players
  unfolding natives_on_players rg_set_animation rg_add_account rg_give_default_items rg_give_shield
      rg_remove_all_items rg_drop_item rg_remove_item rg_get_user_armor rg_set_user_armor
      rg_set_user_model rg_reset_user_model rg_set_user_footsteps rg_get_user_footsteps rg_give_item
      rg_give_custom_item rg_find_weapon_bpack_by_name rg_has_item_by_name rg_remove_items_by_slot
      rg_drop_items_by_slot rg_set_user_bpammo rg_get_user_bpammo rg_set_user_ammo rg_get_user_ammo
      rg_join_team rg_switch_team rg_switch_weapon rg_instant_reload_weapons rg_hint_message
      rg_disappear rg_set_observer_mode rg_observer_find_next_player
  natives_on_players-Refuses n server args w absent =
      let refused = λ (rest : ℕ → Native). connected_player-Refuses server args rest w absent in
      refused _
      ⊗ refused _
      ⊗ refused _
      ⊗ refused _
      ⊗ refused _
      ⊗ refused _
      ⊗ refused _
      ⊗ refused _
      ⊗ refused _
      ⊗ refused _
      ⊗ refused _
      ⊗ refused _
      ⊗ refused _
      ⊗ refused _
      ⊗ refused _
      ⊗ refused _
      ⊗ refused _
      ⊗ refused _
      ⊗ refused _
      ⊗ refused _
      ⊗ refused _
      ⊗ refused _
      ⊗ refused _
      ⊗ refused _
      ⊗ refused _
      ⊗ refused _
      ⊗ refused _
      ⊗ refused _
      ⊗ refused _
      ⊗ refused _
      ⊗ refused _
      ⊗ tt
