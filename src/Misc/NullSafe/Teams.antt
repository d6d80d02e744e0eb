-- ===== src/Misc/NullSafe/Teams.antt =====
-- reapi/src/natives/natives_misc.cpp: natives that use no null pointer (Misc.Teams, Misc.Bomb).
use reapi.Misc.Teams.{
  model_struct, model_from, get_model_auto, count_up, count_down, hide_defuser, drop_bomb,
  pass_on_bomb, join_count, leave_team, change_model, announce_team, rg_set_user_team,
}
use reapi.Misc.Bomb.{
  show_kit, rg_give_defusekit, give_to_another, give_to_player, rg_transfer_c4, rg_plant_bomb,
  rg_is_bomb_planted,
}
use reapi.Misc.NullSafe.Players.{player_rules}
use reapi.Misc.NullSafe.Items.{item_rules}
use reapi.Misc.NullSafe.Guards.{null_safe}
use reapi.Misc.NullSafe.{NullSafe, call-NullSafe, if-NullSafe, NativeCode}
use reapi.Members.Natives.{Call}
use reapi.Misc.Calls.{Field, random_long, Server}
use reapi.Misc.{Native}
use reapi.Prelude.{◌⊗◌, ℕ, ◌+◌, ◌≢◌, List, [], ◌∷◌, ◌==◌, All}

pub count_up-NullSafe :
    (field : Field) (rules : ℕ) (rest : ℕ → Native)
    → rules ≢ 0
    → ((r : ℕ) → NullSafe (rest r))
    → NullSafe (count_up field rules rest)
unfolding count_up
count_up-NullSafe field rules rest ne0 safe = search (null_safe) depth 24

pub count_down-NullSafe :
    (field : Field) (rules : ℕ) (rest : ℕ → Native)
    → rules ≢ 0
    → ((r : ℕ) → NullSafe (rest r))
    → NullSafe (count_down field rules rest)
unfolding count_down
count_down-NullSafe field rules rest ne0 safe = search (null_safe) depth 24

pub hide_defuser-NullSafe :
    (p : ℕ) (rest : ℕ → Native) → ((r : ℕ) → NullSafe (rest r)) → NullSafe (hide_defuser p rest)
unfolding hide_defuser
hide_defuser-NullSafe p rest safe = search (null_safe) depth 24

pub drop_bomb-NullSafe :
    (p : ℕ) (rest : ℕ → Native)
    → p ≢ 0
    → ((r : ℕ) → NullSafe (rest r))
    → NullSafe (drop_bomb p rest)
unfolding drop_bomb
drop_bomb-NullSafe p rest ne0 safe = search (null_safe) depth 24

pub pass_on_bomb-NullSafe :
    (rules p : ℕ) (rest : ℕ → Native)
    → rules ≢ 0
    → p ≢ 0
    → ((r : ℕ) → NullSafe (rest r))
    → NullSafe (pass_on_bomb rules p rest)
unfolding pass_on_bomb
pass_on_bomb-NullSafe rules p rest ne0 ne1 safe = search (null_safe, drop_bomb-NullSafe) depth 24

pub join_count-NullSafe :
    (rules new : ℕ) (rest : ℕ → Native)
    → rules ≢ 0
    → ((r : ℕ) → NullSafe (rest r))
    → NullSafe (join_count rules new rest)
unfolding join_count
join_count-NullSafe rules new rest ne0 safe = search (null_safe, count_up-NullSafe) depth 24

pub leave_team-NullSafe :
    (rules p old : ℕ) (rest : ℕ → Native)
    → rules ≢ 0
    → p ≢ 0
    → ((r : ℕ) → NullSafe (rest r))
    → NullSafe (leave_team rules p old rest)
unfolding leave_team
leave_team-NullSafe rules p old rest ne0 ne1 safe =
    search (null_safe, count_down-NullSafe, hide_defuser-NullSafe, pass_on_bomb-NullSafe) depth 24

pub model_from-NullSafe :
    (entries : List (ℕ × ℕ)) (cur wanted : ℕ) (rest : ℕ → Native)
    → ((r : ℕ) → NullSafe (rest r))
    → NullSafe (model_from entries cur wanted rest)
unfolding model_from
model_from-NullSafe [] cur wanted rest safe = safe 0
model_from-NullSafe (entry ∷ entries) cur wanted rest safe =
    if-NullSafe (entry.0 == wanted) _ _ (call-NullSafe random_long _ _ (λ i. safe _))
      (model_from-NullSafe entries (cur + 1) wanted rest safe)

pub get_model_auto-NullSafe :
    (wanted : ℕ) (rest : ℕ → Native)
    → ((r : ℕ) → NullSafe (rest r))
    → NullSafe (get_model_auto wanted rest)
unfolding get_model_auto
get_model_auto-NullSafe wanted rest safe = model_from-NullSafe model_struct 0 wanted rest safe

pub change_model-NullSafe :
    (p new model : ℕ) (rest : ℕ → Native)
    → p ≢ 0
    → ((r : ℕ) → NullSafe (rest r))
    → NullSafe (change_model p new model rest)
unfolding change_model
change_model-NullSafe p new model rest ne0 safe =
    search (null_safe, get_model_auto-NullSafe) depth 24

pub announce_team-NullSafe :
    (rules p : ℕ) (args : Call) → rules ≢ 0 → p ≢ 0 → NullSafe (announce_team rules p args)
unfolding announce_team
announce_team-NullSafe rules p args ne0 ne1 = search (null_safe, change_model-NullSafe) depth 24

pub show_kit-NullSafe :
    (p : ℕ) (args : Call) (rest : ℕ → Native)
    → ((r : ℕ) → NullSafe (rest r))
    → NullSafe (show_kit p args rest)
unfolding show_kit
show_kit-NullSafe p args rest safe = search (null_safe) depth 24

pub give_to_another-NullSafe :
    (rules p : ℕ) (rest : ℕ → Native)
    → rules ≢ 0
    → p ≢ 0
    → ((r : ℕ) → NullSafe (rest r))
    → NullSafe (give_to_another rules p rest)
unfolding give_to_another
give_to_another-NullSafe rules p rest ne0 ne1 safe = search (null_safe) depth 24

pub give_to_player-NullSafe :
    (p : ℕ) (args : Call) (rest : ℕ → Native)
    → p ≢ 0
    → ((r : ℕ) → NullSafe (rest r))
    → NullSafe (give_to_player p args rest)
unfolding give_to_player
give_to_player-NullSafe p args rest ne0 safe = search (null_safe) depth 24

pub ruleset team_rules = (
  null_safe, player_rules, item_rules, count_up-NullSafe, count_down-NullSafe,
  hide_defuser-NullSafe, drop_bomb-NullSafe, pass_on_bomb-NullSafe, join_count-NullSafe,
  leave_team-NullSafe, model_from-NullSafe, get_model_auto-NullSafe, change_model-NullSafe,
  announce_team-NullSafe, show_kit-NullSafe, give_to_another-NullSafe, give_to_player-NullSafe,
)

pub rg_set_user_team-NullSafe :
    (server : Server) (args : Call) → NullSafe (rg_set_user_team server args)
unfolding rg_set_user_team
rg_set_user_team-NullSafe server args = search team_rules depth 24

pub rg_give_defusekit-NullSafe :
    (server : Server) (args : Call) → NullSafe (rg_give_defusekit server args)
unfolding rg_give_defusekit
rg_give_defusekit-NullSafe server args = search team_rules depth 24

pub rg_transfer_c4-NullSafe :
    (server : Server) (args : Call) → NullSafe (rg_transfer_c4 server args)
unfolding rg_transfer_c4
rg_transfer_c4-NullSafe server args = search team_rules depth 24

pub rg_plant_bomb-NullSafe : (server : Server) (args : Call) → NullSafe (rg_plant_bomb server args)
unfolding rg_plant_bomb
rg_plant_bomb-NullSafe server args = search team_rules depth 24

pub rg_is_bomb_planted-NullSafe : NullSafe (rg_is_bomb_planted)
unfolding rg_is_bomb_planted
rg_is_bomb_planted-NullSafe = search team_rules depth 24

-- The natives above.
unfoldable pub team_natives : List NativeCode
team_natives =
    (λ n server args. rg_set_user_team server args)
    ∷ (λ n server args. rg_give_defusekit server args)
    ∷ (λ n server args. rg_transfer_c4 server args)
    ∷ (λ n server args. rg_plant_bomb server args)
    ∷ (λ n server args. rg_is_bomb_planted)
    ∷ []

pub team_natives-NullSafe :
    (n : ℕ) (server : Server) (args : Call)
    → All (λ native. NullSafe (native n server args)) team_natives
unfolding team_natives
team_natives-NullSafe n server args =
    rg_set_user_team-NullSafe server args
    ⊗ rg_give_defusekit-NullSafe server args
    ⊗ rg_transfer_c4-NullSafe server args
    ⊗ rg_plant_bomb-NullSafe server args
    ⊗ rg_is_bomb_planted-NullSafe
    ⊗ tt
