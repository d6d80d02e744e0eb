-- ===== src/Misc/NullSafe/Engine.antt =====
-- reapi/src/natives/natives_misc.cpp: natives that use no null pointer (Misc.Engine).
use reapi.Misc.Engine.{
  rh_set_mapname, rh_get_mapname, rh_reset_mapname, client_arg, rh_emit_sound2, api_client,
  rh_update_user_info, rh_drop_client, rh_get_net_from, rh_get_realtime, connected_client,
  rh_get_client_connect_time, packed_from, rh_is_entity_fullpacked, rh_is_server_paused,
  rh_set_server_pause,
}
use reapi.Misc.NullSafe.Players.{player_rules}
use reapi.Misc.NullSafe.Guards.{null_safe}
use reapi.Misc.NullSafe.{
  NullSafe, get-NullSafe, frame_entities-NullSafe, finish-NullSafe, if-NullSafe, NativeCode,
}
use reapi.Members.Natives.{Call}
use reapi.Misc.Calls.{packed_number, Server}
use reapi.Misc.{Native, false_cell, true_cell}
use reapi.Prelude.{◌⊗◌, ℕ, zero, suc, ◌≢◌, List, [], ◌∷◌, ◌==◌, All}

pub client_arg-NullSafe :
    (i : ℕ) (args : Call) (rest : ℕ → Native)
    → ((r : ℕ) → NullSafe (rest r))
    → NullSafe (client_arg i args rest)
unfolding client_arg
client_arg-NullSafe i args rest safe = search (null_safe) depth 24

pub api_client-NullSafe :
    (server : Server) (args : Call) (rest : ℕ → Native)
    → ((r : ℕ) → NullSafe (rest r))
    → NullSafe (api_client server args rest)
unfolding api_client
api_client-NullSafe server args rest safe = search (null_safe) depth 24

pub connected_client-NullSafe :
    (server : Server) (args : Call) (rest : ℕ → Native)
    → ((p : ℕ) → p ≢ 0 → NullSafe (rest p))
    → NullSafe (connected_client server args rest)
unfolding connected_client
connected_client-NullSafe server args rest safe = search (null_safe) depth 24

pub packed_from-NullSafe :
    (n i wanted frame all : ℕ) → all ≢ 0 → NullSafe (packed_from n i wanted frame all)
unfolding packed_from
packed_from-NullSafe zero i wanted frame all ne = finish-NullSafe false_cell
packed_from-NullSafe (suc n) i wanted frame all ne =
    frame_entities-NullSafe frame all _ ne (λ entities set.
      get-NullSafe (packed_number i) entities _ set (λ number.
        if-NullSafe (number == wanted) _ _ (finish-NullSafe true_cell)
          (packed_from-NullSafe n (suc i) wanted frame all ne)))

pub ruleset engine_rules = (
  null_safe, player_rules, client_arg-NullSafe, api_client-NullSafe, connected_client-NullSafe,
  packed_from-NullSafe,
)

pub rh_set_mapname-NullSafe : (args : Call) → NullSafe (rh_set_mapname args)
unfolding rh_set_mapname
rh_set_mapname-NullSafe args = search engine_rules depth 24

pub rh_get_mapname-NullSafe : (args : Call) → NullSafe (rh_get_mapname args)
unfolding rh_get_mapname
rh_get_mapname-NullSafe args = search engine_rules depth 24

pub rh_reset_mapname-NullSafe : NullSafe (rh_reset_mapname)
unfolding rh_reset_mapname
rh_reset_mapname-NullSafe = search engine_rules depth 24

pub rh_emit_sound2-NullSafe : (args : Call) → NullSafe (rh_emit_sound2 args)
unfolding rh_emit_sound2
rh_emit_sound2-NullSafe args = search engine_rules depth 24

pub rh_update_user_info-NullSafe :
    (server : Server) (args : Call) → NullSafe (rh_update_user_info server args)
unfolding rh_update_user_info
rh_update_user_info-NullSafe server args = search engine_rules depth 24

pub rh_drop_client-NullSafe :
    (server : Server) (args : Call) → NullSafe (rh_drop_client server args)
unfolding rh_drop_client
rh_drop_client-NullSafe server args = search engine_rules depth 24

pub rh_get_net_from-NullSafe : (args : Call) → NullSafe (rh_get_net_from args)
unfolding rh_get_net_from
rh_get_net_from-NullSafe args = search engine_rules depth 24

pub rh_get_realtime-NullSafe : NullSafe (rh_get_realtime)
unfolding rh_get_realtime
rh_get_realtime-NullSafe = search engine_rules depth 24

pub rh_get_client_connect_time-NullSafe :
    (server : Server) (args : Call) → NullSafe (rh_get_client_connect_time server args)
unfolding rh_get_client_connect_time
rh_get_client_connect_time-NullSafe server args = search engine_rules depth 24

pub rh_is_entity_fullpacked-NullSafe :
    (server : Server) (args : Call) → NullSafe (rh_is_entity_fullpacked server args)
unfolding rh_is_entity_fullpacked
rh_is_entity_fullpacked-NullSafe server args = search engine_rules depth 24

pub rh_is_server_paused-NullSafe : NullSafe (rh_is_server_paused)
unfolding rh_is_server_paused
rh_is_server_paused-NullSafe = search engine_rules depth 24

pub rh_set_server_pause-NullSafe : (args : Call) → NullSafe (rh_set_server_pause args)
unfolding rh_set_server_pause
rh_set_server_pause-NullSafe args = search engine_rules depth 24

-- The natives above.
unfoldable pub engine_natives : List NativeCode
engine_natives =
    (λ n server args. rh_set_mapname args)
    ∷ (λ n server args. rh_get_mapname args)
    ∷ (λ n server args. rh_reset_mapname)
    ∷ (λ n server args. rh_emit_sound2 args)
    ∷ (λ n server args. rh_update_user_info server args)
    ∷ (λ n server args. rh_drop_client server args)
    ∷ (λ n server args. rh_get_net_from args)
    ∷ (λ n server args. rh_get_realtime)
    ∷ (λ n server args. rh_get_client_connect_time server args)
    ∷ (λ n server args. rh_is_entity_fullpacked server args)
    ∷ (λ n server args. rh_is_server_paused)
    ∷ (λ n server args. rh_set_server_pause args)
    ∷ []

pub engine_natives-NullSafe :
    (n : ℕ) (server : Server) (args : Call)
    → All (λ native. NullSafe (native n server args)) engine_natives
unfolding engine_natives
engine_natives-NullSafe n server args =
    rh_set_mapname-NullSafe args
    ⊗ rh_get_mapname-NullSafe args
    ⊗ rh_reset_mapname-NullSafe
    ⊗ rh_emit_sound2-NullSafe args
    ⊗ rh_update_user_info-NullSafe server args
    ⊗ rh_drop_client-NullSafe server args
    ⊗ rh_get_net_from-NullSafe args
    ⊗ rh_get_realtime-NullSafe
    ⊗ rh_get_client_connect_time-NullSafe server args
    ⊗ rh_is_entity_fullpacked-NullSafe server args
    ⊗ rh_is_server_paused-NullSafe
    ⊗ rh_set_server_pause-NullSafe args
    ⊗ tt
