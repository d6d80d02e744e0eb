-- ===== src/Misc/Engine.antt =====
-- reapi/src/natives/natives_misc.cpp: the natives on the engine and its clients.
use reapi.Members.Natives.{Call}
use reapi.Misc.Calls.{
  cell, text, has_disconnected, frames, frame_count, frame_entities, packed_number, active, spawned,
  connected, fake_client, outgoing_sequence, connect_time, is_net_client, client_is_active,
  client_is_spawned, client_is_connected, write_text, set_map_name, get_map_name,
  set_reset_global_state, emit_sound2, client_at, client_t_at, update_user_info, drop_client,
  net_from_text, real_time, time_since, is_paused, set_server_pause, get, invoke, call, Server,
  flag, text_arg, vector_arg, edict_arg, cell_arg, is_positive,
}
use reapi.Misc.{Native, Statement, false_cell, true_cell, refuse, is_player, private_arg}
use reapi.Prelude.Programs.{finish, perform, ◌>>=◌, ◌>>◌, when}
use reapi.Prelude.{ℕ, zero, suc, ◌+◌, ◌-◌, ◌%◌, ◌^◌, not, ◌&&◌, ◌||◌, [], ◌∷◌, ◌==◌, if◌then◌else◌}

-- `g_szMapName` is told by 0, and the name that the engine has by 1; ResetGlobalState is told by 1.
unfoldable pub rh_set_mapname : Call → Native
rh_set_mapname args = do
  perform (call set_map_name (text (text_arg args 1) ∷ []))
  perform (call set_reset_global_state (cell 1 ∷ []))
  finish true_cell

unfoldable pub rh_get_mapname : Call → Native
rh_get_mapname args = do
  when (args.params 3 == 0 || args.params 3 == 1) (λ rest. do
    name ← perform (call get_map_name (cell_arg args 3 ∷ []))
    perform (call write_text (cell_arg args 1 ∷ cell name ∷ cell_arg args 2 ∷ [])) rest)
  finish true_cell

unfoldable pub rh_reset_mapname : Native
rh_reset_mapname = do
  name ← perform (call get_map_name (cell 0 ∷ []))
  perform (call set_map_name (cell name ∷ []))
  perform (call set_reset_global_state (cell 0 ∷ []))
  finish true_cell

-- IGameClient by CAmxArg: none for 0 and less.
unfoldable pub client_arg : ℕ → Call → Statement
client_arg i args rest =
    if is_positive (args.params i)
    then perform (call client_at (cell (args.params i - 1) ∷ [])) rest
    else rest 0

-- The entity that is the recipient must be a player, unless its index is 0.
unfoldable pub rh_emit_sound2 : Call → Native
unfolding client_arg
rh_emit_sound2 args = do
  recipient ← private_arg 2 args
  if recipient == 0 then refuse else (do
    gone ← perform (get has_disconnected recipient)
    if not (gone == 0) then refuse else (do
      heard ← (λ next.
          if args.params 2 == 0 then next 1 else perform (invoke is_net_client recipient []) next)
      if heard == 0 then finish false_cell else (do
        client ← client_arg 2 args
        perform
            (call emit_sound2 (
              edict_arg args 1
              ∷ cell client
              ∷ cell_arg args 3
              ∷ text (text_arg args 4)
              ∷ cell_arg args 5
              ∷ cell_arg args 6
              ∷ cell_arg args 7
              ∷ cell_arg args 8
              ∷ cell_arg args 9
              ∷ vector_arg args 10
              ∷ []))
            finish)))

-- CHECK_APICLIENT_CONNECTED, behind clientByIndex; each method is asked unless one before said yes.
unfoldable pub api_client : Server → Call → Statement
api_client server args rest =
    if is_player server (args.params 1)
    then (do
      client ← perform (call client_at (cell (args.params 1 - 1) ∷ []))
      if client == 0 then refuse else (do
        playing ← perform (invoke client_is_active client [])
        if not (playing == 0) then rest client else (do
          there ← perform (invoke client_is_spawned client [])
          if not (there == 0) then rest client else (do
            joined ← perform (invoke client_is_connected client [])
            if not (joined == 0) then rest client else refuse))))
    else refuse

unfoldable pub rh_update_user_info : Server → Call → Native
unfolding api_client
rh_update_user_info server args = do
  client ← api_client server args
  perform (call update_user_info (cell client ∷ []))
  finish true_cell

unfoldable pub rh_drop_client : Server → Call → Native
unfolding api_client
rh_drop_client server args = do
  client ← api_client server args
  perform (call drop_client (cell client ∷ cell 0 ∷ text (text_arg args 2) ∷ []))
  finish true_cell

-- The text that NET_AdrToString makes of the address.
unfoldable pub rh_get_net_from : Call → Native
rh_get_net_from args = do
  address ← perform (call net_from_text [])
  perform (call write_text (cell_arg args 1 ∷ cell address ∷ cell_arg args 2 ∷ []))
  finish true_cell

unfoldable pub rh_get_realtime : Native
rh_get_realtime = perform (call real_time []) finish

-- CHECK_CLIENT_CONNECTED, behind clientOfIndex.
unfoldable pub connected_client : Server → Call → Statement
connected_client server args rest =
    if is_player server (args.params 1)
    then (do
      client ← perform (call client_t_at (cell_arg args 1 ∷ []))
      if client == 0 then refuse else (do
        playing ← perform (get active client)
        there ← perform (get spawned client)
        joined ← perform (get connected client)
        if (playing == 0) && ((there == 0) && (joined == 0)) then refuse else rest client))
    else refuse

unfoldable pub rh_get_client_connect_time : Server → Call → Native
unfolding connected_client
rh_get_client_connect_time server args = do
  client ← connected_client server args
  since ← perform (get connect_time client)
  perform (call time_since (cell since ∷ [])) finish

-- The entities of the frame with this number, from one on; the pointer to them is read each time.
unfoldable pub packed_from : ℕ → ℕ → ℕ → ℕ → ℕ → Native
packed_from zero i wanted frame all = finish false_cell
packed_from (suc n) i wanted frame all = do
  entities ← perform (get (frame_entities frame) all)
  number ← perform (get (packed_number i) entities)
  if number == wanted then finish true_cell else packed_from n (suc i) wanted frame all

-- SINGLEPLAYER_BACKUP is 8 and MULTIPLAYER_BACKUP 64, powers of 2, so that the mask is a remainder.
unfoldable pub frame_index : Server → ℕ → ℕ → ℕ
frame_index server sequence offset =
    (sequence + offset) % 2 ^ 32 % (if server.max_clients == 1 then 8 else 64)

unfoldable pub rh_is_entity_fullpacked : Server → Call → Native
unfolding connected_client packed_from frame_index
rh_is_entity_fullpacked server args = do
  host ← connected_client server args
  fake ← perform (get fake_client host)
  if not (fake == 0) then refuse else (do
    sequence ← perform (get outgoing_sequence host)
    all ← perform (get frames host)
    let frame = frame_index server sequence (args.params 3) in
        do
          count ← perform (get (frame_count frame) all)
          if is_positive count
              then packed_from count 0 (args.params 2) frame all
              else finish false_cell)

unfoldable pub rh_is_server_paused : Native
rh_is_server_paused = do
  paused ← perform (call is_paused [])
  finish (if paused == 0 then false_cell else true_cell)

unfoldable pub rh_set_server_pause : Call → Native
rh_set_server_pause args = do
  perform (call set_server_pause (cell (flag args 1) ∷ []))
  finish true_cell
