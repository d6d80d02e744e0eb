-- ===== src/Messages/Data.antt =====
-- reapi/src/natives/natives_hookmessage.cpp: the natives that read and write the message that is being
-- sent.
use reapi.Members.Natives.{Call, arg_cell}
use reapi.Members.Setter.{chars_from}
use reapi.Messages.Api.{
  Version, current, original, ParamType, angle, coord, text, other, DataType, dest, index, origin,
  edict, param, MessageApi, data_type, data_code, param_code,
}
use reapi.Messages.{max_usermessages}
use reapi.Prelude.{
  ℕ, ◌+◌, ◌-◌, ◌%◌, ◌^◌, Bool, true, false, not, ◌&&◌, ◌||◌, [], ltb, leb, ◌==◌, take, char_cells,
  get_or, if◌then◌else◌,
}

abbrev pub minus_one : ℕ
minus_one = 2 ^ 32 - 1

-- A number of a parameter as plugins count them, from 1 on, as a `size_t`.
unfoldable pub param_number : ℕ → ℕ
param_number c = (c + minus_one) % 2 ^ 32

unfoldable pub truth : Bool → ℕ
truth true = 1
truth false = 0

module _ {W : Type 0} (api : MessageApi W) where
  -- CHECK_PARAMBOUNDS logs and goes on.
  unfoldable pub check_bounds : ℕ → W → W
  check_bounds number w = if ltb (api.param_count w) number then api.log_error w else w

  -- edictByIndexAmx with 0 as the invalid index, and indexOfEdictAmx.
  unfoldable pub receiver_at : ℕ → ℕ
  receiver_at c = if (c == 0) || leb (2 ^ 31) c then 0 else api.edict_at c

  unfoldable pub receiver_index : ℕ → ℕ → ℕ
  receiver_index invalid e = if e == 0 then invalid else api.index_of_edict e

  -- The inner switch of SetMessageData, for the address of the value.
  unfoldable pub set_param : ParamType → ℕ → ℕ → Call → W → ℕ × W
  set_param text number a call w = (1, api.set_text number (chars_from 254 0 (call.input a)) w)
  set_param angle number a call w = (1, api.set_float number ((call.input a).words 0) w)
  set_param coord number a call w = (1, api.set_float number ((call.input a).words 0) w)
  set_param (other t) number a call w = (0, w)
  set_param t number a call w = (1, api.set_int number ((call.input a).words 0) w)

  -- The outer switch.
  unfoldable pub set_data : DataType → Call → W → ℕ × W
  unfolding check_bounds param_number receiver_at
  set_data dest call w = (1, api.set_dest (arg_cell call 2 % 256) w)
  set_data index call w = (1, api.set_id (arg_cell call 2) w)
  set_data origin call w =
      let value = (call.input (call.params 2)).words in
      (1, api.set_origin (value 0, value 1, value 2) w)
  set_data edict call w = (1, api.set_edict (receiver_at (arg_cell call 2)) w)
  set_data param call w =
      let number = param_number (arg_cell call 2) in
      let w' = check_bounds number w in
      set_param (api.param_type w' number) number (call.params 3) call w'
  set_data t call w = (0, w)

  -- SetMessageData; `available` is what CHECK_REQUIREMENTS asks, `active` whether there is a message.
  unfoldable pub set_message_data : Bool → Bool → Call → W → ℕ × W
  set_message_data available active call w =
      if available && active
      then set_data (data_type (call.params 1)) call w
      else (0, api.log_error w)

  -- The inner switch of GetMessageData and of GetMessageOrigData.
  unfoldable pub get_param : Version → ParamType → ℕ → Call → W → ℕ × W
  get_param v text number call w =
      if call.count == 4
      then (
        1,
        api.write_text (call.params 3)
            (char_cells (take (arg_cell call 4) (get_or (api.get_text v w number) []))) w,
      )
      else (0, w)
  get_param v angle number call w =
      let value = api.get_float v w number in
      (value, if ltb 2 call.count then api.write_cell (call.params 3) value w else w)
  get_param v coord number call w =
      let value = api.get_float v w number in
      (value, if ltb 2 call.count then api.write_cell (call.params 3) value w else w)
  get_param v (other t) number call w = (0, w)
  get_param v t number call w = (api.get_int v w number, w)

  -- Their outer switch, with the index for no receiver.
  unfoldable pub get_data : Version → ℕ → DataType → Call → W → ℕ × W
  unfolding check_bounds param_number receiver_index
  get_data v invalid dest call w = (api.get_dest v w, w)
  get_data v invalid index call w = (api.get_id w, w)
  get_data v invalid origin call w = (1, api.write_vector (call.params 2) (api.get_origin v w) w)
  get_data v invalid edict call w = (receiver_index invalid (api.get_edict v w), w)
  get_data v invalid param call w =
      let number = param_number (arg_cell call 2) in
      let w' = check_bounds number w in get_param v (api.param_type w' number) number call w'
  get_data v invalid t call w = (0, w)

  unfoldable pub get_message_data : Bool → Bool → Call → W → ℕ × W
  get_message_data available active call w =
      if available && active
      then get_data current 0 (data_type (call.params 1)) call w
      else (0, api.log_error w)

  unfoldable pub get_message_orig_data : Bool → Bool → Call → W → ℕ × W
  get_message_orig_data available active call w =
      if available && active
      then get_data original minus_one (data_type (call.params 1)) call w
      else (0, api.log_error w)

  unfoldable pub get_message_arg_type : Bool → Bool → Call → W → ℕ × W
  unfolding check_bounds param_number
  get_message_arg_type available active call w =
      if available && active
      then (let number = param_number (call.params 1) in
          let w' = check_bounds number w in (param_code (api.param_type w' number), w'))
      else (0, api.log_error w)

  unfoldable pub get_message_args_num : Bool → Bool → W → ℕ × W
  get_message_args_num available active w =
      if available && active then (api.param_count w, w) else (0, api.log_error w)

  -- A message that can be hooked: the number of svc_bad is none.
  unfoldable pub is_message_id : ℕ → Bool
  is_message_id c = ltb 0 c && ltb c max_usermessages

  unfoldable pub set_message_block : Bool → Call → W → ℕ × W
  unfolding is_message_id
  set_message_block available call w =
      if available
      then (if is_message_id (call.params 1)
          then (1, api.set_block (call.params 1) (call.params 2 % 256) w)
          else (0, w))
      else (0, api.log_error w)

  unfoldable pub get_message_block : Bool → Call → W → ℕ × W
  unfolding is_message_id
  get_message_block available call w =
      if available
      then (if is_message_id (call.params 1) then (api.get_block w (call.params 1), w) else (0, w))
      else (0, api.log_error w)

  -- The check of the number for IsMessageDataModified and ResetModifiedMessageData: the number that is
  -- passed on, -1 unless a parameter is meant.
  unfoldable pub checked_number : Bool → ℕ → W → ℕ × W
  unfolding check_bounds param_number
  checked_number wanted c w =
      if wanted then (param_number c, check_bounds (param_number c) w) else (minus_one, w)

  unfoldable pub is_message_data_modified : Bool → Bool → Call → W → ℕ × W
  unfolding checked_number
  is_message_data_modified available active call w =
      if available && active
      then (let t = data_type (call.params 1) in
          let (number, w') = checked_number (data_code t == 5) (call.params 2) w in
          (truth (api.is_modified w' t number), w'))
      else (0, api.log_error w)

  unfoldable pub reset_modified_message_data : Bool → Bool → Call → W → ℕ × W
  unfolding checked_number
  reset_modified_message_data available active call w =
      if available && active
      then (let t = data_type (call.params 1) in
          let wanted = (data_code t == 5) && not (call.params 2 == minus_one) in
          let (number, w') = checked_number wanted (call.params 2) w in
          let (done, w'') = api.reset_modified t number w' in (truth done, w''))
      else (0, api.log_error w)
