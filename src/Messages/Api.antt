-- ===== src/Messages/Api.antt =====
-- reapi/src/natives/natives_hookmessage.cpp: what the natives ask of a message. The message itself
-- (IMessage) and the message manager belong to ReHLDS: a `MessageApi` has their operations on a world
-- that also holds the memory of the plugin.
use reapi.Prelude.{ℕ, ◌%◌, Bool, List, Option, ◌==◌, if◌then◌else◌}

-- The message as the callbacks have changed it, and as it was.
pub data Version : Type 0 where
  current original : Version

-- IMessage::ParamType, and any other code.
pub data ParamType : Type 0 where
  byte char short long angle coord text entity : ParamType
  other : ℕ → ParamType

-- IMessage::DataType
pub data DataType : Type 0 where
  any dest index origin edict param : DataType
  unknown : ℕ → DataType

-- The cast of a cell to an enumeration of one byte.
unfoldable pub data_type : ℕ → DataType
data_type c =
    let t = c % 256 in
    if t == 0
    then any
    else if t == 1
    then dest
    else if t == 2
    then index
    else if t == 3
    then origin
    else if t == 4
    then edict
    else if t == 5
    then param
    else unknown t

unfoldable pub data_code : DataType → ℕ
data_code any = 0
data_code dest = 1
data_code index = 2
data_code origin = 3
data_code edict = 4
data_code param = 5
data_code (unknown t) = t

unfoldable pub param_code : ParamType → ℕ
param_code byte = 0
param_code char = 1
param_code short = 2
param_code long = 3
param_code angle = 4
param_code coord = 5
param_code text = 6
param_code entity = 7
param_code (other t) = t

-- Numbers are cells, and null pointers are 0. The parameters of a message are numbered from 0.
pub record MessageApi (W : Type 0) : Type 0 where
  pub param_count : W → ℕ
  pub param_type : W → ℕ → ParamType
  pub get_int : Version → W → ℕ → ℕ
  pub get_float : Version → W → ℕ → ℕ
  pub get_text : Version → W → ℕ → Option (List ℕ)
  pub get_dest : Version → W → ℕ
  pub get_id : W → ℕ
  pub get_origin : Version → W → ℕ × ℕ × ℕ
  pub get_edict : Version → W → ℕ
  pub set_int : ℕ → ℕ → W → W
  pub set_float : ℕ → ℕ → W → W
  pub set_text : ℕ → List ℕ → W → W
  pub set_dest : ℕ → W → W
  pub set_id : ℕ → W → W
  pub set_origin : ℕ × ℕ × ℕ → W → W
  pub set_edict : ℕ → W → W
  pub is_modified : W → DataType → ℕ → Bool
  pub reset_modified : DataType → ℕ → W → Bool × W
  pub get_block : W → ℕ → ℕ
  pub set_block : ℕ → ℕ → W → W
  -- `g_pEdicts + index`, and the index of an edict
  pub edict_at : ℕ → ℕ
  pub index_of_edict : ℕ → ℕ
  -- AMXX_LogError, and writes to the memory of the plugin: three cells, a cell, and a text.
  pub log_error : W → W
  pub write_vector : ℕ → ℕ × ℕ × ℕ → W → W
  pub write_cell : ℕ → ℕ → W → W
  pub write_text : ℕ → List ℕ → W → W
