-- ===== src/Queries.antt =====
-- reapi/src/mods/queryfile_handler.h, queryfile_handler.cpp and natives/natives_rechecker.cpp: the
-- requests for the hashes of files that plugins have made, and their callbacks.
--
-- AMXX and ReChecker are told of each change: what they are told is a list of events, the earliest
-- first. The forward that AMXX registers, and the number from MAKE_REQUESTID, are given. The list
-- that a callback is looked up in is the one at the start.
pub mod Balance
mod Examples
use reapi.Prelude.Int.{ℤ, pos, negsuc, eqb_ℤ}
use reapi.Prelude.{ℕ, ◌+◌, Bool, true, false, List, [], ◌∷◌, ◌++◌, ◌==◌, if◌then◌else◌}

-- CQueryFileHandler
pub record QueryFile : Type 0 where
  pub amx_id : ℤ
  pub unique_id : ℕ

-- ResourceType_e
pub data ResourceType : Type 0 where
  res_none res_exists res_missing res_ignore res_hash_any : ResourceType

-- RegisterSPForwardByName, UnregisterSPForward, AddQueryFile and RemoveQueryFile.
pub data Event : Type 0 where
  forward_registered forward_unregistered : ℤ → Event
  query_added : ℕ → ResourceType → ℤ → Event
  query_removed : ℕ → Event

-- The forward that could not be registered.
abbrev pub no_forward : ℤ
no_forward = negsuc 0

-- ~CQueryFileHandler
unfoldable pub destroy : QueryFile → List Event
destroy q =
    (if eqb_ℤ q.amx_id no_forward then [] else forward_unregistered q.amx_id ∷ [])
    ++ query_removed q.unique_id ∷ []

-- CQueryFileManager::Add, for the forward and the number of the new handler.
unfoldable pub add : ℤ → ℕ → ResourceType → ℤ → List QueryFile → ℤ × List QueryFile × List Event
add forward unique flag hash qs = (
  forward,
  qs ++ record { amx_id = forward; unique_id = unique } ∷ [],
  forward_registered forward ∷ query_added unique flag hash ∷ [],
)

-- CQueryFileManager::Remove
unfoldable pub remove : ℤ → List QueryFile → Bool × List QueryFile × List Event
remove index [] = (false, [], [])
remove index (q ∷ qs) = elim (eqb_ℤ q.amx_id index) [
  | true ↦ (true, qs, destroy q)
  | false ↦ let (found, rest, events) = remove index qs in (found, q ∷ rest, events)
]

-- CQueryFileManager::Clear
unfoldable pub clear : List QueryFile → List QueryFile × List Event
clear [] = ([], [])
clear (q ∷ qs) = ([], destroy q ++ (clear qs).1)

-- A call of a plugin: the forward, the client and the hash.
pub record Fired : Type 0 where
  pub amx_id : ℤ
  pub client : ℕ
  pub hash : ℕ

-- CQueryFileManager::FireCallback, for the client's id. The hash that is reset stays so for the later
-- handlers.
unfoldable pub fire_callback : ℕ → ℕ → ℕ → ℕ → List QueryFile → List Fired
fire_callback prev id hash unique [] = []
fire_callback prev id hash unique (q ∷ qs) =
    let hash' = if prev == hash then 0 else hash in
    let others = fire_callback prev id hash unique qs in
    let later = fire_callback prev id hash' unique qs in
    if q.unique_id == unique
    then record { amx_id = q.amx_id; client = id + 1; hash = hash' } ∷ later
    else others

-- The type of the request that RegisterQueryFile makes of the one it is given; what is wrong with
-- it is only logged.
unfoldable pub query_flag : ResourceType → ℤ → ResourceType
query_flag res_exists hash = if eqb_ℤ hash (negsuc 0) then res_hash_any else res_exists
query_flag flag hash = flag

-- RegisterQueryFile, for a name of the file and a plugin that has the function, or not.
unfoldable pub register_query_file :
    List ℕ → Bool → ℤ → ℕ → ResourceType → ℤ → List QueryFile → ℤ × List QueryFile × List Event
register_query_file [] has_public forward unique flag hash qs = (pos 0, qs, [])
register_query_file (c ∷ name) has_public forward unique flag hash qs =
    if has_public then add forward unique (query_flag flag hash) hash qs else (pos 0, qs, [])
