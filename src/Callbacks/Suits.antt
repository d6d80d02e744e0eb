-- ===== src/Callbacks/Suits.antt =====
-- reapi/src/hook_callback.cpp: which arguments the functions can be called with, and which way back
-- undoes which way in.
use mathlib.Core.Option
use reapi.Callbacks.Rows.{gamedll}
use reapi.Callbacks.Table.{all_callbacks}
use reapi.Callbacks.{
  Back, CType, Callback, Datum, Next, Pass, Server, Slot, src_client, is_word, unchanged, edict_at,
  private_at, vars_at, client_at, source_client_at, given, copy, own, captured, word, real,
  characters, vec, edict_of, vars_of, object_of, client_of, address, as_is, entity_index,
  safe_index, private_index, client_id, optional_client, vector_array, source_client, changed_hash,
  int_t, size_type, short_t, ushort_t, ulong_t, uchar_t, bool_t, enum_t, float_t, float_ref,
  vector_ref, float_ptr, const_chars, chars, trace_ptr, client_ptr, edict_ptr, evars_ptr,
  object_ptr, pointer,
}
use reapi.Prelude.{
  if◌then◌else◌, ◌+◌, ℕ, ◌||◌, leb, ltb, length, suc, ◌≡◌, refl, Bool, true, false, ◌&&◌, ◌||◌,
  Option, none, some, List, [], ◌∷◌, get_elem?, ◌==◌,
}

-- The argument is of the parameter's type.
abbrev pub holds : CType → Datum → Bool
holds int_t (word c) = true
holds size_type (word c) = true
holds short_t (word c) = true
holds ushort_t (word c) = true
holds ulong_t (word c) = true
holds uchar_t (word c) = true
holds bool_t (word c) = true
holds enum_t (word c) = true
holds float_t (real c) = true
holds float_ref (real c) = true
holds const_chars (characters s) = true
holds chars (characters s) = true
holds vector_ref (vec x y z) = true
holds float_ptr (vec x y z) = true
holds trace_ptr (address a) = true
holds pointer (address a) = true
holds edict_ptr (edict_of e) = true
holds evars_ptr (vars_of e) = true
holds object_ptr (object_of e) = true
holds client_ptr (client_of c) = true
holds t d = false

-- A pointer to something of an entity, and a client of the server.
abbrev pub alive : Server → Datum → Bool
alive server (edict_of (some n)) = true
alive server (vars_of (some n)) = true
alive server (object_of (some n)) = server.has_private n
alive server d = false

abbrev pub connected : Server → Datum → Bool
connected server (client_of (some c)) = elim (server.get_client c) [
  | none ↦ false
  | some d ↦ d == c
]
connected server d = false

abbrev pub is_null : Datum → Bool
is_null (edict_of none) = true
is_null (vars_of none) = true
is_null (object_of none) = true
is_null (client_of none) = true
is_null d = false

-- A null pointer stands only where the code allows for one, and the client of a command that does
-- not come from a client is null.
abbrev pub present : Server → List Datum → Pass → Datum → Bool
present server args as_is d = true
present server args entity_index d = alive server d
present server args safe_index d = is_null d || alive server d
present server args private_index d = is_null d || alive server d
present server args client_id d = connected server d
present server args optional_client d = is_null d || connected server d
present server args vector_array d = true
present server args (source_client i) d = elim (is_word src_client (get_elem? args i)) [
  | true ↦ connected server d
  | false ↦ is_null d
]
present server args changed_hash d = true

abbrev pub suit : Server → List Datum → List Slot → List Datum → Bool
suit server args [] [] = true
suit server args [] (d ∷ ds) = false
suit server args (slot ∷ slots) [] = false
suit server args (slot ∷ slots) (d ∷ ds) =
    holds slot.ctype d && present server args slot.pass d && suit server args slots ds

-- A parameter that is passed as it is comes back as it is if it is no pointer to something of an
-- entity.
abbrev pub is_plain : CType → Bool
is_plain edict_ptr = false
is_plain evars_ptr = false
is_plain object_ptr = false
is_plain client_ptr = false
is_plain t = true

-- The source of a command is passed as it is.
abbrev pub is_source : Option Slot → Bool
is_source none = false
is_source (some slot) = elim slot.pass [
  | as_is ↦ elim slot.ctype [ enum_t ↦ true | t ↦ false ]
  | p ↦ false
]

-- The way back undoes the way in.
abbrev pub undoes : List Slot → CType → Pass → Back → Bool
undoes slots t as_is unchanged = is_plain t
undoes slots edict_ptr entity_index edict_at = true
undoes slots edict_ptr safe_index edict_at = true
undoes slots evars_ptr entity_index vars_at = true
undoes slots evars_ptr safe_index vars_at = true
undoes slots object_ptr entity_index private_at = true
undoes slots object_ptr private_index private_at = true
undoes slots client_ptr client_id client_at = true
undoes slots client_ptr optional_client client_at = true
undoes slots client_ptr (source_client i) (source_client_at j) =
    i == j && is_source (get_elem? slots i)
undoes slots t p b = false

abbrev pub slot_undone : List Slot → Option Slot → Back → Bool
slot_undone slots none b = false
slot_undone slots (some slot) b = undoes slots slot.ctype slot.pass b

abbrev pub is_array : Option Slot → Bool
is_array none = false
is_array (some slot) = elim slot.pass [
  | vector_array ↦ elim slot.ctype [ vector_ref ↦ true | float_ptr ↦ true | t ↦ false ]
  | p ↦ false
]

abbrev pub agrees : List Slot → List Next → Bool
agrees slots [] = true
agrees slots (given i b ∷ ns) = slot_undone slots (get_elem? slots i) b && agrees slots ns
agrees slots (copy i ∷ ns) = is_array (get_elem? slots i) && agrees slots ns
agrees slots (own i ∷ ns) = agrees slots ns
agrees slots (captured i ∷ ns) = agrees slots ns

abbrev pub all_agree : List Callback → Bool
all_agree [] = true
all_agree (cb ∷ cbs) = agrees cb.slots cb.next && all_agree cbs

pub all_callbacks-agree : all_agree all_callbacks ≡ true
all_callbacks-agree = refl

-- The own arguments that a list names stand in the order of the parameters, from one on.
abbrev pub in_order : ℕ → List Next → Bool
in_order first [] = true
in_order first (given i b ∷ ns) = leb first i && in_order (suc i) ns
in_order first (copy i ∷ ns) = leb first i && in_order (suc i) ns
in_order first (own i ∷ ns) = leb first i && in_order (suc i) ns
in_order first (captured i ∷ ns) = in_order first ns

-- How many own arguments it names, and how many in all.
abbrev pub own_count : List Next → ℕ
own_count [] = 0
own_count (captured i ∷ ns) = own_count ns
own_count (n ∷ ns) = suc (own_count ns)

-- PM_LadderMove to PM_AirAccelerate hand the plugins the player behind their own arguments.
abbrev pub adds_player : ℕ → Bool
adds_player func = leb (gamedll + 20) func && leb func (gamedll + 27)

-- Each own argument is named, unless others are captured, which stand for some.
abbrev pub is_complete : Callback → Bool
is_complete cb =
    (own_count cb.next + (if adds_player cb.func then 1 else 0) == length cb.slots)
    || ltb (own_count cb.next) (length cb.next)

abbrev pub all_in_place : List Callback → Bool
all_in_place [] = true
all_in_place (cb ∷ cbs) = (in_order 0 cb.next && is_complete cb) && all_in_place cbs

pub all_callbacks-in_place : all_in_place all_callbacks ≡ true
all_callbacks-in_place = refl

-- The arguments that a list names, of the function's own and of those that are captured.
abbrev pub named : List Datum → List Datum → Next → Option Datum
named args held (given i b) = get_elem? args i
named args held (copy i) = get_elem? args i
named args held (own i) = get_elem? args i
named args held (captured i) = get_elem? held i

abbrev pub all_named : List Datum → List Datum → List Next → Option (List Datum)
all_named args held [] = some []
all_named args held (n ∷ ns) = elim (named args held n) [
  | none ↦ none
  | some d ↦ Option.map (λ (ds : List Datum). d ∷ ds) (all_named args held ns)
]
