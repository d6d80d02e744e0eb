-- ===== src/Members/Natives.antt =====
-- reapi/src/natives/natives_members.cpp: the natives with which plugins read and write members, up to
-- the call of set_member or get_member on the object.
use reapi.Members.Getter.{Output, get_member, no_output}
use reapi.Members.Setter.{Game, Input, Store, edict_by_index, is_negative, refuse, set_member}
use reapi.Members.{
  MType, Member, get_pdata_custom, is_type_returnable, member_at, member_float, member_string,
}
use reapi.Prelude.{
  ℕ, Bool, true, false, not, ◌&&◌, ◌||◌, Option, none, some, leb, ◌==◌, if◌then◌else◌,
}

-- What a native is called with: PARAMS_COUNT, the cells, and what getAmxAddr finds at the address
-- that a cell is.
pub record Call : Type 0 where
  pub count : ℕ
  pub params : ℕ → ℕ
  pub input : ℕ → Input

-- `*getAmxAddr(amx, params[i])`
unfoldable pub arg_cell : Call → ℕ → ℕ
arg_cell call i = (call.input (call.params i)).words 0

-- What is outside: the tables as the compiler lays them out, the objects of the game by their
-- addresses, 0 for none, and `pfnIsRefsToClass` of a member on an object.
pub record Objects (W : Type 0) : Type 0 where
  pub members : ℕ → ℕ → Member
  pub extension : W → ℕ → ℕ
  pub refs_to_class : W → ℕ → ℕ → Bool
  pub game_rules : W → ℕ
  pub move : W → ℕ
  pub move_vars : W → ℕ
  pub max_clients : ℕ
  -- The address of `netchan` of a client, if it is connected.
  pub channel : W → ℕ → Option ℕ

-- Where the value of a member goes, and what of it is asked for.
pub record Request : Type 0 where
  pub has_dest : Bool
  pub element : ℕ
  pub length : ℕ

abbrev pub no_request : Request
no_request = record { has_dest = false; element = 0; length = 0 }

-- A single further argument: the element of a returnable member, else `dest`.
unfoldable pub single : MType → ℕ → Request
single t c =
    if is_type_returnable t
    then record { has_dest = false; element = c; length = 0 }
    else record { has_dest = true; element = 0; length = 0 }

-- A single further argument that is `dest` also for a float.
unfoldable pub single_or_float : MType → ℕ → Request
single_or_float member_float c = record { has_dest = true; element = 0; length = 0 }
single_or_float t c = single t c

-- The switch of get_member and get_member_s.
unfoldable pub member_request : MType → Call → Request
member_request t call =
    if call.count == 5
    then record { has_dest = true; element = arg_cell call 5; length = arg_cell call 4 }
    else (if call.count == 4
        then record { has_dest = true; element = 0; length = arg_cell call 4 }
        else (if call.count == 3 then single t (arg_cell call 3) else no_request))

-- get_member_game
unfoldable pub game_request : MType → Call → Request
game_request t call =
    if call.count == 3
    then record { has_dest = true; element = 0; length = arg_cell call 3 }
    else (if call.count == 2 then single t (arg_cell call 2) else no_request)

-- get_entvar
unfoldable pub entvar_request : MType → Call → Request
entvar_request t call =
    if call.count == 4
    then record { has_dest = true; element = 0; length = arg_cell call 4 }
    else (if call.count == 3 then single_or_float t (arg_cell call 3) else no_request)

abbrev pub is_text : MType → Bool
is_text member_string = true
is_text t = false

-- get_pmove
unfoldable pub pmove_request : MType → Call → Request
pmove_request t call =
    if call.count == 3
    then (if is_text t
        then record { has_dest = true; element = 0; length = arg_cell call 3 }
        else record { has_dest = true; element = arg_cell call 3; length = 0 })
    else (if call.count == 2 then single_or_float t (arg_cell call 2) else no_request)

-- get_movevar
unfoldable pub movevar_request : MType → Call → Request
movevar_request t call =
    if call.count == 3
    then record { has_dest = true; element = 0; length = arg_cell call 3 }
    else no_request

-- get_ucmd, get_pmtrace and get_netchan, and get_rebuy, which asks for no more than the value.
unfoldable pub plain_request : MType → Call → Request
plain_request t call =
    if call.count == 3 then record { has_dest = true; element = 0; length = 0 } else no_request

abbrev pub rebuy_request : MType → Call → Request
rebuy_request t call = no_request

-- The element that a setter is given, as its last argument.
unfoldable pub set_element : ℕ → Call → ℕ
set_element last call = if call.count == last then arg_cell call last else 0

module _ {W : Type 0} (game : Game W) (objects : Objects W) where
  abbrev pub Reply : Type 0
  Reply = ℕ × Output × W

  abbrev refuse_get : Store W → Reply
  refuse_get s = (0, no_output, game.log_error s.world)

  -- `edictByIndexAmx` and the private data of the entity, for an index that has both.
  unfoldable pub private_object : ℕ → Store W → Option ℕ
  private_object index s =
      if (edict_by_index game index == 0) || (game.private_of s.world index == 0)
      then none
      else some (game.private_of s.world index)

  -- The object of an entity in which the member lies.
  unfoldable pub entity_object : ℕ → ℕ → Store W → Option ℕ
  entity_object index id s = elim (private_object index s) [
    | none ↦ none
    | some p ↦ some (get_pdata_custom p (objects.extension s.world p) id)
  ]

  -- CHECK_ISENTITY
  unfoldable pub is_entity : ℕ → Bool
  is_entity index = not (is_negative index) && leb index game.max_entities

  -- CHECK_ISPLAYER
  unfoldable pub is_player : ℕ → Bool
  is_player index = not (is_negative index) && not (index == 0) && leb index objects.max_clients

  -- What all the setters do with the object that they have found, if any.
  unfoldable pub set_in : Option ℕ → ℕ → Input → ℕ → Store W → ℕ × Store W
  set_in object id input element s = elim (member_at objects.members id) [
    | none ↦ refuse game s
    | some member ↦ elim object [
      | none ↦ refuse game s
      | some p ↦ set_member game p member input element s
    ]
  ]

  unfoldable pub get_in : Option ℕ → ℕ → (MType → Call → Request) → Call → Store W → Reply
  get_in object id request call s = elim (member_at objects.members id) [
    | none ↦ refuse_get s
    | some member ↦ elim object [
      | none ↦ refuse_get s
      | some p ↦
          let r = request member.type call in
          let (result, out) = get_member game p member r.has_dest r.element r.length s in
          (result, out, s.world)
    ]
  ]
