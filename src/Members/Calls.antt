-- ===== src/Members/Calls.antt =====
-- reapi/src/natives/natives_members.cpp: the natives for each kind of object.
use reapi.Members.Natives.{
  Call, Objects, Reply, entity_object, entvar_request, game_request, get_in, is_entity, is_player,
  member_request, movevar_request, plain_request, pmove_request, private_object, rebuy_request,
  set_element, set_in,
}
use reapi.Members.Setter.{Game, Input, Store, edict_by_index}
use reapi.Prelude.{ℕ, ◌+◌, Option, none, some, ◌==◌, if◌then◌else◌}

abbrev present : ℕ → Option ℕ
present p = if p == 0 then none else some p

module _ {W : Type 0} (game : Game W) (objects : Objects W) where
  -- The value argument of a setter.
  abbrev pub value_at : Call → ℕ → Input
  value_at call i = call.input (call.params i)

  unfoldable pub set_member_native : Call → Store W → ℕ × Store W
  set_member_native call s =
      set_in game objects (entity_object game objects (call.params 1) (call.params 2) s)
        (call.params 2) (value_at call 3) (set_element 4 call) s

  unfoldable pub get_member_native : Call → Store W → Reply game objects
  get_member_native call s =
      get_in game objects (entity_object game objects (call.params 1) (call.params 2) s)
        (call.params 2) member_request call s

  -- The object for the safe natives: one that is of the member's class.
  unfoldable pub class_object : Call → Store W → Option ℕ
  class_object call s = elim (entity_object game objects (call.params 1) (call.params 2) s) [
    | none ↦ none
    | some p ↦ if objects.refs_to_class s.world (call.params 2) p then some p else none
  ]

  unfoldable pub set_member_s : Call → Store W → ℕ × Store W
  set_member_s call s =
      set_in game objects (class_object call s) (call.params 2) (value_at call 3)
        (set_element 4 call) s

  unfoldable pub get_member_s : Call → Store W → Reply game objects
  get_member_s call s =
      get_in game objects (class_object call s) (call.params 2) member_request call s

  -- The arguments are one fewer here, but the element is still taken of four.
  unfoldable pub set_member_game : Call → Store W → ℕ × Store W
  set_member_game call s =
      set_in game objects (present (objects.game_rules s.world)) (call.params 1) (value_at call 2)
        (if call.count == 4 then (call.input (call.params 3)).words 0 else 0) s

  unfoldable pub get_member_game : Call → Store W → Reply game objects
  get_member_game call s =
      get_in game objects (present (objects.game_rules s.world)) (call.params 1) game_request call s

  -- The variables of an entity; the setter wants private data.
  unfoldable pub set_entvar : Call → Store W → ℕ × Store W
  set_entvar call s =
      let object : Option ℕ = elim (private_object game objects (call.params 1) s) [
        | none ↦ none
        | some p ↦ some (game.vars_at (call.params 1))
      ] in
      set_in game objects (if is_entity game objects (call.params 1) then object else none)
        (call.params 2) (value_at call 3) (set_element 4 call) s

  unfoldable pub get_entvar : Call → Store W → Reply game objects
  get_entvar call s =
      let object =
        if edict_by_index game (call.params 1) == 0
        then none
        else some (game.vars_at (call.params 1)) in
      get_in game objects (if is_entity game objects (call.params 1) then object else none)
        (call.params 2) entvar_request call s

  -- The natives below do not test the pointer themselves.
  unfoldable pub set_pmove : Call → Store W → ℕ × Store W
  set_pmove call s =
      set_in game objects (some (objects.move s.world)) (call.params 1) (value_at call 2)
        (set_element 3 call) s

  unfoldable pub get_pmove : Call → Store W → Reply game objects
  get_pmove call s =
      get_in game objects (some (objects.move s.world)) (call.params 1) pmove_request call s

  unfoldable pub set_movevar : Call → Store W → ℕ × Store W
  set_movevar call s =
      set_in game objects (some (objects.move_vars s.world)) (call.params 1) (value_at call 2) 0 s

  unfoldable pub get_movevar : Call → Store W → Reply game objects
  get_movevar call s =
      get_in game objects (some (objects.move_vars s.world)) (call.params 1) movevar_request call s

  -- set_ucmd and set_pmtrace: the object is the handle that the plugin gives.
  unfoldable pub set_handle : Call → Store W → ℕ × Store W
  set_handle call s =
      set_in game objects (some (call.params 1)) (call.params 2) (value_at call 3) 0 s

  -- get_ucmd and get_pmtrace
  unfoldable pub get_handle : Call → Store W → Reply game objects
  get_handle call s =
      get_in game objects (some (call.params 1)) (call.params 2) plain_request call s

  -- clientOfIndex, for a player that is connected.
  unfoldable pub channel_object : Call → Store W → Option ℕ
  channel_object call s =
      if is_player game objects (call.params 1)
      then objects.channel s.world (call.params 1)
      else none

  unfoldable pub set_netchan : Call → Store W → ℕ × Store W
  set_netchan call s =
      set_in game objects (channel_object call s) (call.params 2) (value_at call 3) 0 s

  unfoldable pub get_netchan : Call → Store W → Reply game objects
  get_netchan call s =
      get_in game objects (channel_object call s) (call.params 2) plain_request call s

  -- The value is the cell of the argument itself.
  unfoldable pub set_rebuy : Call → Store W → ℕ × Store W
  set_rebuy call s =
      set_in game objects (present (call.params 1)) (call.params 2)
        (record { words = λ i. call.params (3 + i) }) 0 s

  unfoldable pub get_rebuy : Call → Store W → Reply game objects
  get_rebuy call s =
      get_in game objects (present (call.params 1)) (call.params 2) rebuy_request call s
