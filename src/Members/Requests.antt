-- ===== src/Members/Requests.antt =====
-- What the natives make of their arguments.
use reapi.Members.Calls.{get_member_native, set_member_game, set_member_native}
use reapi.Members.Getter.{get_member}
use reapi.Members.Natives.{
  Call, Objects, Request, arg_cell, entity_object, get_in, member_request, private_object,
  set_element, set_in, single,
}
use reapi.Members.RoundTrip.{Addresses, Holds, get_member-set_member}
use reapi.Members.Setter.{Game, Input, Store, is_valid_entity, set_member, set_typed}
use reapi.Members.{
  MType, Member, is_type_returnable, member_at, member_bool, member_byte, member_classptr,
  member_double, member_edict, member_ehandle, member_evars, member_float, member_integer,
  member_short,
}
use reapi.Prelude.{ℕ, sym, ap, ◌∙◌, ◌≡◌, ◌≢◌, refl, true, false, Option, some, arith}

module _ {W : Type 0} (game : Game W) (objects : Objects W) where
  set_typed-world :
      (t : MType) (pdata element : ℕ) (member : Member) (input : Input) (s : Store W)
      → Holds game s.world t (input.words 0)
      → is_type_returnable t ≡ true
      → (set_typed game t pdata member input element s).1.world ≡ s.world
  unfolding set_typed is_type_returnable is_valid_entity
  set_typed-world member_float pdata element member input s h r = refl
  set_typed-world member_integer pdata element member input s h r = refl
  set_typed-world member_short pdata element member input s h r = refl
  set_typed-world member_byte pdata element member input s h r = refl
  set_typed-world member_bool pdata element member input s h r = refl
  set_typed-world member_double pdata element member input s h r = refl
  set_typed-world member_edict pdata element member input s h r = ground arith
  set_typed-world member_evars pdata element member input s h r = ground arith
  set_typed-world member_classptr pdata element member input s h r = ground arith
  set_typed-world member_ehandle pdata element member input s h r = absurd (ground arith)
  set_typed-world t pdata element member input s h r = elim h [ ]

  set_member-world :
      (pdata element : ℕ) (member : Member) (input : Input) (s : Store W)
      → Holds game s.world member.type (input.words 0)
      → is_type_returnable member.type ≡ true
      → (set_member game pdata member input element s).1.world ≡ s.world
  unfolding set_member
  set_member-world pdata element member input s h r =
      ground (arith, set_typed-world member.type pdata element member input s h r)

  set_in-known :
      (p id element : ℕ) (object : Option ℕ) (member : Member) (input : Input) (s : Store W)
      → member_at objects.members id ≡ some member
      → object ≡ some p
      → set_in game objects object id input element s ≡ set_member game p member input element s
  unfolding set_in
  set_in-known p id element object member input s m o = ground (arith, m, o)

  get_in-known :
      (p id : ℕ) (object : Option ℕ) (member : Member) (request : MType → Call → Request)
      (call : Call) (s : Store W)
      → member_at objects.members id ≡ some member
      → object ≡ some p
      → let r = request member.type call in
        (get_in game objects object id request call s).0
        ≡ (get_member game p member r.has_dest r.element r.length s).0
  unfolding get_in
  get_in-known p id object member request call s m o = ground (arith, m, o)

  entity_object_world :
      (index id : ℕ) (s s' : Store W)
      → s.world ≡ s'.world
      → entity_object game objects index id s ≡ entity_object game objects index id s'
  unfolding entity_object private_object
  entity_object_world index id s s' e = ground (arith, e)

  element_request :
      (t : MType) (call : Call)
      → is_type_returnable t ≡ true
      → call.count ≡ 3
      → member_request t call ≡ record { has_dest = false; element = arg_cell call 3; length = 0 }
  unfolding member_request single
  element_request t call r c = ground arith

  ehandle_request :
      (t : MType) (call : Call)
      → t ≡ member_ehandle
      → call.count ≡ 3
      → member_request t call ≡ record { has_dest = true; element = 0; length = 0 }
  unfolding member_request single is_type_returnable
  ehandle_request t call e c = ground arith

  -- If an entity has private data, or an extension where the member lies in one, the member is known
  -- and of a type that is returned, it can hold the value, and the server's addresses are those of
  -- its entities, then set_member with an element returns 1, and get_member that is called after it
  -- for the same entity and member, with the element as its third argument, returns the value.
  pub get_member_native-set_member_native :
      (laws : Addresses game) (setting reading : Call) (s : Store W) (p : ℕ) (member : Member)
      → member_at objects.members (setting.params 2) ≡ some member
      → is_type_returnable member.type ≡ true
      → entity_object game objects (setting.params 1) (setting.params 2) s ≡ some p
      → p ≢ 0
      → setting.count ≡ 4
      → reading.count ≡ 3
      → reading.params 1 ≡ setting.params 1
      → reading.params 2 ≡ setting.params 2
      → arg_cell reading 3 ≡ arg_cell setting 4
      → Holds game s.world member.type (arg_cell setting 3)
      → let r = set_member_native game objects setting s in
        (r.0 ≡ 1) × ((get_member_native game objects reading r.1).0 ≡ arg_cell setting 3)
  unfolding set_member_native get_member_native set_element arg_cell
  get_member_native-set_member_native laws setting reading s p member m r o n c d i j e h =
      let input = setting.input (setting.params 3) in
      let element = arg_cell setting 4 in
      let (done, back) = get_member-set_member game laws p member input element 0 false s n h in
      let same = set_member-world p element member input s h r in
      let id = setting.params 2 in
      let after = (set_member game p member input element s).1 in
      let object = entity_object game objects (setting.params 1) id s in
      let object' = entity_object game objects (setting.params 1) id after in
      let set = set_in-known p id element object member input s m o in
      let here = sym (entity_object_world (setting.params 1) id after s same) in
      let get = get_in-known p id object' member member_request reading after m (sym here ∙ o) in
      ground (arith, set, get, element_request member.type reading r d)

  -- With three arguments, get_member of a member that is an EHANDLE reads the same whatever the
  -- third argument, its element, holds.
  pub get_member_native-ehandle :
      (call call' : Call) (s : Store W) (member : Member)
      → member_at objects.members (call.params 2) ≡ some member
      → member.type ≡ member_ehandle
      → call.count ≡ 3
      → call'.count ≡ 3
      → call'.params 1 ≡ call.params 1
      → call'.params 2 ≡ call.params 2
      → get_member_native game objects call s ≡ get_member_native game objects call' s
  unfolding get_member_native get_in
  get_member_native-ehandle call call' s member m t c d i j =
      ground (arith, m, ehandle_request member.type call t c, ehandle_request member.type call' t d)

  -- With three arguments, a member, a value and an element, set_member_game does what it does with
  -- two, whatever element it is given.
  set_member_game-element :
      (call call' : Call) (s : Store W)
      → call.count ≡ 3
      → call'.count ≡ 2
      → call'.params 1 ≡ call.params 1
      → call'.params 2 ≡ call.params 2
      → call'.input ≡ call.input
      → set_member_game game objects call s ≡ set_member_game game objects call' s
  unfolding set_member_game
  set_member_game-element call call' s c d i j e =
      ground (arith, ap (λ (f : ℕ → Input). f (call.params 2)) e)
