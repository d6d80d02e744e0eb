-- ===== src/Members/Examples.antt =====
-- Members at concrete values.
use reapi.Members.Calls.{get_member_native, set_member_native}
use reapi.Members.Frame.{
  element_start, get_member-set_string, set_member_apart, set_member_past_end,
}
use reapi.Members.Getter.{get_member, text}
use reapi.Members.Natives.{Call, Objects, arg_cell, entity_object, private_object}
use reapi.Members.Requests.{get_member_native-set_member_native}
use reapi.Members.RoundTrip.{Addresses}
use reapi.Members.Setter.{Game, Input, Store, amx_text, edict_by_index, element_address, set_member}
use reapi.Members.{
  Member, get_pdata_custom, is_extension, is_type_returnable, member_at, member_integer,
  member_string,
}
use reapi.Prelude.{
  char_cells, ℕ, ◌+◌, ◌-◌, ◌≡◌, ◌<◌, ◌≤◌, ◌^◌, refl, true, false, none, some, [], take, inr, ◌==◌,
  if◌then◌else◌, arith,
}

-- Entities have their edicts, variables and objects at 1000, 2000 and 3000 and on.
abbrev game : Game ℕ
game = record {
  max_entities = 100;
  private_of = λ w i. i + 3000;
  index_of_private = λ w p. p - 3000;
  edict_at = λ i. i + 1000;
  index_of_edict = λ p. p - 1000;
  vars_at = λ i. i + 2000;
  index_of_vars = λ p. p - 2000;
  serial = λ w p. 5;
  alloc_string = λ s w. (1, w);
  string_of = λ w p. [];
  change_string = λ p s w. (p, w);
  text_at = λ w p. [];
  widen = λ v. v;
  narrow = λ v. v;
  struct_size = λ t. 4;
  log_error = λ w. w + 1;
}

game-Addresses : Addresses game
game-Addresses = record {
  edicts = λ i h. omega arith;
  edict_range = λ i h. omega arith;
  vars = λ i h. omega arith;
  vars_range = λ i h. omega arith;
  privates = λ w i h k. omega arith;
  private_range = λ w i h. omega arith;
  serial_range = λ w e. omega arith;
}

-- The first table has an array of two integers and another integer behind it, the second a text.
abbrev member_of : ℕ → ℕ → Member
member_of table index =
    if table == 0
    then (if index == 0
        then record { size = 4; max_size = 8; offset = 16; type = member_integer }
        else record { size = 4; max_size = 4; offset = 24; type = member_integer })
    else record { size = 1; max_size = 8; offset = 40; type = member_string }

abbrev objects : Objects ℕ
objects = record {
  members = member_of;
  extension = λ w p. 0;
  refs_to_class = λ w id p. true;
  game_rules = λ w. 8000;
  move = λ w. 0;
  move_vars = λ w. 0;
  max_clients = 32;
  channel = λ w i. none;
}

abbrev start : Store ℕ
start = record { memory = λ a. 0; world = 0 }

abbrev seven : Input
seven = record { words = λ i. if i == 0 then 7 else 0 }

outside : element_start member_integer 500 (member_of 0 0) 1 + 4 ≤ 524
unfolding element_address
outside = omega arith

set_member_apart_example : (set_member game 500 (member_of 0 0) seven 1 start).1.memory 524 ≡ 0
set_member_apart_example = set_member_apart game 500 524 1 (member_of 0 0) seven start (inr outside)

get_member-set_string_example :
    get_member game 500
      (member_of 1 0)
      true
      0
      10
      (set_member game 500 (member_of 1 0) seven 0 start).1
    ≡ (1, text (char_cells (take 10 (take 7 (amx_text seven)))))
get_member-set_string_example =
    get_member-set_string game 500 0 10 (member_of 1 0) seven start (omega arith) refl (omega arith)

set_member_past_end_example :
    let r = set_member game 500 (member_of 0 0) seven 2 start in
    (r.0 ≡ 1) × ((get_member game 500 (member_of 0 1) false 0 0 r.1).0 ≡ 7)
set_member_past_end_example =
    set_member_past_end game 500 2 (member_of 0 0) (member_of 0 1) seven start (omega arith) refl
      refl (omega arith) refl (omega arith)

-- Arguments are cells behind addresses, but for the entity and the member.
abbrev cell_at : ℕ → Input
cell_at p = record { words = λ i. if i == 0 then p else 0 }

abbrev params_of : ℕ → ℕ → ℕ → ℕ → ℕ → ℕ
params_of a b c d i =
    if i == 1 then a else (if i == 2 then b else (if i == 3 then c else (if i == 4 then d else 0)))

abbrev setting : Call
setting = record { count = 4; params = params_of 3 0 7 1; input = cell_at }

abbrev reading : Call
reading = record { count = 3; params = params_of 3 0 1 0; input = cell_at }

known : member_at member_of 0 ≡ some (member_of 0 0)
unfolding member_at
known = refl

there : entity_object game objects 3 0 start ≡ some 3003
unfolding entity_object private_object edict_by_index get_pdata_custom is_extension
there = refl

returnable : is_type_returnable member_integer ≡ true
unfolding is_type_returnable
returnable = refl

same : arg_cell reading 3 ≡ arg_cell setting 4
unfolding arg_cell
same = refl

small : arg_cell setting 3 < 2 ^ 32
unfolding arg_cell
small = omega arith

get_member_native-set_member_native_example :
    let r = set_member_native game objects setting start in
    (r.0 ≡ 1) × ((get_member_native game objects reading r.1).0 ≡ arg_cell setting 3)
get_member_native-set_member_native_example =
    get_member_native-set_member_native game objects game-Addresses setting reading start 3003
      (member_of 0 0) known returnable there (omega arith) refl refl refl refl same small
