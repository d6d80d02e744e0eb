-- ===== src/Callbacks/Examples.antt =====
-- Functions of the tables at concrete arguments.
use reapi.Callbacks.Arrays.{arrays_reach}
use reapi.Callbacks.Rows.{slot}
use reapi.Callbacks.Call.{
  cell, datum_of, next_arg, next_args, prepend, private_of, turn_back, vector_in,
}
use reapi.Callbacks.Formats.{given_to_plugins, registered, registered-given_to_plugins}
use reapi.Callbacks.Original.{next_args-pass_all}
use reapi.Callbacks.PlayerItems.{c_base_player_throw_grenade}
use reapi.Callbacks.Suits.{all_named, in_order, is_complete}
use reapi.Callbacks.{
  Datum, Server, characters, edict_of, object_of, pass_all, real, vec, vector_array, vector_ref,
  word,
}
use reapi.Callbacks.Engine.{sv_start_sound}
use reapi.Chain.{Arg, float, integer, max_hookchain_args, number, triple}
use reapi.Prelude.Int.{pos}
use reapi.Prelude.{ℕ, ◌≤◌, ◌≡◌, refl, true, some, List, [], ◌∷◌, length, get_elem?, Returns, arith}

abbrev server : Server
server = record { has_private = λ n. true; get_client = λ c. some c; prev_hash = pos 7 }

abbrev sound : List Datum
sound =
    word (pos 0)
    ∷ edict_of (some 3)
    ∷ word (pos 2)
    ∷ characters (104 ∷ [])
    ∷ word (pos 100)
    ∷ real (pos 5)
    ∷ word (pos 0)
    ∷ word (pos 9)
    ∷ []

next_args-pass_all_example :
    Returns (pass_all server sound sv_start_sound.slots sound) (λ cells.
      next_args server sv_start_sound.slots sound [] cells sv_start_sound.next
      ≡ all_named sound [] sv_start_sound.next)
    × (in_order 0 sv_start_sound.next ≡ true)
    × (is_complete sv_start_sound ≡ true)
next_args-pass_all_example = next_args-pass_all server sound [] 0 sv_start_sound refl refl

registered-given_to_plugins_example :
    (registered sv_start_sound.slots ≡ given_to_plugins sv_start_sound.slots)
    × (length sv_start_sound.slots ≤ max_hookchain_args)
registered-given_to_plugins_example = registered-given_to_plugins 0 sv_start_sound refl

-- A grenade that a plugin throws elsewhere.
abbrev throw : List Datum
throw =
    object_of (some 1)
    ∷ object_of (some 2)
    ∷ vec (pos 1) (pos 2) (pos 3)
    ∷ vec (pos 4) (pos 5) (pos 6)
    ∷ real (pos 0)
    ∷ word (pos 7)
    ∷ []

abbrev moved : List Datum
moved =
    object_of (some 1)
    ∷ object_of (some 2)
    ∷ vec (pos 9) (pos 9) (pos 9)
    ∷ vec (pos 4) (pos 5) (pos 6)
    ∷ real (pos 0)
    ∷ word (pos 7)
    ∷ []

abbrev changed : Arg
changed = record { type = integer; value = triple (pos 9) (pos 9) (pos 9) }

abbrev throw_cells : List Arg
throw_cells =
    record { type = integer; value = number (pos 1) }
    ∷ record { type = integer; value = number (pos 2) }
    ∷ changed
    ∷ record { type = integer; value = triple (pos 4) (pos 5) (pos 6) }
    ∷ record { type = float; value = number (pos 0) }
    ∷ record { type = integer; value = number (pos 7) }
    ∷ []

thrown :
    next_args server c_base_player_throw_grenade.slots throw [] throw_cells
      c_base_player_throw_grenade.next
    ≡ some moved
unfolding next_args next_arg prepend turn_back cell private_of datum_of vector_in
thrown = refl

arrays_reach_example : (j : ℕ) × (get_elem? moved j ≡ some (vec (pos 9) (pos 9) (pos 9)))
arrays_reach_example =
    arrays_reach server throw [] moved throw_cells 99 2 c_base_player_throw_grenade
      (slot vector_ref vector_array) changed (pos 9) (pos 9) (pos 9) refl (omega arith) refl refl
      refl refl thrown
