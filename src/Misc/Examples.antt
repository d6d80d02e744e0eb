-- ===== src/Misc/Examples.antt =====
-- The theorems on the natives of natives_misc.cpp on a small server.
use reapi.Misc.NullSafe.Table.{careful_natives, careful_natives-IsSafe}
use reapi.Misc.Refusals.{Refuses, is_there, natives_on_players, natives_on_players-Refuses}
use reapi.Misc.InRounds.Items.{looping_natives, looping_natives-return}
use reapi.Misc.InRounds.{IsAllowed, is_short}
use reapi.Misc.Items.{rg_remove_items_by_slot, for_all_items}
use reapi.Misc.FindOwner.{Entities, IsAnswer, collect, is_wanted, collect-all_matches}
use reapi.Misc.Search.{all_matches}
use reapi.Misc.AmmoKept.{Ammo, IsGame, is_ammo, with_ammo, rg_get_user_bpammo-set}
use reapi.Misc.Ammo.{rg_set_user_bpammo, rg_get_user_bpammo}
use reapi.Misc.NullSafe.{IsSafe, IsInitialised}
use reapi.Members.Natives.{Call}
use reapi.Misc.Calls.{
  Effect, Field, Server, inner, pev, voice_helper, frames, frame_entities, player_items, get, put,
  invoke, call, cell, edict, text, rg_ammo, next_item, edict_owner, edict_private, edict_is_class,
  edict_at, write_cell, null_entity, has_disconnected, log_error,
}
use reapi.Misc.{is_entity, is_player, connected_player, present_player, inner_call}
use reapi.Prelude.Programs.{run, outcome}
use reapi.Prelude.{
  ℕ, inl, inr, Bool-cases, ◌≡◌, ◌≢◌, refl, ◌⊎◌, true, false, none, some, [], ◌∷◌, All, ◌==◌, arith,
  if◌then◌else◌,
}

abbrev small_server : Server
small_server = record { max_clients = 32; max_entities = 8 }

-- The argument `i` of the native is `i`.
abbrev plain_call : Call
plain_call = record { count = 4; params = λ i. i; input = λ a. record { words = λ i. 0 } }

-- The player 1 and the slot 1.
abbrev slot_call : Call
slot_call = record { count = 3; params = λ i. 1; input = λ a. record { words = λ i. 0 } }

-- Everything is answered by 0.
abbrev silent : Effect → ℕ → ℕ × ℕ
silent e w = (0, w)

nobody : is_there silent small_server 1 7 ≡ false
unfolding is_player
nobody = refl

natives_on_players-Refuses_example :
    All (λ native. Refuses silent (native 3 small_server plain_call) 7) natives_on_players
natives_on_players-Refuses_example =
    natives_on_players-Refuses silent 3 small_server plain_call 7 nobody

-- The item 5 follows the item 4 in the slot 1.
abbrev next_of : ℕ → ℕ
next_of item = if item == 4 then 5 else 0

-- All players are there and have the items in their slots, all weapons are in slot 1, no method says
-- yes, and all else is 1.
abbrev stocked : Effect → ℕ
stocked (get next_item item) = next_of item
stocked (get (player_items i) p) = if i == 1 then 4 else 0
stocked (get has_disconnected p) = 0
stocked (invoke method p xs) = 0
stocked e = 1

abbrev stock_room : Effect → ℕ → ℕ × ℕ
stock_room e w = (stocked e, w)

two_in_slot : (i : ℕ) → is_short next_of 3 (if i == 1 then 4 else 0) ≡ true
two_in_slot i = elim (Bool-cases (i == 1)) [ inl e ↦ rw e refl | inr e ↦ rw e refl ]

items-IsAllowed :
    (field : Field) (p : ℕ) → IsAllowed next_of 3 (get field p) (stocked (get field p))
items-IsAllowed next_item p = refl
items-IsAllowed (player_items i) p = two_in_slot i
items-IsAllowed field p = tt

IsAllowed-stock_room : (e : Effect) (v : ℕ) → IsAllowed next_of 3 e (stock_room e v).0
IsAllowed-stock_room (get field p) v = items-IsAllowed field p
IsAllowed-stock_room log_error v = tt
IsAllowed-stock_room (put field p x) v = tt
IsAllowed-stock_room (invoke method p xs) v = tt
IsAllowed-stock_room (call routine xs) v = tt

looping_natives-return_example :
    All (λ native. (run stock_room (native 3 small_server plain_call) 7).0 ≢ none) looping_natives
looping_natives-return_example =
    looping_natives-return next_of 3 stock_room 7 small_server plain_call IsAllowed-stock_room

-- With two rounds for the two items that player 1 has, a native ends; with one it does not.
two_rounds : (run stock_room (rg_remove_items_by_slot 2 small_server slot_call) 7).0 ≡ some 0
unfolding run rg_remove_items_by_slot connected_player is_player present_player for_all_items
    inner_call
two_rounds = refl

one_round : (run stock_room (rg_remove_items_by_slot 1 small_server slot_call) 7).0 ≡ none
unfolding run rg_remove_items_by_slot connected_player is_player present_player for_all_items
    inner_call
one_round = refl

fields-IsInitialised : (field : Field) (p : ℕ) → IsInitialised (get field p) (stocked (get field p))
fields-IsInitialised inner p = λ e. cc
fields-IsInitialised pev p = λ e. cc
fields-IsInitialised voice_helper p = λ e. cc
fields-IsInitialised frames p = λ e. cc
fields-IsInitialised (frame_entities i) p = λ e. cc
fields-IsInitialised field p = tt

IsInitialised-stock_room : (e : Effect) (v : ℕ) → IsInitialised e (stock_room e v).0
IsInitialised-stock_room (get field p) v = fields-IsInitialised field p
IsInitialised-stock_room log_error v = tt
IsInitialised-stock_room (put field p x) v = tt
IsInitialised-stock_room (invoke method p xs) v = tt
IsInitialised-stock_room (call routine xs) v = tt

careful_natives-IsSafe_example :
    All
      (λ native. All IsSafe (run stock_room (native 3 small_server plain_call) 7).2)
      careful_natives
careful_natives-IsSafe_example =
    careful_natives-IsSafe stock_room 7 3 small_server plain_call IsInitialised-stock_room

-- The entities 2 and 5 are in use, and belong to the entity 3.
abbrev two_grenades : Entities
two_grenades = record {
  address = λ i. i;
  owner_of = λ i. if i == 2 then 3 else if i == 5 then 3 else 0;
  data_of = λ i. 1;
  freed = λ i. 0;
  has_class = λ name i. 1;
}

abbrev engine : Effect → ℕ → ℕ × ℕ
engine (call edict_owner (edict i ∷ [])) w = (two_grenades.owner_of i, w)
engine (call edict_private (edict i ∷ [])) w = (1, w)
engine (call edict_is_class (edict i ∷ text name ∷ [])) w = (1, w)
engine (call edict_at (cell i ∷ [])) w = (i, w)
engine (call write_cell (cell a ∷ cell v ∷ [])) w = (0, v)
engine e w = (0, w)

engine-IsAnswer : IsAnswer two_grenades engine
engine-IsAnswer = record {
  says_owner = λ i w. refl;
  says_data = λ i w. refl;
  says_free = λ i w. refl;
  says_class = λ i w name. refl;
  says_address = λ i w. refl;
  writes = λ a v w. refl;
}

third_is_entity : is_entity small_server (plain_call.params 3) ≡ true
unfolding is_entity
third_is_entity = refl

collect-all_matches_example :
    collect two_grenades engine engine-IsAnswer 9 small_server plain_call null_entity
    ≡ all_matches (is_wanted two_grenades engine engine-IsAnswer plain_call) 8 0
collect-all_matches_example =
    collect-all_matches two_grenades engine engine-IsAnswer small_server plain_call third_is_entity
      (λ e. omega (arith, e)) (omega arith)

-- The player 9 holds the item 4, and all else that is asked for is 1, but nobody has disconnected.
abbrev ask_all : Effect → ℕ
ask_all (get next_item item) = 0
ask_all (get has_disconnected p) = 0
ask_all e = 1

-- What is done to the ammunition.
abbrev stock : Effect → Ammo → ℕ × Ammo
stock (get (rg_ammo kind) p) w = (w p kind, w)
stock (put (rg_ammo kind) p (cell amount)) w = (0, with_ammo p kind amount w)
stock e w = (0, w)

abbrev ammo_game : Effect → Ammo → ℕ × Ammo
ammo_game e w = if is_ammo e then stock e w else (ask_all e, w)

ammo_game-IsGame : IsGame ask_all ammo_game
ammo_game-IsGame = record {
  asks = λ e h w. rw (h) refl;
  reads = λ kind p w. refl;
  stores = λ kind p amount w. refl;
}

abbrev no_ammo : Ammo
no_ammo p kind = 0

rg_get_user_bpammo-set_example :
    let (r, w') = outcome ammo_game (rg_set_user_bpammo 3 small_server plain_call) no_ammo in
    ((r ≡ some 1)
      × (outcome ammo_game (rg_get_user_bpammo 3 small_server plain_call) w' ≡ (some 3, w')))
    ⊎ ((w' ≡ no_ammo)
        × (outcome ammo_game (rg_get_user_bpammo 3 small_server plain_call) no_ammo ≡ (r, no_ammo)))
rg_get_user_bpammo-set_example =
    rg_get_user_bpammo-set ask_all ammo_game ammo_game-IsGame 3 small_server plain_call no_ammo
