-- ===== src/Callbacks/Call.antt =====
-- reapi/src/hook_callback.cpp: what `original` makes of the arguments that it is given, and the call.
use mathlib.Core.Option
use reapi.Callbacks.{
  Back, CType, Callback, Datum, Next, Server, Slot, pass_all, src_client, unchanged, edict_at,
  private_at, vars_at, client_at, source_client_at, given, copy, own, captured, word, real,
  characters, vec, edict_of, vars_of, object_of, client_of, address, float_t, float_ref, edict_ptr,
  evars_ptr, client_ptr,
}
use reapi.Chain.Calls.{Event, call_void_forward}
use reapi.Chain.{Arg, Value, World, number, text, entity, triple, result}
use reapi.Hooks.{Hook}
use reapi.Prelude.Int.{ℤ, pos, negsuc, eqb_ℤ}
use reapi.Prelude.{
  ℕ, zero, suc, Bool, false, Option, none, some, List, [], ◌∷◌, get_elem?, if◌then◌else◌, Run, ok,
  ◌>>=◌,
}

unfoldable pub cell : Value → Option ℤ
cell (number c) = some c
cell v = none

-- The argument that a value which was passed as it is means.
unfoldable pub datum_of : CType → Value → Datum
datum_of float_t (number c) = real c
datum_of float_ref (number c) = real c
datum_of t (number c) = word c
datum_of t (text s) = characters s
datum_of t (triple x y z) = vec x y z
datum_of t (result a) = address a
datum_of edict_ptr (entity e) = edict_of e
datum_of evars_ptr (entity e) = vars_of e
datum_of client_ptr (entity e) = client_of e
datum_of t (entity e) = object_of e

-- edictByIndexAmx and PEV
unfoldable pub entity_at : ℤ → Option ℕ
entity_at (pos n) = some n
entity_at (negsuc n) = none

-- getPrivate
unfoldable pub private_of : Server → ℤ → Option ℕ
private_of server (pos n) = if server.has_private n then some n else none
private_of server (negsuc n) = none

-- clientByIndex
unfoldable pub client_by_index : Server → ℤ → Option ℕ
client_by_index server (pos zero) = none
client_by_index server (pos (suc c)) = server.get_client c
client_by_index server (negsuc n) = none

unfoldable pub holds_number : ℤ → Option Arg → Bool
unfolding cell
holds_number c none = false
holds_number c (some a) = elim (cell a.value) [ none ↦ false | some d ↦ eqb_ℤ d c ]

unfoldable pub turn_back : Server → List Arg → Back → CType → Value → Option Datum
unfolding cell holds_number
turn_back server cells unchanged t v = some (datum_of t v)
turn_back server cells edict_at t v = Option.map (λ (c : ℤ). edict_of (entity_at c)) (cell v)
turn_back server cells private_at t v =
    Option.map (λ (c : ℤ). object_of (private_of server c)) (cell v)
turn_back server cells vars_at t v = Option.map (λ (c : ℤ). vars_of (entity_at c)) (cell v)
turn_back server cells client_at t v =
    Option.map (λ (c : ℤ). client_of (client_by_index server c)) (cell v)
turn_back server cells (source_client_at i) t v =
    if holds_number src_client (get_elem? cells i)
    then Option.map (λ (c : ℤ). client_of (client_by_index server c)) (cell v)
    else some (client_of none)

-- The vector in the array of an argument; the number of another array leaves the copy as it was.
unfoldable pub vector_in : Datum → Arg → Datum
vector_in d a = elim a.value [ triple x y z ↦ vec x y z | _ ↦ d ]

-- One argument of `callNext`, from the function's own arguments, what `original` has captured, and
-- the arguments that `original` is given.
unfoldable pub next_arg :
    Server → List Slot → List Datum → List Datum → List Arg → Next → Option Datum
unfolding turn_back vector_in
next_arg server slots args held cells (given i b) = elim (get_elem? slots i) [
  | none ↦ none
  | some slot ↦ elim (get_elem? cells i) [
    | none ↦ none
    | some a ↦ turn_back server cells b slot.ctype a.value
  ]
]
next_arg server slots args held cells (copy i) = elim (get_elem? args i) [
  | none ↦ none
  | some d ↦ Option.map (vector_in d) (get_elem? cells i)
]
next_arg server slots args held cells (own i) = get_elem? args i
next_arg server slots args held cells (captured i) = get_elem? held i

unfoldable pub prepend : Option Datum → Option (List Datum) → Option (List Datum)
prepend none r = none
prepend (some d) r = Option.map (λ (ds : List Datum). d ∷ ds) r

unfoldable pub next_args :
    Server → List Slot → List Datum → List Datum → List Arg → List Next → Option (List Datum)
unfolding prepend
next_args server slots args held cells [] = some []
next_args server slots args held cells (n ∷ ns) =
    prepend (next_arg server slots args held cells n) (next_args server slots args held cells ns)

-- The lambda `original` of a function without a value, from what the rest of its chain does. A
-- `Next` that does not fit the slots has no meaning, and the table has none.
unfoldable pub call_rest :
    {W : Type 0}
    → Server
    → (List Datum → W → W)
    → Callback
    → List Datum
    → List Datum
    → List Arg
    → W
    → W
unfolding next_args
call_rest server call_next cb args held cells w =
    elim (next_args server cb.slots args held cells cb.next) [ none ↦ w | some ds ↦ call_next ds w ]

-- A function without a value.
unfoldable pub void_callback :
    {W : Type 0}
    → World W
    → Server
    → (List Datum → W → W)
    → Callback
    → Hook
    → List Datum
    → List Datum
    → W
    → Run (W × List Event)
unfolding call_rest
void_callback world server call_next cb hook args held w = do
  cells ← pass_all server args cb.slots args
  ok (call_void_forward world hook (call_rest server call_next cb args held) cells w)
