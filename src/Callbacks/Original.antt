-- ===== src/Callbacks/Original.antt =====
-- Where no plugin changes an argument, `original` calls the rest of the chain with the arguments that
-- the function itself was called with.
use reapi.Callbacks.Call.{
  cell, client_by_index, datum_of, entity_at, holds_number, next_arg, next_args, prepend,
  private_of, turn_back, vector_in,
}
use reapi.Callbacks.Suits.{
  agrees, all_agree, all_callbacks-agree, in_order, is_complete, all_in_place,
  all_callbacks-in_place, all_named, holds, is_array, is_plain, is_source, present, slot_undone,
  suit, undoes,
}
use reapi.Callbacks.Table.{all_callbacks}
use reapi.Callbacks.{
  Back, CType, Callback, Datum, Next, Pass, Server, Slot, pass_all, pass_value, src_client, is_word,
  given, copy, own, captured, as_is, entity_index, safe_index, private_index, client_id,
  optional_client, vector_array, source_client, changed_hash, api_type, passed_type, raw_value,
  pointed, client_index, client_number, safe_entity_index, needed,
}
use reapi.Chain.{Arg, Value}
use reapi.Prelude.{
  ℕ, suc, ◌≡◌, refl, subst, some_inj, inl, inr, Option-cases, Bool, true, false, Option, some, List,
  [], ◌∷◌, get_elem?, Run, fault, ok, Returns, zero, arith,
}

datum_of-raw_value :
    (t : CType) (d : Datum) → is_plain t ≡ true → holds t d ≡ true → datum_of t (raw_value d) ≡ d
unfolding datum_of raw_value
datum_of-raw_value t d h k = ground arith

-- The source of a command, which is passed as it is, is read from the cells as from the arguments.
abbrev SourceKept : List Slot → List Datum → List Arg → Type 0
SourceKept slots args cells =
    (i : ℕ)
    → is_source (get_elem? slots i) ≡ true
    → holds_number src_client (get_elem? cells i) ≡ is_word src_client (get_elem? args i)

turn_back-pass_value :
    (server : Server) (slots : List Slot) (args : List Datum) (cells : List Arg) (p : Pass)
    (b : Back) (t : CType) (d : Datum) (v : Value)
    → SourceKept slots args cells
    → undoes slots t p b ≡ true
    → holds t d ≡ true
    → present server args p d ≡ true
    → pass_value server args p d ≡ ok v
    → turn_back server cells b t v ≡ some d
unfolding turn_back pass_value raw_value pointed client_index client_number safe_entity_index needed
    cell entity_at private_of client_by_index
turn_back-pass_value server slots args cells as_is b t d v k u h e o =
    ground (arith, datum_of-raw_value t d)
turn_back-pass_value server slots args cells entity_index b t d v k u h e o = ground arith
turn_back-pass_value server slots args cells safe_index b t d v k u h e o = ground arith
turn_back-pass_value server slots args cells private_index b t d v k u h e o = ground arith
turn_back-pass_value server slots args cells client_id b t d v k u h e o = ground arith
turn_back-pass_value server slots args cells optional_client b t d v k u h e o = ground arith
turn_back-pass_value server slots args cells vector_array b t d v k u h e o = ground arith
turn_back-pass_value server slots args cells (source_client i) b t d v k u h e o =
    ground (arith, k i)
turn_back-pass_value server slots args cells changed_hash b t d v k u h e o = ground arith

abbrev is_ok {ℓ} : {A : Type ℓ} → Run A → Bool
is_ok (fault why) = false
is_ok (ok value) = true

is_ok-ok {ℓ} : {A : Type ℓ} (r : Run A) → is_ok r ≡ true → (value : A) × (r ≡ ok value)
is_ok-ok (fault why) h = absurd (ground arith)
is_ok-ok (ok value) h = (value, refl)

pass_value-is_ok :
    (server : Server) (args : List Datum) (p : Pass) (d : Datum)
    → present server args p d ≡ true
    → is_ok (pass_value server args p d) ≡ true
unfolding pass_value pointed client_number needed
pass_value-is_ok server args p d e = ground arith

-- The cell of one argument.
abbrev Cell : Server → List Datum → Slot → Datum → Option Arg → Type 0
Cell server args slot d c =
    (a : Arg) × (c ≡ some a)
    × (pass_value server args slot.pass d ≡ ok a.value)
    × (holds slot.ctype d ≡ true)
    × (present server args slot.pass d ≡ true)

pass_all-Cell :
    (server : Server) (args : List Datum) (slots : List Slot) (ds : List Datum)
    → suit server args slots ds ≡ true
    → (cells : List Arg) × (pass_all server args slots ds ≡ ok cells)
      × ((i : ℕ) (slot : Slot)
          → get_elem? slots i ≡ some slot
          → (d : Datum) × (get_elem? ds i ≡ some d) × Cell server args slot d (get_elem? cells i))
unfolding pass_all
pass_all-Cell server args [] [] h = ([], refl, λ i slot e. absurd (ground arith))
pass_all-Cell server args [] (d ∷ ds) h = absurd (ground arith)
pass_all-Cell server args (slot ∷ slots) [] h = absurd (ground arith)
pass_all-Cell server args (slot ∷ slots) (d ∷ ds) h =
    let (v, passes) = is_ok-ok _ (pass_value-is_ok server args slot.pass d (ground arith)) in
    let (cells, rest, each) = pass_all-Cell server args slots ds (ground arith) in
    let a : Arg = record { type = api_type (passed_type slot.ctype slot.pass); value = v } in
    (a ∷ cells, rw passes (rw rest refl), at a cells each passes)
  where
    at :
        (a : Arg) (cells : List Arg)
        → ((i : ℕ) (s : Slot)
            → get_elem? slots i ≡ some s
            → (e : Datum) × (get_elem? ds i ≡ some e) × Cell server args s e (get_elem? cells i))
        → pass_value server args slot.pass d ≡ ok a.value
        → (i : ℕ) (s : Slot) → get_elem? (slot ∷ slots) i ≡ some s
        → (e : Datum) × (get_elem? (d ∷ ds) i ≡ some e)
          × Cell server args s e (get_elem? (a ∷ cells) i)
    at a cells each passes zero s same =
        subst (λ s. (e : Datum) × (some d ≡ some e) × Cell server args s e (some a))
          (some_inj slot s same) (d, refl, (a, refl, passes, ground arith, ground arith))
    at a cells each passes (suc i) s same = each i s same

is_source-is_word :
    (server : Server) (slots : List Slot) (args : List Datum) (cells : List Arg)
    → ((i : ℕ) (slot : Slot)
        → get_elem? slots i ≡ some slot
        → (d : Datum) × (get_elem? args i ≡ some d) × Cell server args slot d (get_elem? cells i))
    → SourceKept slots args cells
unfolding holds_number cell pass_value raw_value is_word
is_source-is_word server slots args cells each i h = elim (Option-cases (get_elem? slots i)) [
  | inl e ↦ absurd (ground arith)
  | inr (slot, e) ↦ let (d, at, (a, cell, passes, fits, here)) = each i slot e in ground arith
]

-- What the cells of the function's own arguments are like.
abbrev Cells : Server → List Datum → List Slot → List Arg → Type 0
Cells server args slots cells =
    (i : ℕ) (slot : Slot)
    → get_elem? slots i ≡ some slot
    → (d : Datum) × (get_elem? args i ≡ some d) × Cell server args slot d (get_elem? cells i)

next_arg-given :
    (server : Server) (slots : List Slot) (args held : List Datum) (cells : List Arg) (i : ℕ)
    (b : Back)
    → Cells server args slots cells
    → slot_undone slots (get_elem? slots i) b ≡ true
    → next_arg server slots args held cells (given i b) ≡ get_elem? args i
unfolding next_arg
next_arg-given server slots args held cells i b each h = elim (Option-cases (get_elem? slots i)) [
  | inl e ↦ absurd (ground arith)
  | inr (slot, e) ↦
      let (d, at, (a, cell, passes, fits, here)) = each i slot e in
      let back =
        turn_back-pass_value server slots args cells slot.pass b slot.ctype d a.value
          (is_source-is_word server slots args cells each) (ground arith) fits here passes in
      ground arith
]

next_arg-copy :
    (server : Server) (slots : List Slot) (args held : List Datum) (cells : List Arg) (i : ℕ)
    → Cells server args slots cells
    → is_array (get_elem? slots i) ≡ true
    → next_arg server slots args held cells (copy i) ≡ get_elem? args i
unfolding next_arg vector_in pass_value raw_value
next_arg-copy server slots args held cells i each h = elim (Option-cases (get_elem? slots i)) [
  | inl e ↦ absurd (ground arith)
  | inr (slot, e) ↦ let (d, at, (a, cell, passes, fits, here)) = each i slot e in ground arith
]

next_args-all_named :
    (server : Server) (slots : List Slot) (args held : List Datum) (cells : List Arg)
    (ns : List Next)
    → Cells server args slots cells
    → agrees slots ns ≡ true
    → next_args server slots args held cells ns ≡ all_named args held ns
unfolding next_args prepend next_arg
next_args-all_named server slots args held cells [] each h = refl
next_args-all_named server slots args held cells (given i b ∷ ns) each h = ground (
  arith,
  next_arg-given server slots args held cells i b each,
  next_args-all_named server slots args held cells ns each,
)
next_args-all_named server slots args held cells (copy i ∷ ns) each h = ground (
  arith,
  next_arg-copy server slots args held cells i each,
  next_args-all_named server slots args held cells ns each,
)
next_args-all_named server slots args held cells (own i ∷ ns) each h =
    ground (arith, next_args-all_named server slots args held cells ns each)
next_args-all_named server slots args held cells (captured i ∷ ns) each h =
    ground (arith, next_args-all_named server slots args held cells ns each)

agrees_at :
    (cbs : List Callback) (k : ℕ) (cb : Callback)
    → all_agree cbs ≡ true
    → get_elem? cbs k ≡ some cb
    → agrees cb.slots cb.next ≡ true
agrees_at [] k cb h e = absurd (ground arith)
agrees_at (c ∷ cbs) zero cb h e =
    subst (λ cb. agrees cb.slots cb.next ≡ true) (some_inj c cb e) (ground arith)
agrees_at (c ∷ cbs) (suc k) cb h e = agrees_at cbs k cb (ground arith) e

in_place_at :
    (cbs : List Callback) (k : ℕ) (cb : Callback)
    → all_in_place cbs ≡ true
    → get_elem? cbs k ≡ some cb
    → (in_order 0 cb.next ≡ true) × (is_complete cb ≡ true)
in_place_at [] k cb h e = absurd (ground arith)
in_place_at (c ∷ cbs) zero cb h e =
    subst (λ cb. (in_order 0 cb.next ≡ true) × (is_complete cb ≡ true)) (some_inj c cb e)
      (ground arith, ground arith)
in_place_at (c ∷ cbs) (suc k) cb h e = in_place_at cbs k cb (ground arith) e

-- For each function of the tables, called with arguments of its types, with null pointers only where
-- the code allows for them, entities and clients that exist, and no client for a command that does
-- not come from one: the arguments can be passed, and as long as no plugin has changed one, `original`
-- calls the rest of the chain with the function's own arguments and those that it has captured. Its
-- own stand there in the order of the parameters, and all of them do if it has captured none, but for
-- the player whom the functions PM_LadderMove to PM_AirAccelerate add for the plugins.
pub next_args-pass_all :
    (server : Server) (args held : List Datum) (k : ℕ) (cb : Callback)
    → get_elem? all_callbacks k ≡ some cb
    → suit server args cb.slots args ≡ true
    → Returns
        (pass_all server args cb.slots args)
        (λ cells. next_args server cb.slots args held cells cb.next ≡ all_named args held cb.next)
      × (in_order 0 cb.next ≡ true)
      × (is_complete cb ≡ true)
next_args-pass_all server args held k cb e h =
    let (cells, passes, each) = pass_all-Cell server args cb.slots args h in
    let agree = agrees_at all_callbacks k cb all_callbacks-agree e in
    let (ordered, complete) = in_place_at all_callbacks k cb all_callbacks-in_place e in
    (
      (cells, passes, next_args-all_named server cb.slots args held cells cb.next each agree),
      ordered,
      complete,
    )
