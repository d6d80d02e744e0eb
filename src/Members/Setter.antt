-- ===== src/Members/Setter.antt =====
-- reapi/src/natives/natives_members.cpp: how a value is written to a member.
use reapi.Members.Memory.{Memory, copy_text, load, store, store_words, write}
use reapi.Members.{
  MType, Member, member_bool, member_byte, member_classptr, member_double, member_edict,
  member_ehandle, member_entity, member_evars, member_pmtrace, member_rebuystruct, member_usercmd,
  member_float, member_integer, member_qstring, member_short, member_signals, member_string,
  member_traceresult, member_vector,
}
use reapi.Prelude.{
  ℕ, zero, suc, ◌+◌, ◌-◌, ◌*◌, ◌%◌, ◌^◌, Bool, true, false, ◌&&◌, ◌||◌, List, [], ◌∷◌, ltb, leb,
  ◌==◌, if◌then◌else◌,
}

-- What the engine, the game library and AMXX provide. Null pointers are 0.
pub record Game (W : Type 0) : Type 0 where
  pub max_entities : ℕ
  -- The private data of an entity, and which entity the object at an address belongs to.
  pub private_of : W → ℕ → ℕ
  pub index_of_private : W → ℕ → ℕ
  -- `g_pEdicts + index` and `&g_pEdicts[index].v`, and back.
  pub edict_at : ℕ → ℕ
  pub index_of_edict : ℕ → ℕ
  pub vars_at : ℕ → ℕ
  pub index_of_vars : ℕ → ℕ
  -- `serialnumber` of an edict
  pub serial : W → ℕ → ℕ
  -- ALLOC_STRING, and STRING of the result
  pub alloc_string : List ℕ → W → ℕ × W
  pub string_of : W → ℕ → List ℕ
  -- IReGameFuncs::ChangeString on a pointer, and the text at a pointer
  pub change_string : ℕ → List ℕ → W → ℕ × W
  pub text_at : W → ℕ → List ℕ
  -- The conversions between float and double, on their bits.
  pub widen : ℕ → ℕ
  pub narrow : ℕ → ℕ
  -- The sizes of RebuyStruct, pmtrace_s, usercmd_s, TraceResult and netadr_t.
  pub struct_size : MType → ℕ
  -- AMXX_LogError
  pub log_error : W → W

-- The object's bytes and everything else.
pub record Store (W : Type 0) : Type 0 where
  pub memory : Memory
  pub world : W

-- What `value` points to: the cells from there on.
pub record Input : Type 0 where
  pub words : ℕ → ℕ

abbrev pub amx_nullent : ℕ
amx_nullent = 2 ^ 32 - 1

abbrev pub is_negative : ℕ → Bool
is_negative c = leb (2 ^ 31) c

-- AMX_ENTITY_VALIDATE, which lets the index `maxEntities` itself pass.
unfoldable pub is_valid_entity : {W : Type 0} → Game W → ℕ → Bool
is_valid_entity game c = c == amx_nullent || (ltb c (2 ^ 31) && leb c game.max_entities)

-- ref_member<T>: 32-bit addresses.
unfoldable pub element_address : ℕ → ℕ → ℕ → ℕ → ℕ
element_address pdata offset element size = (pdata + offset + element * size) % 2 ^ 32

-- getPrivate, edictByIndexAmx and PEV
unfoldable pub private_by_index : {W : Type 0} → Game W → W → ℕ → ℕ
private_by_index game w c = if is_negative c then 0 else game.private_of w c

unfoldable pub edict_by_index : {W : Type 0} → Game W → ℕ → ℕ
edict_by_index game c = if is_negative c then 0 else game.edict_at c

unfoldable pub vars_by_index : {W : Type 0} → Game W → ℕ → ℕ
vars_by_index game c = if is_negative c then 0 else game.vars_at c

-- EHANDLE::Set
unfoldable pub set_ehandle : {W : Type 0} → Game W → ℕ → ℕ → Store W → Store W
unfolding store
set_ehandle game edict a s =
    let m = store 4 edict a s.memory in
    record s { memory = if edict == 0 then m else store 4 (game.serial s.world edict) (a + 4) m }

abbrev pub true_cell : ℕ
true_cell = 1

-- The write of a number of so many bytes.
abbrev pub put : {W : Type 0} → ℕ → ℕ → ℕ → Store W → ℕ × Store W
put n v a s = (true_cell, record s { memory = store n v a s.memory })

abbrev pub refuse : {W : Type 0} → Game W → Store W → ℕ × Store W
refuse game s = (0, record s { world = game.log_error s.world })

-- The characters from a cell on, up to the first that is zero, and so many at most.
unfoldable pub chars_from : ℕ → ℕ → Input → List ℕ
chars_from zero i input = []
chars_from (suc n) i input =
    let rest = chars_from n (suc i) input in
    let c = input.words i % 256 in if c == 0 then [] else c ∷ rest

-- getAmxString into `string[2048]`, of which it is told one less.
unfoldable pub amx_text : Input → List ℕ
unfolding chars_from
amx_text input = chars_from 2046 0 input

-- `char []` or `char *`
unfoldable pub set_string : {W : Type 0} → Game W → ℕ → Member → List ℕ → Store W → ℕ × Store W
unfolding copy_text write store load
set_string game pdata member source s =
    let a = element_address pdata member.offset 0 1 in
    if ltb 4 member.max_size
    then (
      true_cell,
      record s {
        memory =
            write (a + (member.max_size - 1)) 0 (copy_text (member.max_size - 1) source a s.memory);
      },
    )
    else (let p = game.change_string (load 4 s.memory a) source s.world in
        (true_cell, record { memory = store 4 p.0 a s.memory; world = p.1 }))

unfoldable pub set_qstring : {W : Type 0} → Game W → ℕ → Member → List ℕ → ℕ → Store W → ℕ × Store W
unfolding store
set_qstring game pdata member source element s =
    let a = element_address pdata member.offset element 4 in
    let none_given : Bool = elim source [ [] ↦ true | c ∷ cs ↦ false ] in
    let p = if none_given then (0, s.world) else game.alloc_string source s.world in
    (p.0, record { memory = store 4 p.0 a s.memory; world = p.1 })

-- The cells from one on, so many.
abbrev pub words_from : ℕ → ℕ → Input → List ℕ
words_from zero i input = []
words_from (suc n) i input = input.words i ∷ words_from n (suc i) input

-- The types that are logged as not supported, and those that the switch does not name.
unfoldable pub unsupported : {W : Type 0} → Game W → MType → Store W → ℕ × Store W
unsupported game member_entity s = refuse game s
unsupported game member_rebuystruct s = refuse game s
unsupported game member_pmtrace s = refuse game s
unsupported game member_usercmd s = refuse game s
unsupported game t s = (0, s)

-- The cases of set_member.
unfoldable pub set_typed :
    {W : Type 0} → Game W → MType → ℕ → Member → Input → ℕ → Store W → ℕ × Store W
unfolding store store_words set_string set_qstring set_ehandle private_by_index edict_by_index
    vars_by_index is_valid_entity element_address unsupported
set_typed game member_classptr pdata member input element s =
    let v = input.words 0 in
    if is_valid_entity game v
    then put 4 (private_by_index game s.world v) (element_address pdata member.offset element 4) s
    else refuse game s
set_typed game member_ehandle pdata member input element s =
    let v = input.words 0 in
    if is_valid_entity game v
    then (
      true_cell,
      set_ehandle game (edict_by_index game v) (element_address pdata member.offset element 8) s,
    )
    else refuse game s
set_typed game member_edict pdata member input element s =
    let v = input.words 0 in
    if is_valid_entity game v
    then put 4 (edict_by_index game v) (element_address pdata member.offset element 4) s
    else refuse game s
set_typed game member_evars pdata member input element s =
    let v = input.words 0 in
    if is_valid_entity game v
    then put 4 (vars_by_index game v) (element_address pdata member.offset element 4) s
    else refuse game s
set_typed game member_vector pdata member input element s = (
  true_cell,
  record s {
    memory =
        store_words (input.words 0 ∷ input.words 1 ∷ input.words 2 ∷ [])
          (element_address pdata member.offset element 12) s.memory;
  },
)
set_typed game member_string pdata member input element s =
    set_string game pdata member (amx_text input) s
set_typed game member_qstring pdata member input element s =
    set_qstring game pdata member (amx_text input) element s
set_typed game member_float pdata member input element s =
    put 4 (input.words 0) (element_address pdata member.offset element 4) s
set_typed game member_integer pdata member input element s =
    put 4 (input.words 0) (element_address pdata member.offset element 4) s
set_typed game member_short pdata member input element s =
    put 2 (input.words 0 % 2 ^ 16) (element_address pdata member.offset element 2) s
set_typed game member_byte pdata member input element s =
    put 1 (input.words 0 % 2 ^ 8) (element_address pdata member.offset element 1) s
set_typed game member_bool pdata member input element s =
    put 1 (if input.words 0 == 0 then 0 else 1) (element_address pdata member.offset element 1) s
set_typed game member_signals pdata member input element s = (
  true_cell,
  record s {
    memory =
        store_words (input.words 0 ∷ input.words 1 ∷ [])
          (element_address pdata member.offset element 8) s.memory;
  },
)
set_typed game member_double pdata member input element s =
    put 8 (game.widen (input.words 0)) (element_address pdata member.offset element 8) s
set_typed game member_traceresult pdata member input element s = (
  true_cell,
  record s {
    memory =
        store_words (words_from 14 0 input) (element_address pdata member.offset element 56)
          s.memory;
  },
)
set_typed game t pdata member input element s = unsupported game t s

-- set_member(amx, pdata, member, value, element): the value returned, and the store after it.
unfoldable pub set_member : {W : Type 0} → Game W → ℕ → Member → Input → ℕ → Store W → ℕ × Store W
set_member game pdata member input element s =
    if pdata == 0 then (0, s) else set_typed game member.type pdata member input element s
