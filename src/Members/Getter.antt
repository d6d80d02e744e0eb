-- ===== src/Members/Getter.antt =====
-- reapi/src/natives/natives_members.cpp: how a member is read.
use reapi.Members.Memory.{load, load_words, read_text}
use reapi.Members.Setter.{Game, Store, amx_nullent, element_address}
use reapi.Members.{
  MType, Member, member_bool, member_byte, member_classptr, member_double, member_edict,
  member_ehandle, member_evars, member_float, member_integer, member_netadr, member_pmtrace,
  member_qstring, member_rebuystruct, member_short, member_signals, member_string,
  member_traceresult, member_usercmd, member_vector,
}
use reapi.Prelude.{
  ℕ, ◌+◌, ◌-◌, ◌^◌, Bool, List, [], ◌∷◌, take, char_cells, ltb, ◌==◌, if◌then◌else◌,
}

-- What is written to `dest`.
pub data Output : Type 0 where
  no_output : Output
  words : List ℕ → Output
  text : List ℕ → Output

-- EHANDLE::Get
unfoldable pub get_ehandle : {W : Type 0} → Game W → ℕ → Store W → ℕ
unfolding load
get_ehandle game a s =
    let edict = load 4 s.memory a in
    if edict == 0
    then 0
    else (if game.serial s.world edict == load 4 s.memory (a + 4) then edict else 0)

-- The index of what a pointer leads to, or -1 for a null pointer.
abbrev pub index_or_null : (ℕ → ℕ) → ℕ → ℕ
index_or_null index p = if p == 0 then amx_nullent else index p

-- A short integer as a cell.
unfoldable pub sign_extend : ℕ → ℕ
sign_extend v = if ltb v (2 ^ 15) then v else v + (2 ^ 32 - 2 ^ 16)

-- `char []` or `char *`. setAmxString copies `length` characters, up to a zero.
unfoldable pub get_string : {W : Type 0} → Game W → ℕ → Member → Bool → ℕ → Store W → ℕ × Output
unfolding load read_text
get_string game pdata member has_dest length s =
    let a = element_address pdata member.offset 0 1 in
    let p = load 4 s.memory a in
    if has_dest
    then (if ltb 4 member.max_size
        then (1, text (char_cells (read_text length s.memory a)))
        else (if p == 0
            then (0, text [])
            else (1, text (char_cells (take length (game.text_at s.world p))))))
    else (0, no_output)

unfoldable pub get_qstring :
    {W : Type 0} → Game W → ℕ → Member → Bool → ℕ → ℕ → Store W → ℕ × Output
unfolding load
get_qstring game pdata member has_dest element length s =
    let str = load 4 s.memory (element_address pdata member.offset element 4) in
    if has_dest
    then (if str == 0
        then (0, text [])
        else (str, text (char_cells (take length (game.string_of s.world str)))))
    else (0, no_output)

abbrev pub number_of : ℕ → ℕ × Output
number_of v = (v, no_output)

-- The address of a structure that is given as a handle.
abbrev pub handle : {W : Type 0} → Game W → MType → ℕ → Member → ℕ → ℕ × Output
handle game t pdata member element =
    number_of (element_address pdata member.offset element (game.struct_size t))

-- The cases of get_member: the value returned and what is written to `dest`, if it is given. A
-- member that is an entity offset is only logged, which is left out.
unfoldable pub get_typed :
    {W : Type 0} → Game W → MType → ℕ → Member → Bool → ℕ → ℕ → Store W → ℕ × Output
unfolding load load_words get_string get_qstring get_ehandle sign_extend element_address
get_typed game member_classptr pdata member has_dest element length s = number_of (
    index_or_null (game.index_of_private s.world)
      (load 4 s.memory (element_address pdata member.offset element 4)))
get_typed game member_ehandle pdata member has_dest element length s = number_of (
    index_or_null game.index_of_edict
      (get_ehandle game (element_address pdata member.offset element 8) s))
get_typed game member_edict pdata member has_dest element length s = number_of (
    index_or_null game.index_of_edict
      (load 4 s.memory (element_address pdata member.offset element 4)))
get_typed game member_evars pdata member has_dest element length s = number_of (
    index_or_null game.index_of_vars
      (load 4 s.memory (element_address pdata member.offset element 4)))
get_typed game member_vector pdata member has_dest element length s =
    if has_dest
    then (1, words (load_words 3 s.memory (element_address pdata member.offset element 12)))
    else (0, no_output)
get_typed game member_string pdata member has_dest element length s =
    get_string game pdata member has_dest length s
get_typed game member_qstring pdata member has_dest element length s =
    get_qstring game pdata member has_dest element length s
get_typed game member_float pdata member has_dest element length s =
    let v = load 4 s.memory (element_address pdata member.offset element 4) in
    (v, if has_dest then words (v ∷ []) else no_output)
get_typed game member_integer pdata member has_dest element length s =
    let v = load 4 s.memory (element_address pdata member.offset element 4) in
    (v, if has_dest then words (v ∷ []) else no_output)
get_typed game member_short pdata member has_dest element length s =
    number_of (sign_extend (load 2 s.memory (element_address pdata member.offset element 2)))
get_typed game member_byte pdata member has_dest element length s =
    number_of (load 1 s.memory (element_address pdata member.offset element 1))
get_typed game member_bool pdata member has_dest element length s =
    number_of
      (if load 1 s.memory (element_address pdata member.offset element 1) == 0 then 0 else 1)
get_typed game member_double pdata member has_dest element length s =
    number_of (game.narrow (load 8 s.memory (element_address pdata member.offset element 8)))
get_typed game member_signals pdata member has_dest element length s =
    if has_dest
    then (1, words (load_words 2 s.memory (element_address pdata member.offset 0 8)))
    else (0, no_output)
get_typed game member_traceresult pdata member has_dest element length s =
    handle game member_traceresult pdata member element
get_typed game member_rebuystruct pdata member has_dest element length s =
    handle game member_rebuystruct pdata member element
get_typed game member_pmtrace pdata member has_dest element length s =
    handle game member_pmtrace pdata member element
get_typed game member_usercmd pdata member has_dest element length s =
    handle game member_usercmd pdata member element
get_typed game member_netadr pdata member has_dest element length s =
    handle game member_netadr pdata member element
get_typed game t pdata member has_dest element length s = (0, no_output)

-- get_member(amx, pdata, member, dest, element, length)
unfoldable pub get_member : {W : Type 0} → Game W → ℕ → Member → Bool → ℕ → ℕ → Store W → ℕ × Output
get_member game pdata member has_dest element length s =
    if pdata == 0
    then (0, no_output)
    else get_typed game member.type pdata member has_dest element length s
