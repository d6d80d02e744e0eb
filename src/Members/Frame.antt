-- ===== src/Members/Frame.antt =====
-- Which bytes a write to a member touches.
use reapi.Members.Bytes.{
  copy_text_apart, load-store, read_text-copy_text, store_apart, store_words_apart, write_apart,
}
use reapi.Members.Getter.{get_member, get_string, get_typed, text}
use reapi.Members.Memory.{copy_text, load, store}
use reapi.Members.Setter.{
  Game, Input, Store, amx_text, chars_from, edict_by_index, element_address, private_by_index,
  set_ehandle, set_member, set_qstring, set_string, set_typed, unsupported, vars_by_index,
  words_from,
}
use reapi.Members.{
  MType, Member, member_bool, member_byte, member_classptr, member_double, member_edict,
  member_ehandle, member_evars, member_float, member_integer, member_qstring, member_short,
  member_signals, member_string, member_traceresult, member_vector,
}
use reapi.Prelude.{
  ℕ, zero, suc, Bool-cases, ◌+◌, ◌-◌, ◌*◌, ◌%◌, ◌^◌, ◌≤◌, ◌<◌, ◌≡◌, ◌≢◌, ◌⊎◌, refl, ap, inl, inr,
  true, false, List, [], ◌∷◌, take, char_cells, ltb, ◌==◌, if◌then◌else◌, All, arith,
}

-- The bytes of one element of a member: a text takes the whole array, and a pointer to one is 4
-- bytes long.
abbrev pub element_size : MType → Member → ℕ
element_size member_classptr member = 4
element_size member_edict member = 4
element_size member_evars member = 4
element_size member_ehandle member = 8
element_size member_vector member = 12
element_size member_string member = if ltb 4 member.max_size then member.max_size else 4
element_size member_qstring member = 4
element_size member_float member = 4
element_size member_integer member = 4
element_size member_short member = 2
element_size member_byte member = 1
element_size member_bool member = 1
element_size member_signals member = 8
element_size member_double member = 8
element_size member_traceresult member = 56
element_size t member = 0

abbrev pub element_start : MType → ℕ → Member → ℕ → ℕ
element_start member_string pdata member element = element_address pdata member.offset 0 1
element_start t pdata member element =
    element_address pdata member.offset element (element_size t member)

abbrev Outside : ℕ → ℕ → ℕ → Type 0
Outside a n b = (b < a) ⊎ (a + n ≤ b)

same_address :
    (pdata o o' element : ℕ)
    → o ≡ o' + 4 * element
    → element_address pdata o 0 4 ≡ element_address pdata o' element 4
unfolding element_address
same_address pdata o o' element h = ap (λ (x : ℕ). x % 2 ^ 32) (omega arith)

chars_from-All : (n i : ℕ) (input : Input) → All (λ c. (0 < c) × (c < 256)) (chars_from n i input)
unfolding chars_from
chars_from-All zero i input = tt
chars_from-All (suc n) i input = elim (Bool-cases (input.words i % 256 == 0)) [
  | inl e ↦ rw e tt
  | inr e ↦ rw e ((ground arith, ground arith), chars_from-All n (suc i) input)
]

module _ {W : Type 0} (game : Game W) where
  set_ehandle_apart :
      (e a b : ℕ) (s : Store W) → Outside a 8 b → (set_ehandle game e a s).memory b ≡ s.memory b
  unfolding set_ehandle
  set_ehandle_apart e a b s h = ground (
    arith,
    store_apart 4 e a b s.memory,
    store_apart 4 (game.serial s.world e) (a + 4) b (store 4 e a s.memory),
  )

  set_string_apart :
      (pdata b : ℕ) (member : Member) (source : List ℕ) (s : Store W)
      → Outside (element_address pdata member.offset 0 1) (element_size member_string member) b
      → (set_string game pdata member source s).1.memory b ≡ s.memory b
  unfolding set_string
  set_string_apart pdata b member source s h =
      let a = element_address pdata member.offset 0 1 in
      let n = member.max_size - 1 in
      let p = game.change_string (load 4 s.memory a) source s.world in
      ground (
        arith,
        store_apart 4 p.0 a b s.memory,
        copy_text_apart n source a b s.memory,
        write_apart (a + n) 0 b (copy_text n source a s.memory),
      )

  set_qstring_apart :
      (pdata b element : ℕ) (member : Member) (source : List ℕ) (s : Store W)
      → Outside (element_address pdata member.offset element 4) 4 b
      → (set_qstring game pdata member source element s).1.memory b ≡ s.memory b
  unfolding set_qstring
  set_qstring_apart pdata b element member source s h =
      store_apart 4 _ (element_address pdata member.offset element 4) b s.memory h

  set_typed_apart :
      (t : MType) (pdata b element : ℕ) (member : Member) (input : Input) (s : Store W)
      → Outside (element_start t pdata member element) (element_size t member) b
      → (set_typed game t pdata member input element s).1.memory b ≡ s.memory b
  unfolding set_typed unsupported
  set_typed_apart member_classptr pdata b element member input s h =
      ground (arith, store_apart 4 (private_by_index game s.world (input.words 0)) _ b s.memory h)
  set_typed_apart member_edict pdata b element member input s h =
      ground (arith, store_apart 4 (edict_by_index game (input.words 0)) _ b s.memory h)
  set_typed_apart member_evars pdata b element member input s h =
      ground (arith, store_apart 4 (vars_by_index game (input.words 0)) _ b s.memory h)
  set_typed_apart member_ehandle pdata b element member input s h =
      ground (arith, set_ehandle_apart (edict_by_index game (input.words 0)) _ b s h)
  set_typed_apart member_vector pdata b element member input s h =
      store_words_apart (input.words 0 ∷ input.words 1 ∷ input.words 2 ∷ [])
        (element_address pdata member.offset element 12) b s.memory (ground arith)
  set_typed_apart member_string pdata b element member input s h =
      set_string_apart pdata b member (amx_text input) s h
  set_typed_apart member_qstring pdata b element member input s h =
      set_qstring_apart pdata b element member (amx_text input) s h
  set_typed_apart member_float pdata b element member input s h = store_apart 4 _ _ b s.memory h
  set_typed_apart member_integer pdata b element member input s h = store_apart 4 _ _ b s.memory h
  set_typed_apart member_short pdata b element member input s h = store_apart 2 _ _ b s.memory h
  set_typed_apart member_byte pdata b element member input s h = store_apart 1 _ _ b s.memory h
  set_typed_apart member_bool pdata b element member input s h = store_apart 1 _ _ b s.memory h
  set_typed_apart member_signals pdata b element member input s h =
      store_words_apart (input.words 0 ∷ input.words 1 ∷ [])
        (element_address pdata member.offset element 8) b s.memory (ground arith)
  set_typed_apart member_double pdata b element member input s h = store_apart 8 _ _ b s.memory h
  set_typed_apart member_traceresult pdata b element member input s h =
      store_words_apart (words_from 14 0 input) (element_address pdata member.offset element 56) b
        s.memory (ground arith)
  set_typed_apart t pdata b element member input s h = refl

  -- Whatever the type of the member, set_member changes no byte outside of the element that it is
  -- given; a text stays inside the array of the member.
  pub set_member_apart :
      (pdata b element : ℕ) (member : Member) (input : Input) (s : Store W)
      → (b < element_start member.type pdata member element)
        ⊎ (element_start member.type pdata member element + element_size member.type member ≤ b)
      → (set_member game pdata member input element s).1.memory b ≡ s.memory b
  unfolding set_member
  set_member_apart pdata b element member input s h =
      ground (arith, set_typed_apart member.type pdata b element member input s h)

  get_string-set_string :
      (pdata l : ℕ) (member : Member) (source : List ℕ) (s : Store W)
      → 4 < member.max_size
      → All (λ c. (0 < c) × (c < 256)) source
      → get_string game pdata member true l (set_string game pdata member source s).1
        ≡ (1, text (char_cells (take l (take (member.max_size - 1) source))))
  unfolding set_string get_string
  get_string-set_string pdata l member source s room h =
      let a = element_address pdata member.offset 0 1 in
      ground (arith, read_text-copy_text (member.max_size - 1) l source a s.memory h)

  amx_text-All : (input : Input) → All (λ c. (0 < c) × (c < 256)) (amx_text input)
  unfolding amx_text
  amx_text-All input = chars_from-All 2046 0 input

  -- A text that is written to an array of characters is read back, as far as it fits into the array
  -- with a zero behind it, as many characters as are asked for, and each extended with its sign.
  pub get_member-set_string :
      (pdata element l : ℕ) (member : Member) (input : Input) (s : Store W)
      → pdata ≢ 0
      → member.type ≡ member_string
      → 4 < member.max_size
      → let r = set_member game pdata member input element s in
        get_member game pdata member true element l r.1
        ≡ (1, text (char_cells (take l (take (member.max_size - 1) (amx_text input)))))
  unfolding set_member get_member set_typed get_typed
  get_member-set_string pdata element l member input s n e room =
      let source = amx_text input in
      ground (arith, get_string-set_string pdata l member source s room (amx_text-All input))

  -- Nothing compares the element with the length of the member: if the element after the end of an
  -- array of integers is set, and another integer member of the object lies there, then that one
  -- has the value afterwards.
  pub set_member_past_end :
      (pdata element : ℕ) (member other : Member) (input : Input) (s : Store W)
      → pdata ≢ 0
      → member.type ≡ member_integer
      → other.type ≡ member_integer
      → member.max_size ≤ 4 * element
      → other.offset ≡ member.offset + 4 * element
      → input.words 0 < 2 ^ 32
      → let r = set_member game pdata member input element s in
        (r.0 ≡ 1) × ((get_member game pdata other false 0 0 r.1).0 ≡ input.words 0)
  unfolding set_member get_member set_typed get_typed
  set_member_past_end pdata element member other input s n e f long next h =
      let a = element_address pdata member.offset element 4 in
      let same : element_address pdata other.offset 0 4 ≡ a =
        same_address pdata other.offset member.offset element next in
      ground (arith, load-store 4 (input.words 0) a s.memory h, same)
