-- ===== src/Members/RoundTrip.antt =====
-- A value that is written to a member is read back from it.
use reapi.Members.Bytes.{limit, load-store, load-store_apart}
use reapi.Members.Getter.{get_ehandle, get_member, get_typed, index_or_null, sign_extend}
use reapi.Members.Memory.{store}
use reapi.Members.Setter.{
  Game, Input, Store, amx_nullent, edict_by_index, element_address, is_valid_entity,
  private_by_index, set_ehandle, set_member, set_typed, vars_by_index,
}
use reapi.Members.{
  MType, Member, member_bool, member_byte, member_classptr, member_double, member_edict,
  member_ehandle, member_evars, member_float, member_integer, member_short,
}
use reapi.Prelude.{
  ℕ, ◌+◌, ◌-◌, ◌%◌, ◌^◌, ◌≤◌, ◌<◌, ◌≡◌, ◌≢◌, ◌⊎◌, inl, inr, Bool, true, ◌==◌, if◌then◌else◌, arith,
}

-- What the server's arrays of entities are like: an address leads back to the entity, none is null,
-- and addresses and serial numbers have 32 bits.
pub record Addresses {W : Type 0} (game : Game W) : Type 0 where
  pub edicts : (i : ℕ) → i ≤ game.max_entities → game.index_of_edict (game.edict_at i) ≡ i
  pub edict_range :
      (i : ℕ) → i ≤ game.max_entities → (0 < game.edict_at i) × (game.edict_at i < 2 ^ 32)
  pub vars : (i : ℕ) → i ≤ game.max_entities → game.index_of_vars (game.vars_at i) ≡ i
  pub vars_range :
      (i : ℕ) → i ≤ game.max_entities → (0 < game.vars_at i) × (game.vars_at i < 2 ^ 32)
  pub privates :
      (w : W) (i : ℕ)
      → i ≤ game.max_entities
      → 0 < game.private_of w i
      → game.index_of_private w (game.private_of w i) ≡ i
  pub private_range : (w : W) (i : ℕ) → i ≤ game.max_entities → game.private_of w i < 2 ^ 32
  pub serial_range : (w : W) (e : ℕ) → game.serial w e < 2 ^ 32

-- No entity, or one of the server's.
abbrev pub IsEntity : {W : Type 0} → Game W → ℕ → Type 0
IsEntity game v = (v ≡ amx_nullent) ⊎ ((v < 2 ^ 31) × (v ≤ game.max_entities))

-- A member of the type can hold the value.
abbrev pub Holds : {W : Type 0} → Game W → W → MType → ℕ → Type 0
Holds game w member_float v = v < 2 ^ 32
Holds game w member_integer v = v < 2 ^ 32
Holds game w member_short v = (v < 2 ^ 15) ⊎ ((2 ^ 32 - 2 ^ 15 ≤ v) × (v < 2 ^ 32))
Holds game w member_byte v = v < 2 ^ 8
Holds game w member_bool v = v < 2
Holds game w member_double v = (game.narrow (game.widen v) ≡ v) × (game.widen v < 2 ^ 64)
Holds game w member_edict v = IsEntity game v
Holds game w member_evars v = IsEntity game v
Holds game w member_ehandle v = IsEntity game v
Holds game w member_classptr v =
    (v ≡ amx_nullent) ⊎ ((v < 2 ^ 31) × (v ≤ game.max_entities) × (0 < game.private_of w v))
Holds game w t v = ⊥

module _ {W : Type 0} (game : Game W) (laws : Addresses game) where
  -- An index that passes the check leads to an address from which it is read again.
  valid : (v : ℕ) → IsEntity game v → is_valid_entity game v ≡ true
  unfolding is_valid_entity
  valid v h = ground arith

  edict_back :
      (v : ℕ)
      → IsEntity game v
      → (edict_by_index game v < limit 4)
        × (index_or_null game.index_of_edict (edict_by_index game v) ≡ v)
  unfolding edict_by_index
  edict_back v h = ground (arith, laws.edicts v, laws.edict_range v)

  vars_back :
      (v : ℕ)
      → IsEntity game v
      → (vars_by_index game v < limit 4)
        × (index_or_null game.index_of_vars (vars_by_index game v) ≡ v)
  unfolding vars_by_index
  vars_back v h = ground (arith, laws.vars v, laws.vars_range v)

  private_back :
      (w : W) (v : ℕ)
      → Holds game w member_classptr v
      → IsEntity game v
        × (private_by_index game w v < limit 4)
        × (index_or_null (game.index_of_private w) (private_by_index game w v) ≡ v)
  unfolding private_by_index
  private_back w v (inl h) = (inl h, ground arith, ground arith)
  private_back w v (inr (h, k, l)) =
      (inr (h, k), ground (arith, laws.private_range w v), ground (arith, laws.privates w v))

  get_ehandle-set_ehandle :
      (e a : ℕ) (s : Store W) → e < limit 4 → get_ehandle game a (set_ehandle game e a s) ≡ e
  unfolding get_ehandle set_ehandle
  get_ehandle-set_ehandle e a s h =
      let n = game.serial s.world e in
      let m = store 4 e a s.memory in
      ground (
        arith,
        load-store 4 e a s.memory h,
        load-store 4 n (a + 4) m (laws.serial_range s.world e),
        load-store_apart 4 4 n (a + 4) a m (inl (omega arith)),
      )

  reads_back :
      (t : MType) (pdata : ℕ) (member : Member) (input : Input) (element length : ℕ) (d : Bool)
      (s : Store W)
      → Holds game s.world t (input.words 0)
      → let r = set_typed game t pdata member input element s in
        (r.0 ≡ 1) × ((get_typed game t pdata member d element length r.1).0 ≡ input.words 0)
  unfolding set_typed get_typed sign_extend
  reads_back member_float pdata member input element length d s h =
      let a = element_address pdata member.offset element 4 in
      ground (arith, load-store 4 (input.words 0) a s.memory)
  reads_back member_integer pdata member input element length d s h =
      let a = element_address pdata member.offset element 4 in
      ground (arith, load-store 4 (input.words 0) a s.memory)
  reads_back member_short pdata member input element length d s h =
      let a = element_address pdata member.offset element 2 in
      ground (arith, load-store 2 (input.words 0 % 2 ^ 16) a s.memory)
  reads_back member_byte pdata member input element length d s h =
      let a = element_address pdata member.offset element 1 in
      ground (arith, load-store 1 (input.words 0 % 2 ^ 8) a s.memory)
  reads_back member_bool pdata member input element length d s h =
      let a = element_address pdata member.offset element 1 in
      ground (arith, load-store 1 (if input.words 0 == 0 then 0 else 1) a s.memory)
  reads_back member_double pdata member input element length d s h =
      let a = element_address pdata member.offset element 8 in
      ground (arith, load-store 8 (game.widen (input.words 0)) a s.memory)
  reads_back member_edict pdata member input element length d s h =
      let a = element_address pdata member.offset element 4 in
      let v = input.words 0 in
      ground (arith, load-store 4 (edict_by_index game v) a s.memory, valid v, edict_back v)
  reads_back member_evars pdata member input element length d s h =
      let a = element_address pdata member.offset element 4 in
      let v = input.words 0 in
      ground (arith, load-store 4 (vars_by_index game v) a s.memory, valid v, vars_back v)
  reads_back member_classptr pdata member input element length d s h =
      let a = element_address pdata member.offset element 4 in
      let v = input.words 0 in
      let p = private_by_index game s.world v in
      let (is, small, back) = private_back s.world v h in
      ground (arith, load-store 4 p a s.memory small, valid v is, back)
  reads_back member_ehandle pdata member input element length d s h =
      let a = element_address pdata member.offset element 8 in
      let v = input.words 0 in
      let e = edict_by_index game v in
      let (small, back) = edict_back v h in
      ground (arith, get_ehandle-set_ehandle e a s small, valid v h, back)
  reads_back t pdata member input element length d s h = elim h [ ]

  -- If the object is there, the server's addresses are those of its entities, and the member's type
  -- is one number or entity that can hold the value (a short or a byte within its range, 0 or 1 for a
  -- bool, for a double a float that the conversions preserve, for a pointer to an object an entity
  -- with private data or none), then set_member returns 1 and get_member with the same element then
  -- returns the value.
  pub get_member-set_member :
      (pdata : ℕ) (member : Member) (input : Input) (element length : ℕ) (d : Bool) (s : Store W)
      → pdata ≢ 0
      → Holds game s.world member.type (input.words 0)
      → let r = set_member game pdata member input element s in
        (r.0 ≡ 1) × ((get_member game pdata member d element length r.1).0 ≡ input.words 0)
  unfolding set_member get_member
  get_member-set_member pdata member input element length d s n h =
      let (done, back) = reads_back member.type pdata member input element length d s h in
      ground (arith, done, back)
