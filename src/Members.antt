-- ===== src/Members.antt =====
-- reapi/src/member_list.h and member_list.cpp: the members of the game's classes that plugins may read
-- and write, and how they are found.
--
-- Offsets, sizes and types come from the classes of the game library as the compiler lays them out,
-- and are a parameter. A cell is its 32 bits, a number below 2 ^ 32.
pub mod Memory
pub mod Setter
pub mod Getter
pub mod Natives
pub mod Calls
pub mod NetAdr
pub mod Bytes
pub mod RoundTrip
pub mod Frame
pub mod Requests
mod Examples
use reapi.Prelude.{
  ℕ, zero, suc, ◌/◌, ◌%◌, Bool, true, false, Option, none, some, List, [], ◌∷◌, get_elem?, ltb,
  ◌==◌, ◌||◌, if◌then◌else◌,
}

-- enum MType
pub data MType : Type 0 where
  member_none member_float member_double member_entity member_classptr member_ehandle : MType
  member_evars member_edict member_vector member_string member_qstring member_rstring : MType
  member_integer member_short member_byte member_bool member_signals member_rebuystruct : MType
  member_pmtrace member_usercmd member_traceresult member_netadr : MType

-- member_t, without the name, which is only logged.
pub record Member : Type 0 where
  pub size : ℕ
  pub max_size : ℕ
  pub offset : ℕ
  pub type : MType

-- member_t::isTypeReturnable
unfoldable pub is_type_returnable : MType → Bool
is_type_returnable member_float = true
is_type_returnable member_double = true
is_type_returnable member_entity = true
is_type_returnable member_classptr = true
is_type_returnable member_edict = true
is_type_returnable member_integer = true
is_type_returnable member_short = true
is_type_returnable member_byte = true
is_type_returnable member_bool = true
is_type_returnable member_evars = true
is_type_returnable member_pmtrace = true
is_type_returnable member_usercmd = true
is_type_returnable t = false

abbrev pub max_region_range : ℕ
max_region_range = 1024

-- The lengths of the tables memberlist_gamerules, _base and so on, in the order of
-- `members_tables_e`.
abbrev pub table_sizes : List ℕ
table_sizes =
    87 ∷ 25 ∷ 5 ∷ 16 ∷ 190 ∷ 123 ∷ 60 ∷ 26 ∷ 12 ∷ 9 ∷ 19 ∷ 3 ∷ 33 ∷ 5 ∷ 4 ∷ 24 ∷ 2 ∷ 2 ∷ 1 ∷ 3 ∷ 4
    ∷ 3 ∷ 3 ∷ 1 ∷ 3 ∷ 2 ∷ 3 ∷ 2 ∷ 3 ∷ 3 ∷ 3 ∷ 2 ∷ 2 ∷ 3 ∷ 3 ∷ 3 ∷ 4 ∷ 3 ∷ 2 ∷ 2 ∷ 3 ∷ 3 ∷ 8 ∷ 3 ∷ 2
    ∷ 10 ∷ 2 ∷ 2 ∷ 4 ∷ 3 ∷ 2 ∷ 14 ∷ []

-- memberlist_t::operator[]
unfoldable pub member_at : (ℕ → ℕ → Member) → ℕ → Option Member
member_at members id =
    let table = id / max_region_range in
    let index = id % max_region_range in
    elim (get_elem? table_sizes table) [
      | none ↦ none
      | some size ↦ if ltb index size then some (members table index) else none
    ]

-- The tables whose members lie in the extension of an entity: csplayer, csplayerweapon, csentity.
unfoldable pub is_extension : ℕ → Bool
is_extension id = let table = id / max_region_range in table == 10 || table == 47 || table == 50

-- get_pdata_custom: the address of the object that has the member, from those of the entity and of
-- its extension, which is 0 where there is none.
unfoldable pub get_pdata_custom : ℕ → ℕ → ℕ → ℕ
unfolding is_extension
get_pdata_custom entity extension id = if is_extension id then extension else entity
