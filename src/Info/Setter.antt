-- ===== src/Info/Setter.antt =====
-- reapi/common/info.cpp: `Info_SetValueForStarKey`.
use reapi.Info.Text.{codes, backslash, quote, dot, str_eq, has_char, has_double, to_lower}
use reapi.Prelude.{
  ℕ, zero, suc, ◌+◌, ◌-◌, Bool, true, false, not, ◌&&◌, ◌||◌, Option, none, some, List, [], ◌∷◌,
  ◌++◌, map, length, take, leb, if◌then◌else◌, Run, ok, fault, fuel, ◌>>=◌,
}
use reapi.Info.{find_largest_key, is_key_important, max_info_string, max_kv_len, remove_key}

-- How `Info_SetValueForStarKey` returns. All but the first two leave the request undone.
pub data Outcome : Type 0 where
  stored removed null_argument empty_key has_slash has_dots has_quote too_long exceeded : Outcome

-- The do loop that removes the largest keys. `true` says that there is room.
unfoldable pub make_room : ℕ → ℕ → ℕ → List ℕ → Run (Bool × List ℕ)
make_room zero needed maxsize s = fault fuel
make_room (suc n) needed maxsize s = do
  largekey ← find_largest_key s
  elim largekey [
    | [] ↦ ok (false, s)
    | c ∷ k ↦ do
      s' ← remove_key s (c ∷ k)
      elim (leb maxsize (length s' + needed)) [
        | true ↦ make_room n needed maxsize s'
        | false ↦ ok (true, s')
      ]
  ]

-- `Q_snprintf(newArray, MAX_INFO_STRING - 1, "\\%s\\%s", key, value)`
unfoldable pub new_pair : List ℕ → List ℕ → List ℕ
new_pair key value = take (max_info_string - 2) (backslash ∷ key ++ backslash ∷ value)

-- The last loop: the pair goes behind the string, in lower case for the key `team`.
unfoldable pub append_pair : List ℕ → List ℕ → List ℕ → List ℕ
append_pair s key pair =
    s ++ (if str_eq (map to_lower key) (codes "team") then map to_lower pair else pair)

-- The guards, in the order of the source. `none` says that all of them pass.
unfoldable pub rejection : List ℕ → List ℕ → Option Outcome
rejection [] value = some empty_key
rejection (c ∷ k) value =
    let key = c ∷ k in
    if has_char backslash key || has_char backslash value
    then some has_slash
    else if has_double dot key || (not (str_eq key (codes "name")) && has_double dot value)
    then some has_dots
    else if has_char quote key || has_char quote value
    then some has_quote
    else if leb max_kv_len (length key) || leb max_kv_len (length value)
    then some too_long
    else none

-- From the removal of the old pair on.
unfoldable pub replace_pair : List ℕ → List ℕ → List ℕ → ℕ → Run (Outcome × List ℕ)
replace_pair s key value maxsize = do
  s' ← remove_key s key
  let pair = new_pair key value
  elim value [
    | [] ↦ ok (removed, s')
    | _ ∷ _ ↦ elim (leb maxsize (length s' + length pair)) [
      | false ↦ ok (stored, append_pair s' key pair)
      | true ↦ elim (is_key_important key) [
        | false ↦ ok (exceeded, s')
        | true ↦ do
          (room, s'') ← make_room (suc (length s')) (length pair) maxsize s'
          ok (if room then (stored, append_pair s'' key pair) else (exceeded, s''))
      ]
    ]
  ]

-- `none` is a null pointer.
unfoldable pub set_value_for_star_key :
    List ℕ → Option (List ℕ) → Option (List ℕ) → ℕ → Run (Outcome × List ℕ)
set_value_for_star_key s none value maxsize = ok (null_argument, s)
set_value_for_star_key s (some key) none maxsize = ok (null_argument, s)
set_value_for_star_key s (some key) (some value) maxsize = elim (rejection key value) [
  | some why ↦ ok (why, s)
  | none ↦ replace_pair s key value maxsize
]
