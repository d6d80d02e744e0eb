-- ===== src/Info/Text.antt =====
-- The C string functions that reapi/common/info.cpp calls, on the codes of a string up to its NUL.
use Prim.Native.Char.{code}
use Prim.Native.String.{String}
use reapi.Prelude.{
  ℕ, zero, suc, ◌+◌, Bool, true, false, ◌&&◌, ◌||◌, List, [], ◌∷◌, leb, ◌==◌, if◌then◌else◌,
}

-- The codes of a literal.
abbrev pub codes : String → List ℕ
codes String.[] = []
codes (String.◌∷◌ c s) = code c ∷ codes s

abbrev pub backslash : ℕ
backslash = 92

abbrev pub quote : ℕ
quote = 34

abbrev pub dot : ℕ
dot = 46

-- `!strcmp(a, b)`
unfoldable pub str_eq : List ℕ → List ℕ → Bool
str_eq [] [] = true
str_eq [] (y ∷ b) = false
str_eq (x ∷ a) [] = false
str_eq (x ∷ a) (y ∷ b) = (x == y) && str_eq a b

-- `!strncmp(a, b, n)`
unfoldable pub strn_eq : ℕ → List ℕ → List ℕ → Bool
strn_eq zero a b = true
strn_eq (suc n) [] [] = true
strn_eq (suc n) [] (y ∷ b) = false
strn_eq (suc n) (x ∷ a) [] = false
strn_eq (suc n) (x ∷ a) (y ∷ b) = (x == y) && strn_eq n a b

-- `strstr(s, "c")` for a pattern of one character, and for one that doubles it.
unfoldable pub has_char : ℕ → List ℕ → Bool
has_char c [] = false
has_char c (x ∷ s) = (x == c) || has_char c s

starts_with_char : ℕ → List ℕ → Bool
starts_with_char c [] = false
starts_with_char c (x ∷ s) = x == c

unfoldable pub has_double : ℕ → List ℕ → Bool
unfolding starts_with_char
has_double c [] = false
has_double c (x ∷ s) = ((x == c) && starts_with_char c s) || has_double c s

-- `tolower` in the C locale.
unfoldable pub to_lower : ℕ → ℕ
to_lower c = if leb b'A' c && leb c b'Z' then c + 32 else c
