-- ===== src/Rules/Text.antt =====
-- The functions of Go's package strings that ast.go uses. Which characters are spaces, and what
-- their upper case is, are parameters: the tables of Unicode.
use Prim.Native.Char.{Char, code}
use text.Mathlib.Text.{find?}
use ropus.Common.{is_some, String, str_eq, ◌||◌, Bool, List, [], ◌∷◌, if◌then◌else◌, ◌==◌}

-- `strings.ToUpper`
unfoldable pub to_upper : (Char → Char) → String → String
to_upper upper String.[] = String.[]
to_upper upper (String.◌∷◌ c s) = String.◌∷◌ (upper c) (to_upper upper s)

-- `strings.TrimSpace`
unfoldable pub trim_left : (Char → Bool) → String → String
trim_left is_space String.[] = String.[]
trim_left is_space (String.◌∷◌ c s) =
    let rest = trim_left is_space s in if is_space c then rest else String.◌∷◌ c s

abbrev unless_space : (Char → Bool) → Char → String → String
unless_space is_space c String.[] = if is_space c then String.[] else String.◌∷◌ c String.[]
unless_space is_space c s = String.◌∷◌ c s

unfoldable pub trim_right : (Char → Bool) → String → String
trim_right is_space String.[] = String.[]
trim_right is_space (String.◌∷◌ c s) = unless_space is_space c (trim_right is_space s)

-- `strings.HasSuffix`
unfoldable pub ends_with : String → String → Bool
ends_with String.[] t = str_eq String.[] t
ends_with (String.◌∷◌ c s) t = str_eq (String.◌∷◌ c s) t || ends_with s t

abbrev prepend : Char → List String → List String
prepend c [] = String.◌∷◌ c String.[] ∷ []
prepend c (w ∷ ws) = String.◌∷◌ c w ∷ ws

-- `strings.Split(s, ".")`
unfoldable pub split_dots : String → List String
split_dots String.[] = String.[] ∷ []
split_dots (String.◌∷◌ c s) =
    let rest = split_dots s in if code c == 46 then String.[] ∷ rest else prepend c rest

-- `strings.Contains`
abbrev pub contains_text : String → String → Bool
contains_text s t = is_some (find? s t)
