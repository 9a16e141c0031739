-- ===== src/Text/Scan.antt =====
-- fmt.Sscanf with %d into an int, and strings.ToLower, Split and ReplaceAll as the configuration uses
-- them.
use Prim.Native.Char.{Char, code}
use monitoring_tool.Prelude.{
  ℕ, ◌+◌, Bool, true, false, ◌&&◌, ◌||◌, String, ◌<>◌, List, [], ◌∷◌, Option, none, some, leb, ◌==◌,
  if◌then◌else◌, ℤ,
}
use monitoring_tool.Text.{codes, is_digit, digits_value, signed}

-- Spaces as package fmt knows them, a line feed apart.
abbrev pub is_space : ℕ → Bool
is_space c =
    (leb 9 c && leb c 13)
    || c == 32
    || c == 133
    || c == 160
    || c == 5760
    || (leb 8192 c && leb c 8202)
    || c == 8232
    || c == 8233
    || c == 8239
    || c == 8287
    || c == 12288

abbrev starts_with_feed : List ℕ → Bool
starts_with_feed [] = false
starts_with_feed (c ∷ cs) = c == 10

-- `SkipSpace`: a line feed, or a carriage return before one, is an error.
unfoldable pub skip_space : List ℕ → Option (List ℕ)
skip_space [] = some []
skip_space (c ∷ cs) =
    let rest = skip_space cs in
    if c == 10
    then none
    else if c == 13 && starts_with_feed cs
    then none
    else if is_space c
    then rest
    else some (c ∷ cs)

unfoldable pub digits_prefix : List ℕ → List ℕ
digits_prefix [] = []
digits_prefix (c ∷ cs) = let rest = digits_prefix cs in if is_digit c then c ∷ rest else []

-- An optional sign and the digits after it.
abbrev pub number_prefix : List ℕ → List ℕ
number_prefix [] = []
number_prefix (c ∷ cs) =
    if c == b'-' || c == b'+' then c ∷ digits_prefix cs else digits_prefix (c ∷ cs)

abbrev scanned_number : Option (List ℕ) → Option ℤ
scanned_number none = none
scanned_number (some cs) = signed (number_prefix cs)

-- The int that is stored, or `none` where an error leaves the variable as it is.
unfoldable pub scan_int : String → Option ℤ
unfolding codes digits_value skip_space digits_prefix
scan_int s = scanned_number (skip_space (codes s))

-- The lower case of a letter of ASCII; no other character has one of the letters of "true" for it.
abbrev pub lower : ℕ → ℕ
lower c = if leb b'A' c && leb c b'Z' then c + 32 else c

abbrev lower_equals : List ℕ → List ℕ → Bool
lower_equals [] [] = true
lower_equals (c ∷ cs) (d ∷ ds) =
    let rest = lower_equals cs ds in if lower c == d then rest else false
lower_equals _ _ = false

-- `strings.ToLower(s) == "true"`
unfoldable pub lower_is_true : String → Bool
unfolding codes
lower_is_true s = lower_equals (codes s) (codes "true")

abbrev put_char : Char → List String → List String
put_char c [] = String.◌∷◌ c String.[] ∷ []
put_char c (s ∷ rest) = String.◌∷◌ c s ∷ rest

-- `strings.Split(s, ",")`: there is always a first part.
unfoldable pub split_comma : String → List String
split_comma String.[] = "" ∷ []
split_comma (String.◌∷◌ c s) =
    let rest = split_comma s in if code c == b',' then "" ∷ rest else put_char c rest

-- `strings.ReplaceAll(s, "@", "%40")`
unfoldable pub replace_at : String → String
replace_at String.[] = ""
replace_at (String.◌∷◌ c s) =
    let rest = replace_at s in if code c == b'@' then "%40" <> rest else String.◌∷◌ c rest
