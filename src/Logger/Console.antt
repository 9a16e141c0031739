-- ===== src/Logger/Console.antt =====
-- What `InitLogger` of internal/logger/logger.go sets for the lines of a console. A text is the list
-- of its code points; zerolog's names of levels are in ASCII.
use monitoring_tool.Prelude.{
  ℕ, ◌≡◌, refl, ◌∙◌, ap, sym, inl, inr, Bool, true, false, String, ◌<>◌, List, [], ◌∷◌, ◌++◌, ◌==◌,
  any, map, append_assoc, append-nil, if◌then◌else◌, Bool-cases, arith,
}
use monitoring_tool.Text.{codes}
use monitoring_tool.Logger.{is_named, same_codes, upper}

-- The escape character with "[", a number and "m" switches the colour; 0 switches it off.
abbrev colour : String → List ℕ
colour n = 27 ∷ codes ("[" <> n <> "m")

abbrev coloured : String → List ℕ → List ℕ
coloured n cs = colour n ++ cs ++ colour "0"

-- `FormatLevel`
abbrev of_level : List ℕ → List ℕ
of_level level =
    if is_named level "INFO"
    then coloured "32" (codes "INFO")
    else if is_named level "WARN"
    then coloured "33" (codes "WARN")
    else if is_named level "ERROR"
    then coloured "31" (codes "ERROR")
    else if is_named level "FATAL"
    then coloured "35" (codes "FATAL")
    else if is_named level "DEBUG"
    then coloured "36" (codes "DEBUG")
    else level

unfoldable pub format_level : List ℕ → List ℕ
unfolding codes
format_level text = of_level (map upper text)

-- `FormatMessage`, `FormatFieldName` and `FormatFieldValue`
unfoldable pub format_message : List ℕ → List ℕ
unfolding codes
format_message text = codes "| " ++ text

unfoldable pub format_field_name : List ℕ → List ℕ
unfolding codes
format_field_name text = coloured "36" text ++ codes "="

unfoldable pub format_field_value : List ℕ → List ℕ
unfolding codes
format_field_value text = coloured "33" text

-- What a terminal shows, before and inside a switch of the colour.
unfoldable pub shown : Bool → List ℕ → List ℕ
shown inside [] = []
shown true (c ∷ cs) =
    let after = shown false cs in let still = shown true cs in if c == b'm' then after else still
shown false (c ∷ cs) =
    let switch = shown true cs in let rest = shown false cs in if c == 27 then switch else c ∷ rest

abbrev pub has_escape : List ℕ → Bool
has_escape cs = any (λ c. c == 27) cs

shown-append :
    (cs ds : List ℕ) → has_escape cs ≡ false → shown false (cs ++ ds) ≡ cs ++ shown false ds
unfolding shown
shown-append [] ds h = refl
shown-append (c ∷ cs) ds h = ground (arith, h, shown-append cs ds)

same_codes-eq : (cs ds : List ℕ) → same_codes cs ds ≡ true → cs ≡ ds
same_codes-eq [] [] h = refl
same_codes-eq [] (d ∷ ds) h = cc
same_codes-eq (c ∷ cs) [] h = cc
same_codes-eq (c ∷ cs) (d ∷ ds) h = ground (arith, h, same_codes-eq cs ds)

shown_same : (cs : List ℕ) → has_escape cs ≡ false → shown false cs ≡ cs
unfolding shown
shown_same [] h = refl
shown_same (c ∷ cs) h = ground (arith, h, shown_same cs)

upper-escape : (cs : List ℕ) → has_escape cs ≡ false → has_escape (map upper cs) ≡ false
upper-escape [] h = refl
upper-escape (c ∷ cs) h = ground (arith, h, upper-escape cs)

-- A name in its colour is shown as the name, so the level is.
shown_case :
    (level : List ℕ) (name n : String) (other : List ℕ)
    → shown false (coloured n (codes name)) ≡ codes name
    → shown false other ≡ level
    → shown false (if is_named level name then coloured n (codes name) else other) ≡ level
shown_case level name n other c h = elim (Bool-cases (is_named level name)) [
  | inl named ↦ rw named (c ∙ sym (same_codes-eq level (codes name) named))
  | inr unnamed ↦ rw unnamed h
]

shown-of_level : (level : List ℕ) → has_escape level ≡ false → shown false (of_level level) ≡ level
unfolding shown codes
shown-of_level level h = shown_case level "INFO" "32" _ refl (
    shown_case level "WARN" "33" _ refl (
      shown_case level "ERROR" "31" _ refl (
        shown_case level "FATAL" "35" _ refl
          (shown_case level "DEBUG" "36" level refl (shown_same level h)))))

-- For texts without the escape character a console shows of a line what the text says, whatever its colours: the
-- level in capitals, the message after a bar, and the name and the value of a field on the two sides
-- of an equals sign.
pub console_shows :
    (level message name value : List ℕ)
    → has_escape level ≡ false
    → has_escape message ≡ false
    → has_escape name ≡ false
    → has_escape value ≡ false
    → (shown false (format_level level) ≡ map upper level)
      × (shown false (format_message message) ≡ codes "| " ++ message)
      × (shown false (format_field_name name ++ format_field_value value)
          ≡ name ++ (codes "=" ++ value))
unfolding shown codes format_level format_message format_field_name format_field_value
console_shows level message name value l m n v = (
  shown-of_level (map upper level) (upper-escape level l),
  ap (λ cs. b'|' ∷ b' ' ∷ cs) (shown_same message m),
  ap (shown false) (
        append_assoc (name ++ colour "0") (codes "=") (coloured "33" value)
        ∙ append_assoc name (colour "0") (codes "=" ++ coloured "33" value))
      ∙ shown-append name _ n
      ∙ ap (λ cs. name ++ b'=' ∷ cs) (shown-append value (colour "0") v ∙ append-nil value),
)
