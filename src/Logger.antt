-- ===== src/Logger.antt =====
-- The levels of internal/logger/logger.go. What zerolog writes is left to it.
pub mod Console
use monitoring_tool.Prelude.{
  ℕ, ◌-◌, ◌∙◌, ap, ◌≡◌, refl, Bool, true, false, ◌||◌, ◌&&◌, List, [], ◌∷◌, String, leb, ◌==◌,
  arith, map, str_eq, if◌then◌else◌,
}
use monitoring_tool.Text.{codes}
use monitoring_tool.Text.Scan.{lower}

-- zerolog.Level, as far as the code names it.
pub data LogLevel : Type 0 where
  debug_level info_level warn_level error_level : LogLevel

-- `strings.ToLower` of a character, as far as it gives a letter of a level's name: İ has the lower
-- case i, and no other character outside ASCII has one of those letters.
abbrev to_lower : ℕ → ℕ
to_lower c = if c == 304 then b'i' else lower c

abbrev same_codes : List ℕ → List ℕ → Bool
same_codes [] [] = true
same_codes (c ∷ cs) (d ∷ ds) = let rest = same_codes cs ds in if c == d then rest else false
same_codes _ _ = false

abbrev is_named : List ℕ → String → Bool
is_named cs name = same_codes cs (codes name)

abbrev level_of : List ℕ → LogLevel
level_of cs =
    if is_named cs "debug"
    then debug_level
    else if is_named cs "info"
    then info_level
    else if is_named cs "warn" || is_named cs "warning"
    then warn_level
    else if is_named cs "error"
    then error_level
    else info_level

-- `parseLogLevel`
unfoldable pub parse_log_level : String → LogLevel
unfolding codes
parse_log_level level = level_of (map to_lower (codes level))

-- The global logger: the level, and whether the lines are made for a console or are JSON.
pub record LoggerState : Type 0 where
  pub global_level : LogLevel
  pub is_console : Bool

-- `InitLogger`
unfoldable pub init_logger : String → String → LoggerState
init_logger level format = record {
  global_level = parse_log_level level;
  is_console = str_eq format "console";
}

-- A letter of ASCII as a capital, and any other character as it is.
abbrev upper : ℕ → ℕ
upper c = if leb b'a' c && leb c b'z' then c - 32 else c

to_lower-upper : (c : ℕ) → to_lower (upper c) ≡ to_lower c
to_lower-upper c = ground arith

map-upper : (cs : List ℕ) → map to_lower (map upper cs) ≡ map to_lower cs
map-upper [] = refl
map-upper (c ∷ cs) = rw (to_lower-upper c) (rw (map-upper cs) refl)

-- A text that is another one with its letters of ASCII in capitals names the same level.
pub parse_log_level-capitals :
    (s t : String) → codes t ≡ map upper (codes s) → parse_log_level t ≡ parse_log_level s
unfolding parse_log_level
parse_log_level-capitals s t h = ap level_of (ap (map to_lower) h ∙ map-upper (codes s))
