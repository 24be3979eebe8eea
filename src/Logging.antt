-- ===== src/Logging.antt =====
-- The log levels (logging.go): their names as the handlers print them and as the configuration has them.
pub mod Levels
pub mod Setup
use Prim.Native.Char.{Char, code}
use Prim.Native.String.{◌++◌}
use Prim.Native.String
use goppstats.Prelude.{[], ◌∷◌, ◌||◌, ◌==◌, string_eq, nat_beq, ltb, if◌then◌else◌}
use goppstats.Prelude.Int.{ℤ, pos, negsuc, ltb_ℤ}
use goppstats.Prelude.Result.{Result, ok, err, message}

abbrev pub level_trace : ℤ
level_trace = negsuc 7

-- The levels of log/slog: -4, 0, 4 and 8.
abbrev pub level_debug : ℤ
level_debug = negsuc 3

abbrev pub level_info : ℤ
level_info = pos 0

abbrev pub level_notice : ℤ
level_notice = pos 2

abbrev pub level_warning : ℤ
level_warning = pos 4

abbrev pub level_error : ℤ
level_error = pos 8

abbrev pub level_critical : ℤ
level_critical = pos 10

abbrev level_fatal : ℤ
level_fatal = pos 12

-- The letter of the same place in another alphabet, or the given character.
translate : String.String → String.String → Char → Char → Char
translate String.[] _ c fallback = fallback
translate (String.◌∷◌ l ls) String.[] c fallback = fallback
translate (String.◌∷◌ l ls) (String.◌∷◌ u us) c fallback =
    let later = translate ls us c fallback in if nat_beq (code l) (code c) then u else later

-- `strings.ToUpper` and `strings.ToLower` go by character; what they make of one outside ASCII is a
-- parameter, here and below.
unfoldable pub to_upper : (Char → Char) → String.String → String.String
unfolding translate
to_upper other String.[] = String.[]
to_upper other (String.◌∷◌ c s) =
    String.◌∷◌
      (translate "abcdefghijklmnopqrstuvwxyz" "ABCDEFGHIJKLMNOPQRSTUVWXYZ" c
        (if ltb (code c) 128 then c else other c))
      (to_upper other s)

unfoldable pub to_lower : (Char → Char) → String.String → String.String
unfolding translate
to_lower other String.[] = String.[]
to_lower other (String.◌∷◌ c s) =
    String.◌∷◌
      (translate "ABCDEFGHIJKLMNOPQRSTUVWXYZ" "abcdefghijklmnopqrstuvwxyz" c
        (if ltb (code c) 128 then c else other c))
      (to_lower other s)

-- The `switch` of `ParseLevel`, on the text in capitals.
unfoldable pub level_of : String.String → String.String → Result ℤ
level_of level_str name =
    if name == "TRACE"
    then ok level_trace
    else if name == "DEBUG"
    then ok level_debug
    else if name == "INFO"
    then ok level_info
    else if name == "NOTICE"
    then ok level_notice
    else if name == "WARN" || name == "WARNING"
    then ok level_warning
    else if name == "ERROR"
    then ok level_error
    else if name == "CRITICAL"
    then ok level_critical
    else err (message ("unknown log level '" ++ level_str ++ "'"))

unfoldable pub parse_level : (Char → Char) → String.String → Result ℤ
unfolding to_upper level_of
parse_level other level_str = level_of level_str (to_upper other level_str)

-- What `ReplaceAttr` of `loggingOptions` prints for a level.
unfoldable pub level_name : ℤ → String.String
level_name level =
    if ltb_ℤ level level_debug
    then "TRACE"
    else if ltb_ℤ level level_info
    then "DEBUG"
    else if ltb_ℤ level level_notice
    then "INFO"
    else if ltb_ℤ level level_warning
    then "NOTICE"
    else if ltb_ℤ level level_error
    then "WARN"
    else if ltb_ℤ level level_critical
    then "ERROR"
    else if ltb_ℤ level level_fatal
    then "CRITICAL"
    else "FATAL"
