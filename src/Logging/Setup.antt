-- ===== src/Logging/Setup.antt =====
-- `setupLogging` (logging.go): the level, the handlers, and the exits.
pub mod Handlers
use Prim.Native.Char.{Char}
use mathlib.Core.List
use goppstats.Prelude.{
  ℕ, String, List, [], ◌∷◌, Bool, true, false, Option, none, some, ◌==◌, string_eq, if◌then◌else◌,
}
use goppstats.Prelude.Int.{ℤ}
use goppstats.Prelude.Result.{Result, ok, err}
use goppstats.Config.{LoggingConfig}
use goppstats.Logging.{parse_level, to_lower, level_info}

pub data Handler : Type 0 where
  json_file text_file : String → Handler
  console : Handler

-- The program ends with a status, or logs at a level to the handlers.
pub data Setup : Type 0 where
  exits : ℕ → Setup
  logs : ℤ → List Handler → Setup

-- Before the configuration is read, to the console at INFO
abbrev setup_early_logging : Setup
setup_early_logging = logs level_info (console ∷ [])

-- The command line's level, else the configuration's, else NOTICE.
unfoldable pub effective_level : LoggingConfig → String → String
effective_level lc log_level =
    if log_level == "" then elim lc.log_level [ none ↦ "NOTICE" | some l ↦ l ] else log_level

-- The command line's file, else the configuration's, else none.
unfoldable pub effective_file : LoggingConfig → String → String
effective_file lc log_file_name =
    if log_file_name == "" then elim lc.log_file [ none ↦ "" | some f ↦ f ] else log_file_name

unfoldable pub format_of : (Char → Char) → LoggingConfig → String
format_of other lc = elim lc.log_file_format [ none ↦ "text" | some f ↦ to_lower other f ]

-- The handler of a file that is open.
unfoldable pub file_handler : String → String → Option Handler
file_handler format logfile =
    if format == "json"
    then some (json_file logfile)
    else if format == "text"
    then some (text_file logfile)
    else none

-- The console's handler after that of the file, if there are any.
unfoldable pub with_console : Bool → ℤ → List Handler → Setup
with_console log_to_stdout level backends =
    elim (if log_to_stdout then List.◌++◌ backends (console ∷ []) else backends) [
      | [] ↦ exits 3
      | h ∷ hs ↦ logs level (h ∷ hs)
    ]

-- `os.OpenFile` is a parameter.
unfoldable pub setup_logging :
    {W : Type 0}
    → (Char → Char)
    → (String → W → Result Unit × W)
    → LoggingConfig
    → String
    → String
    → W
    → Setup × W
unfolding effective_level effective_file format_of file_handler with_console
setup_logging other open_file lc log_level log_file_name w =
    elim (parse_level other (effective_level lc log_level)) [
      | err e ↦ (exits 2, w)
      | ok level ↦
          let logfile = effective_file lc log_file_name in
          elim (logfile == "") [
            | true ↦ (with_console lc.log_to_stdout level [], w)
            | false ↦
                let (r, w') = open_file logfile w in
                elim r [
                  | err e ↦ (exits 2, w')
                  | ok _ ↦ elim (file_handler (format_of other lc) logfile) [
                    | none ↦ (exits 2, w')
                    | some h ↦ (with_console lc.log_to_stdout level (h ∷ []), w')
                  ]
                ]
          ]
    ]
