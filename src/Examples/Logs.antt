-- ===== src/Examples/Logs.antt =====
-- The logging of a configuration, on a host that opens every file.
use goppstats.Prelude.{ℕ, true, [], ◌∷◌, ◌≡◌, refl, string_eq}
use goppstats.Prelude.Int.{pos}
use goppstats.Prelude.Result.{ok}
use goppstats.Logging.{level_debug, parse_level, level_name, to_upper, to_lower, level_of}
use goppstats.Logging.Levels.{parse_level-level_name}
use goppstats.Logging.Setup.{
  json_file, console, setup_logging, effective_level, effective_file, format_of, file_handler,
  with_console,
}
use goppstats.Logging.Setup.Handlers.{setup_logging-logs, AreAskedFor}
use goppstats.Examples.Program.{toml}

parse_level-level_name_example : parse_level (λ c. c) (level_name (pos 4)) ≡ ok (pos 4)
unfolding parse_level to_upper level_of
parse_level-level_name_example = parse_level-level_name (λ c. c) "warning" (pos 4) refl

-- The level of the command line goes before that of the configuration, which has none, and the file of the
-- configuration is logged to.
setup_logging-logs_example :
    AreAskedFor
      (λ c. c)
      true
      "debug"
      "goppstats.log"
      "json"
      level_debug
      (json_file "goppstats.log" ∷ console ∷ [])
unfolding setup_logging effective_level effective_file format_of file_handler with_console
    parse_level to_upper to_lower level_of
setup_logging-logs_example =
    setup_logging-logs {W = ℕ} (λ c. c) (λ name w. (ok tt, w)) toml.logging "debug" "" level_debug
      (json_file "goppstats.log" ∷ console ∷ []) 0 0 refl
