-- ===== src/Logging/Setup/Handlers.antt =====
-- The handlers with which the program goes on.
use Prim.Native.Char.{Char}
use mathlib.Core.Bool.{not}
use goppstats.Prelude.{
  String, ◌++◌, ◌⊎◌, ◌∙◌, List, [], ◌∷◌, Bool, true, false, Option, none, some, ◌==◌, string_eq,
  if◌then◌else◌, ◌≡◌, refl, arith, In, inl, inr, Bool-cases, Option-cases, sym, subst,
}
use goppstats.Prelude.Int.{ℤ}
use goppstats.Prelude.Result.{Result, ok, Result-cases}
use goppstats.Config.{LoggingConfig}
use goppstats.Logging.{parse_level, to_lower}
use goppstats.Logging.Setup.{
  Handler, json_file, text_file, console, logs, effective_level, effective_file, format_of,
  file_handler, with_console, setup_logging,
}

-- The command line goes before the configuration, and that before what is else.
abbrev pub chosen : String → Option String → String → String
chosen argument own fallback =
    if not (argument == "") then argument else elim own [ some x ↦ x | none ↦ fallback ]

-- The handler of a file, if there is one, of one of two formats.
abbrev pub file_asked_for : String → String → List Handler
file_asked_for format logfile =
    if logfile == ""
    then []
    else if format == "json"
    then json_file logfile ∷ []
    else text_file logfile ∷ []

abbrev pub console_asked_for : Bool → List Handler
console_asked_for true = console ∷ []
console_asked_for false = []

-- The format that is asked for.
abbrev pub format_asked_for : (Char → Char) → Option String → String
format_asked_for other own = elim own [ some f ↦ to_lower other f | none ↦ "text" ]

file_handler-asked_for :
    (format logfile : String) (h : Handler)
    → (logfile == "") ≡ false
    → file_handler format logfile ≡ some h
    → (h ∷ [] ≡ file_asked_for format logfile) × ((format ≡ "json") ⊎ (format ≡ "text"))
unfolding file_handler
file_handler-asked_for format logfile h n e = elim (Bool-cases (format == "json")) [
  | inl j ↦ (ground (arith, n, j, e), inl (ground (arith, j, string_eq.beq_iff format "json")))
  | inr j ↦ elim (Bool-cases (format == "text")) [
    | inl t ↦ (ground (arith, n, j, t, e), inr (ground (arith, t, string_eq.beq_iff format "text")))
    | inr t ↦ let no : ⊥ = ground (arith, j, t, e) in elim no [ ]
  ]
]

-- What is said of the level, the handlers and the format.
abbrev pub AreAskedFor : (Char → Char) → Bool → String → String → String → ℤ → List Handler → Type 0
AreAskedFor other to_stdout level_text logfile format level hs =
    (parse_level other level_text ≡ ok level)
    × (hs ≡ file_asked_for format logfile ++ console_asked_for to_stdout)
    × ((format ≡ "json") ⊎ ((format ≡ "text") ⊎ (logfile ≡ "")))
    × ((h : Handler) × In h hs)

first-In :
    (hs : List Handler) (h : Handler) (rest : List Handler)
    → hs ≡ h ∷ rest
    → (x : Handler) × In x hs
first-In hs h rest e = (h, subst (In h) (sym e) (inl refl))

setup_logging-AreAskedFor :
    {W : Type 0} (other : Char → Char) (open_file : String → W → Result Unit × W)
    (lc : LoggingConfig) (log_level log_file_name : String) (level : ℤ) (hs : List Handler)
    (w w' : W)
    → setup_logging other open_file lc log_level log_file_name w ≡ (logs level hs, w')
    → AreAskedFor other lc.log_to_stdout
        (effective_level lc log_level)
        (effective_file lc log_file_name)
        (format_of other lc)
        level
        hs
unfolding setup_logging with_console
setup_logging-AreAskedFor other open_file lc log_level log_file_name level hs w w' e =
    let logfile = effective_file lc log_file_name in
    let format = format_of other lc in
    elim (Result-cases (parse_level other (effective_level lc log_level))) [
      | inr (x, q) ↦ let no : ⊥ = ground (arith, q, e) in elim no [ ]
      | inl (l, q) ↦ elim (Bool-cases (logfile == "")) [
        | inl b ↦ elim (Bool-cases lc.log_to_stdout) [
          | inr c ↦ let no : ⊥ = ground (arith, q, b, c, e) in elim no [ ]
          | inl c ↦
              let made : hs ≡ console ∷ [] = ground (arith, q, b, c, e) in
              (
                ground (arith, q, b, c, e),
                ground (arith, made, b, c),
                inr (inr ((string_eq.beq_iff logfile "").0 b)),
                first-In hs console [] made,
              )
        ]
        | inr b ↦ elim (Result-cases (open_file logfile w).0) [
          | inr (x, r) ↦ let no : ⊥ = ground (arith, q, b, r, e) in elim no [ ]
          | inl (_, r) ↦ elim (Option-cases (file_handler format logfile)) [
            | inl f ↦ let no : ⊥ = ground (arith, q, b, r, f, e) in elim no [ ]
            | inr (h, f) ↦
                let (one, known) = file_handler-asked_for format logfile h b f in
                let known' =
                  elim known as (λ _. (format ≡ "json") ⊎ ((format ≡ "text") ⊎ (logfile ≡ ""))) [
                    | inl j ↦ inl j
                    | inr t ↦ inr (inl t)
                  ] in
                elim (Bool-cases lc.log_to_stdout) [
                  | inl c ↦
                      let made : hs ≡ h ∷ console ∷ [] = ground (arith, q, b, r, f, c, e) in
                      (
                        ground (arith, q, b, r, f, c, e),
                        made ∙ rw (sym one, c) refl,
                        known',
                        first-In hs h (console ∷ []) made,
                      )
                  | inr c ↦
                      let made : hs ≡ h ∷ [] = ground (arith, q, b, r, f, c, e) in
                      (
                        ground (arith, q, b, r, f, c, e),
                        made ∙ rw (sym one, c) refl,
                        known',
                        first-In hs h [] made,
                      )
                ]
          ]
        ]
      ]
    ]

effective_level-chosen :
    (lc : LoggingConfig) (log_level : String)
    → effective_level lc log_level ≡ chosen log_level lc.log_level "NOTICE"
unfolding effective_level
effective_level-chosen lc log_level = ground arith

effective_file-chosen :
    (lc : LoggingConfig) (log_file_name : String)
    → effective_file lc log_file_name ≡ chosen log_file_name lc.log_file ""
unfolding effective_file
effective_file-chosen lc log_file_name = ground arith

-- If the program goes on, it logs at the level that its command line, else its configuration, else
-- NOTICE stands for; to the file that its command line, else its configuration names, as JSON or as text,
-- as the configuration asks, else as text; to the console after it if that is asked for; and to one of
-- them at least. Another format is accepted only if there is no file.
pub setup_logging-logs :
    {W : Type 0} (other : Char → Char) (open_file : String → W → Result Unit × W)
    (lc : LoggingConfig) (log_level log_file_name : String) (level : ℤ) (hs : List Handler)
    (w w' : W)
    → setup_logging other open_file lc log_level log_file_name w ≡ (logs level hs, w')
    → AreAskedFor other lc.log_to_stdout
        (chosen log_level lc.log_level "NOTICE")
        (chosen log_file_name lc.log_file "")
        (format_asked_for other lc.log_file_format)
        level
        hs
unfolding format_of
setup_logging-logs other open_file lc log_level log_file_name level hs w w' e =
    subst
      (λ file.
        AreAskedFor other lc.log_to_stdout (chosen log_level lc.log_level "NOTICE") file
          (format_asked_for other lc.log_file_format) level hs)
      (effective_file-chosen lc log_file_name)
      (subst
        (λ text.
          AreAskedFor other lc.log_to_stdout text (effective_file lc log_file_name)
            (format_asked_for other lc.log_file_format) level hs)
        (effective_level-chosen lc log_level)
        (setup_logging-AreAskedFor other open_file lc log_level log_file_name level hs w w' e))
