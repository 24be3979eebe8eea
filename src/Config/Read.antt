-- ===== src/Config/Read.antt =====
-- `validateConfigVersion`, `readConfig` and `secretFromEnv`.
use Prim.Native.Char.{code}
use Prim.Native.String.{◌++◌}
use Prim.Native.String
use goppstats.Prelude.{
  ◌-◌, ◌^◌, [], ◌∷◌, false, ◌||◌, Option, none, some, ◌==◌, string_eq, nat_beq, contains,
  if◌then◌else◌, List, Bool, ℕ, ◌⊎◌, inl, inr,
}
use goppstats.Prelude.Int.{ℤ, pos, ltb_ℤ}
use goppstats.Prelude.Result.{Result, ok, err, message, wrapped}
use goppstats.Config.{TomlConfig}

-- `strings.TrimLeft(s, "vV")`
unfoldable pub trim_left_v : String.String → String.String
trim_left_v String.[] = String.[]
trim_left_v (String.◌∷◌ c s) =
    let rest = trim_left_v s in
    if nat_beq (code c) 118 || nat_beq (code c) 86 then rest else String.◌∷◌ c s

-- `strings.HasPrefix` and `strings.TrimPrefix` in one
unfoldable pub strip_prefix : String.String → String.String → Option String.String
strip_prefix String.[] s = some s
strip_prefix (String.◌∷◌ c p) String.[] = none
strip_prefix (String.◌∷◌ c p) (String.◌∷◌ d s) =
    let rest = strip_prefix p s in if nat_beq (code c) (code d) then rest else none

abbrev pub supported_versions : List String.String
supported_versions = "0.29" ∷ "0.30" ∷ "0.31" ∷ "0.32" ∷ []

unfoldable pub validate_config_version : String.String → Result Unit
unfolding trim_left_v
validate_config_version conf_version =
    if conf_version == ""
    then err (message "the collector requires a versioned config file (see the example config)")
    else if contains (trim_left_v conf_version) supported_versions
    then ok tt
    else err (
        message (
          "config file version " ++ conf_version
          ++ " is not compatible with collector version 0.32"))

-- `math.MaxInt`, of 64 bits
abbrev max_int : ℤ
max_int = pos (2 ^ 63 - 1)

-- A limit of 0 or less is no limit.
abbrev pub effective_retries : ℤ → ℤ
effective_retries n = if ltb_ℤ (pos 0) n then n else max_int

-- In seconds
abbrev default_min_update_interval : ℤ
default_min_update_interval = pos 30

abbrev default_max_retries : ℤ
default_max_retries = pos 8

abbrev processor_default_max_retries : ℤ
processor_default_max_retries = pos 8

-- In seconds
abbrev processor_default_retry_intvl : ℤ
processor_default_retry_intvl = pos 5

abbrev default_preserve_case : Bool
default_preserve_case = false

-- What the file's values are decoded over.
abbrev pub default_config : TomlConfig
default_config = record {
  global = record {
    version = "";
    processor = "";
    processor_max_retries = processor_default_max_retries;
    processor_retry_intvl = processor_default_retry_intvl;
    min_update_invtl = default_min_update_interval;
    max_retries = default_max_retries;
    lookup_export_ids = false;
    preserve_case = default_preserve_case;
  };
  logging = record {
    log_file = none;
    log_file_format = none;
    log_level = none;
    log_to_stdout = false;
  };
  influx_db = record {
    host = "";
    port = "";
    database = "";
    authenticated = false;
    username = "";
    password = "";
  };
  influx_db_v2 = record { host = ""; port = ""; org = ""; bucket = ""; token = "" };
  prometheus = record {
    authenticated = false;
    username = "";
    password = "";
    tls_cert = "";
    tls_key = "";
    instance_label_name = none;
  };
  prom_sd = record { enabled = false; listen_addr = ""; sd_port = 0 };
  clusters = [];
}

abbrev pub with_limits : TomlConfig → TomlConfig
with_limits conf = record conf {
  global = record conf.global {
    max_retries = effective_retries conf.global.max_retries;
    processor_max_retries = effective_retries conf.global.processor_max_retries;
  };
}

-- `toml.DecodeFile` is a parameter: a file's values over given ones.
unfoldable pub read_config :
    (String.String → TomlConfig → Result TomlConfig) → String.String → Result TomlConfig
unfolding validate_config_version
read_config decode_file name = elim (decode_file name default_config) [
  | err e ↦ err (wrapped ("failed to read config file " ++ name) e)
  | ok conf ↦ elim (validate_config_version conf.global.version) [
    | err e ↦ err e
    | ok _ ↦ ok (with_limits conf)
  ]
]

-- What the start of the program makes of the file: its exit status, or the configuration.
unfoldable pub must_read_config :
    (String.String → TomlConfig → Result TomlConfig) → String.String → ℕ ⊎ TomlConfig
unfolding read_config
must_read_config decode_file name = elim (read_config decode_file name) [
  | err e ↦ inl 1
  | ok conf ↦ inr conf
]

abbrev pub env_prefix : String.String
env_prefix = "$env:"

-- `os.LookupEnv` is a parameter.
unfoldable pub secret_from_env :
    (String.String → Option String.String) → String.String → Result String.String
unfolding strip_prefix
secret_from_env lookup_env s = elim (strip_prefix env_prefix s) [
  | none ↦ ok s
  | some envvar ↦ elim (lookup_env envvar) [
    | none ↦ err (message ("environment variable " ++ envvar ++ " is not set"))
    | some secret ↦ ok secret
  ]
]
