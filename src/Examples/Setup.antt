-- ===== src/Examples/Setup.antt =====
-- A configuration file with limits of 0.
use goppstats.Prelude.{ℕ, suc, String, ◌≡◌, refl, In, string_eq}
use goppstats.Prelude.Int.{ℤ, pos}
use goppstats.Prelude.Result.{Result, ok}
use goppstats.Config.{TomlConfig}
use goppstats.Config.Read.{trim_left_v, supported_versions, validate_config_version, read_config}
use goppstats.Config.Checks.{read_config-IsUsable}

-- A file with a version and with limits of 0.
abbrev decode_file : String → TomlConfig → Result TomlConfig
decode_file name conf = ok (record conf {
  global = record conf.global {
    version = "v0.32";
    max_retries = pos 0;
    processor_max_retries = pos 0;
  };
})

abbrev unlimited : ℤ
unlimited = pos 9223372036854775807

read_config-IsUsable_example :
    In (trim_left_v "v0.32") supported_versions
    × ((k : ℕ) × (unlimited ≡ pos (suc k)))
    × ((k : ℕ) × (unlimited ≡ pos (suc k)))
unfolding read_config validate_config_version
read_config-IsUsable_example = read_config-IsUsable decode_file "idic.toml" _ refl
