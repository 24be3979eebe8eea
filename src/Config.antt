-- ===== src/Config.antt =====
-- The configuration file's structures (config.go).
pub mod Read
pub mod Checks
use goppstats.Prelude.{ℕ, String, List, Bool, Option}
use goppstats.Prelude.Int.{ℤ}

pub record LoggingConfig : Type 0 where
  pub log_file : Option String
  pub log_file_format : Option String
  pub log_level : Option String
  pub log_to_stdout : Bool

pub record GlobalConfig : Type 0 where
  pub version : String
  pub processor : String
  pub processor_max_retries : ℤ
  pub processor_retry_intvl : ℤ
  pub min_update_invtl : ℤ
  pub max_retries : ℤ
  pub lookup_export_ids : Bool
  pub preserve_case : Bool

pub record InfluxDbConfig : Type 0 where
  pub host : String
  pub port : String
  pub database : String
  pub authenticated : Bool
  pub username : String
  pub password : String

pub record InfluxDbV2Config : Type 0 where
  pub host : String
  pub port : String
  pub org : String
  pub bucket : String
  pub token : String

pub record PrometheusConfig : Type 0 where
  pub authenticated : Bool
  pub username : String
  pub password : String
  pub tls_cert : String
  pub tls_key : String
  pub instance_label_name : Option String

pub record PromSdConf : Type 0 where
  pub enabled : Bool
  pub listen_addr : String
  pub sd_port : ℕ

pub record ClusterConf : Type 0 where
  pub hostname : String
  pub username : String
  pub password : String
  pub auth_type : String
  pub ssl_check : Bool
  pub disabled : Bool
  pub prometheus_port : Option ℕ
  pub preserve_case : Option Bool

pub record TomlConfig : Type 0 where
  pub global : GlobalConfig
  pub logging : LoggingConfig
  pub influx_db : InfluxDbConfig
  pub influx_db_v2 : InfluxDbV2Config
  pub prometheus : PrometheusConfig
  pub prom_sd : PromSdConf
  pub clusters : List ClusterConf
