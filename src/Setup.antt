-- ===== src/Setup.antt =====
-- setup.go: the configuration, what reads it, and what starts from it.
pub mod Numbers
pub mod Tokens
pub mod Parse
pub mod Returns
pub mod Sound
pub mod Terminates
pub mod Mirror
use coredns_updater_plugin.Base.{ℕ, Bool, false, Option, none, List, [], ◌∷◌}
use coredns_updater_plugin.Text.{Text}
use coredns_updater_plugin.Policy.{policy_sync}

-- `tlsConfig`
pub record Tls : Type 0 where
  pub cert : Text
  pub key : Text
  pub ca : Text

-- `pluginConfig`. A negative `reload` acts as 0; `maxRecords` is never negative.
pub record Config : Type 0 where
  pub zones : List Text
  pub datafile : Text
  pub reload : ℕ
  pub api_listen : Text
  pub api_token : Text
  pub api_tls : Option Tls
  pub grpc_listen : Text
  pub grpc_token : Text
  pub grpc_tls : Option Tls
  pub api_allowed_cn : List Text
  pub api_no_auth : Bool
  pub grpc_allowed_cn : List Text
  pub grpc_no_auth : Bool
  pub max_records : ℕ
  pub sync_policy : ℕ
  pub enable_fall : Bool
  pub fall_args : List Text

-- `&pluginConfig{}`
abbrev pub no_config : Config
no_config = record {
  zones = [];
  datafile = [];
  reload = 0;
  api_listen = [];
  api_token = [];
  api_tls = none;
  grpc_listen = [];
  grpc_token = [];
  grpc_tls = none;
  api_allowed_cn = [];
  api_no_auth = false;
  grpc_allowed_cn = [];
  grpc_no_auth = false;
  max_records = 0;
  sync_policy = policy_sync;
  enable_fall = false;
  fall_args = [];
}

-- The errors of `parseConfig`, one for each message.
pub data ConfigError : Type 0 where
  datafile_without_path reload_without_duration max_records_without_number : ConfigError
  sync_policy_without_name datafile_missing api_without_auth grpc_without_auth : ConfigError
  invalid_reload invalid_max_records invalid_sync_policy unknown_directive : Text → ConfigError
  api_listen_without_address api_token_without_value api_tls_arguments : ConfigError
  grpc_listen_without_address grpc_token_without_value grpc_tls_arguments : ConfigError
  allowed_cn_without_name : ConfigError
  unknown_api_directive unknown_grpc_directive : Text → ConfigError
