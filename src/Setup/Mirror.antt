-- ===== src/Setup/Mirror.antt =====
-- The blocks `api` and `grpc` are read by the same rules.
use coredns_updater_plugin.Base.{◌≡◌, arith}
use coredns_updater_plugin.Text.{Text}
use coredns_updater_plugin.Setup.{
  Config, ConfigError, api_listen_without_address, api_token_without_value, api_tls_arguments,
  grpc_listen_without_address, grpc_token_without_value, grpc_tls_arguments, unknown_api_directive,
  unknown_grpc_directive,
}
use coredns_updater_plugin.Setup.Tokens.{Controller}
use coredns_updater_plugin.Setup.Parse.{
  Parsed, done, rejected, out_of_fuel, parse_api_directive, parse_grpc_directive,
}

-- The configuration with the settings of the two servers exchanged.
abbrev pub mirror : Config → Config
mirror cfg = record cfg {
  api_listen = cfg.grpc_listen;
  api_token = cfg.grpc_token;
  api_tls = cfg.grpc_tls;
  api_allowed_cn = cfg.grpc_allowed_cn;
  api_no_auth = cfg.grpc_no_auth;
  grpc_listen = cfg.api_listen;
  grpc_token = cfg.api_token;
  grpc_tls = cfg.api_tls;
  grpc_allowed_cn = cfg.api_allowed_cn;
  grpc_no_auth = cfg.api_no_auth;
}

-- An error of the one server as that of the other.
abbrev pub mirror_error : ConfigError → ConfigError
mirror_error api_listen_without_address = grpc_listen_without_address
mirror_error api_token_without_value = grpc_token_without_value
mirror_error api_tls_arguments = grpc_tls_arguments
mirror_error (unknown_api_directive key) = unknown_grpc_directive key
mirror_error e = e

abbrev pub mirror_result : {C : Type 0} → Parsed (Config × C) → Parsed (Config × C)
mirror_result (done (cfg, c)) = done (mirror cfg, c)
mirror_result (rejected e) = rejected (mirror_error e)
mirror_result out_of_fuel = out_of_fuel

-- A directive of the block `grpc` does to the settings of the gRPC server exactly what it does to
-- those of the API server in the block `api`, with the same tokens used and the same errors.
pub parse_grpc_directive-mirror :
    {C : Type 0} (k : Controller C) (key : Text) (c : C) (cfg : Config)
    → parse_grpc_directive k key c cfg ≡ mirror_result (parse_api_directive k key c (mirror cfg))
unfolding parse_grpc_directive parse_api_directive
parse_grpc_directive-mirror k key c cfg = ground arith
