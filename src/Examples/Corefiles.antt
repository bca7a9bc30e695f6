-- ===== src/Examples/Corefiles.antt =====
-- A Corefile with both servers, read and set up.
use coredns_updater_plugin.Base.{
  ◌≡◌, refl, true, false, none, some, [], ◌∷◌, ok, if◌then◌else◌, arith,
}
use coredns_updater_plugin.Assoc.{lookup, insert, remove}
use coredns_updater_plugin.Text.{lit, str_eq, is_empty, to_lower}
use coredns_updater_plugin.Persist.{
  new_store, load_or_create, persist_snapshot, write_file, record_gauge, with_sync_policy,
  with_max_records,
}
use coredns_updater_plugin.Setup.{Tls, Config}
use coredns_updater_plugin.Setup.Parse.{
  done, Library, parse_config, parse_api_directive, parse_grpc_directive, block_loop,
  parse_directive, parse_nested_block, nested_loop, finish,
}
use coredns_updater_plugin.Setup.Returns.{Returns}
use coredns_updater_plugin.Setup.Sound.{IsSound}
use coredns_updater_plugin.Setup.Terminates.{parse_config-Returns}
use coredns_updater_plugin.TlsHelper.{
  Files, TlsConfig, IsBuilt, build_tls_config, build_tls_config-IsBuilt,
}
use coredns_updater_plugin.Servers.{Server, Plugin, setup, api_server, grpc_server, store_opts}
use coredns_updater_plugin.Examples.{ascii, coding, smooth}
use coredns_updater_plugin.Examples.Cursor.{Tokens, Cursor, dispenser, dispenser_loads}

abbrev pub corefile : Tokens
corefile =
    (1, lit "dynupdate")
    ∷ (1, lit "example.")
    ∷ (1, lit "{")
    ∷ (2, lit "datafile")
    ∷ (2, lit "/f")
    ∷ (3, lit "reload")
    ∷ (3, lit "30s")
    ∷ (4, lit "max_records")
    ∷ (4, lit "3")
    ∷ (5, lit "sync_policy")
    ∷ (5, lit "update-only")
    ∷ (6, lit "api")
    ∷ (6, lit "{")
    ∷ (7, lit "listen")
    ∷ (7, lit ":8080")
    ∷ (8, lit "tls")
    ∷ (8, lit "c")
    ∷ (8, lit "k")
    ∷ (8, lit "ca")
    ∷ (9, lit "allowed_cn")
    ∷ (9, lit "ops")
    ∷ (10, lit "}")
    ∷ (11, lit "grpc")
    ∷ (11, lit "{")
    ∷ (12, lit "listen")
    ∷ (12, lit ":9090")
    ∷ (13, lit "no_auth")
    ∷ (14, lit "}")
    ∷ (15, lit "fallthrough")
    ∷ (16, lit "}")
    ∷ []

abbrev pub start_of : Tokens → Cursor
start_of ts = record { at = (0, []); rest = ts; open_blocks = 0 }

abbrev pub library : Library
library = record {
  parse_duration = λ t. if str_eq t (lit "30s") then some 30 else none;
  normalize = λ t. t ∷ [];
}

abbrev pub read : Config
read = record {
  zones = lit "example." ∷ [];
  datafile = lit "/f";
  reload = 30;
  api_listen = lit ":8080";
  api_token = [];
  api_tls = some (record { cert = lit "c"; key = lit "k"; ca = lit "ca" });
  grpc_listen = lit ":9090";
  grpc_token = [];
  grpc_tls = none;
  api_allowed_cn = lit "ops" ∷ [];
  api_no_auth = false;
  grpc_allowed_cn = [];
  grpc_no_auth = true;
  max_records = 3;
  sync_policy = 2;
  enable_fall = true;
  fall_args = [];
}

pub reads : parse_config (dispenser []) library 40 (start_of corefile) ≡ done read
unfolding parse_config block_loop str_eq parse_directive is_empty to_lower parse_nested_block
    nested_loop parse_api_directive parse_grpc_directive finish
reads = refl

abbrev pub files : Files
files = record {
  load_key_pair = λ cert key. true;
  read_file = λ path. some (lit "PEM");
  has_certificate = λ pem. true;
}

abbrev pub api : Server
api = record {
  listen = lit ":8080";
  tls = read.api_tls;
  auth = record { token = []; allowed_cn = lit "ops" ∷ []; no_auth = false };
  started = false;
}

abbrev pub grpc : Server
grpc = record {
  listen = lit ":9090";
  tls = none;
  auth = record { token = []; allowed_cn = []; no_auth = true };
  started = false;
}

abbrev pub begun : Plugin
begun = record {
  zones = lit "example." ∷ [];
  fall = some [];
  state = record {
    store = record {
      records = [];
      file_path = lit "/f";
      reload = 30;
      last_mod = 100;
      stopped = false;
      ready = true;
      max_records = 3;
      sync_policy = 2;
      generation = 0;
      persisted = 0;
    };
    disk = (lit "/f", record { content = []; mtime = 100 }) ∷ [];
    gauge = [];
  };
  api = some api;
  grpc = some grpc;
}

pub sets_up : setup coding true smooth [] [] read ≡ ok begun
unfolding setup new_store load_or_create lookup persist_snapshot write_file store_opts insert
    record_gauge api_server grpc_server with_sync_policy remove with_max_records str_eq
sets_up = refl

parse_config-Returns_example :
    Returns IsSound (parse_config (dispenser []) library 40 (start_of corefile))
parse_config-Returns_example =
    parse_config-Returns (dispenser []) (dispenser_loads []) library 40 (start_of corefile)
      (omega arith)

abbrev settings : Tls
settings = record { cert = lit "c"; key = lit "k"; ca = lit "ca" }

abbrev verified : TlsConfig
verified = record {
  cert = lit "c";
  key = lit "k";
  client_cas = some (lit "PEM");
  verify_client = true;
}

build_tls_config-IsBuilt_example :
    (true ≡ true) × (lit "c" ≡ lit "c") × (lit "k" ≡ lit "k") × IsBuilt files settings verified
unfolding build_tls_config
build_tls_config-IsBuilt_example = build_tls_config-IsBuilt files settings verified refl
