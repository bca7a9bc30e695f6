-- ===== src/Servers.antt =====
-- The life of the two management servers: `Start` and `Stop` of api.go and of grpc_server.go, which
-- are alike, and what setup.go does with them. The listeners that are open are a map from
-- addresses; whether the operating system gives one is a parameter.
pub mod Lifecycle
pub mod Settings
pub mod Configured
use coredns_updater_plugin.Base.{
  ℕ, Bool, true, false, not, Option, none, some, List, [], ◌∷◌, ◌++◌, ltb, ◌==◌, if◌then◌else◌,
  Result, ok, err,
}
use coredns_updater_plugin.Text.{Text, Unicode, is_empty}
use coredns_updater_plugin.Assoc.{Assoc, insert, remove}
use coredns_updater_plugin.Auth.{Auth}
use coredns_updater_plugin.Policy.{policy_sync}
use coredns_updater_plugin.Store.{Store, StoreError, stop_store}
use coredns_updater_plugin.Persist.{
  Json, Os, Disk, Gauge, State, StoreOption, with_max_records, with_sync_policy, new_store,
}
use coredns_updater_plugin.Setup.{Config, Tls}
use coredns_updater_plugin.TlsHelper.{Files, TlsError, TlsConfig, build_tls_config}

-- `APIServer` and `GRPCServer`, but for the store.
pub record Server : Type 0 where
  pub listen : Text
  pub tls : Option Tls
  pub auth : Auth
  -- whether `server` is set
  pub started : Bool

abbrev pub Listeners : Type 0
Listeners = Assoc (Option TlsConfig)

pub record Env : Type 0 where
  pub files : Files
  -- whether `net.Listen` succeeds
  pub listens : Text → Bool

pub data StartError : Type 0 where
  listening : Text → StartError
  building_tls : TlsError → StartError

-- `Start`: a listener is closed again if the TLS configuration cannot be built.
unfoldable pub start : Env → Server → Listeners → Result StartError Server × Listeners
start env srv open_now =
    if not (env.listens srv.listen) then (err (listening srv.listen), open_now) else (elim srv.tls [
      | none ↦ (ok (record srv { started = true }), insert srv.listen none open_now)
      | some t ↦ elim (build_tls_config env.files t) [
        | err e ↦ (err (building_tls e), remove srv.listen (insert srv.listen none open_now))
        | ok cfg ↦ (ok (record srv { started = true }), insert srv.listen (some cfg) open_now)
      ]
    ])

-- `Stop`: nothing if the server was never started, or its listener is closed.
unfoldable pub stop : Server → Listeners → Listeners
stop srv open_now = if srv.started then remove srv.listen open_now else open_now

-- What `setup` keeps in its closures.
pub record Plugin : Type 0 where
  pub zones : List Text
  -- `d.Fall`: nil, or set from its arguments
  pub fall : Option (List Text)
  pub state : State
  pub api : Option Server
  pub grpc : Option Server

-- The options that `setup` passes.
unfoldable pub store_opts : Config → List StoreOption
store_opts cfg =
    (if ltb 0 cfg.max_records then with_max_records cfg.max_records ∷ [] else [])
    ++ (if not (cfg.sync_policy == policy_sync) then with_sync_policy cfg.sync_policy ∷ [] else [])

unfoldable pub api_server : Config → Option Server
unfolding is_empty
api_server cfg =
    if not (is_empty cfg.api_listen)
    then some (record {
      listen = cfg.api_listen;
      tls = cfg.api_tls;
      auth = record {
        token = cfg.api_token;
        allowed_cn = cfg.api_allowed_cn;
        no_auth = cfg.api_no_auth;
      };
      started = false;
    })
    else none

unfoldable pub grpc_server : Config → Option Server
unfolding is_empty
grpc_server cfg =
    if not (is_empty cfg.grpc_listen)
    then some (record {
      listen = cfg.grpc_listen;
      tls = cfg.grpc_tls;
      auth = record {
        token = cfg.grpc_token;
        allowed_cn = cfg.grpc_allowed_cn;
        no_auth = cfg.grpc_no_auth;
      };
      started = false;
    })
    else none

-- `setup` of a configuration that was parsed; the error is "creating store".
unfoldable pub setup :
    ⦃u : Unicode⦄ → Json → Bool → Os → Disk → Gauge → Config → Result StoreError Plugin
setup json read_ok os disk gauge cfg =
    elim (new_store json cfg.datafile cfg.reload (store_opts cfg) read_ok os disk gauge) [
      | err e ↦ err e
      | ok state ↦ ok (record {
        zones = cfg.zones;
        fall = if cfg.enable_fall then some cfg.fall_args else none;
        state = state;
        api = api_server cfg;
        grpc = grpc_server cfg;
      })
    ]

-- `Start` where the server is there: the error if there is one, the server and the listeners.
start_if : Env → Option Server → Listeners → Option StartError × (Option Server × Listeners)
start_if env none open_now = (none, (none, open_now))
start_if env (some srv) open_now =
    let (res, open_then) = start env srv open_now in
    elim res [ err e ↦ (some e, (some srv, open_then)) | ok srv' ↦ (none, (some srv', open_then)) ]

-- `OnStartup`: the API server first; an error of it keeps the gRPC server from starting.
unfoldable pub on_startup : Env → Plugin → Listeners → Option StartError × (Plugin × Listeners)
unfolding start_if
on_startup env p open_now =
    let (e1, after_api) = start_if env p.api open_now in
    elim e1 [
      | some e ↦ (some e, (record p { api = after_api.0 }, after_api.1))
      | none ↦
          let (e2, after_grpc) = start_if env p.grpc after_api.1 in
          (e2, (record p { api = after_api.0; grpc = after_grpc.0 }, after_grpc.1))
    ]

stop_if : Option Server → Listeners → Listeners
stop_if none open_now = open_now
stop_if (some srv) open_now = stop srv open_now

-- `OnShutdown`
unfoldable pub on_shutdown : Plugin → Listeners → Plugin × Listeners
unfolding stop_if stop_store
on_shutdown p open_now = (
  record p { state = record p.state { store = stop_store p.state.store } },
  stop_if p.grpc (stop_if p.api open_now),
)

-- ready.go: `d.Store != nil && d.Store.Ready()`
unfoldable pub ready : Option Store → Bool
ready none = false
ready (some s) = s.ready
