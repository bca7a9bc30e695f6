-- ===== src/Examples/Startup.antt =====
-- The servers of the Corefile are started and stopped, and what they let in.
use coredns_updater_plugin.Base.{
  ◌≡◌, refl, ◌||◌, true, none, some, [], ◌∷◌, ok, if◌then◌else◌, arith, ◌↔◌,
}
use coredns_updater_plugin.Assoc.{lookup}
use coredns_updater_plugin.Text.{Text, lit, has_prefix}
use coredns_updater_plugin.Auth.{
  HttpRequest, GrpcContext, http_middleware, unary_interceptor, serve, extract_bearer_http,
  extract_cn_from_tls, extract_bearer_grpc, extract_cn_from_peer,
}
use coredns_updater_plugin.Store.Mutation.{upsert, apply}
use coredns_updater_plugin.Store.Outcomes.{Verdict}
use coredns_updater_plugin.TlsHelper.{build_tls_config}
use coredns_updater_plugin.Servers.{
  start, Listeners, Env, Plugin, on_startup, on_shutdown, ready, start,
}
use coredns_updater_plugin.Servers.Lifecycle.{Attempt, start-Attempt, is_at, on_shutdown-on_startup}
use coredns_updater_plugin.Servers.Configured.{
  HasMethod, configured_store, api_fail_closed, grpc_fail_closed,
}
use coredns_updater_plugin.Examples.{ascii, coding, smooth, web}
use coredns_updater_plugin.Examples.Cursor.{dispenser, dispenser_loads}
use coredns_updater_plugin.Examples.Corefiles.{
  files, begun, api, grpc, read, library, corefile, start_of, reads, sets_up,
}

abbrev free : Env
free = record { files = files; listens = λ address. true }

-- Another server of the process.
abbrev others : Listeners
others = (lit ":53", none) ∷ []

abbrev running : Plugin
running = record begun {
  api = some (record api { started = true });
  grpc = some (record grpc { started = true });
}

abbrev listening : Listeners
listening = (on_startup free begun others).1.1

starts : on_startup free begun others ≡ (none, (running, listening))
unfolding on_startup start build_tls_config
starts = refl

on_shutdown-on_startup_example :
    ((on_shutdown running listening).0.state.store.stopped ≡ true)
    × ((j : Text)
        → lookup j (on_shutdown running listening).1
          ≡ (if is_at (some api) j || is_at (some grpc) j then none else lookup j others))
on_shutdown-on_startup_example = on_shutdown-on_startup free begun running others listening starts

configured_store_example :
    (ready (some begun.state.store) ≡ true)
    × (begun.state.store.max_records ≡ 3)
    × (begun.state.store.sync_policy ≡ 2)
    × Verdict (upsert web) begun.state.store (apply (upsert web) begun.state.store)
configured_store_example =
    configured_store coding (dispenser []) (dispenser_loads []) library 40 (start_of corefile) read
      (omega arith) reads true smooth [] [] begun sets_up (upsert web)

abbrev anonymous_request : HttpRequest
anonymous_request = record { authorization = []; tls = none }

abbrev anonymous_call : GrpcContext
anonymous_call = record { metadata = none; peer = none }

api_fail_closed_example :
    HasMethod api.auth
    × ((http_middleware api.auth anonymous_request ≡ serve) ↔ (api.auth.no_auth ≡ true))
unfolding extract_bearer_http has_prefix extract_cn_from_tls
api_fail_closed_example =
    api_fail_closed coding (dispenser []) (dispenser_loads []) library 40 (start_of corefile) read
      (omega arith) reads true smooth [] [] begun sets_up api anonymous_request refl refl refl

grpc_fail_closed_example :
    HasMethod grpc.auth
    × ((unary_interceptor grpc.auth anonymous_call ≡ serve) ↔ (grpc.auth.no_auth ≡ true))
unfolding extract_bearer_grpc extract_cn_from_peer
grpc_fail_closed_example =
    grpc_fail_closed coding (dispenser []) (dispenser_loads []) library 40 (start_of corefile) read
      (omega arith) reads true smooth [] [] begun sets_up grpc anonymous_call refl refl refl

start-Attempt_example :
    Attempt free api others (ok (record api { started = true })) (start free api others).1
unfolding start build_tls_config
start-Attempt_example = start-Attempt free api others
