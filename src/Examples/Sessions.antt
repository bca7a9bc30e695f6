-- ===== src/Examples/Sessions.antt =====
-- A store is created, one record is sent by REST and one by gRPC, and the file is opened again.
use coredns_updater_plugin.Assoc.{lookup, insert, remove}
use coredns_updater_plugin.Net.{parse_ip, to4}
use coredns_updater_plugin.Text.{
  is_empty, has_suffix, contains, to_upper, is_member, str_eq, to_lower, has_prefix, trim_prefix,
}
use coredns_updater_plugin.Record.{validate_value}
use coredns_updater_plugin.Store.{
  index_of, bucket, count, commit, collect, next_generation, apply_upsert, is_policy_denied,
}
use coredns_updater_plugin.Store.Mutation.{apply}
use coredns_updater_plugin.Persist.{
  persist_snapshot, write_file, finish, is_stale, record_gauge, stat,
}
use coredns_updater_plugin.Auth.{http_middleware, unary_interceptor}
use coredns_updater_plugin.Proto.{proto_to_record}
use coredns_updater_plugin.Api.{handle_create, mutate_and_persist}
use coredns_updater_plugin.Api.Grpc.{grpc_upsert}
use coredns_updater_plugin.Api.Serve.{dispatch, route, call}
use coredns_updater_plugin.Base.{◌≡◌, refl, none, some, [], ◌∷◌, arith}
use coredns_updater_plugin.Text.{Text, lit, has_prefix, trim_prefix}
use coredns_updater_plugin.Record.{validate}
use coredns_updater_plugin.Auth.{GrpcContext}
use coredns_updater_plugin.Persist.{State}
use coredns_updater_plugin.Proto.{record_to_proto}
use coredns_updater_plugin.Api.Serve.{serve_http, Call, upsert_call, serve_grpc}
use coredns_updater_plugin.Api.Serve.EndToEnd.{post}
use coredns_updater_plugin.Examples.{ascii, types, coding, smooth}
use coredns_updater_plugin.Examples.Calls.{sent, normal}
use coredns_updater_plugin.Examples.Requests.{guarded, with_token}
use coredns_updater_plugin.Persist.{new_store, with_max_records, with_sync_policy}
use coredns_updater_plugin.Store.{get_all}
use coredns_updater_plugin.Api.Serve.Session.{Session, opened, request, called, Session-restart}
use coredns_updater_plugin.Base.{subst, ok, true}
use coredns_updater_plugin.Examples.{encode_all, alias}
use coredns_updater_plugin.Examples.Coding.{coding-ReadsBack}
use coredns_updater_plugin.Examples.Files.{fresh-IsWellFormed}
use coredns_updater_plugin.Examples.Reloads.{empty_store, opens}

abbrev created : State
created = record {
  store = record empty_store.store {
    records = (lit "web.example.", normal ∷ []) ∷ [];
    generation = 1;
    persisted = 1;
  };
  disk = (lit "/f", record { content = encode_all (normal ∷ []); mtime = 100 }) ∷ [];
  gauge = (lit "A", 1) ∷ [];
}

creates :
    (serve_http coding types smooth guarded (post with_token (some sent)) empty_store).state
    ≡ created
unfolding serve_http http_middleware dispatch route handle_create validate is_empty has_suffix
    contains to_upper is_member validate_value parse_ip to4 mutate_and_persist apply apply_upsert
    index_of bucket lookup count commit insert remove finish is_stale persist_snapshot record_gauge
    stat write_file collect next_generation str_eq to_lower has_prefix trim_prefix
creates = refl

abbrev aliasing : Call
aliasing = upsert_call (some (record_to_proto alias))

abbrev bearer : GrpcContext
bearer = record { metadata = some (lit "Bearer secret" ∷ []); peer = none }

abbrev final : State
final = record {
  store = record empty_store.store {
    records = (lit "web.example.", normal ∷ []) ∷ (lit "www.example.", alias ∷ []) ∷ [];
    generation = 2;
    persisted = 2;
  };
  disk = (lit "/f", record { content = encode_all (normal ∷ alias ∷ []); mtime = 100 }) ∷ [];
  gauge = (lit "A", 1) ∷ (lit "CNAME", 1) ∷ [];
}

aliases : (serve_grpc coding types smooth guarded bearer aliasing created).1 ≡ final
unfolding serve_grpc unary_interceptor call grpc_upsert proto_to_record record_to_proto
    is_policy_denied validate is_empty has_suffix contains to_upper is_member validate_value
    parse_ip to4 mutate_and_persist apply apply_upsert index_of bucket lookup count commit insert
    remove finish is_stale persist_snapshot record_gauge stat write_file collect next_generation
    str_eq to_lower has_prefix trim_prefix
aliases = refl

session : Session coding types empty_store final
unfolding lookup str_eq
session =
    let first : Session coding types empty_store created =
      subst (λ v. Session coding types empty_store v) creates
        (request guarded (post with_token (some sent)) smooth opened
          (record { fresh = (refl, refl); clock = λ f e. ground arith; stats = refl }) (omega arith)
          (coding-ReadsBack _)) in
    subst (λ v. Session coding types empty_store v) aliases
      (called guarded bearer aliasing smooth first
        (record { fresh = (refl, refl); clock = λ f e. ground arith; stats = refl }) (omega arith)
        (coding-ReadsBack _))

Session-restart_example :
    (again : State) × (new_store coding
        (lit "/f")
        0
        (with_max_records 5 ∷ with_sync_policy 1 ∷ [])
        true
        smooth
        final.disk
        final.gauge
      ≡ ok again)
    × (again.store.ready ≡ true)
    × ((name : Text) → get_all name again.store ≡ get_all name final.store)
unfolding lookup str_eq
Session-restart_example =
    Session-restart coding types (lit "/f") 30 3 0 smooth [] [] empty_store final smooth 0 5 1 refl
      opens (refl, refl) (coding-ReadsBack []) fresh-IsWellFormed session refl
