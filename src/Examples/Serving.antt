-- ===== src/Examples/Serving.antt =====
-- Requests that reach the servers, and what they leave.
use coredns_updater_plugin.Assoc.{lookup, insert, remove}
use coredns_updater_plugin.Net.{parse_ip, to4}
use coredns_updater_plugin.Text.{
  is_empty, has_suffix, contains, to_upper, is_member, str_eq, to_lower, has_prefix, trim_prefix,
}
use coredns_updater_plugin.Record.Convert.{IsResource}
use coredns_updater_plugin.Record.{validate_value}
use coredns_updater_plugin.Store.{
  index_of, bucket, count, commit, collect, next_generation, apply_upsert, is_policy_denied,
}
use coredns_updater_plugin.Store.Mutation.{apply}
use coredns_updater_plugin.Persist.{
  persist_snapshot, write_file, finish, is_stale, record_gauge, stat,
}
use coredns_updater_plugin.Auth.{http_middleware, unary_interceptor}
use coredns_updater_plugin.Proto.{proto_to_record}
use coredns_updater_plugin.Api.{handle_create, mutate_and_persist}
use coredns_updater_plugin.Api.Grpc.{grpc_upsert}
use coredns_updater_plugin.Api.Serve.{dispatch, route, call, status_of_reply}
use coredns_updater_plugin.Base.{◌≡◌, ◌≢◌, refl, ap, inl, inr, none, some, List, [], ◌∷◌, arith}
use coredns_updater_plugin.Text.{Text, lit, has_prefix, trim_prefix}
use coredns_updater_plugin.Record.{Record, Rr, validate, to_rr}
use coredns_updater_plugin.Auth.{
  GrpcContext, extract_bearer_http, extract_bearer_grpc, extract_cn_from_tls, extract_cn_from_peer,
}
use coredns_updater_plugin.Auth.Access.{IsAuthorized}
use coredns_updater_plugin.Persist.{State}
use coredns_updater_plugin.Proto.{record_to_proto}
use coredns_updater_plugin.Dns.{Msg, serve_dns}
use coredns_updater_plugin.Dns.Answer.{IsAmong}
use coredns_updater_plugin.Api.{records_body}
use coredns_updater_plugin.Api.Serve.{handled, serve_http, Call, list_call, upsert_call, serve_grpc}
use coredns_updater_plugin.Api.Serve.Access.{
  IsWrite, serve_http-IsAuthorized, serve_grpc-IsAuthorized,
}
use coredns_updater_plugin.Api.Serve.EndToEnd.{post, get_by_name, post_then_get, post_then_query}
use coredns_updater_plugin.Examples.{ascii, types, coding, smooth}
use coredns_updater_plugin.Examples.Calls.{sent, normal, valid, begin}
use coredns_updater_plugin.Examples.Queries.{server, types-KnowsTypes}
use coredns_updater_plugin.Examples.Requests.{guarded, with_token}

abbrev after : State
after = (serve_http coding types smooth guarded (post with_token (some sent)) begin).state

posted :
    (status_of_reply
        (serve_http coding types smooth guarded (post with_token (some sent)) begin).reply
      ≡ 201)
    × (after.store.generation ≡ 1)
unfolding serve_http http_middleware dispatch route handle_create validate is_empty has_suffix
    contains to_upper is_member validate_value parse_ip to4 mutate_and_persist apply apply_upsert
    index_of bucket lookup count commit insert remove finish is_stale persist_snapshot record_gauge
    stat write_file collect next_generation str_eq to_lower has_prefix trim_prefix
posted = (refl, refl)

serve_http-IsAuthorized_example :
    IsAuthorized guarded (extract_bearer_http with_token) (extract_cn_from_tls none)
    × IsWrite (lit "POST")
serve_http-IsAuthorized_example =
    serve_http-IsAuthorized coding types smooth guarded (post with_token (some sent)) begin
      (λ same. ground (arith, posted.1, ap (λ (w : State). w.store.generation) same))

abbrev bearer_call : GrpcContext
bearer_call = record { metadata = some (lit "Bearer secret" ∷ []); peer = none }

abbrev upserting : Call
upserting = upsert_call (some (record_to_proto sent))

called : (serve_grpc coding types smooth guarded bearer_call upserting begin).1.store.generation ≡ 1
unfolding serve_grpc unary_interceptor call grpc_upsert proto_to_record record_to_proto
    is_policy_denied validate is_empty has_suffix contains to_upper is_member validate_value
    parse_ip to4 mutate_and_persist apply apply_upsert index_of bucket lookup count commit insert
    remove finish is_stale persist_snapshot record_gauge stat write_file collect next_generation
    str_eq to_lower has_prefix trim_prefix
called = refl

serve_grpc-IsAuthorized_example :
    IsAuthorized guarded (extract_bearer_grpc bearer_call) (extract_cn_from_peer bearer_call)
    × ((name : Text) → upserting ≢ list_call name)
serve_grpc-IsAuthorized_example =
    serve_grpc-IsAuthorized coding types smooth guarded bearer_call upserting begin
      (λ same. ground (arith, called, ap (λ (w : State). w.store.generation) same))

with_token-IsAuthorized :
    IsAuthorized guarded (extract_bearer_http with_token) (extract_cn_from_tls with_token.tls)
unfolding extract_bearer_http has_prefix trim_prefix
with_token-IsAuthorized = inr (inl ((λ e. cc), refl))

post_then_get_example :
    (r r' : Record) × (recs : List Record) × (some sent ≡ some r)
    × (validate types r ≡ (r', none))
    × ((serve_http coding types smooth guarded (get_by_name with_token r'.name) after).reply
        ≡ handled (record { status = 200; body = records_body recs }))
    × IsAmong r' recs
post_then_get_example =
    post_then_get coding types smooth smooth guarded with_token with_token (some sent) begin
      posted.0 with_token-IsAuthorized

post_then_query_example :
    (rr : Rr) × (msg : Msg) × (to_rr types normal ≡ some rr)
    × IsResource types normal rr
    × ((serve_dns types server after.store (λ n. after.store) (lit "Web.example.") 1).sent
        ≡ some msg)
    × (msg.rcode ≡ 0)
    × IsAmong rr msg.answer
unfolding str_eq
post_then_query_example =
    post_then_query coding types smooth guarded with_token sent normal begin server
      (λ n. after.store) posted.0 valid types-KnowsTypes refl (λ e. cc)
