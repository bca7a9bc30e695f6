-- ===== src/Examples/Requests.antt =====
-- Requests with each kind of credentials, and messages of the gRPC service.
use coredns_updater_plugin.Base.{◌≡◌, refl, ◌↔◌, false, none, some, [], ◌∷◌, ok, err}
use coredns_updater_plugin.Text.{lit, is_empty, has_prefix, trim_prefix, str_eq}
use coredns_updater_plugin.Auth.{
  Auth, HttpRequest, GrpcContext, tls_info, serve, unauthorized, invalid_token,
  authentication_required, http_middleware, unary_interceptor, extract_bearer_http,
  extract_bearer_grpc, extract_cn_from_tls, extract_cn_from_peer,
}
use coredns_updater_plugin.Auth.Access.{IsAuthorized, http_middleware_iff, unary_interceptor_iff}
use coredns_updater_plugin.Proto.{PbRecord, record_to_proto, proto_to_record, port_exceeds}
use coredns_updater_plugin.Proto.Convert.{IsNarrow, proto_to_record_iff}
use coredns_updater_plugin.Examples.{web}

abbrev pub guarded : Auth
guarded = record { token = lit "secret"; allowed_cn = lit "ops" ∷ []; no_auth = false }

abbrev pub by_certificate : HttpRequest
by_certificate = record { authorization = []; tls = some (lit "ops" ∷ []) }

abbrev pub with_token : HttpRequest
with_token = record { authorization = lit "Bearer secret"; tls = none }

abbrev pub grpc_wrong : GrpcContext
grpc_wrong = record {
  metadata = some (lit "Bearer guess" ∷ []);
  peer = some (tls_info (lit "ops" ∷ []));
}

decisions :
    (http_middleware guarded with_token ≡ serve)
    × (http_middleware guarded by_certificate ≡ serve)
    × (http_middleware guarded (record { authorization = lit "Basic secret"; tls = none })
        ≡ unauthorized)
    × (unary_interceptor guarded grpc_wrong ≡ invalid_token)
    × (unary_interceptor guarded (record { metadata = none; peer = none })
        ≡ authentication_required)
unfolding http_middleware unary_interceptor is_empty has_prefix trim_prefix str_eq
decisions = (refl, refl, refl, refl, refl)

http_middleware_iff_example :
    (http_middleware guarded by_certificate ≡ serve)
    ↔ IsAuthorized guarded
        (extract_bearer_http by_certificate)
        (extract_cn_from_tls (some (lit "ops" ∷ [])))
http_middleware_iff_example = http_middleware_iff guarded by_certificate

unary_interceptor_iff_example :
    (unary_interceptor guarded grpc_wrong ≡ serve)
    ↔ IsAuthorized guarded (extract_bearer_grpc grpc_wrong) (extract_cn_from_peer grpc_wrong)
unary_interceptor_iff_example = unary_interceptor_iff guarded grpc_wrong

abbrev big : PbRecord
big = record {
  name = lit "s.example.";
  type = lit "SRV";
  ttl = 300;
  value = lit "web.example.";
  priority = 1;
  weight = 1;
  port = 65536;
  flag = 0;
  tag = [];
}

rejects : proto_to_record big ≡ err (port_exceeds 65536)
unfolding proto_to_record
rejects = refl

proto_to_record_iff_example :
    (proto_to_record big ≡ ok web) ↔ (IsNarrow web × (record_to_proto web ≡ big))
proto_to_record_iff_example = proto_to_record_iff big web
