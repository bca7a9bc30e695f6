-- ===== src/Api/Serve.antt =====
-- A request from its arrival on: the routes of api.go behind the authentication, with the counter
-- around both, and the methods of the gRPC service behind its interceptor. A path is given by its
-- segments, clean as `http.ServeMux` has them after a redirect.
pub mod Access
pub mod EndToEnd
pub mod Session
use coredns_updater_plugin.Base.{
  ℕ, Bool, true, false, not, ◌||◌, Option, none, some, List, [], ◌∷◌, if◌then◌else◌, Result, ok,
  err,
}
use coredns_updater_plugin.Text.{Text, lit, Unicode, str_eq, is_empty}
use coredns_updater_plugin.Record.{Record, Dns}
use coredns_updater_plugin.Auth.{
  Auth, HttpRequest, GrpcContext, Decision, serve, http_middleware, unary_interceptor,
}
use coredns_updater_plugin.Persist.{Json, Os, State}
use coredns_updater_plugin.Proto.{PbRecord}
use coredns_updater_plugin.Api.{
  Response, handle_list, handle_get_by_name, handle_create, handle_update, handle_delete_all,
  handle_delete_by_type,
}
use coredns_updater_plugin.Api.Grpc.{GrpcError, grpc_list, grpc_upsert, grpc_delete}

pub record Request : Type 0 where
  pub method : Text
  pub path : List Text
  -- the parameter "name" of the query
  pub name_filter : Text
  -- the record that the body decodes to
  pub body : Option Record
  pub credentials : HttpRequest

pub data Route : Type 0 where
  list_records create update : Route
  by_name delete_all : Text → Route
  delete_by_type : Text → Text → Route
  not_found method_not_allowed : Route

-- A pattern with GET matches HEAD as well.
is_get : Text → Bool
unfolding str_eq
is_get method = str_eq method (lit "GET") || str_eq method (lit "HEAD")

route_records : Text → Route
unfolding is_get str_eq
route_records method =
    if is_get method
    then list_records
    else if str_eq method (lit "POST")
    then create
    else if str_eq method (lit "PUT")
    then update
    else method_not_allowed

-- The rest of a path behind "/api/v1/records". A wildcard matches one segment, which is not empty.
route_below : Text → List Text → Route
unfolding route_records is_get str_eq is_empty
route_below method [] = route_records method
route_below method (name ∷ []) =
    if is_empty name
    then not_found
    else if is_get method
    then by_name name
    else if str_eq method (lit "DELETE")
    then delete_all name
    else method_not_allowed
route_below method (name ∷ type ∷ []) =
    if is_empty name || is_empty type
    then not_found
    else if str_eq method (lit "DELETE")
    then delete_by_type name type
    else method_not_allowed
route_below method _ = not_found

-- What `mux` does with a method and a path.
unfoldable pub route : Text → List Text → Route
unfolding route_below str_eq
route method (a ∷ v ∷ r ∷ rest) =
    if not (str_eq a (lit "api")) || (not (str_eq v (lit "v1")) || not (str_eq r (lit "records")))
    then not_found
    else route_below method rest
route method _ = not_found

-- The response of a handler, or that of the authentication or of `mux`.
pub data Reply : Type 0 where
  handled : Response → Reply
  refused no_route wrong_method : Reply

abbrev pub status_of_reply : Reply → ℕ
status_of_reply (handled resp) = resp.status
status_of_reply refused = 401
status_of_reply no_route = 404
status_of_reply wrong_method = 405

-- The reply, the state, and the increment of `api_request_count_total`: method and status.
pub record Answered : Type 0 where
  pub reply : Reply
  pub state : State
  pub counted : Text × ℕ

module _ ⦃u : Unicode⦄ (json : Json) (dns : Dns) (os : Os) where
  handling : Response × State → Reply × State
  handling (resp, w) = (handled resp, w)

  unfoldable pub dispatch : Route → Request → State → Reply × State
  unfolding handling
  dispatch list_records r w = (handled (handle_list r.name_filter w.store), w)
  dispatch (by_name name) r w = (handled (handle_get_by_name name w.store), w)
  dispatch create r w = handling (handle_create json dns os r.body w)
  dispatch update r w = handling (handle_update json dns os r.body w)
  dispatch (delete_all name) r w = handling (handle_delete_all json os name w)
  dispatch (delete_by_type name type) r w = handling (handle_delete_by_type json os name type w)
  dispatch not_found r w = (no_route, w)
  dispatch method_not_allowed r w = (wrong_method, w)

  -- `metricsMiddleware`: what the status recorder saw is counted.
  counting : Text → Reply × State → Answered
  counting method (reply, w) = record {
    reply = reply;
    state = w;
    counted = (method, status_of_reply reply);
  }

  -- `handler`: the counter, the authentication, the routes.
  unfoldable pub serve_http : Auth → Request → State → Answered
  unfolding counting
  serve_http a r w = elim (http_middleware a r.credentials) [
    | serve ↦ counting r.method (dispatch (route r.method r.path) r w)
    | other ↦ counting r.method (refused, w)
  ]

-- A call of the gRPC service.
pub data Call : Type 0 where
  list_call : Text → Call
  upsert_call : Option PbRecord → Call
  delete_call : Text → Text → Text → Call

pub data CallReply : Type 0 where
  unauthenticated : Decision → CallReply
  listed : List PbRecord → CallReply
  upserted : PbRecord → CallReply
  deleted : CallReply
  failed : GrpcError → CallReply

module _ ⦃u : Unicode⦄ (json : Json) (dns : Dns) (os : Os) where
  upsert_reply : Result GrpcError PbRecord × State → CallReply × State
  upsert_reply (ok r, w) = (upserted r, w)
  upsert_reply (err e, w) = (failed e, w)

  delete_reply : Result GrpcError (Unit {0}) × State → CallReply × State
  delete_reply (ok done, w) = (deleted, w)
  delete_reply (err e, w) = (failed e, w)

  unfoldable pub call : Call → State → CallReply × State
  unfolding upsert_reply delete_reply
  call (list_call name) w = (listed (grpc_list name w.store), w)
  call (upsert_call p) w = upsert_reply (grpc_upsert json dns os p w)
  call (delete_call name type value) w = delete_reply (grpc_delete json os name type value w)

  -- The interceptor in front of the service.
  unfoldable pub serve_grpc : Auth → GrpcContext → Call → State → CallReply × State
  serve_grpc a ctx m w = elim (unary_interceptor a ctx) [
    | serve ↦ call m w
    | other ↦ (unauthenticated other, w)
  ]
