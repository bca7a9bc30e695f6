-- ===== src/Api/Serve/Access.antt =====
-- Who can change the records, and with what.
use coredns_updater_plugin.Base.{
  ◌≡◌, ◌≢◌, refl, ◌⊎◌, inl, inr, Bool, true, false, List, [], ◌∷◌, arith, Bool-cases,
}
use coredns_updater_plugin.Text.{Text, lit, Unicode}
use coredns_updater_plugin.Text.Fold.{str_eq_iff}
use coredns_updater_plugin.Record.{Dns}
use coredns_updater_plugin.Auth.{
  Auth, GrpcContext, Decision, serve, unauthorized, invalid_token, authentication_required,
  http_middleware, unary_interceptor, extract_bearer_http, extract_bearer_grpc, extract_cn_from_tls,
  extract_cn_from_peer,
}
use coredns_updater_plugin.Auth.Access.{IsAuthorized, http_middleware_iff, unary_interceptor_iff}
use coredns_updater_plugin.Persist.{Json, Os, State}
use coredns_updater_plugin.Api.Serve.{
  Request, Route, list_records, create, update, by_name, delete_all, delete_by_type, not_found,
  method_not_allowed, is_get, route_records, route_below, route, dispatch, serve_http, Call,
  list_call, call, serve_grpc,
}

pub Decision-cases : (d : Decision) → (d ≡ serve) ⊎ (d ≢ serve)
Decision-cases serve = inl refl
Decision-cases unauthorized = inr (λ e. cc)
Decision-cases invalid_token = inr (λ e. cc)
Decision-cases authentication_required = inr (λ e. cc)

-- The methods that ask for a change.
abbrev pub IsWrite : Text → Type 0
IsWrite method = (method ≡ lit "POST") ⊎ (method ≡ lit "PUT") ⊎ (method ≡ lit "DELETE")

abbrev is_read : Route → Bool
is_read create = false
is_read update = false
is_read (delete_all name) = false
is_read (delete_by_type name type) = false
is_read _ = true

-- A route that does not only read is taken by those methods alone.
route-IsWrite :
    (method : Text) (path : List Text) → is_read (route method path) ≡ false → IsWrite method
unfolding route route_below route_records is_get
route-IsWrite method [] h = cc
route-IsWrite method (a ∷ []) h = cc
route-IsWrite method (a ∷ v ∷ []) h = cc
route-IsWrite method (a ∷ v ∷ r ∷ []) h =
    ground (arith, str_eq_iff method (lit "POST"), str_eq_iff method (lit "PUT"))
route-IsWrite method (a ∷ v ∷ r ∷ name ∷ []) h = ground (arith, str_eq_iff method (lit "DELETE"))
route-IsWrite method (a ∷ v ∷ r ∷ name ∷ type ∷ []) h =
    ground (arith, str_eq_iff method (lit "DELETE"))
route-IsWrite method (a ∷ v ∷ r ∷ name ∷ type ∷ x ∷ xs) h = ground arith

module _ ⦃u : Unicode⦄ (json : Json) (dns : Dns) (os : Os) where
  dispatch_read :
      (t : Route) (r : Request) (w : State) → is_read t ≡ true → (dispatch json dns os t r w).1 ≡ w
  unfolding dispatch
  dispatch_read list_records r w h = refl
  dispatch_read (by_name name) r w h = refl
  dispatch_read create r w h = cc
  dispatch_read update r w h = cc
  dispatch_read (delete_all name) r w h = cc
  dispatch_read (delete_by_type name type) r w h = cc
  dispatch_read not_found r w h = refl
  dispatch_read method_not_allowed r w h = refl

  -- A request to the REST server that changes anything, in the store, on the disk or in the gauge,
  -- is authorized, and its method is POST, PUT or DELETE.
  pub serve_http-IsAuthorized :
      (a : Auth) (r : Request) (w : State)
      → (serve_http json dns os a r w).state ≢ w
      → IsAuthorized a (extract_bearer_http r.credentials) (extract_cn_from_tls r.credentials.tls)
        × IsWrite r.method
  unfolding serve_http
  serve_http-IsAuthorized a r w changed =
      let t = route r.method r.path in
      elim (Decision-cases (http_middleware a r.credentials)) [
        | inr other ↦ absurd (changed (ground arith))
        | inl passed ↦ elim (Bool-cases (is_read t)) [
          | inl reads ↦ absurd (changed (ground (arith, dispatch_read t r w reads)))
          | inr writes ↦
              ((http_middleware_iff a r.credentials).0 passed, route-IsWrite r.method r.path writes)
        ]
      ]

  -- A call of the gRPC service that changes anything is authorized, and is no List.
  pub serve_grpc-IsAuthorized :
      (a : Auth) (ctx : GrpcContext) (m : Call) (w : State)
      → (serve_grpc json dns os a ctx m w).1 ≢ w
      → IsAuthorized a (extract_bearer_grpc ctx) (extract_cn_from_peer ctx)
        × ((name : Text) → m ≢ list_call name)
  unfolding serve_grpc call
  serve_grpc-IsAuthorized a ctx m w changed = elim (Decision-cases (unary_interceptor a ctx)) [
    | inr other ↦ absurd (changed (ground arith))
    | inl passed ↦ ((unary_interceptor_iff a ctx).0 passed, λ name e. changed (ground arith))
  ]
