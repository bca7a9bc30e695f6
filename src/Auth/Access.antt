-- ===== src/Auth/Access.antt =====
-- Exactly which requests are let through.
use coredns_updater_plugin.Base.{
  drop, length, ◌++◌, ap, ◌∙◌, not, if◌then◌else◌, ◌≡◌, ◌≢◌, ◌↔◌, ◌⊎◌, true, List, [], ◌∷◌, arith,
}
use coredns_updater_plugin.Text.{Text, is_empty, has_prefix, trim_prefix}
use coredns_updater_plugin.Text.Fold.{str_eq_iff, has_prefix-append, append-has_prefix, drop-append}
use coredns_updater_plugin.Auth.{
  bearer, try_cn, auth_required, constant_time_equal, Auth, HttpRequest, GrpcContext, Decision,
  serve, unauthorized, invalid_token, authentication_required, http_middleware, unary_interceptor,
  extract_bearer_http, extract_bearer_grpc, extract_cn_from_tls, extract_cn_from_peer,
  cn_allowed_in,
}

abbrev pub IsListed : Text → List Text → Type 0
IsListed cn [] = ⊥
IsListed cn (x ∷ xs) = (x ≡ cn) ⊎ IsListed cn xs

-- Who is let through, given the bearer token and the common name of a request, which are empty if
-- the request has none: everybody under `no_auth`; the holder of the configured token; and, if no
-- token is configured or the request has none, the holder of a listed name.
abbrev pub IsAuthorized : Auth → Text → Text → Type 0
IsAuthorized a token cn =
    (a.no_auth ≡ true)
    ⊎ ((a.token ≢ []) × (token ≡ a.token))
    ⊎ (((a.token ≡ []) ⊎ (token ≡ [])) × (cn ≢ []) × IsListed cn a.allowed_cn)

cn_allowed-IsListed : (cn : Text) (xs : List Text) → (cn_allowed_in cn xs ≡ true) ↔ IsListed cn xs
unfolding cn_allowed_in
cn_allowed-IsListed cn [] = ((λ h. cc), λ h. absurd h)
cn_allowed-IsListed cn (x ∷ xs) =
    let (to, from) = cn_allowed-IsListed cn xs in
    (λ h. ground (arith, str_eq_iff x cn, to), λ h. ground (arith, str_eq_iff x cn, from))

try_cn_iff :
    (a : Auth) (cn : Text) (denied : Decision)
    → denied ≢ serve
    → (try_cn a cn denied ≡ serve) ↔ ((cn ≢ []) × IsListed cn a.allowed_cn)
unfolding try_cn cn_allowed_in is_empty
try_cn_iff a cn denied ne =
    let (to, from) = cn_allowed-IsListed cn a.allowed_cn in
    (λ h. (ground arith, to (ground arith)), λ h. ground (arith, from h.1))

-- Without the certificates: what the token decides.
abbrev by_token : Auth → Text → Decision → Decision → Decision
by_token a token wrong other =
    if not (auth_required a)
    then serve
    else if not (is_empty a.token)
    then (if not (is_empty token)
        then (if constant_time_equal token a.token then serve else wrong)
        else other)
    else other

by_token_iff :
    (a : Auth) (token cn : Text) (wrong other : Decision)
    → wrong ≢ serve
    → (other ≡ serve) ↔ ((cn ≢ []) × IsListed cn a.allowed_cn)
    → (by_token a token wrong other ≡ serve) ↔ IsAuthorized a token cn
unfolding auth_required is_empty constant_time_equal
by_token_iff a token cn wrong other ne (to, from) = (
  λ h. ground (arith, str_eq_iff token a.token, to),
  λ h. ground (arith, str_eq_iff token a.token, from),
)

-- The HTTP middleware passes a request on exactly if it is authorized.
pub http_middleware_iff :
    (a : Auth) (r : HttpRequest)
    → (http_middleware a r ≡ serve)
      ↔ IsAuthorized a (extract_bearer_http r) (extract_cn_from_tls r.tls)
http_middleware_iff a r =
    unfold http_middleware in
    by_token_iff a (extract_bearer_http r) (extract_cn_from_tls r.tls) unauthorized _ (λ e. cc)
      (try_cn_iff a (extract_cn_from_tls r.tls) unauthorized (λ e. cc))

-- So does the gRPC interceptor with the credentials of its context.
pub unary_interceptor_iff :
    (a : Auth) (ctx : GrpcContext)
    → (unary_interceptor a ctx ≡ serve)
      ↔ IsAuthorized a (extract_bearer_grpc ctx) (extract_cn_from_peer ctx)
unary_interceptor_iff a ctx =
    unfold unary_interceptor in
    by_token_iff a (extract_bearer_grpc ctx) (extract_cn_from_peer ctx) invalid_token _ (λ e. cc)
      (try_cn_iff a (extract_cn_from_peer ctx) authentication_required (λ e. cc))

-- A header yields a token that is not empty exactly if it is that token behind "Bearer ".
extract_bearer_http_iff :
    (r : HttpRequest) (token : Text)
    → token ≢ []
    → (extract_bearer_http r ≡ token) ↔ (r.authorization ≡ bearer ++ token)
unfolding extract_bearer_http trim_prefix
extract_bearer_http_iff r token given =
    let h = r.authorization in
    let behind = drop (length bearer) h in
    (
      λ e.
          let prefixed : has_prefix h bearer ≡ true = ground arith in
          let rest : behind ≡ token = ground arith in
          has_prefix-append h bearer prefixed ∙ ap (λ t. bearer ++ t) rest,
      λ e.
          let prefixed : has_prefix h bearer ≡ true = rw e (append-has_prefix bearer token) in
          let rest : behind ≡ token = ap (drop (length bearer)) e ∙ drop-append bearer token in
          ground arith,
    )
