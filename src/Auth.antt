-- ===== src/Auth.antt =====
-- auth.go: who may use the management APIs. A request is what the middleware reads of it: the
-- value of the header "Authorization", and the common names of the peer's certificates. Passing the
-- request on to the next handler is `serve`.
pub mod Access
use coredns_updater_plugin.Base.{
  ℕ, Bool, true, false, not, ◌||◌, Option, none, some, List, [], ◌∷◌, ◌==◌, if◌then◌else◌,
}
use coredns_updater_plugin.Text.{Text, lit, str_eq, is_empty, has_prefix, trim_prefix}

pub record Auth : Type 0 where
  pub token : Text
  pub allowed_cn : List Text
  pub no_auth : Bool

pub record HttpRequest : Type 0 where
  -- `r.Header.Get("Authorization")`: empty if the header is missing
  pub authorization : Text
  -- `r.TLS`: `none` is nil; the common names of `PeerCertificates`
  pub tls : Option (List Text)

-- `p.AuthInfo`
pub data AuthInfo : Type 0 where
  no_info : AuthInfo
  other_info : AuthInfo
  tls_info : List Text → AuthInfo

pub record GrpcContext : Type 0 where
  -- `metadata.FromIncomingContext`, and the values of "authorization" in it
  pub metadata : Option (List Text)
  -- `peer.FromContext`
  pub peer : Option AuthInfo

pub data Decision : Type 0 where
  serve : Decision
  unauthorized : Decision
  invalid_token : Decision
  authentication_required : Decision

auth_required : Auth → Bool
auth_required a = not a.no_auth

-- `subtle.ConstantTimeCompare`: 1 if the contents are equal, and 0 if not.
constant_time_compare : Text → Text → ℕ
constant_time_compare x y = if str_eq x y then 1 else 0

constant_time_equal : Text → Text → Bool
unfolding constant_time_compare
constant_time_equal x y = constant_time_compare x y == 1

cn_allowed_in : Text → List Text → Bool
cn_allowed_in cn [] = false
cn_allowed_in cn (allowed ∷ rest) = str_eq allowed cn || cn_allowed_in cn rest

cn_allowed : Auth → Text → Bool
unfolding cn_allowed_in
cn_allowed a cn = cn_allowed_in cn a.allowed_cn

abbrev pub bearer : Text
bearer = lit "Bearer "

bearer_of : Text → Text
bearer_of h = if not (has_prefix h bearer) then [] else trim_prefix h bearer

unfoldable pub extract_bearer_http : HttpRequest → Text
unfolding bearer_of
extract_bearer_http r = bearer_of r.authorization

unfoldable pub extract_bearer_grpc : GrpcContext → Text
unfolding bearer_of
extract_bearer_grpc ctx = elim ctx.metadata [
  | none ↦ []
  | some [] ↦ []
  | some (h ∷ vals) ↦ bearer_of h
]

unfoldable pub extract_cn_from_tls : Option (List Text) → Text
extract_cn_from_tls none = []
extract_cn_from_tls (some []) = []
extract_cn_from_tls (some (cn ∷ rest)) = cn

unfoldable pub extract_cn_from_peer : GrpcContext → Text
unfolding extract_cn_from_tls
extract_cn_from_peer ctx = elim ctx.peer [
  | none ↦ []
  | some no_info ↦ []
  | some other_info ↦ []
  | some (tls_info cns) ↦ extract_cn_from_tls (some cns)
]

-- `len(a.AllowedCN) > 0`
has_allowed : Auth → Bool
has_allowed a = elim a.allowed_cn [ [] ↦ false | cn ∷ rest ↦ true ]

-- The part on certificates: `denied` is what is returned if it does not pass.
try_cn : Auth → Text → Decision → Decision
unfolding cn_allowed has_allowed
try_cn a cn denied =
    if has_allowed a
    then (if not (is_empty cn) then (if cn_allowed a cn then serve else denied) else denied)
    else denied

unfoldable pub http_middleware : Auth → HttpRequest → Decision
unfolding auth_required constant_time_equal extract_bearer_http extract_cn_from_tls try_cn
http_middleware a r =
    let cn_part = try_cn a (extract_cn_from_tls r.tls) unauthorized in
    let token = extract_bearer_http r in
    if not (auth_required a)
    then serve
    else if not (is_empty a.token)
    then (if not (is_empty token)
        then (if constant_time_equal token a.token then serve else unauthorized)
        else cn_part)
    else cn_part

unfoldable pub unary_interceptor : Auth → GrpcContext → Decision
unfolding auth_required constant_time_equal extract_bearer_grpc extract_cn_from_peer try_cn
unary_interceptor a ctx =
    let cn_part = try_cn a (extract_cn_from_peer ctx) authentication_required in
    let token = extract_bearer_grpc ctx in
    if not (auth_required a)
    then serve
    else if not (is_empty a.token)
    then (if not (is_empty token)
        then (if constant_time_equal token a.token then serve else invalid_token)
        else cn_part)
    else cn_part
