-- ===== src/Servers/Configured.antt =====
-- From a Corefile to the store and the servers: what a configuration that was parsed and set up
-- guarantees.
use coredns_updater_plugin.Base.{
  ℕ, ◌≡◌, ◌≢◌, ◌<◌, ◌⊎◌, inl, inr, Bool, true, some, [], arith, subst, sym, ◌∙◌, ◌↔◌, ok,
}
use coredns_updater_plugin.Text.{Text, Unicode, is_empty}
use coredns_updater_plugin.Auth.{
  Auth, HttpRequest, GrpcContext, serve, http_middleware, unary_interceptor, extract_bearer_http,
  extract_bearer_grpc, extract_cn_from_tls, extract_cn_from_peer,
}
use coredns_updater_plugin.Auth.Access.{IsAuthorized, http_middleware_iff, unary_interceptor_iff}
use coredns_updater_plugin.Store.Mutation.{Mutation, apply}
use coredns_updater_plugin.Store.Outcomes.{Verdict, apply-Verdict}
use coredns_updater_plugin.Persist.{Json, Os, Disk, Gauge}
use coredns_updater_plugin.Setup.{Config}
use coredns_updater_plugin.Setup.Tokens.{Controller, Loads}
use coredns_updater_plugin.Setup.Parse.{Parsed, done, Library, parse_config}
use coredns_updater_plugin.Setup.Returns.{Returns, accepted, refused}
use coredns_updater_plugin.Setup.Sound.{IsSound, IsGuarded}
use coredns_updater_plugin.Setup.Terminates.{parse_config-Returns}
use coredns_updater_plugin.Servers.{Server, Plugin, api_server, grpc_server, setup, ready}
use coredns_updater_plugin.Servers.Settings.{setup-HasSettings}

-- Some way to be let in.
abbrev pub HasMethod : Auth → Type 0
HasMethod a = (a.token ≢ []) ⊎ (a.allowed_cn ≢ []) ⊎ (a.no_auth ≡ true)

IsGuarded-HasMethod :
    (a : Auth) (l : Text) → l ≢ [] → IsGuarded l a.token a.allowed_cn a.no_auth → HasMethod a
IsGuarded-HasMethod a l ne (inl e) = absurd (ne e)
IsGuarded-HasMethod a l ne (inr h) = h

api_server-HasMethod :
    (cfg : Config) (srv : Server)
    → IsGuarded cfg.api_listen cfg.api_token cfg.api_allowed_cn cfg.api_no_auth
    → api_server cfg ≡ some srv
    → HasMethod srv.auth
unfolding api_server is_empty
api_server-HasMethod cfg srv g e =
    let a : Auth = record {
      token = cfg.api_token;
      allowed_cn = cfg.api_allowed_cn;
      no_auth = cfg.api_no_auth;
    } in
    let same : a ≡ srv.auth = ground arith in
    let listens : cfg.api_listen ≢ [] = λ none_given. ground arith in
    subst HasMethod same (IsGuarded-HasMethod a cfg.api_listen listens g)

grpc_server-HasMethod :
    (cfg : Config) (srv : Server)
    → IsGuarded cfg.grpc_listen cfg.grpc_token cfg.grpc_allowed_cn cfg.grpc_no_auth
    → grpc_server cfg ≡ some srv
    → HasMethod srv.auth
unfolding grpc_server is_empty
grpc_server-HasMethod cfg srv g e =
    let a : Auth = record {
      token = cfg.grpc_token;
      allowed_cn = cfg.grpc_allowed_cn;
      no_auth = cfg.grpc_no_auth;
    } in
    let same : a ≡ srv.auth = ground arith in
    let listens : cfg.grpc_listen ≢ [] = λ none_given. ground arith in
    subst HasMethod same (IsGuarded-HasMethod a cfg.grpc_listen listens g)

-- Without credentials only `no_auth` lets a request in.
anonymous :
    (a : Auth) (token cn : Text) (Served : Type 0)
    → token ≡ []
    → cn ≡ []
    → Served ↔ IsAuthorized a token cn
    → Served ↔ (a.no_auth ≡ true)
anonymous a token cn Served no_token no_cn (to, from) = (λ h. let_in (to h), λ h. from (inl h))
  where
    let_in : IsAuthorized a token cn → a.no_auth ≡ true
    let_in (inl open_to_all) = open_to_all
    let_in (inr (inl (set, same))) = absurd (set (sym same ∙ no_token))
    let_in (inr (inr (_, named, _))) = absurd (named no_cn)

module _ ⦃u : Unicode⦄ (json : Json) where
  Returns-done :
      {A : Type 0} {P : A → Type 0} {x : Parsed A} (a : A) → Returns P x → x ≡ done a → P a
  Returns-done {P} a (accepted h) e = subst P (cc) h
  Returns-done a refused e = cc

  module _ {C : Type 0} (k : Controller C) (l : Loads k) (lib : Library) (fuel : ℕ) (c : C)
      (cfg : Config) (enough : l.left c < fuel) (parsed : parse_config k lib fuel c ≡ done cfg)
      (read_ok : Bool) (os : Os) (disk : Disk) (gauge : Gauge) (p : Plugin)
      (set_up : setup json read_ok os disk gauge cfg ≡ ok p) where
    sound : IsSound cfg
    sound = Returns-done cfg (parse_config-Returns k l lib fuel c enough) parsed

    -- A Corefile was parsed, with fuel for its tokens, and set up without an error. Then the plugin
    -- reports that it is ready, its store has the limit that was configured, and every mutation of
    -- that store ends as the configured policy and limit say.
    pub configured_store :
        (m : Mutation)
        → (ready (some p.state.store) ≡ true)
          × (p.state.store.max_records ≡ cfg.max_records)
          × (p.state.store.sync_policy ≡ cfg.sync_policy)
          × Verdict m p.state.store (apply m p.state.store)
    configured_store m =
        let (settings, is_ready, _, _) =
          setup-HasSettings json cfg read_ok os disk gauge p set_up in
        let s = sound in
        (
          is_ready,
          settings.limit,
          settings.policy,
          apply-Verdict m p.state.store (omega (arith, settings.policy, s.bounded.0)),
        )

    -- In such a plugin the API server, if there is one, has a token, a common name that is allowed,
    -- or `no_auth`; and it serves a request with neither a token nor a common name exactly if it has
    -- `no_auth`.
    pub api_fail_closed :
        (srv : Server) (r : HttpRequest)
        → p.api ≡ some srv
        → extract_bearer_http r ≡ []
        → extract_cn_from_tls r.tls ≡ []
        → HasMethod srv.auth × ((http_middleware srv.auth r ≡ serve) ↔ (srv.auth.no_auth ≡ true))
    api_fail_closed srv r running no_token no_cn =
        let (_, _, made, _) = setup-HasSettings json cfg read_ok os disk gauge p set_up in
        (
          api_server-HasMethod cfg srv sound.api (sym made ∙ running),
          anonymous srv.auth _ _ (http_middleware srv.auth r ≡ serve) no_token no_cn
              (http_middleware_iff srv.auth r),
        )

    -- The same for the gRPC server and a call with neither.
    pub grpc_fail_closed :
        (srv : Server) (ctx : GrpcContext)
        → p.grpc ≡ some srv
        → extract_bearer_grpc ctx ≡ []
        → extract_cn_from_peer ctx ≡ []
        → HasMethod srv.auth
          × ((unary_interceptor srv.auth ctx ≡ serve) ↔ (srv.auth.no_auth ≡ true))
    grpc_fail_closed srv ctx running no_token no_cn =
        let (_, _, _, made) = setup-HasSettings json cfg read_ok os disk gauge p set_up in
        (
          grpc_server-HasMethod cfg srv sound.grpc (sym made ∙ running),
          anonymous srv.auth _ _ (unary_interceptor srv.auth ctx ≡ serve) no_token no_cn
              (unary_interceptor_iff srv.auth ctx),
        )
