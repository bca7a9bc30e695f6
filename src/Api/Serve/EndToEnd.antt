-- ===== src/Api/Serve/EndToEnd.antt =====
-- A record that is sent to the REST server, from the request to what clients and resolvers see.
use coredns_updater_plugin.Base.{
  ℕ, ◌≡◌, ◌≢◌, refl, sym, ◌∙◌, subst, ap, false, inl, inr, Option, none, some, List, [], ◌∷◌, arith,
}
use coredns_updater_plugin.Text.{Text, lit, Unicode, str_eq, is_empty}
use coredns_updater_plugin.Record.{Record, Dns, Rr, validate, to_rr}
use coredns_updater_plugin.Record.Valid.{validate_iff}
use coredns_updater_plugin.Record.Convert.{KnowsTypes, IsResource}
use coredns_updater_plugin.Store.{Store, get_all}
use coredns_updater_plugin.Auth.{
  Auth, HttpRequest, serve, http_middleware, extract_bearer_http, extract_cn_from_tls,
}
use coredns_updater_plugin.Auth.Access.{IsAuthorized, http_middleware_iff}
use coredns_updater_plugin.Persist.{Json, Os, State}
use coredns_updater_plugin.Dns.{Server, Msg, rcode_success, serve_dns}
use coredns_updater_plugin.Dns.Answer.{IsAmong, serve_dns-stored}
use coredns_updater_plugin.Api.{
  records_body, status_created, status_ok, handle_create, handle_get_by_name,
}
use coredns_updater_plugin.Api.Effects.{created_is_stored}
use coredns_updater_plugin.Api.Serve.{
  Request, handled, status_of_reply, route, dispatch, serve_http,
}
use coredns_updater_plugin.Api.Serve.Access.{Decision-cases}

abbrev pub post : HttpRequest → Option Record → Request
post cred body = record {
  method = lit "POST";
  path = lit "api" ∷ lit "v1" ∷ lit "records" ∷ [];
  name_filter = [];
  body = body;
  credentials = cred;
}

abbrev pub get_by_name : HttpRequest → Text → Request
get_by_name cred name = record {
  method = lit "GET";
  path = lit "api" ∷ lit "v1" ∷ lit "records" ∷ name ∷ [];
  name_filter = [];
  body = none;
  credentials = cred;
}

module _ ⦃u : Unicode⦄ (json : Json) (dns : Dns) where
  post-handle_create :
      (os : Os) (a : Auth) (cred : HttpRequest) (body : Option Record) (w : State)
      → http_middleware a cred ≡ serve
      → ((serve_http json dns os a (post cred body) w).reply
          ≡ handled (handle_create json dns os body w).0)
        × ((serve_http json dns os a (post cred body) w).state
            ≡ (handle_create json dns os body w).1)
  unfolding serve_http dispatch route str_eq
  post-handle_create os a cred body w passed = (ground arith, ground arith)

  -- What a request that was answered with 201 has stored.
  post-stored :
      (os : Os) (a : Auth) (cred : HttpRequest) (body : Option Record) (w : State)
      → status_of_reply (serve_http json dns os a (post cred body) w).reply ≡ status_created
      → (r r' : Record) × (body ≡ some r)
        × (validate dns r ≡ (r', none))
        × IsAmong r' (get_all r'.name (serve_http json dns os a (post cred body) w).state.store)
  post-stored os a cred body w created = elim (Decision-cases (http_middleware a cred)) [
    | inr other ↦ absurd (unfold serve_http in ground arith)
    | inl passed ↦
        let o = handle_create json dns os body w in
        let (replied, left) = post-handle_create os a cred body w passed in
        let status : o.0.status ≡ status_created = sym (ap status_of_reply replied) ∙ created in
        let (r, r', sent, valid, resp, stored) =
          created_is_stored json dns os body w o.1 o.0 refl status in
        (
          r,
          r',
          sent,
          valid,
          subst (λ (x : State). IsAmong r' (get_all r'.name x.store)) (sym left) stored,
        )
  ]

  -- A `POST` is answered with 201. Then it carried a valid record, and an authorized `GET` for the
  -- name of that record, next, is answered with 200 and with the validated record among its records.
  pub post_then_get :
      (os os' : Os) (a : Auth) (cred cred' : HttpRequest) (body : Option Record) (w : State)
      → status_of_reply (serve_http json dns os a (post cred body) w).reply ≡ status_created
      → IsAuthorized a (extract_bearer_http cred') (extract_cn_from_tls cred'.tls)
      → (r r' : Record) × (recs : List Record) × (body ≡ some r)
        × (validate dns r ≡ (r', none))
        × ((serve_http json dns os' a
              (get_by_name cred' r'.name)
              (serve_http json dns os a (post cred body) w).state).reply
            ≡ handled (record { status = status_ok; body = records_body recs }))
        × IsAmong r' recs
  unfolding serve_http dispatch route handle_get_by_name str_eq is_empty
  post_then_get os os' a cred cred' body w created authorized =
      let (r, r', sent, valid, stored) = post-stored os a cred body w created in
      let passed = (http_middleware_iff a cred').1 authorized in
      let accepted = (validate_iff dns r r').0 valid in
      let named : is_empty r'.name ≡ false =
        ground (arith, accepted.named, ap (λ (x : Record). x.name) accepted.normal) in
      (r, r', _, sent, valid, ground arith, stored)

  -- After such a `POST`, a DNS query for the name and the type of the record, if a zone matches the
  -- name, is answered without an error and with its resource record, which has its name, type, TTL
  -- and data, whatever mutations follow its lookup. The type table knows the supported types, and
  -- gives the number of the record's type its name.
  pub post_then_query :
      (os : Os) (a : Auth) (cred : HttpRequest) (r r' : Record) (w : State) (sv : Server)
      (later : ℕ → Store)
      → status_of_reply (serve_http json dns os a (post cred (some r)) w).reply ≡ status_created
      → validate dns r ≡ (r', none)
      → KnowsTypes dns
      → dns.type_to_string (dns.string_to_type r'.type) ≡ r'.type
      → sv.zone_of r'.name ≢ []
      → (rr : Rr) × (msg : Msg) × (to_rr dns r' ≡ some rr)
        × IsResource dns r' rr
        × ((serve_dns dns sv
              (serve_http json dns os a (post cred (some r)) w).state.store
              later
              r'.name
              (dns.string_to_type r'.type)).sent
            ≡ some msg)
        × (msg.rcode ≡ rcode_success)
        × IsAmong rr msg.answer
  post_then_query os a cred r r' w sv later created valid known named zone =
      let (r1, r1', sent, valid1, stored) = post-stored os a cred (some r) w created in
      let same : r1' ≡ r' = cc in
      let s = (serve_http json dns os a (post cred (some r)) w).state.store in
      serve_dns-stored dns sv r r' s later valid known named
        (subst (λ (x : Record). IsAmong x (get_all x.name s)) same stored) zone
