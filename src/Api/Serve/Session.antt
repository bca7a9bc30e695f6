-- ===== src/Api/Serve/Session.antt =====
-- Requests and calls, of any clients, that a running plugin handles one after another.
use coredns_updater_plugin.Base.{
  ℕ, ◌+◌, ◌^◌, ◌<◌, ◌≡◌, refl, sym, subst, inl, inr, true, [], ◌∷◌, ok, err, Result, arith,
}
use coredns_updater_plugin.Text.{Text, Unicode, to_lower}
use coredns_updater_plugin.Record.{Dns}
use coredns_updater_plugin.Auth.{Auth, GrpcContext, http_middleware, unary_interceptor}
use coredns_updater_plugin.Store.{get_all, collect}
use coredns_updater_plugin.Store.Invariant.{IsWellFormed}
use coredns_updater_plugin.Persist.{
  Json, Disk, Os, Gauge, State, new_store, with_max_records, with_sync_policy,
}
use coredns_updater_plugin.Persist.Atomic.{IsFreshTemp}
use coredns_updater_plugin.Persist.Restart.{ReadsBack, new_store-lem}
use coredns_updater_plugin.Sync.Consistent.{QuietRun, start}
use coredns_updater_plugin.Sync.Quiet.{QuietRun-IsCoded}
use coredns_updater_plugin.Sync.Begin.{goroutine, system_of, new_store-IsConsistent}
use coredns_updater_plugin.Sync.Handled.{at_rest, IsFair, Touched-QuietRun}
use coredns_updater_plugin.Api.Touched.{
  Touched, untouched, handle_create-Touched, handle_update-Touched, handle_delete_all-Touched,
  handle_delete_by_type-Touched,
}
use coredns_updater_plugin.Proto.{PbRecord}
use coredns_updater_plugin.Api.Grpc.{GrpcError, grpc_upsert, grpc_delete}
use coredns_updater_plugin.Api.Grpc.Touched.{grpc_upsert-Touched, grpc_delete-Touched}
use coredns_updater_plugin.Api.Serve.{
  Request, Route, list_records, create, update, by_name, delete_all, delete_by_type, not_found,
  method_not_allowed, route, dispatch, serve_http, Call, list_call, upsert_call, delete_call, call,
  serve_grpc, upsert_reply, delete_reply,
}
use coredns_updater_plugin.Api.Serve.Access.{Decision-cases}

module _ ⦃u : Unicode⦄ (json : Json) (dns : Dns) where
  Touched-eq : (os : Os) (w v v' : State) → v ≡ v' → Touched json os w v' → Touched json os w v
  Touched-eq os w v v' e t = subst (λ x. Touched json os w x) (sym e) t

  upsert_reply-state :
      (os : Os) (o : Result GrpcError PbRecord × State) → (upsert_reply json dns os o).1 ≡ o.1
  unfolding upsert_reply
  upsert_reply-state os (ok r, w) = refl
  upsert_reply-state os (err e, w) = refl

  delete_reply-state :
      (os : Os) (o : Result GrpcError (Unit {0}) × State) → (delete_reply json dns os o).1 ≡ o.1
  unfolding delete_reply
  delete_reply-state os (ok done, w) = refl
  delete_reply-state os (err e, w) = refl

  dispatch-Touched :
      (os : Os) (t : Route) (req : Request) (w : State)
      → Touched json os w (dispatch json dns os t req w).1
  unfolding dispatch
  dispatch-Touched os list_records req w = untouched
  dispatch-Touched os (by_name name) req w = untouched
  dispatch-Touched os create req w = handle_create-Touched json os dns req.body w
  dispatch-Touched os update req w = handle_update-Touched json os dns req.body w
  dispatch-Touched os (delete_all name) req w = handle_delete_all-Touched json os name w
  dispatch-Touched os (delete_by_type name type) req w =
      handle_delete_by_type-Touched json os name type w
  dispatch-Touched os not_found req w = untouched
  dispatch-Touched os method_not_allowed req w = untouched

  serve_http-Touched :
      (os : Os) (a : Auth) (req : Request) (w : State)
      → Touched json os w (serve_http json dns os a req w).state
  unfolding serve_http
  serve_http-Touched os a req w =
      let t = route req.method req.path in
      elim (Decision-cases (http_middleware a req.credentials)) [
        | inl passed ↦ Touched-eq os w _ _ (ground arith) (dispatch-Touched os t req w)
        | inr other ↦ Touched-eq os w _ w (ground arith) untouched
      ]

  call-Touched : (os : Os) (m : Call) (w : State) → Touched json os w (call json dns os m w).1
  unfolding call
  call-Touched os (list_call name) w = untouched
  call-Touched os (upsert_call p) w =
      Touched-eq os w _ _ (upsert_reply-state os (grpc_upsert json dns os p w))
        (grpc_upsert-Touched json os dns p w)
  call-Touched os (delete_call name type value) w =
      Touched-eq os w _ _ (delete_reply-state os (grpc_delete json os name type value w))
        (grpc_delete-Touched json os name type value w)

  serve_grpc-Touched :
      (os : Os) (a : Auth) (ctx : GrpcContext) (m : Call) (w : State)
      → Touched json os w (serve_grpc json dns os a ctx m w).1
  unfolding serve_grpc
  serve_grpc-Touched os a ctx m w = elim (Decision-cases (unary_interceptor a ctx)) [
    | inl passed ↦ Touched-eq os w _ _ (ground arith) (call-Touched os m w)
    | inr other ↦ Touched-eq os w _ w (ground arith) untouched
  ]

  -- The state after requests and calls, each with the answers of the operating system to it, before
  -- each of which the generation has not wrapped, and after each of which the records of the store
  -- read back from the file.
  pub data Session (w : State) : State → Type 0 where
    opened : Session w w
    request :
        {v : State} (a : Auth) (req : Request) (os : Os)
        → Session w v
        → IsFair os v
        → v.store.generation + 1 < 2 ^ 64
        → ReadsBack json (collect (serve_http json dns os a req v).state.store.records)
        → Session w (serve_http json dns os a req v).state
    called :
        {v : State} (a : Auth) (ctx : GrpcContext) (m : Call) (os : Os)
        → Session w v
        → IsFair os v
        → v.store.generation + 1 < 2 ^ 64
        → ReadsBack json (collect (serve_grpc json dns os a ctx m v).1.store.records)
        → Session w (serve_grpc json dns os a ctx m v).1

  Session-QuietRun :
      (w v : State)
      → Session w v
      → QuietRun json (system_of w) (at_rest (goroutine w.store.reload) v)
  Session-QuietRun w v opened = start
  Session-QuietRun w v (request {v = v'} a req os before fair small back) =
      Touched-QuietRun json (goroutine w.store.reload) os (system_of w) v' v
        (serve_http-Touched os a req v') (Session-QuietRun w v' before) fair small back
  Session-QuietRun w v (called {v = v'} a ctx m os before fair small back) =
      Touched-QuietRun json (goroutine w.store.reload) os (system_of w) v' v
        (serve_grpc-Touched os a ctx m v') (Session-QuietRun w v' before) fair small back

  -- A store is opened or created; then requests of REST and calls of gRPC are served, whoever
  -- sends them and with whatever result. If the last mutation among them was written, a store that
  -- is opened on the file afterwards, with whatever options, is ready and has for every name the
  -- records, in their order, that the first had at the end. The empty list reads back, and so do the
  -- records that the store has after each request and call, as they do where their text is UTF-8;
  -- the records that were loaded first are well formed, temporary files have new names, the clock
  -- does not go back, `os.Stat` succeeds, and the generation does not wrap.
  pub Session-restart :
      (path : Text) (reload limit policy : ℕ) (os : Os) (disk : Disk) (gauge : Gauge) (w v : State)
      (os' : Os) (reload' limit' policy' : ℕ)
      → os.stat_ok ≡ true
      → new_store json path reload
          (with_max_records limit ∷ with_sync_policy policy ∷ [])
          true
          os
          disk
          gauge
        ≡ ok w
      → IsFreshTemp os path disk
      → ReadsBack json []
      → IsWellFormed w.store.records
      → Session w v
      → v.store.persisted ≡ v.store.generation
      → (again : State) × (new_store json v.store.file_path reload'
            (with_max_records limit' ∷ with_sync_policy policy' ∷ [])
            true
            os'
            v.disk
            v.gauge
          ≡ ok again)
        × (again.store.ready ≡ true)
        × ((name : Text) → get_all name again.store ≡ get_all name v.store)
  unfolding get_all
  Session-restart path reload limit policy os disk gauge w v os' reload' limit' policy' stats
        opened_first fresh none_back wf session written =
      let c =
        new_store-IsConsistent json path reload limit policy os disk gauge w stats opened_first
          fresh none_back wf in
      let (f, there, coded) =
        QuietRun-IsCoded json (system_of w) (at_rest (goroutine w.store.reload) v) c
          (Session-QuietRun w v session) refl written in
      let (recs, decoded, buckets) = coded in
      let (again, opens, loaded, ready) =
        new_store-lem json v.store.file_path reload' limit' policy' os' v.disk v.gauge recs
          f.content f.mtime there decoded in
      (again, opens, ready, λ name. rw loaded (buckets (to_lower name)))
