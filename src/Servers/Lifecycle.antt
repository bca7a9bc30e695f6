-- ===== src/Servers/Lifecycle.antt =====
-- What starting and stopping leave open, and what the set-up hands to the store and the servers.
use coredns_updater_plugin.Base.{
  ◌≡◌, refl, inl, inr, Bool, true, false, ◌||◌, Option, none, some, [], ◌∷◌, arith, if◌then◌else◌,
  Result, ok, err, Bool-cases, Option-cases, Result-cases,
}
use coredns_updater_plugin.Text.{Text, Unicode, str_eq}
use coredns_updater_plugin.Text.Fold.{str_eq_iff}
use coredns_updater_plugin.Assoc.{lookup, insert, lookup-insert, lookup-remove}
use coredns_updater_plugin.Persist.{
  Json, Os, Disk, Gauge, with_max_records, with_sync_policy, with_options, new_store,
}
use coredns_updater_plugin.Setup.{Config, Tls}
use coredns_updater_plugin.TlsHelper.{TlsConfig, build_tls_config}
use coredns_updater_plugin.Servers.{
  Server, Listeners, Env, StartError, listening, building_tls, start, stop, Plugin, store_opts,
  on_startup, on_shutdown, start_if, stop_if,
}

-- The TLS configuration of a server is the one that is built from its settings, if it has any.
abbrev pub HasTls : Env → Option Tls → Option TlsConfig → Type 0
HasTls env none o = o ≡ none
HasTls env (some t) o = (cfg : TlsConfig) × (build_tls_config env.files t ≡ ok cfg) × (o ≡ some cfg)

-- The two ways in which `Start` ends.
pub data Attempt (env : Env) (srv : Server) (before : Listeners) (res : Result StartError Server)
    (after : Listeners) : Type 0 where
  -- An error: no listener of the server is left, and all others are as they were.
  failed :
      (e : StartError)
      → res ≡ err e
      → ((j : Text) → str_eq srv.listen j ≡ false → lookup j after ≡ lookup j before)
      → (env.listens srv.listen ≡ true → lookup srv.listen after ≡ none)
      → (env.listens srv.listen ≡ false → after ≡ before)
      → Attempt env srv before res after
  -- The server listens at its address, with its TLS configuration; all others are as they were.
  listening_now :
      (o : Option TlsConfig)
      → res ≡ ok (record srv { started = true })
      → HasTls env srv.tls o
      → lookup srv.listen after ≡ some o
      → ((j : Text) → str_eq srv.listen j ≡ false → lookup j after ≡ lookup j before)
      → Attempt env srv before res after

-- `Start` either fails and leaves no listener at the address of the server, or makes the server
-- listen there with the TLS configuration that is built from its settings; listeners at other
-- addresses stay. Without the address itself, nothing changes at all.
pub start-Attempt :
    (env : Env) (srv : Server) (before : Listeners)
    → Attempt env srv before (start env srv before).0 (start env srv before).1
unfolding start
start-Attempt env srv before =
    let no_tls : Option TlsConfig = none in
    elim (Bool-cases (env.listens srv.listen)) [
      | inr taken ↦
          failed (listening srv.listen) (ground arith) (λ j ne. ground arith) (λ e. ground arith)
            (λ e. ground arith)
      | inl free ↦ elim (Option-cases srv.tls) [
        | inl plain ↦
            listening_now none (ground arith) (rw plain refl)
              (ground (
                arith,
                lookup-insert srv.listen srv.listen no_tls before,
                str_eq_iff srv.listen srv.listen,
              ))
              (λ j ne. ground (arith, lookup-insert srv.listen j no_tls before))
        | inr (t, secure) ↦ elim (Result-cases (build_tls_config env.files t)) [
          | inl (e, bad) ↦
              let plain = insert srv.listen no_tls before in
              failed (building_tls e) (ground arith)
                (λ j ne. ground (
                  arith,
                  lookup-remove srv.listen j plain,
                  lookup-insert srv.listen j no_tls before,
                ))
                (λ e'. ground (
                  arith,
                  lookup-remove srv.listen srv.listen plain,
                  str_eq_iff srv.listen srv.listen,
                ))
                (λ e'. ground arith)
          | inr (cfg, built) ↦
              listening_now (some cfg) (ground arith) (rw secure (cfg, built, refl))
                (ground (
                  arith,
                  lookup-insert srv.listen srv.listen (some cfg) before,
                  str_eq_iff srv.listen srv.listen,
                ))
                (λ j ne. ground (arith, lookup-insert srv.listen j (some cfg) before))
        ]
      ]
    ]

-- Whether an address is that of a server.
abbrev pub is_at : Option Server → Text → Bool
is_at none j = false
is_at (some srv) j = str_eq srv.listen j

-- A start without an error changes only the listener of the server, which stopping it closes.
start_if-done :
    (env : Env) (o o' : Option Server) (before after between : Listeners) (j : Text)
    → start_if env o before ≡ (none, (o', after))
    → (lookup j (stop_if o' between) ≡ (if is_at o j then none else lookup j between))
      × (is_at o j ≡ false → lookup j after ≡ lookup j before)
unfolding start_if stop_if stop
start_if-done env none o' before after between j h = (ground arith, λ ne. ground arith)
start_if-done env (some srv) o' before after between j h = elim (start-Attempt env srv before) [
  | failed e res others gone same ↦ absurd (ground arith)
  | listening_now o res tls here others ↦
      (ground (arith, lookup-remove srv.listen j between), λ ne. ground (arith, others j ne))
]

-- After `OnStartup` without an error and `OnShutdown`, no server of the plugin listens, every other
-- listener is as it was before, and the store is told to stop.
pub on_shutdown-on_startup :
    (env : Env) (p p' : Plugin) (before after : Listeners)
    → on_startup env p before ≡ (none, (p', after))
    → ((on_shutdown p' after).0.state.store.stopped ≡ true)
      × ((j : Text)
          → lookup j (on_shutdown p' after).1
            ≡ (if is_at p.api j || is_at p.grpc j then none else lookup j before))
unfolding on_startup on_shutdown
on_shutdown-on_startup env p p' before after h =
    let (o1, after_api) = (start_if env p.api before).1 in
    elim (Option-cases (start_if env p.api before).0) [
      | inr (e, bad) ↦ absurd (ground arith)
      | inl api_runs ↦
          let first : start_if env p.api before ≡ (none, (o1, after_api)) = ground arith in
          let second : start_if env p.grpc after_api ≡ (none, (p'.grpc, after)) = ground arith in
          (
            refl,
            λ j. ground (
              arith,
              start_if-done env p.api o1 before after_api after j first,
              start_if-done env p.grpc p'.grpc after_api after (stop_if o1 after) j second,
            ),
          )
    ]

-- The options of the set-up, which are left out at their defaults, configure the store as if all
-- were passed.
pub new_store-store_opts :
    ⦃u : Unicode⦄ (json : Json) (read_ok : Bool) (os : Os) (disk : Disk) (gauge : Gauge)
    (cfg : Config)
    → new_store json cfg.datafile cfg.reload (store_opts cfg) read_ok os disk gauge
      ≡ new_store json cfg.datafile cfg.reload
          (with_max_records cfg.max_records ∷ with_sync_policy cfg.sync_policy ∷ [])
          read_ok
          os
          disk
          gauge
unfolding store_opts new_store with_options with_max_records with_sync_policy
new_store-store_opts json read_ok os disk gauge cfg = ground arith
