-- ===== src/Servers/Settings.antt =====
-- What the set-up makes of a configuration: the store keeps its settings, whatever is loaded or
-- written.
use coredns_updater_plugin.Base.{
  ◌≡◌, refl, inl, inr, Bool, true, false, some, [], arith, subst, sym, ok, Option-cases,
  Result-cases,
}
use coredns_updater_plugin.Text.{Unicode}
use coredns_updater_plugin.Assoc.{lookup}
use coredns_updater_plugin.Store.{Store, Snapshot}
use coredns_updater_plugin.Persist.{
  Json, Os, Disk, Gauge, State, persist_snapshot, finish, load_from_bytes, load_or_create,
  new_store, with_max_records, with_sync_policy, with_options,
}
use coredns_updater_plugin.Setup.{Config}
use coredns_updater_plugin.Servers.{Plugin, store_opts, api_server, grpc_server, setup, ready}
use coredns_updater_plugin.Servers.Lifecycle.{new_store-store_opts}

-- The settings of a store, which loading and writing leave alone.
pub record HasSettings (cfg : Config) (s : Store) : Type 0 where
  pub datafile : s.file_path ≡ cfg.datafile
  pub reload : s.reload ≡ cfg.reload
  pub limit : s.max_records ≡ cfg.max_records
  pub policy : s.sync_policy ≡ cfg.sync_policy

module _ ⦃u : Unicode⦄ (json : Json) where
  persist_snapshot-HasSettings :
      (cfg : Config) (os : Os) (snap : Snapshot) (w : State)
      → HasSettings cfg w.store
      → HasSettings cfg (persist_snapshot json os snap w).1.store
  unfolding persist_snapshot finish
  persist_snapshot-HasSettings cfg os snap w h = ground arith

  load_or_create-HasSettings :
      (cfg : Config) (read_ok : Bool) (os : Os) (w : State)
      → HasSettings cfg w.store
      → HasSettings cfg (load_or_create json read_ok os w).1.store
  unfolding load_or_create load_from_bytes
  load_or_create-HasSettings cfg read_ok os w h =
      elim (Option-cases (lookup w.store.file_path w.disk)) [
        | inl missing ↦
            let emptied : State = record w { store = record w.store { records = [] } } in
            let kept : HasSettings cfg emptied.store = record {
              datafile = h.datafile;
              reload = h.reload;
              limit = h.limit;
              policy = h.policy;
            } in
            ground (arith, persist_snapshot-HasSettings cfg os ([], 0) emptied kept)
        | inr (f, there) ↦ ground arith
      ]

  new_store-HasSettings :
      (cfg : Config) (read_ok : Bool) (os : Os) (disk : Disk) (gauge : Gauge) (w : State)
      → new_store json cfg.datafile cfg.reload (store_opts cfg) read_ok os disk gauge ≡ ok w
      → HasSettings cfg w.store × (w.store.ready ≡ true)
  unfolding new_store with_options with_max_records with_sync_policy
  new_store-HasSettings cfg read_ok os disk gauge w h =
      let begin : State = record {
        store = record {
          records = [];
          file_path = cfg.datafile;
          reload = cfg.reload;
          last_mod = 0;
          stopped = false;
          ready = false;
          max_records = cfg.max_records;
          sync_policy = cfg.sync_policy;
          generation = 0;
          persisted = 0;
        };
        disk = disk;
        gauge = gauge;
      } in
      ground (
        arith,
        new_store-store_opts json read_ok os disk gauge cfg,
        load_or_create-HasSettings cfg read_ok os begin
            (record { datafile = refl; reload = refl; limit = refl; policy = refl }),
      )

  -- What the set-up makes of a configuration.
  pub setup-HasSettings :
      (cfg : Config) (read_ok : Bool) (os : Os) (disk : Disk) (gauge : Gauge) (p : Plugin)
      → setup json read_ok os disk gauge cfg ≡ ok p
      → HasSettings cfg p.state.store
        × (ready (some p.state.store) ≡ true)
        × (p.api ≡ api_server cfg)
        × (p.grpc ≡ grpc_server cfg)
  unfolding setup ready
  setup-HasSettings cfg read_ok os disk gauge p h =
      elim (Result-cases
        (new_store json cfg.datafile cfg.reload (store_opts cfg) read_ok os disk gauge)) [
          | inl (e, bad) ↦ absurd (ground arith)
          | inr (w, opened) ↦
              let (settings, is_ready) = new_store-HasSettings cfg read_ok os disk gauge w opened in
              let same : p.state ≡ w = ground arith in
              (
                subst (λ (x : State). HasSettings cfg x.store) (sym same) settings,
                ground arith,
                ground arith,
                ground arith,
              )
        ]
