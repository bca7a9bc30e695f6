-- ===== src/Persist/Restart.antt =====
-- A restart after a mutation that was written serves the records of the store before it.
use coredns_updater_plugin.Base.{
  ℕ, ◌+◌, ◌^◌, ◌≤◌, ◌<◌, ◌≡◌, refl, sym, subst, ap, true, false, some, List, [], ◌∷◌, arith, ok,
}
use mathlib.Core.Option
use coredns_updater_plugin.Text.{Text, Unicode, to_lower}
use coredns_updater_plugin.Assoc.{lookup}
use coredns_updater_plugin.Record.{Record}
use coredns_updater_plugin.Store.{Store, Outcome, next_generation, Snapshot, collect, get_all}
use coredns_updater_plugin.Store.Mutation.{Mutation, apply}
use coredns_updater_plugin.Store.Outcomes.{apply-IsCommit}
use coredns_updater_plugin.Store.Invariant.{IsWellFormed, apply-IsWellFormed}
use coredns_updater_plugin.Persist.{
  stat, Json, Os, Disk, Gauge, State, group, persist_snapshot, load_or_create, new_store,
  with_max_records, with_sync_policy, load_from_bytes,
}
use coredns_updater_plugin.Persist.Atomic.{IsFreshTemp, stale, failed, stored, persist_snapshot-Run}
use coredns_updater_plugin.Persist.Grouping.{bucket-group-collect}

-- Reading back what was coded gives the records: so `encoding/json` documents for text in UTF-8.
abbrev pub ReadsBack : Json → List Record → Type 0
ReadsBack json recs = (raw : Text) → json.encode recs ≡ some raw → json.decode raw ≡ some recs

module _ ⦃u : Unicode⦄ (json : Json) where
  -- A store opened on a file that decodes to `recs` holds their buckets, and is ready.
  pub new_store-lem :
      (path : Text) (reload limit policy : ℕ) (os : Os) (disk : Disk) (gauge : Gauge)
      (recs : List Record) (raw : Text) (mtime : ℕ)
      → lookup path disk ≡ some (record { content = raw; mtime = mtime })
      → json.decode raw ≡ some recs
      → (w : State) × (new_store json path reload
            (with_max_records limit ∷ with_sync_policy policy ∷ [])
            true
            os
            disk
            gauge
          ≡ ok w)
        × (w.store.records ≡ group recs [])
        × (w.store.ready ≡ true)
  unfolding new_store load_or_create load_from_bytes with_max_records with_sync_policy stat
  new_store-lem path reload limit policy os disk gauge recs raw mtime there decoded = (
    record {
      store = record {
        records = group recs [];
        file_path = path;
        reload = reload;
        last_mod = Option.get_or (stat os.stat_ok path disk) 0;
        stopped = false;
        ready = true;
        max_records = limit;
        sync_policy = policy;
        generation = 0;
        persisted = 0;
      };
      disk = disk;
      gauge = gauge;
    },
    ground arith,
    refl,
    refl,
  )

  -- A run that is not stale and returns no error has put the coded snapshot into the file.
  persisted-content :
      (os : Os) (all : List Record) (gen : ℕ) (w w' : State)
      → w.store.persisted < gen
      → IsFreshTemp os w.store.file_path w.disk
      → persist_snapshot json os (all, gen) w ≡ (ok tt, w')
      → (raw : Text) × (json.encode all ≡ some raw)
        × (lookup w.store.file_path w'.disk ≡ some (record { content = raw; mtime = os.now }))
  persisted-content os all gen w w' new fresh run =
      elim (persist_snapshot-Run json os all gen w fresh) [
        | stale pos old e ↦ absurd (omega arith)
        | failed e disk kept all_kept o ↦ cc
        | stored raw disk coded there others o ↦ (raw, coded, ground arith)
      ]

  -- After a mutation that succeeded and whose snapshot was written without an error, opening the
  -- file gives a store that is ready and that has for every name the records, in their order, that
  -- the store had before. The store was well formed and its generation has not wrapped; the coding
  -- of the records reads back.
  pub restart-get_all :
      (m : Mutation) (s s' : Store) (snap : Snapshot) (os : Os) (disk : Disk) (gauge : Gauge)
      (w : State) (reload limit policy : ℕ) (os' : Os)
      → IsWellFormed s.records
      → s.persisted ≤ s.generation
      → s.generation + 1 < 2 ^ 64
      → apply m s ≡ (ok snap, s')
      → IsFreshTemp os s.file_path disk
      → persist_snapshot json os snap (record { store = s'; disk = disk; gauge = gauge })
        ≡ (ok tt, w)
      → ReadsBack json (collect s'.records)
      → (w' : State) × (new_store json s.file_path reload
            (with_max_records limit ∷ with_sync_policy policy ∷ [])
            true
            os'
            w.disk
            gauge
          ≡ ok w')
        × (w'.store.ready ≡ true)
        × ((name : Text) → get_all name w'.store ≡ get_all name s')
  unfolding get_all
  restart-get_all m s s' snap os disk gauge w reload limit policy os' wf le small done fresh run
        back =
      let c = apply-IsCommit m s s' snap done in
      let wf' : IsWellFormed s'.records =
        subst (λ (x : Store). IsWellFormed x.records) (ap (λ (o : Outcome). o.1) done)
          (apply-IsWellFormed m s wf) in
      let w0 : State = record { store = s'; disk = disk; gauge = gauge } in
      let path : s'.file_path ≡ s.file_path = ap (λ (x : Store). x.file_path) c.kept in
      let (raw, coded, there) =
        persisted-content os (collect s'.records) s'.generation w0 w
          (unfold next_generation in
            omega (arith, c.counted, ap (λ (x : Store). x.persisted) c.kept))
          (subst (λ p. IsFreshTemp os p disk) (sym path) fresh)
          (subst (λ sn. persist_snapshot json os sn w0 ≡ (ok tt, w)) c.taken run) in
      let (w', opened, filed, ready) =
        new_store-lem s.file_path reload limit policy os' w.disk gauge (collect s'.records) raw
          os.now (rw path at there) (back raw coded) in
      (w', opened, ready, λ name. rw filed (bucket-group-collect (to_lower name) s'.records wf'))
