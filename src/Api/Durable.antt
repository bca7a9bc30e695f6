-- ===== src/Api/Durable.antt =====
-- What was stored through the API survives a restart.
use coredns_updater_plugin.Base.{
  ℕ, ◌≡◌, ◌≤◌, ◌<◌, ◌+◌, ◌^◌, refl, sym, ◌∙◌, subst, ap, true, none, some, [], ◌∷◌, arith, ok, err,
}
use coredns_updater_plugin.Text.{Unicode}
use coredns_updater_plugin.Record.{Record, Dns, validate}
use coredns_updater_plugin.Store.{Store, Snapshot, Outcome, collect, get_all}
use coredns_updater_plugin.Store.Mutation.{Mutation, upsert, apply}
use coredns_updater_plugin.Store.Invariant.{IsWellFormed}
use coredns_updater_plugin.Persist.{
  Json, Os, State, Status, persist_snapshot, new_store, with_max_records, with_sync_policy,
}
use coredns_updater_plugin.Persist.Atomic.{IsFreshTemp}
use coredns_updater_plugin.Persist.Restart.{ReadsBack, restart-get_all}
use coredns_updater_plugin.Dns.Answer.{IsAmong, get_all-upsert}
use coredns_updater_plugin.Api.{
  Response, status_created, mutate_and_persist, then_write, handle_create, store_record,
  store_valid,
}
use coredns_updater_plugin.Api.Effects.{records-persist_snapshot, respond-success}

module _ ⦃u : Unicode⦄ (json : Json) where
  then_write-run :
      (os : Os) (w w' : State) (o : Outcome)
      → then_write json os w o ≡ (ok tt, w')
      → (snap : Snapshot) × (s' : Store) × (o ≡ (ok snap, s'))
        × (persist_snapshot json os snap (record w { store = s' }) ≡ (ok tt, w'))
  unfolding then_write
  then_write-run os w w' (err e, s) h = cc
  then_write-run os w w' (ok snap, s) h = (snap, s, refl, h)

  -- A mutation that returned no error was written.
  pub mutate_and_persist-run :
      (os : Os) (m : Mutation) (w w' : State)
      → mutate_and_persist json os m w ≡ (ok tt, w')
      → (snap : Snapshot) × (s' : Store) × (apply m w.store ≡ (ok snap, s'))
        × (persist_snapshot json os snap (record w { store = s' }) ≡ (ok tt, w'))
  unfolding mutate_and_persist
  mutate_and_persist-run os m w w' h = then_write-run os w w' (apply m w.store) h

  -- A `POST` of a record that is valid is answered with 201. The store was well formed, its
  -- generation has not wrapped, the temporary file had a new name, and the coding of the records
  -- reads back. Then opening the file again, with whatever options, gives a store that is ready and
  -- that has the validated record among those of its name.
  pub created_survives :
      (dns : Dns) (os os' : Os) (r r' : Record) (w w' : State) (resp : Response)
      (reload limit policy : ℕ)
      → validate dns r ≡ (r', none)
      → handle_create json dns os (some r) w ≡ (resp, w')
      → resp.status ≡ status_created
      → IsWellFormed w.store.records
      → w.store.persisted ≤ w.store.generation
      → w.store.generation + 1 < 2 ^ 64
      → IsFreshTemp os w.store.file_path w.disk
      → ReadsBack json (collect w'.store.records)
      → (again : State) × (new_store json w.store.file_path reload
            (with_max_records limit ∷ with_sync_policy policy ∷ [])
            true
            os'
            w'.disk
            w.gauge
          ≡ ok again)
        × (again.store.ready ≡ true)
        × IsAmong r' (get_all r'.name again.store)
  unfolding handle_create store_record store_valid
  created_survives dns os os' r r' w w' resp reload limit policy valid h created wf le small fresh
        back =
      let answered = subst (λ v. store_valid json dns status_created os v w ≡ (resp, w')) valid h in
      let (done, same) = respond-success json _ resp _ w' answered (omega arith) in
      let (snap, s', applied, run) = mutate_and_persist-run os (upsert r') w w' done in
      let kept =
        sym (ap (λ (x : Status × State). x.1.store.records) run)
        ∙ records-persist_snapshot json os snap (record w { store = s' }) in
      let (again, opened, ready, held) =
        restart-get_all json (upsert r') w.store s' snap os w.disk w.gauge w' reload limit policy
          os' wf le small applied fresh run (subst (λ m. ReadsBack json (collect m)) kept back) in
      let stored = get_all-upsert r' w.store s' snap (unfold apply in applied) in
      (again, opened, ready, subst (IsAmong r') (sym (held r'.name)) stored)
