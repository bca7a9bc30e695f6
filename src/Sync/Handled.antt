-- ===== src/Sync/Handled.antt =====
-- A method of the store that mutates and writes, as a run of the steps.
use coredns_updater_plugin.Base.{
  ℕ, ◌+◌, ◌^◌, ◌≤◌, ◌<◌, ◌≡◌, refl, sym, ◌∙◌, subst, ap, inl, inr, true, none, some, List, [], ◌∷◌,
  ok, arith, Bool-cases, Option-cases, Result-cases,
}
use coredns_updater_plugin.Text.{Unicode}
use coredns_updater_plugin.Assoc.{lookup}
use coredns_updater_plugin.Record.{Record}
use coredns_updater_plugin.Store.{Store, Snapshot, collect}
use coredns_updater_plugin.Store.Mutation.{Mutation, apply}
use coredns_updater_plugin.Store.Outcomes.{apply-IsCommit, apply-err}
use coredns_updater_plugin.Persist.{
  Json, File, Os, State, is_stale, write_file, persist_snapshot, finish, record_gauge,
}
use coredns_updater_plugin.Persist.Atomic.{IsFreshTemp, write_file-kept}
use coredns_updater_plugin.Persist.Restart.{ReadsBack}
use coredns_updater_plugin.Sync.{System, Reload, mutate, skip, fail, write, settle}
use coredns_updater_plugin.Sync.Consistent.{QuietRun, then_step}
use coredns_updater_plugin.Api.{mutate_and_persist}
use coredns_updater_plugin.Api.Effects.{records-persist_snapshot}
use coredns_updater_plugin.Api.Touched.{Touched, untouched, mutated}

-- Nothing waits and nothing is being written.
abbrev pub at_rest : Reload → State → System
at_rest r w = record { state = w; pending = []; writing = none; reload = r }

-- What is asked of the operating system: a new name for the temporary file, a clock that does not
-- go back, and an `os.Stat` that succeeds. Any other call may fail.
pub record IsFair (os : Os) (w : State) : Type 0 where
  pub fresh : IsFreshTemp os w.store.file_path w.disk
  pub clock : (f : File) → lookup w.store.file_path w.disk ≡ some f → f.mtime ≤ os.now
  pub stats : os.stat_ok ≡ true

module _ ⦃u : Unicode⦄ (json : Json) (r : Reload) (os : Os) where
  -- The snapshot of a mutation that was just made.
  persist-QuietRun :
      (x : System) (all : List Record) (gen : ℕ) (w : State)
      → QuietRun json x (record (at_rest r w) { pending = (all, gen) ∷ [] })
      → IsFair os w
      → ReadsBack json all
      → QuietRun json x (at_rest r (persist_snapshot json os (all, gen) w).1)
  unfolding persist_snapshot
  persist-QuietRun x all gen w run fair back =
      let result = (persist_snapshot json os (all, gen) w).1 in
      let arrives : (w' : State)
          → result ≡ w'
          → QuietRun json x (at_rest r w')
          → QuietRun json x (at_rest r result) =
        λ w' e there. subst (λ v. QuietRun json x (at_rest r v)) (sym e) there in
      elim (Bool-cases (is_stale gen w.store)) [
        | inl old ↦ arrives w (ground arith) (then_step run (skip [] [] all gen refl refl old) tt)
        | inr new ↦ elim (Option-cases (json.encode all)) [
          | inl uncoded ↦
              arrives w (ground arith) (then_step run (fail [] [] all gen w.disk refl refl refl) tt)
          | inr (raw, coded) ↦
              let o = write_file os w.store.file_path raw w.disk in
              elim (Result-cases o.0) [
                | inl (e, bad) ↦
                    arrives (record w { disk = o.1 }) (ground arith)
                      (then_step run
                        (fail [] [] all gen o.1 refl refl (
                          write_file-kept os w.store.file_path raw w.disk o.1 e fair.fresh
                            (ground arith)))
                        tt)
                | inr (done, good) ↦
                    arrives
                      (record {
                        store = finish true gen o.1 w.store;
                        disk = o.1;
                        gauge = record_gauge w.store.records [];
                      })
                      (ground (arith, fair.stats))
                      (then_step
                        (then_step run
                          (write [] [] all gen os raw o.1 refl refl new coded (ground arith))
                          (fair.fresh, fair.clock, back))
                        (settle gen true refl) refl)
              ]
        ]
      ]

  pub mutate_and_persist-QuietRun :
      (x : System) (m : Mutation) (w : State)
      → QuietRun json x (at_rest r w)
      → IsFair os w
      → w.store.generation + 1 < 2 ^ 64
      → ReadsBack json (collect (mutate_and_persist json os m w).1.store.records)
      → QuietRun json x (at_rest r (mutate_and_persist json os m w).1)
  unfolding mutate_and_persist
  mutate_and_persist-QuietRun x m w run fair small back =
      let result = (mutate_and_persist json os m w).1 in
      let o = apply m w.store in
      let arrives : (w' : State)
          → result ≡ w'
          → QuietRun json x (at_rest r w')
          → QuietRun json x (at_rest r result) =
        λ w' e there. subst (λ v. QuietRun json x (at_rest r v)) (sym e) there in
      elim (Result-cases o.0) [
        | inl (e, bad) ↦
            let same : o.1 ≡ w.store = apply-err m w.store o.1 e (ground arith) in
            arrives w (ground arith) run
        | inr (snap, good) ↦
            let w1 : State = record w { store = o.1 } in
            let applied : apply m w.store ≡ (ok snap, o.1) = ground arith in
            let path : o.1.file_path ≡ w.store.file_path =
              ap (λ (s : Store). s.file_path) (apply-IsCommit m w.store o.1 snap applied).kept in
            let fair1 : IsFair os w1 = record {
              fresh = subst (λ p. IsFreshTemp os p w.disk) (sym path) fair.fresh;
              clock = λ f e. fair.clock f (subst (λ p. lookup p w.disk ≡ some f) path e);
              stats = fair.stats;
            } in
            let done : result ≡ (persist_snapshot json os snap w1).1 = ground arith in
            let kept : result.store.records ≡ o.1.records =
              ap (λ (v : State). v.store.records) done ∙ records-persist_snapshot json os snap w1 in
            let taken : collect result.store.records ≡ snap.0 =
              ap collect kept
              ∙ sym
                  (ap (λ (p : Snapshot). p.0) (apply-IsCommit m w.store o.1 snap applied).taken) in
            arrives (persist_snapshot json os snap w1).1 done (
              persist-QuietRun x snap.0 snap.1 w1
                (then_step run (mutate m snap o.1 applied small) tt) fair1
                (subst (ReadsBack json) taken back))
      ]

  -- A handler that does at most one mutation.
  pub Touched-QuietRun :
      (x : System) (w w' : State)
      → Touched json os w w'
      → QuietRun json x (at_rest r w)
      → IsFair os w
      → w.store.generation + 1 < 2 ^ 64
      → ReadsBack json (collect w'.store.records)
      → QuietRun json x (at_rest r w')
  Touched-QuietRun x w w' untouched run fair small back = run
  Touched-QuietRun x w w' (mutated m) run fair small back =
      mutate_and_persist-QuietRun x m w run fair small back
