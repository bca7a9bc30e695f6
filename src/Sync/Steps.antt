-- ===== src/Sync/Steps.antt =====
-- Each kind of step keeps the system consistent.
use coredns_updater_plugin.Base.{
  ℕ, ◌+◌, ◌≤◌, ◌<◌, ◌≡◌, refl, sym, ap, subst, ◌∙◌, true, false, none, some, List, [], ◌∷◌, ◌++◌,
  arith, ok, All-append, ◌^◌,
}
use coredns_updater_plugin.Text.{Text, Unicode}
use coredns_updater_plugin.Assoc.{lookup}
use coredns_updater_plugin.Record.{Record}
use coredns_updater_plugin.Store.{Store, Snapshot, Outcome, next_generation, stop_store}
use coredns_updater_plugin.Store.Mutation.{Mutation, apply}
use coredns_updater_plugin.Store.Outcomes.{apply-IsCommit}
use coredns_updater_plugin.Store.Invariant.{IsWellFormed, apply-IsWellFormed}
use coredns_updater_plugin.Persist.{
  Json, File, Disk, Os, finish, record_gauge, stat, is_stale, write_file,
}
use coredns_updater_plugin.Persist.Atomic.{IsFreshTemp, write_file-at_path}
use coredns_updater_plugin.Persist.Grouping.{bucket-group-collect}
use coredns_updater_plugin.Persist.Restart.{ReadsBack}
use coredns_updater_plugin.Sync.{System, Reload, idle, probed, seen, dated, loaded, ended}
use coredns_updater_plugin.Sync.Consistent.{Waits, SawPast, IsConsistent, handled, All-map}

module _ ⦃u : Unicode⦄ (json : Json) where
  module _ (y : System) (c : IsConsistent json y) where
    pub mutate-IsConsistent :
        (m : Mutation) (snap : Snapshot) (s' : Store)
        → apply m y.store ≡ (ok snap, s')
        → y.store.generation + 1 < 2 ^ 64
        → IsConsistent json
            (record y { state = record y.state { store = s' }; pending = y.pending ++ snap ∷ [] })
    unfolding next_generation
    mutate-IsConsistent m snap s' e small =
        let k = apply-IsCommit m y.store s' snap e in
        let grown : s'.generation ≡ y.store.generation + 1 = omega (arith, k.counted) in
        let same : s'.persisted ≡ y.store.persisted = ap (λ (x : Store). x.persisted) k.kept in
        let ordered = c.ordered in
        record {
          wf =
              subst (λ (x : Store). IsWellFormed x.records) (ap (λ (o : Outcome). o.1) e)
                (apply-IsWellFormed m y.store c.wf);
          ordered = omega arith;
          waiting =
              All-append (Waits json s') y.pending (snap ∷ [])
                (All-map json (Waits json y.store) (Waits json s') y.pending
                  (λ p w. (w.0, omega (arith, w.1), λ lt eq. absurd (omega (arith, w.1))))
                  c.waiting)
                (rw k.taken (omega arith, omega arith, λ lt eq. refl), tt);
          file = c.file;
          there =
              subst (λ q. lookup q y.disk ≡ some c.file)
                (sym (ap (λ (x : Store). x.file_path) k.kept)) c.there;
          settled = λ free. (
            omega (arith, (c.settled free).0, ap (λ (x : Store). x.last_mod) k.kept),
            λ eq. absurd (omega arith),
          );
          busy = λ gen b.
              let (lt, le, _) = c.busy gen b in
              (omega arith, omega arith, λ eq. absurd (omega arith));
          past = c.past;
        }

    -- A snapshot that is dropped, with the file as it is.
    pub drop-IsConsistent :
        (before after : List Snapshot) (p : Snapshot) (disk' : Disk)
        → y.pending ≡ before ++ p ∷ after
        → lookup y.store.file_path disk' ≡ lookup y.store.file_path y.disk
        → IsConsistent json
            (record y { state = record y.state { disk = disk' }; pending = before ++ after })
    drop-IsConsistent before after p disk' at kept = record {
      wf = c.wf;
      ordered = c.ordered;
      waiting = (handled json y before after p c at).0;
      file = c.file;
      there = kept ∙ c.there;
      settled = c.settled;
      busy = c.busy;
      past = c.past;
    }

    SawPast-later :
        (r : Reload) (f g : File) → f.mtime ≤ g.mtime → SawPast json r f → SawPast json r g
    SawPast-later idle f g le h = tt
    SawPast-later probed f g le h = tt
    SawPast-later ended f g le h = tt
    SawPast-later (seen m) f g le h = tt
    SawPast-later (dated m) f g le h = omega arith
    SawPast-later (loaded m raw) f g le h = omega arith

    pub write-IsConsistent :
        (before after : List Snapshot) (all : List Record) (gen : ℕ) (os : Os) (raw : Text)
        (disk' : Disk)
        → y.pending ≡ before ++ (all, gen) ∷ after
        → is_stale gen y.store ≡ false
        → json.encode all ≡ some raw
        → write_file os y.store.file_path raw y.disk ≡ (ok tt, disk')
        → IsFreshTemp os y.store.file_path y.disk
        → c.file.mtime ≤ os.now
        → ReadsBack json all
        → IsConsistent json (record y {
          state = record y.state { disk = disk' };
          pending = before ++ after;
          writing = some gen;
        })
    unfolding is_stale
    write-IsConsistent before after all gen os raw disk' at new coded done fresh clock back =
        let (rest, (pos, le, latest)) = handled json y before after (all, gen) c at in
        let newer : y.store.persisted < gen = ground arith in
        let f : File = record { content = raw; mtime = os.now } in
        record {
          wf = c.wf;
          ordered = c.ordered;
          waiting = rest;
          file = f;
          there = write_file-at_path os y.store.file_path raw y.disk disk' fresh done;
          settled = λ free. cc;
          busy = λ g b.
              let same : gen ≡ g = cc in
              (
                omega arith,
                omega arith,
                λ eq. (
                  all,
                  back raw coded,
                  λ key.
                      rw (latest newer (same ∙ eq)) (bucket-group-collect key y.store.records c.wf),
                ),
              );
          past = SawPast-later y.reload c.file f clock c.past;
        }

    pub settle-IsConsistent :
        (gen : ℕ)
        → y.writing ≡ some gen
        → IsConsistent json (record y {
          state = record y.state {
            store = finish true gen y.disk y.store;
            gauge = record_gauge y.store.records [];
          };
          writing = none;
        })
    unfolding finish stat
    settle-IsConsistent gen b =
        let (lt, le, latest) = c.busy gen b in
        let noted : (finish true gen y.disk y.store).last_mod ≡ c.file.mtime =
          ground (arith, c.there) in
        record {
          wf = c.wf;
          ordered = le;
          waiting =
              All-map json (Waits json y.store) (Waits json (finish true gen y.disk y.store))
                y.pending (λ p w. (w.0, w.1, λ newer eq. w.2 (omega arith) eq)) c.waiting;
          file = c.file;
          there = c.there;
          settled = λ free. (omega arith, latest);
          busy = λ g e. cc;
          past = c.past;
        }

    pub date-IsConsistent :
        (mtime : ℕ)
        → stat true y.store.file_path y.disk ≡ some mtime
        → IsConsistent json (record y { reload = dated mtime })
    unfolding stat
    date-IsConsistent mtime e =
        let same : c.file.mtime ≡ mtime = ground (arith, c.there) in
        record {
          wf = c.wf;
          ordered = c.ordered;
          waiting = c.waiting;
          file = c.file;
          there = c.there;
          settled = c.settled;
          busy = c.busy;
          past = omega arith;
        }

    -- A step of the reload goroutine that leaves the store and the disk.
    pub reload-IsConsistent :
        (r : Reload) → SawPast json r c.file → IsConsistent json (record y { reload = r })
    reload-IsConsistent r past = record {
      wf = c.wf;
      ordered = c.ordered;
      waiting = c.waiting;
      file = c.file;
      there = c.there;
      settled = c.settled;
      busy = c.busy;
      past = past;
    }

    pub stop-IsConsistent :
        IsConsistent json (record y { state = record y.state { store = stop_store y.store } })
    unfolding stop_store
    stop-IsConsistent = record {
      wf = c.wf;
      ordered = c.ordered;
      waiting = c.waiting;
      file = c.file;
      there = c.there;
      settled = c.settled;
      busy = c.busy;
      past = c.past;
    }
